-- ===== src/Version/Tests.antt =====
-- Runs of the pairing of changes on small inputs.
use jiaozifs.Prelude.{
  Any, ◌≡◌, ◌≢◌, ◌↔◌, inl, refl, true, false, List, [], ◌∷◌, arith, none, some, ok, err, Text,
  codes,
}
use jiaozifs.Merkletrie.Noder.{noder, no_children, NoderPath}
use jiaozifs.Merkletrie.Change.{Change, change_path}
use jiaozifs.Version.Changes.{
  ChangePair, PairIter, action_not_match, conflicts, collect_pairs, new_changes, pair_path,
}
use jiaozifs.Version.Changes.Cursor.{remaining, merge_pairs, collect_pairs-eq-merge_pairs}
use jiaozifs.Version.Changes.Sorted.{IsOrdered, new_changes-IsOrdered}
use jiaozifs.Version.Changes.Pairs.{lefts, rights, IsSorted, collect_pairs-Pairs}
use jiaozifs.Version.Changes.Conflict.{SameBase, outcome, conflicts_iff}

abbrev file : Text → Text → NoderPath
file name hash = noder name hash false no_children ∷ []

abbrev added_a : Change
added_a = record { from = []; to = file (codes "a") (codes "1") }

abbrev modified_b : Change
modified_b = record { from = file (codes "b") (codes "1"); to = file (codes "b") (codes "2") }

abbrev deleted_b : Change
deleted_b = record { from = file (codes "b") (codes "1"); to = [] }

abbrev sample_iter : PairIter
unfolding new_changes
sample_iter = record {
  left_changes = new_changes (modified_b ∷ added_a ∷ []);
  right_changes = new_changes (deleted_b ∷ []);
}

abbrev sample_pairs : List ChangePair
sample_pairs =
    record { left = some added_a; right = none; is_conflict = false }
    ∷ record { left = some modified_b; right = some deleted_b; is_conflict = true }
    ∷ []

sample_collects : collect_pairs 3 sample_iter ≡ some (ok sample_pairs)
unfolding collect_pairs sample_iter conflicts
sample_collects = refl

collect_pairs-eq-merge_pairs_example :
    collect_pairs 3 sample_iter
    ≡ some (merge_pairs (remaining sample_iter.left_changes) (remaining sample_iter.right_changes))
unfolding sample_iter
collect_pairs-eq-merge_pairs_example = collect_pairs-eq-merge_pairs 3 sample_iter (omega arith)

collect_pairs-Pairs_example :
    (lefts sample_pairs ≡ remaining sample_iter.left_changes)
    × (rights sample_pairs ≡ remaining sample_iter.right_changes)
    × (IsSorted change_path (remaining sample_iter.left_changes)
        → IsSorted change_path (remaining sample_iter.right_changes)
        → IsSorted pair_path sample_pairs)
unfolding sample_iter
collect_pairs-Pairs_example =
    collect_pairs-Pairs 3 sample_iter sample_pairs (omega arith) sample_collects

conflicts_iff_example :
    ((conflicts modified_b deleted_b ≡ ok true)
      ↔ (SameBase modified_b deleted_b × (outcome modified_b ≢ outcome deleted_b)))
    × ((conflicts modified_b deleted_b ≡ ok false)
        ↔ (SameBase modified_b deleted_b × (outcome modified_b ≡ outcome deleted_b)))
    × ((conflicts modified_b deleted_b ≡ err action_not_match) ↔ (¬ SameBase modified_b deleted_b))
conflicts_iff_example = conflicts_iff modified_b deleted_b (inl (λ e. cc)) (inl (λ e. cc))

new_changes-IsOrdered_example :
    IsOrdered (new_changes (modified_b ∷ added_a ∷ [])).changes
    × ((x : Change)
        → Any (λ y. y ≡ x) (new_changes (modified_b ∷ added_a ∷ [])).changes
          ↔ Any (λ y. y ≡ x) (modified_b ∷ added_a ∷ []))
    × ((new_changes (modified_b ∷ added_a ∷ [])).consumed ≡ 0)
new_changes-IsOrdered_example = new_changes-IsOrdered (modified_b ∷ added_a ∷ [])
