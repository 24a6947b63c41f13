-- ===== src/Version/History/Tests.antt =====
-- Walks over a small history: a root, a commit on it, and a merge of both.
use jiaozifs.Prelude.{
  now, err, ℕ, ◌≡◌, ◌↔◌, ◌⊎◌, Bool, true, false, contains, refl, arith, List, [], ◌∷◌, some, ok,
  Text, codes,
}
use jiaozifs.Version.History.{Commit, CommitRepo, is_reachable, find_commit, for_each, In}
use jiaozifs.Version.History.Walker.{skipped, IsComplete, Stored}
use jiaozifs.Version.History.Visits.{
  visit, Visited, root, step, From, IsDistinct, IsComplete-of_All,
}
use jiaozifs.Version.History.Bfs.{bfs_next, new_bfs, bfs_walk_total}
use jiaozifs.Version.History.Preorder.Total.{preorder_walk_total}
use jiaozifs.Version.History.Preorder.{preorder_next, new_preorder}
use jiaozifs.Version.History.Ancestor.{
  is_ancestor, ancestors_index, is_ancestor_total, ancestors_index_total,
}
use jiaozifs.Version.History.MergeBase.{remove_duplicated, sort_by_commit_date_desc, merge_base}
use jiaozifs.Version.History.Bases.{remove_duplicated_iff, merge_base_reachable}
use jiaozifs.Version.History.Postorder.{postorder_next, new_postorder, postorder_walk_total}

abbrev commit : Text → List Text → ℕ → Commit
commit h parents time = record { hash = h; tree_hash = []; parent_hashes = parents; when = time }

abbrev first : Commit
first = commit (codes "a") [] 1

abbrev second : Commit
second = commit (codes "b") (codes "a" ∷ []) 2

abbrev merged : Commit
merged = commit (codes "c") (codes "b" ∷ codes "a" ∷ []) 3

abbrev sample_repo : CommitRepo
sample_repo = first ∷ second ∷ merged ∷ []

bfs_order :
    for_each (bfs_next sample_repo []) visit 4 [] (new_bfs merged [])
    ≡ some (ok (first ∷ second ∷ merged ∷ []))
unfolding for_each bfs_next visit new_bfs find_commit
bfs_order = refl

preorder_order :
    for_each (preorder_next sample_repo []) visit 4 [] (new_preorder merged [])
    ≡ some (ok (first ∷ second ∷ merged ∷ []))
unfolding for_each preorder_next visit new_preorder find_commit
preorder_order = refl

postorder_order :
    for_each (postorder_next sample_repo) visit 4 [] (new_postorder merged [])
    ≡ some (ok (second ∷ first ∷ merged ∷ []))
unfolding for_each postorder_next visit new_postorder find_commit
postorder_order = refl

sample_repo-IsComplete : IsComplete sample_repo
unfolding find_commit
sample_repo-IsComplete =
    IsComplete-of_All sample_repo
      (tt, (((first, refl), tt), (((second, refl), ((first, refl), tt)), tt)))

merged-Stored : Stored sample_repo merged
unfolding find_commit
merged-Stored = refl

bfs_walk_total_example :
    (us : List Commit) × (for_each
        (bfs_next sample_repo [])
        visit
        4
        []
        (new_bfs merged (codes "a" ∷ []))
      ≡ some (ok us))
    × ((c : Commit) → In c us ↔ From sample_repo [] (codes "a" ∷ []) merged c)
    × IsDistinct us
bfs_walk_total_example =
    bfs_walk_total sample_repo [] (codes "a" ∷ []) merged 4 sample_repo-IsComplete merged-Stored
      (omega arith)

preorder_walk_total_example :
    (us : List Commit) × (for_each
        (preorder_next sample_repo [])
        visit
        4
        []
        (new_preorder merged [])
      ≡ some (ok us))
    × ((c : Commit) → In c us ↔ From sample_repo [] [] merged c)
    × IsDistinct us
preorder_walk_total_example =
    preorder_walk_total sample_repo [] [] merged 4 sample_repo-IsComplete merged-Stored
      (omega arith)

postorder_walk_total_example :
    (us : List Commit) × (for_each (postorder_next sample_repo) visit 4 [] (new_postorder merged [])
      ≡ some (ok us))
    × ((c : Commit) → In c us ↔ From sample_repo [] [] merged c)
    × IsDistinct us
postorder_walk_total_example =
    postorder_walk_total sample_repo [] merged 4 sample_repo-IsComplete merged-Stored (omega arith)

first-Stored : Stored sample_repo first
unfolding find_commit
first-Stored = refl

second-Stored : Stored sample_repo second
unfolding find_commit
second-Stored = refl

first_below_merged : is_ancestor 4 sample_repo first merged ≡ some (ok true)
unfolding is_ancestor find_commit
first_below_merged = refl

merged_not_below_second : is_ancestor 4 sample_repo merged second ≡ some (ok false)
unfolding is_ancestor find_commit
merged_not_below_second = refl

is_ancestor_total_example :
    (b : Bool) × (is_ancestor 4 sample_repo merged second ≡ some (ok b))
    × ((b ≡ true) ↔ From sample_repo [] [] second merged)
is_ancestor_total_example =
    is_ancestor_total sample_repo merged second 4 sample_repo-IsComplete merged-Stored second-Stored
      (omega arith)

ancestors_index_total_example :
    (From sample_repo [] [] merged first
      × (ancestors_index 4 sample_repo first merged ≡ some (err is_reachable)))
    ⊎ ((¬ From sample_repo [] [] merged first)
        × (index : List Text) × (ancestors_index 4 sample_repo first merged ≡ some (ok index))
        × ((c : Commit)
            → Stored sample_repo c
            → (contains index c.hash ≡ true) ↔ From sample_repo [] [] merged c))
ancestors_index_total_example =
    ancestors_index_total sample_repo first merged 4 sample_repo-IsComplete first-Stored
      merged-Stored (omega arith)

-- Two commits on the root, whose merge base is the root.
abbrev left : Commit
left = commit (codes "l") (codes "a" ∷ []) 4

abbrev right : Commit
right = commit (codes "r") (codes "a" ∷ []) 5

abbrev forked_repo : CommitRepo
forked_repo = first ∷ left ∷ right ∷ []

fork_base : merge_base 4 forked_repo left right ≡ some (ok (first ∷ []))
unfolding merge_base find_commit
fork_base = refl

remove_duplicated_iff_example :
    IsDistinct (remove_duplicated [] (first ∷ sample_repo))
    × ((h : Text)
        → Visited h (remove_duplicated [] (first ∷ sample_repo)) ↔ Visited h (first ∷ sample_repo))
remove_duplicated_iff_example = remove_duplicated_iff (first ∷ sample_repo)

second-From-merged : From sample_repo [] [] merged second
unfolding skipped find_commit
second-From-merged = step (root refl) (codes "b", now refl, refl) refl

merge_base_reachable_example : merge_base 4 sample_repo second merged ≡ some (ok (second ∷ []))
unfolding sort_by_commit_date_desc
merge_base_reachable_example =
    merge_base_reachable sample_repo second merged merged second 4 sample_repo-IsComplete
      merged-Stored second-Stored refl second-From-merged (omega arith)
