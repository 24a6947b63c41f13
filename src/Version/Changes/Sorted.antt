-- ===== src/Version/Changes/Sorted.antt =====
-- `NewChanges` keeps the changes and puts their paths in order.
use Prim.Native.Nat.{Ordering}
use jiaozifs.Prelude.{
  ◌≡◌, ◌≢◌, ◌⊎◌, ◌↔◌, inl, inr, refl, arith, List, [], ◌∷◌, Any, Any-cons, text_compare,
}
use jiaozifs.Merkletrie.Change.{Change, change_path}
use jiaozifs.Version.Changes.{insert_change, sort_changes, new_changes}
use jiaozifs.Version.Changes.Order.{text_compare-gt}
use jiaozifs.Version.Changes.Cursor.{Ordering-cases}

-- The path of the first change is not after that of the second.
abbrev pub NotAfter : Change → Change → Type 0
NotAfter c d = text_compare (change_path c) (change_path d) ≢ Ordering.gt

abbrev pub IsOrdered : List Change → Type 0
IsOrdered [] = Unit
IsOrdered (c ∷ []) = Unit
IsOrdered (c ∷ d ∷ cs) = NotAfter c d × IsOrdered (d ∷ cs)

NotAfter-of_gt :
    (c d : Change) → text_compare (change_path c) (change_path d) ≡ Ordering.gt → NotAfter d c
NotAfter-of_gt c d e f = cc (text_compare-gt (change_path c) (change_path d) e)

insert_change_behind :
    (d c : Change) (cs : List Change)
    → NotAfter d c
    → IsOrdered (d ∷ cs)
    → IsOrdered (d ∷ insert_change c cs)
unfolding insert_change
insert_change_behind d c [] h o = (h, tt)
insert_change_behind d c (e ∷ es) h o =
    elim (Ordering-cases (text_compare (change_path c) (change_path e))) [
      | inl q ↦ rw (q, insert_change) (h, ((λ g. cc), o.1))
      | inr (inl q) ↦ rw (q, insert_change) (h, ((λ g. cc), o.1))
      | inr (inr q) ↦
          rw (q, insert_change) (o.0, insert_change_behind e c es (NotAfter-of_gt c e q) o.1)
    ]

insert_change-IsOrdered :
    (c : Change) (cs : List Change) → IsOrdered cs → IsOrdered (insert_change c cs)
unfolding insert_change
insert_change-IsOrdered c [] o = tt
insert_change-IsOrdered c (d ∷ ds) o =
    elim (Ordering-cases (text_compare (change_path c) (change_path d))) [
      | inl q ↦ rw (q, insert_change) ((λ g. cc), o)
      | inr (inl q) ↦ rw (q, insert_change) ((λ g. cc), o)
      | inr (inr q) ↦ rw (q, insert_change) (insert_change_behind d c ds (NotAfter-of_gt c d q) o)
    ]

insert_change_iff :
    (c x : Change) (cs : List Change)
    → Any (λ y. y ≡ x) (insert_change c cs) ↔ ((c ≡ x) ⊎ Any (λ y. y ≡ x) cs)
unfolding insert_change
insert_change_iff c x [] = Any-cons (λ y. y ≡ x) c []
insert_change_iff c x (d ∷ ds) =
    elim (Ordering-cases (text_compare (change_path c) (change_path d))) [
      | inl q ↦ rw (q, insert_change) (Any-cons (λ y. y ≡ x) c (d ∷ ds))
      | inr (inl q) ↦ rw (q, insert_change) (Any-cons (λ y. y ≡ x) c (d ∷ ds))
      | inr (inr q) ↦
          rw (q, insert_change)
            (ground (
              arith,
              insert_change_iff c x ds,
              Any-cons (λ y. y ≡ x) d ds,
              Any-cons (λ y. y ≡ x) d (insert_change c ds),
            ))
    ]

sort_changes_iff :
    (x : Change) (cs : List Change) → Any (λ y. y ≡ x) (sort_changes cs) ↔ Any (λ y. y ≡ x) cs
unfolding sort_changes
sort_changes_iff x [] = (λ a. a, λ a. a)
sort_changes_iff x (c ∷ cs) = ground (
  arith,
  insert_change_iff c x (sort_changes cs),
  sort_changes_iff x cs,
  Any-cons (λ y. y ≡ x) c cs,
)

sort_changes-IsOrdered : (cs : List Change) → IsOrdered (sort_changes cs)
unfolding sort_changes
sort_changes-IsOrdered [] = tt
sort_changes-IsOrdered (c ∷ cs) =
    insert_change-IsOrdered c (sort_changes cs) (sort_changes-IsOrdered cs)

-- The changes of `NewChanges` are those given, each path is not after the next one, and the cursor
-- stands before the first.
pub new_changes-IsOrdered :
    (cs : List Change)
    → IsOrdered (new_changes cs).changes
      × ((x : Change) → Any (λ y. y ≡ x) (new_changes cs).changes ↔ Any (λ y. y ≡ x) cs)
      × ((new_changes cs).consumed ≡ 0)
unfolding new_changes
new_changes-IsOrdered cs = (sort_changes-IsOrdered cs, λ x. sort_changes_iff x cs, refl)
