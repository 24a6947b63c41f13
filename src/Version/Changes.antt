-- ===== src/Version/Changes.antt =====
-- versionmgr/changes.go and conflict.go: sets of changes with a cursor, their pairing by path, the
-- test for conflicts, and the resolvers.
pub mod Order
pub mod Cursor
pub mod Sorted
pub mod Pairs
pub mod Conflict
use Prim.Native.Nat.{Ordering}
use jiaozifs.Prelude.{
  ℕ, zero, suc, ◌-◌, ◌+◌, Bool, true, false, not, List, [], ◌∷◌, ◌++◌, Option, none, some,
}
use jiaozifs.Prelude.{
  Result, ok, err, ◌>>=◌, ltb, if◌then◌else◌, length, get_elem?, Text, codes, text_eq, text_compare,
}
use jiaozifs.Merkletrie.Noder.{NoderPath, path_last, path_string, node_hash}
use jiaozifs.Merkletrie.Change.{
  Change, Action, insert, delete, modify, Malformed, action, change_path,
}

-- `malformed` is the error of `Action`, `nil_path` the panic of `Hash` on a nil path, `conflict` is
-- `ErrConflict`, `forbidden` the error of `ForbidResolver`.
pub data ChangeError : Type 0 where
  malformed action_not_match conflict forbidden nil_path : ChangeError

-- `consumed` is the field `idx` plus one.
pub record Changes : Type 0 where
  pub changes : List Change
  pub consumed : ℕ

pub insert_change : Change → List Change → List Change
unfolding text_compare change_path
insert_change c [] = c ∷ []
insert_change c (d ∷ ds) =
    let rest = d ∷ insert_change c ds in
    elim (text_compare (change_path c) (change_path d)) [ Ordering.gt ↦ rest | _ ↦ c ∷ (d ∷ ds) ]

-- `sort.Slice` by path. The library leaves the order of equal paths open; here the earlier is first.
pub sort_changes : List Change → List Change
unfolding insert_change
sort_changes [] = []
sort_changes (c ∷ cs) = insert_change c (sort_changes cs)

unfoldable pub new_changes : List Change → Changes
unfolding sort_changes
new_changes cs = record { changes = sort_changes cs; consumed = 0 }

pub has : Changes → Bool
has c = ltb c.consumed (length c.changes)

-- `none` is `io.EOF`.
pub next : Changes → Option Change × Changes
unfolding has
next c =
    if has c
    then (get_elem? c.changes c.consumed, record c { consumed = suc c.consumed })
    else (none, c)

pub back : Changes → Changes
back c = record c { consumed = c.consumed - 1 }

pub reset : Changes → Changes
reset c = record c { consumed = 0 }

pub record ChangePair : Type 0 where
  pub left : Option Change
  pub right : Option Change
  pub is_conflict : Bool

path_of_sides : Option Change → Option Change → Text
path_of_sides (some l) right = change_path l
path_of_sides none (some r) = change_path r
path_of_sides none none = []

-- `ChangePair.Path`. A pair has a side; without one the Go function panics.
pub pair_path : ChangePair → Text
unfolding path_of_sides
pair_path p = path_of_sides p.left p.right

pub record PairIter : Type 0 where
  pub left_changes : Changes
  pub right_changes : Changes

pub left_only : Change → ChangePair
left_only c = record { left = some c; right = none; is_conflict = false }

pub right_only : Change → ChangePair
right_only c = record { left = none; right = some c; is_conflict = false }

of_action : Result Malformed Action → Result ChangeError Action
of_action (ok a) = ok a
of_action (err e) = err malformed

-- `Hash` of a path: that of its last node.
path_hash : NoderPath → Result ChangeError Text
unfolding path_last
path_hash p = elim (path_last p) [ none ↦ err nil_path | some n ↦ ok (node_hash n) ]

-- The comparison of the two new hashes.
differ : Change → Change → Result ChangeError Bool
unfolding path_hash text_eq
differ l r = do h ← path_hash l.to; k ← path_hash r.to; ok (not (text_eq h k))

-- The two nested switches of `isConflict`.
conflict_of : Action → Action → Result ChangeError Bool → Result ChangeError Bool
conflict_of insert delete d = err action_not_match
conflict_of insert modify d = err action_not_match
conflict_of insert insert d = d
conflict_of delete delete d = ok false
conflict_of delete insert d = err action_not_match
conflict_of delete modify d = ok true
conflict_of modify insert d = err action_not_match
conflict_of modify delete d = ok true
conflict_of modify modify d = d

unfoldable pub conflicts : Change → Change → Result ChangeError Bool
unfolding of_action action differ conflict_of
conflicts l r = do a ← of_action (action l); b ← of_action (action r); conflict_of a b (differ l r)

pub both_sides : Change → Change → Bool → ChangePair
both_sides l r c = record { left = some l; right = some r; is_conflict = c }

-- The last part of `Next`, on the two changes and the two cursors behind them.
pub pair_of :
    Option Change → Option Change → PairIter → Result ChangeError (Option ChangePair) × PairIter
unfolding left_only right_only both_sides back
pair_of none none it = (ok none, it)
pair_of none (some r) it = (ok (some (right_only r)), it)
pair_of (some l) none it = (ok (some (left_only l)), it)
pair_of (some l) (some r) it = elim (text_compare (change_path l) (change_path r)) [
  | Ordering.gt ↦ (ok (some (right_only r)), record it { left_changes = back it.left_changes })
  | Ordering.eq ↦ ((conflicts l r >>= λ c. ok (some (both_sides l r c))), it)
  | Ordering.lt ↦ (ok (some (left_only l)), record it { right_changes = back it.right_changes })
]

-- `ChangesPairIter.Next`; `ok none` is `io.EOF`.
pub pair_next : PairIter → Result ChangeError (Option ChangePair) × PairIter
unfolding next pair_of
pair_next it =
    let (l, left') = next it.left_changes in
    let (r, right') = next it.right_changes in
    pair_of l r (record { left_changes = left'; right_changes = right' })

pub pair_has : PairIter → Bool
unfolding has
pair_has it = if has it.left_changes then true else has it.right_changes

-- The loop `for iter.Has()` of `GetMergeState`, which keeps every pair; `none` is running out of fuel.
-- The empty result of `Next` never comes after `Has`; the Go loop would keep nil and then stop.
unfoldable pub collect_pairs : ℕ → PairIter → Option (Result ChangeError (List ChangePair))
unfolding pair_has pair_next
collect_pairs zero it = if pair_has it then none else some (ok [])
collect_pairs (suc f) it =
    let (r, it') = pair_next it in
    let more = collect_pairs f it' in
    let step : Option (Result ChangeError (List ChangePair)) = elim r [
      | err e ↦ some (err e)
      | ok none ↦ some (ok [])
      | ok (some p) ↦ elim more [ none ↦ none | some ps ↦ some (ps >>= λ qs. ok (p ∷ qs)) ]
    ] in
    if pair_has it then step else some (ok [])

-- conflict.go. A nil resolver is `none`.
abbrev pub Resolver : Type 0
Resolver = Change → Change → Result ChangeError Change

unfoldable pub one_side_resolver : Bool → Resolver
one_side_resolver use_left left right = if use_left then ok left else ok right

unfoldable pub forbid_resolver : Resolver
forbid_resolver left right = err forbidden

-- A look-up in the map of choices; an absent key reads as the empty text.
choice : List (Text × Text) → Text → Text
unfolding text_eq
choice [] path = []
choice ((p, side) ∷ msg) path = if text_eq p path then side else choice msg path

unfoldable pub resolve_from_selector : List (Text × Text) → Resolver
unfolding choice text_eq change_path
resolve_from_selector msg left right =
    if text_eq (choice msg (change_path left)) (codes "left") then ok left else ok right

least_hash : Action → Action → Change → Change → Result ChangeError Change
unfolding path_hash text_compare
least_hash delete b left right = ok right
least_hash a delete left right = ok left
least_hash a b left right = do
  h ← path_hash left.to
  k ← path_hash right.to
  elim (text_compare h k) [ Ordering.lt ↦ ok left | _ ↦ ok right ]

unfoldable pub least_hash_resolve : Resolver
unfolding of_action action least_hash
least_hash_resolve left right = do
  a ← of_action (action left)
  b ← of_action (action right)
  least_hash a b left right

resolve_conflict : Option Resolver → Change → Change → Result ChangeError Change
resolve_conflict none left right = err conflict
resolve_conflict (some resolver) left right = resolver left right

-- The choice that `ChangesMergeIter.Next` makes for a pair. A conflict has both sides.
settle_sides : Option Resolver → Option Change → Option Change → Bool → Result ChangeError Change
unfolding resolve_conflict
settle_sides resolver (some l) (some r) is_conflict =
    if is_conflict then resolve_conflict resolver l r else ok l
settle_sides resolver (some l) none is_conflict = ok l
settle_sides resolver none (some r) is_conflict = ok r
settle_sides resolver none none is_conflict = err nil_path

pub settle : Option Resolver → ChangePair → Result ChangeError Change
unfolding settle_sides
settle resolver pair = settle_sides resolver pair.left pair.right pair.is_conflict

-- `ChangesMergeIter.Next`; `ok none` is `io.EOF`.
pub merge_next : Option Resolver → PairIter → Result ChangeError (Option Change) × PairIter
unfolding pair_next settle
merge_next resolver it =
    let (r, it') = pair_next it in
    let step : Result ChangeError (Option Change) = elim r [
      | err e ↦ err e
      | ok none ↦ ok none
      | ok (some p) ↦ settle resolver p >>= λ c. ok (some c)
    ] in
    (step, it')
