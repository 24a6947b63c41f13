-- ===== src/Version/Changes/Cursor.antt =====
-- The cursors of two sets of changes walk through a merge of the two lists, ordered by path.
use Prim.Native.Nat.{Ordering}
use jiaozifs.Prelude.{ℕ, zero, suc, ◌+◌, ◌≤◌, ◌<◌, ◌≡◌, ◌⊎◌, inl, inr, refl, ap, arith, true, false}
use jiaozifs.Prelude.{
  List, [], ◌∷◌, none, some, Result, ok, err, ◌>>=◌, length, get_elem?, drop, text_compare,
}
use jiaozifs.Merkletrie.Change.{Change, change_path}
use jiaozifs.Version.Changes.{
  ChangeError, Changes, has, next, back, ChangePair, PairIter, left_only, right_only, both_sides,
  conflicts, pair_of, pair_next, pair_has, collect_pairs,
}

-- The list of pairs that two lists of changes stand for, with no cursor: the smaller path goes
-- first, equal paths go together, and the first failing test for a conflict ends the merge.
unfoldable pub merge_pairs : List Change → List Change → Result ChangeError (List ChangePair)
merge_pairs [] [] = ok []
merge_pairs [] (r ∷ rs) = merge_pairs [] rs >>= λ ps. ok (right_only r ∷ ps)
merge_pairs (l ∷ ls) [] = merge_pairs ls [] >>= λ ps. ok (left_only l ∷ ps)
merge_pairs (l ∷ ls) (r ∷ rs) = elim (text_compare (change_path l) (change_path r)) [
  | Ordering.lt ↦ merge_pairs ls (r ∷ rs) >>= λ ps. ok (left_only l ∷ ps)
  | Ordering.gt ↦ merge_pairs (l ∷ ls) rs >>= λ ps. ok (right_only r ∷ ps)
  | Ordering.eq ↦ conflicts l r >>= λ c. merge_pairs ls rs >>= λ ps. ok (both_sides l r c ∷ ps)
]

-- What a cursor has before it.
abbrev pub remaining : Changes → List Change
remaining c = drop c.consumed c.changes

drop-eq-cons {ℓ} :
    {A : Type ℓ} (n : ℕ) (l : List A) {x : A} {xs : List A}
    → drop n l ≡ x ∷ xs
    → (n < length l) × (get_elem? l n ≡ some x) × (drop (suc n) l ≡ xs)
drop-eq-cons zero [] e = cc
drop-eq-cons (suc n) [] e = cc
drop-eq-cons zero (y ∷ l) e = (omega arith, ground arith, ground arith)
drop-eq-cons (suc n) (y ∷ l) e = let (h, g, d) = drop-eq-cons n l e in (omega arith, g, d)

drop-eq-nil {ℓ} : {A : Type ℓ} (n : ℕ) (l : List A) → drop n l ≡ [] → length l ≤ n
drop-eq-nil zero [] e = omega arith
drop-eq-nil (suc n) [] e = omega arith
drop-eq-nil zero (y ∷ l) e = cc
drop-eq-nil (suc n) (y ∷ l) e = omega (arith, drop-eq-nil n l e)

abbrev step : Changes → Changes
step c = record c { consumed = suc c.consumed }

has-cons : (c : Changes) {x : Change} {xs : List Change} → remaining c ≡ x ∷ xs → has c ≡ true
unfolding has
has-cons c e = let (h, _, _) = drop-eq-cons c.consumed c.changes e in ground arith

has-nil : (c : Changes) → remaining c ≡ [] → has c ≡ false
unfolding has
has-nil c e = let h = drop-eq-nil c.consumed c.changes e in ground arith

next-cons :
    (c : Changes) {x : Change} {xs : List Change} → remaining c ≡ x ∷ xs → next c ≡ (some x, step c)
unfolding next
next-cons c e = let (_, g, _) = drop-eq-cons c.consumed c.changes e in rw (has-cons c e, g)

next-nil : (c : Changes) → remaining c ≡ [] → next c ≡ (none, c)
unfolding next
next-nil c e = rw (has-nil c e)

back-step : (c : Changes) → back (step c) ≡ c
unfolding back
back-step c = ground arith

remaining-step :
    (c : Changes) {x : Change} {xs : List Change} → remaining c ≡ x ∷ xs → remaining (step c) ≡ xs
remaining-step c e = let (_, _, d) = drop-eq-cons c.consumed c.changes e in d

pub Ordering-cases : (o : Ordering) → (o ≡ Ordering.lt) ⊎ ((o ≡ Ordering.eq) ⊎ (o ≡ Ordering.gt))
Ordering-cases Ordering.lt = inl refl
Ordering-cases Ordering.eq = inr (inl refl)
Ordering-cases Ordering.gt = inr (inr refl)

-- One round of the loop.
collect-some :
    (f : ℕ) (it it' : PairIter) (p : ChangePair) (q : Result ChangeError (List ChangePair))
    → pair_has it ≡ true
    → pair_next it ≡ (ok (some p), it')
    → collect_pairs f it' ≡ some q
    → collect_pairs (suc f) it ≡ some (q >>= λ qs. ok (p ∷ qs))
unfolding collect_pairs
collect-some f it it' p q h e r = rw (h, ap (λ x. x.0) e, ap (λ x. x.1) e, r)

collect-err :
    (f : ℕ) (it it' : PairIter) (e : ChangeError)
    → pair_has it ≡ true
    → pair_next it ≡ (err e, it')
    → collect_pairs (suc f) it ≡ some (err e)
unfolding collect_pairs
collect-err f it it' e h n = rw (h, ap (λ x. x.0) n)

collect-end : (f : ℕ) (it : PairIter) → pair_has it ≡ false → collect_pairs f it ≡ some (ok [])
unfolding collect_pairs
collect-end zero it h = rw h
collect-end (suc f) it h = rw h

-- The set that a cursor stands for, as an equation of the loop.
abbrev Collects : ℕ → PairIter → List Change → List Change → Type 0
Collects f it ls rs = collect_pairs f it ≡ some (merge_pairs ls rs)

abbrev Bounded : ℕ → List Change → List Change → Type 0
Bounded f ls rs = length ls + length rs ≤ f

Result-cases {ℓ} :
    {A : Type ℓ} (r : Result ChangeError A)
    → ((e : ChangeError) × (r ≡ err e)) ⊎ ((a : A) × (r ≡ ok a))
Result-cases (ok a) = inr (a, refl)
Result-cases (err e) = inl (e, refl)

module _ (f : ℕ)
    (ih : (it : PairIter) (ls rs : List Change)
      → remaining it.left_changes ≡ ls
      → remaining it.right_changes ≡ rs
      → Bounded f ls rs
      → Collects f it ls rs)
    (it : PairIter) where
  right_left :
      (r : Change) (rs : List Change)
      → remaining it.left_changes ≡ []
      → remaining it.right_changes ≡ r ∷ rs
      → Bounded (suc f) [] (r ∷ rs)
      → Collects (suc f) it [] (r ∷ rs)
  unfolding merge_pairs pair_has pair_next pair_of
  right_left r rs el er h =
      collect-some f it (record it { right_changes = step it.right_changes }) (right_only r)
        (merge_pairs [] rs) (rw (has-nil it.left_changes el, has-cons it.right_changes er))
        (rw (next-nil it.left_changes el, next-cons it.right_changes er))
        (ih _ [] rs el (remaining-step it.right_changes er) (omega arith))

  left_left :
      (l : Change) (ls : List Change)
      → remaining it.left_changes ≡ l ∷ ls
      → remaining it.right_changes ≡ []
      → Bounded (suc f) (l ∷ ls) []
      → Collects (suc f) it (l ∷ ls) []
  unfolding merge_pairs pair_has pair_next pair_of
  left_left l ls el er h =
      collect-some f it (record it { left_changes = step it.left_changes }) (left_only l)
        (merge_pairs ls []) (rw (has-cons it.left_changes el))
        (rw (next-cons it.left_changes el, next-nil it.right_changes er))
        (ih _ ls [] (remaining-step it.left_changes el) er (omega arith))

  module _ (l r : Change) (ls rs : List Change) (el : remaining it.left_changes ≡ l ∷ ls)
      (er : remaining it.right_changes ≡ r ∷ rs) (h : Bounded (suc f) (l ∷ ls) (r ∷ rs)) where
    more : pair_has it ≡ true
    unfolding pair_has
    more = rw (has-cons it.left_changes el)

    left_first :
        text_compare (change_path l) (change_path r) ≡ Ordering.lt
        → Collects (suc f) it (l ∷ ls) (r ∷ rs)
    unfolding merge_pairs pair_next pair_of
    left_first o =
        rw (o, merge_pairs)
          (collect-some f it (record it { left_changes = step it.left_changes }) (left_only l)
            (merge_pairs ls (r ∷ rs)) more
            (rw (
              next-cons it.left_changes el,
              next-cons it.right_changes er,
              o,
              pair_of,
              back-step it.right_changes,
            ))
            (ih _ ls (r ∷ rs) (remaining-step it.left_changes el) er (omega arith)))

    right_first :
        text_compare (change_path l) (change_path r) ≡ Ordering.gt
        → Collects (suc f) it (l ∷ ls) (r ∷ rs)
    unfolding merge_pairs pair_next pair_of
    right_first o =
        rw (o, merge_pairs)
          (collect-some f it (record it { right_changes = step it.right_changes }) (right_only r)
            (merge_pairs (l ∷ ls) rs) more
            (rw (
              next-cons it.left_changes el,
              next-cons it.right_changes er,
              o,
              pair_of,
              back-step it.left_changes,
            ))
            (ih _ (l ∷ ls) rs el (remaining-step it.right_changes er) (omega arith)))

    both :
        text_compare (change_path l) (change_path r) ≡ Ordering.eq
        → Collects (suc f) it (l ∷ ls) (r ∷ rs)
    unfolding merge_pairs pair_next pair_of
    both o = elim (Result-cases (conflicts l r)) [
      | inl (e, c) ↦
          rw (o, merge_pairs, c)
            (collect-err f it
              (record {
                left_changes = step it.left_changes;
                right_changes = step it.right_changes;
              })
              e more
              (rw (next-cons it.left_changes el, next-cons it.right_changes er, o, pair_of, c)))
      | inr (b, c) ↦
          rw (o, merge_pairs, c)
            (collect-some f it
              (record {
                left_changes = step it.left_changes;
                right_changes = step it.right_changes;
              })
              (both_sides l r b) (merge_pairs ls rs) more
              (rw (next-cons it.left_changes el, next-cons it.right_changes er, o, pair_of, c))
              (ih _ ls rs (remaining-step it.left_changes el) (remaining-step it.right_changes er)
                (omega arith)))
    ]

-- The loop, for lists that the two cursors have before them.
collects :
    (f : ℕ) (it : PairIter) (ls rs : List Change)
    → remaining it.left_changes ≡ ls
    → remaining it.right_changes ≡ rs
    → Bounded f ls rs
    → Collects f it ls rs
unfolding merge_pairs pair_has
collects f it [] [] el er h =
    collect-end f it (rw (has-nil it.left_changes el, has-nil it.right_changes er))
collects zero it [] (r ∷ rs) el er h = absurd (omega arith)
collects zero it (l ∷ ls) rs el er h = absurd (omega arith)
collects (suc f) it [] (r ∷ rs) el er h = right_left f (collects f) it r rs el er h
collects (suc f) it (l ∷ ls) [] el er h = left_left f (collects f) it l ls el er h
collects (suc f) it (l ∷ ls) (r ∷ rs) el er h =
    elim (Ordering-cases (text_compare (change_path l) (change_path r))) [
      | inl o ↦ left_first f (collects f) it l r ls rs el er h o
      | inr (inl o) ↦ both f (collects f) it l r ls rs el er h o
      | inr (inr o) ↦ right_first f (collects f) it l r ls rs el er h o
    ]

-- With fuel for every change that the two cursors have before them, the loop ends, and its result
-- is the merge of these changes by path.
pub collect_pairs-eq-merge_pairs :
    (f : ℕ) (it : PairIter)
    → length (remaining it.left_changes) + length (remaining it.right_changes) ≤ f
    → collect_pairs f it
      ≡ some (merge_pairs (remaining it.left_changes) (remaining it.right_changes))
collect_pairs-eq-merge_pairs f it h = collects f it _ _ refl refl h
