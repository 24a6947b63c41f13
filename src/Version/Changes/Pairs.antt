-- ===== src/Version/Changes/Pairs.antt =====
-- The pairing of two sets of changes loses nothing, and brings every path once.
use jiaozifs.Prelude.{
  ℕ, ◌+◌, ◌≤◌, ◌∙◌, length, ◌≡◌, inl, inr, refl, ap, sym, arith, List, [], ◌∷◌, Option, none, some,
  Result, ok, >>=-eq-ok,
}
use jiaozifs.Prelude.{Text, text_compare, All, Bool, subst}
use jiaozifs.Merkletrie.Change.{Change, change_path}
use mathlib.Core.Option.{some-injective}
use jiaozifs.Version.Changes.{
  PairIter, collect_pairs, ChangeError, ChangePair, left_only, right_only, both_sides, conflicts,
  pair_path,
}
use jiaozifs.Version.Changes.Order.{Lt, Lt-trans, text_compare-eq, text_compare-gt}
use jiaozifs.Version.Changes.Cursor.{
  remaining, collect_pairs-eq-merge_pairs, merge_pairs, Ordering-cases,
}

abbrev keep : Option Change → List Change → List Change
keep none cs = cs
keep (some c) cs = c ∷ cs

-- The changes on the left sides and on the right sides of pairs, in their order.
abbrev pub lefts : List ChangePair → List Change
lefts [] = []
lefts (p ∷ ps) = keep p.left (lefts ps)

abbrev pub rights : List ChangePair → List Change
rights [] = []
rights (p ∷ ps) = keep p.right (rights ps)

-- The paths of the list strictly increase, and `p` is smaller.
abbrev pub Above {ℓ} : {A : Type ℓ} → (A → Text) → Text → List A → Type 0
Above path p = All (λ a. Lt p (path a))

abbrev pub IsSorted {ℓ} : {A : Type ℓ} → (A → Text) → List A → Type 0
IsSorted path [] = Unit
IsSorted path (a ∷ l) = Above path (path a) l × IsSorted path l

-- What holds of the pairs of two lists.
pub record Pairs (ls rs : List Change) (ps : List ChangePair) : Type 0 where
  pub left_kept : lefts ps ≡ ls
  pub right_kept : rights ps ≡ rs
  pub above : (p : Text) → Above change_path p ls → Above change_path p rs → Above pair_path p ps
  pub sorted : IsSorted change_path ls → IsSorted change_path rs → IsSorted pair_path ps

Above-Lt {ℓ} :
    {A : Type ℓ} (path : A → Text) (p q : Text) (l : List A)
    → Lt p q
    → Above path q l
    → Above path p l
Above-Lt path p q [] h a = tt
Above-Lt path p q (x ∷ l) h a = (Lt-trans p q (path x) h a.0, Above-Lt path p q l h a.1)

module _ (ls rs : List Change) (ps : List ChangePair) (h : Pairs ls rs ps) where
  add_left :
      (l : Change)
      → (IsSorted change_path rs → Above change_path (change_path l) rs)
      → Pairs (l ∷ ls) rs (left_only l ∷ ps)
  unfolding left_only pair_path
  add_left l f = record {
    left_kept = ap (λ (cs : List Change). l ∷ cs) h.left_kept;
    right_kept = h.right_kept;
    above = λ p a b. (a.0, h.above p a.1 b);
    sorted = λ s t. (h.above (change_path l) s.0 (f t), h.sorted s.1 t);
  }

  add_right :
      (r : Change)
      → (IsSorted change_path ls → Above change_path (change_path r) ls)
      → Pairs ls (r ∷ rs) (right_only r ∷ ps)
  unfolding right_only pair_path
  add_right r f = record {
    left_kept = h.left_kept;
    right_kept = ap (λ (cs : List Change). r ∷ cs) h.right_kept;
    above = λ p a b. (b.0, h.above p a b.1);
    sorted = λ s t. (h.above (change_path r) (f s) t.0, h.sorted s t.1);
  }

  add_both :
      (l r : Change) (c : Bool)
      → change_path l ≡ change_path r
      → Pairs (l ∷ ls) (r ∷ rs) (both_sides l r c ∷ ps)
  unfolding both_sides pair_path
  add_both l r c e = record {
    left_kept = ap (λ (cs : List Change). l ∷ cs) h.left_kept;
    right_kept = ap (λ (cs : List Change). r ∷ cs) h.right_kept;
    above = λ p a b. (a.0, h.above p a.1 b.1);
    sorted = λ s t. (
      h.above (change_path l) s.0 (subst (λ (p : Text). Above change_path p rs) (sym e) t.0),
      h.sorted s.1 t.1,
    );
  }

-- The rest of a sorted list is above what is below its head.
below_head :
    (p : Text) (c : Change) (cs : List Change)
    → Lt p (change_path c)
    → IsSorted change_path (c ∷ cs)
    → Above change_path p (c ∷ cs)
below_head p c cs h s = (h, Above-Lt change_path p (change_path c) cs h s.0)

cast :
    (ls rs : List Change) (qs ps : List ChangePair)
    → ◌≡◌ {A = Result ChangeError (List ChangePair)} (ok qs) (ok ps)
    → Pairs ls rs qs
    → Pairs ls rs ps
cast ls rs qs ps e h = let same : qs ≡ ps = ground arith in subst (Pairs ls rs) same h

Pairs-of_merge :
    (ls rs : List Change) (ps : List ChangePair) → merge_pairs ls rs ≡ ok ps → Pairs ls rs ps
unfolding merge_pairs
Pairs-of_merge [] [] ps e =
    cast [] [] [] ps e
      (record { left_kept = refl; right_kept = refl; above = λ p a b. tt; sorted = λ s t. tt })
Pairs-of_merge [] (r ∷ rs) ps e =
    let (qs, m, e') = >>=-eq-ok (merge_pairs [] rs) _ e in
    cast [] (r ∷ rs) _ ps e' (add_right [] rs qs (Pairs-of_merge [] rs qs m) r (λ _. tt))
Pairs-of_merge (l ∷ ls) [] ps e =
    let (qs, m, e') = >>=-eq-ok (merge_pairs ls []) _ e in
    cast (l ∷ ls) [] _ ps e' (add_left ls [] qs (Pairs-of_merge ls [] qs m) l (λ _. tt))
Pairs-of_merge (l ∷ ls) (r ∷ rs) ps e =
    elim (Ordering-cases (text_compare (change_path l) (change_path r))) [
      | inl o ↦
          let (qs, m, e') = >>=-eq-ok (merge_pairs ls (r ∷ rs)) _ (rw (o, merge_pairs) at e) in
          cast (l ∷ ls) (r ∷ rs) _ ps e' (
            add_left ls (r ∷ rs) qs (Pairs-of_merge ls (r ∷ rs) qs m) l
              (below_head (change_path l) r rs o))
      | inr (inr o) ↦
          let (qs, m, e') = >>=-eq-ok (merge_pairs (l ∷ ls) rs) _ (rw (o, merge_pairs) at e) in
          cast (l ∷ ls) (r ∷ rs) _ ps e' (
            add_right (l ∷ ls) rs qs (Pairs-of_merge (l ∷ ls) rs qs m) r
              (below_head (change_path r) l ls (text_compare-gt (change_path l) (change_path r) o)))
      | inr (inl o) ↦
          let (c, k, e') = >>=-eq-ok (conflicts l r) _ (rw (o, merge_pairs) at e) in
          let (qs, m, e'') = >>=-eq-ok (merge_pairs ls rs) _ e' in
          cast (l ∷ ls) (r ∷ rs) _ ps e'' (
            add_both ls rs qs (Pairs-of_merge ls rs qs m) l r c
              (text_compare-eq (change_path l) (change_path r) o))
    ]

-- With fuel for every change before the two cursors, if the loop collects pairs without an error,
-- then the left sides are the changes before the left cursor and the right sides those before the
-- right one, each in its order; and if the paths of both strictly increase, so do the pairs' paths.
pub collect_pairs-Pairs :
    (f : ℕ) (it : PairIter) (ps : List ChangePair)
    → length (remaining it.left_changes) + length (remaining it.right_changes) ≤ f
    → collect_pairs f it ≡ some (ok ps)
    → (lefts ps ≡ remaining it.left_changes)
      × (rights ps ≡ remaining it.right_changes)
      × (IsSorted change_path (remaining it.left_changes)
          → IsSorted change_path (remaining it.right_changes)
          → IsSorted pair_path ps)
collect_pairs-Pairs f it ps enough e =
    let merged = sym (collect_pairs-eq-merge_pairs f it enough) ∙ e in
    let h = Pairs-of_merge _ _ ps (some-injective _ _ merged) in
    (h.left_kept, h.right_kept, h.sorted)
