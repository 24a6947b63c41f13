-- ===== src/Strings/Cut.antt =====
-- Cutting and splitting are the inverses of joining.
use jiaozifs.Prelude.{
  ℕ, zero, suc, ◌+◌, ◌≤◌, ◌≡◌, ◌≢◌, refl, ap, ◌∙◌, subst, List, [], ◌∷◌, ◌++◌, some, arith,
}
use jiaozifs.Prelude.{Option-cases, inl, inr, length, Text, All}
use jiaozifs.Strings.{cut, split_n}

-- The separator does not occur.
abbrev pub Without : ℕ → Text → Type 0
Without sep = All (λ c. c ≢ sep)

pub cut-append : (sep : ℕ) (a b : Text) → Without sep a → cut sep (a ++ sep ∷ b) ≡ some (a, b)
unfolding cut
cut-append sep [] b h = ground arith
cut-append sep (c ∷ a) b h = ground (arith, cut-append sep a b h.1)

pub cut-eq-some :
    (sep : ℕ) (s a b : Text) → cut sep s ≡ some (a, b) → (s ≡ a ++ sep ∷ b) × Without sep a
unfolding cut
cut-eq-some sep [] a b e = cc
cut-eq-some sep (c ∷ s) [] b e = elim (Option-cases (cut sep s)) [
  | inl n ↦ ground arith
  | inr ((a', b'), n) ↦ ground arith
]
cut-eq-some sep (c ∷ s) (d ∷ a) b e = elim (Option-cases (cut sep s)) [
  | inl n ↦ absurd (ground arith)
  | inr ((a', b'), n) ↦ ground (arith, cut-eq-some sep s a b)
]

pub length-split_n-le : (sep n : ℕ) (s : Text) → length (split_n sep n s) ≤ n + 1
unfolding split_n
length-split_n-le sep zero s = omega arith
length-split_n-le sep (suc n) s = elim (Option-cases (cut sep s)) [
  | inl e ↦ rw (e, split_n) (omega arith)
  | inr ((a, b), e) ↦ rw (e, split_n) (omega (arith, length-split_n-le sep n b))
]

pub split_n-append :
    (sep n : ℕ) (a b : Text)
    → Without sep a
    → split_n sep (suc n) (a ++ sep ∷ b) ≡ a ∷ split_n sep n b
unfolding split_n
split_n-append sep n a b h = rw (cut-append sep a b h, split_n)

-- Two parts or more come from a cut at the first separator.
pub split_n-eq-cons :
    (sep n : ℕ) (s p q : Text) (parts : List Text)
    → split_n sep (suc n) s ≡ p ∷ q ∷ parts
    → (b : Text) × (s ≡ p ++ sep ∷ b) × Without sep p × (split_n sep n b ≡ q ∷ parts)
unfolding split_n
split_n-eq-cons sep n s p q parts e = elim (Option-cases (cut sep s)) [
  | inl m ↦ absurd (cc (rw (m, split_n) at e))
  | inr ((a, b), m) ↦
      let e' : a ∷ split_n sep n b ≡ p ∷ q ∷ parts = rw (m, split_n) at e in
      let (whole, plain) = cut-eq-some sep s a b m in
      let first : a ≡ p = ground arith in
      (
        b,
        whole ∙ ap (λ (t : Text). t ++ sep ∷ b) first,
        subst (Without sep) first plain,
        ground arith,
      )
]

pub split_n_last : (sep : ℕ) (s p : Text) → split_n sep zero s ≡ p ∷ [] → s ≡ p
unfolding split_n
split_n_last sep s p e = ground arith

pub split_n-zero : (sep : ℕ) (s : Text) → split_n sep zero s ≡ s ∷ []
unfolding split_n
split_n-zero sep s = refl
