-- ===== src/Auth/Wildcard/Prefix.antt =====
-- A plain prefix with a star behind it matches exactly the names that begin with the prefix.
use jiaozifs.Prelude.{◌≡◌, ◌≢◌, refl, [], ◌∷◌, ◌++◌, arith, Text, All, inl, inr, true}
use jiaozifs.Auth.Wildcard.{match}
use jiaozifs.Auth.Wildcard.Language.{Matches, one_inv}
use jiaozifs.Auth.Wildcard.Correct.{match_sound}

-- No byte has a meaning of its own in a pattern.
abbrev pub Literal : Text → Type 0
Literal = All (λ c. (c ≢ b'*') × (c ≢ b'?'))

prefix_of_Matches :
    (p q s : Text) → Literal p → Matches (p ++ q) s → (t : Text) × (s ≡ p ++ t) × Matches q t
prefix_of_Matches [] q s h d = (s, refl, d)
prefix_of_Matches (c ∷ p) q s h d =
    let (b, s', e, step) = one_inv h.0.0 d in
    elim step [
      | inl (wild, _) ↦ absurd (h.0.1 wild)
      | inr (_, same, d') ↦
          let (t, e', d'') = prefix_of_Matches p q s' h.1 d' in (t, ground arith, d'')
    ]

-- A name that `p*` matches begins with `p`.
pub match-prefix :
    (p s : Text) → Literal p → match (p ++ b'*' ∷ []) s ≡ true → (t : Text) × (s ≡ p ++ t)
match-prefix p s h e =
    let (t, whole, _) = prefix_of_Matches p (b'*' ∷ []) s h (match_sound (p ++ b'*' ∷ []) s e) in
    (t, whole)
