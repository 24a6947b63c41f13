-- ===== src/Auth/Wildcard/Language.antt =====
-- What a pattern means, with no search in it: a star stands for any bytes, a question mark for one
-- rune, any other byte for itself.
use jiaozifs.Prelude.{ℕ, ◌≡◌, ◌≢◌, refl, [], ◌∷◌, drop, zero, suc, Text, All, ◌≤◌, arith}
use jiaozifs.Prelude.{◌⊎◌, inl, inr, subst}
use jiaozifs.Utf8.{rune_width}

pub data Matches : Text → Text → Type 0 where
  empty : Matches [] []
  -- a star that takes nothing more
  leave : {c : ℕ} {p s : Text} → c ≡ b'*' → Matches p s → Matches (c ∷ p) s
  -- a star that takes one more byte
  take : {c b : ℕ} {p s : Text} → c ≡ b'*' → Matches (c ∷ p) s → Matches (c ∷ p) (b ∷ s)
  rune :
      {c b : ℕ} {p s : Text}
      → c ≡ b'?'
      → Matches p (drop (rune_width (b ∷ s)) (b ∷ s))
      → Matches (c ∷ p) (b ∷ s)
  byte :
      {c b : ℕ} {p s : Text} → c ≢ b'*' → c ≢ b'?' → c ≡ b → Matches p s → Matches (c ∷ p) (b ∷ s)

-- No byte of the text is a star.
abbrev pub NoStar : Text → Type 0
NoStar = All (λ c. c ≢ b'*')

abbrev pub IsAscii : Text → Type 0
IsAscii = All (λ c. c ≤ 127)

-- The rest of a pattern after a chunk: nothing, or a star and more.
pub data AtStar : Text → Type 0 where
  nothing : AtStar []
  star : {c : ℕ} {p : Text} → c ≡ b'*' → AtStar (c ∷ p)

pub nil_inv : {s : Text} → Matches [] s → s ≡ []
nil_inv empty = refl

pub star_inv :
    {p s : Text}
    → Matches (b'*' ∷ p) s
    → Matches p s ⊎ ((b : ℕ) × (s' : Text) × (s ≡ b ∷ s') × Matches (b'*' ∷ p) s')
star_inv {p} d = go refl d
  where
    go :
        {q s : Text}
        → q ≡ b'*' ∷ p
        → Matches q s
        → Matches p s ⊎ ((b : ℕ) × (s' : Text) × (s ≡ b ∷ s') × Matches (b'*' ∷ p) s')
    go e empty = cc
    go e (leave {c} {p = q} {s = s} h d) = inl (subst (λ (t : Text). Matches t s) (ground arith) d)
    go e (take {c} {b} {p = q} {s = s} h d) =
        inr (b, s, refl, subst (λ (t : Text). Matches t s) e d)
    go e (rune h d) = absurd (ground arith)
    go e (byte h h' e' d) = absurd (ground arith)

-- Two stars mean what one means.
pub two_stars : (p s : Text) → Matches (b'*' ∷ b'*' ∷ p) s → Matches (b'*' ∷ p) s
two_stars p [] d = elim (star_inv d) [ inl e ↦ e | inr (b, s, e, _) ↦ cc ]
two_stars p (b ∷ s) d = elim (star_inv d) [
  | inl e ↦ e
  | inr (b', s', e, d') ↦
      take refl (two_stars p s (subst (λ (t : Text). Matches (b'*' ∷ b'*' ∷ p) t) (tail_eq e) d'))
]
  where
    tail_eq : {b b' : ℕ} {s s' : Text} → b ∷ s ≡ b' ∷ s' → s' ≡ s
    tail_eq e = ground arith

-- A star may take any number of bytes more.
pub star-drop : (p : Text) (n : ℕ) (s : Text) → Matches (b'*' ∷ p) (drop n s) → Matches (b'*' ∷ p) s
star-drop p zero s d = d
star-drop p (suc n) [] d = d
star-drop p (suc n) (b ∷ s) d = take refl (star-drop p n s d)

-- One byte of a pattern that is no star, matched against a text.
pub one_inv :
    {c : ℕ} {p s : Text}
    → c ≢ b'*'
    → Matches (c ∷ p) s
    → (b : ℕ) × (s' : Text) × (s ≡ b ∷ s')
      × ((c ≡ b'?') × Matches p (drop (rune_width s) s) ⊎ (c ≢ b'?') × (c ≡ b) × Matches p s')
one_inv h (leave e d) = absurd (h e)
one_inv h (take e d) = absurd (h e)
one_inv h (rune {b} {s} e d) = (b, s, refl, inl (e, d))
one_inv h (byte {b} {s} e e' e'' d) = (b, s, refl, inr (e', e'', d))
