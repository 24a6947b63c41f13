-- ===== src/Auth/Wildcard/Search.antt =====
-- The position at which a chunk after a star is matched: the first one that `Match` accepts.
use jiaozifs.Prelude.{ℕ, zero, suc, ◌≤◌, ◌≡◌, refl, [], ◌∷◌, ◌++◌, arith, ap, sym, ◌∙◌}
use jiaozifs.Prelude.{Option, some, Option-cases, All-drop, drop, length, Text, subst, inl, inr}
use mathlib.Core.Path.{subst₂}
use jiaozifs.Auth.Wildcard.{match_chunk, accept, at_current, or_else, skipping}
use jiaozifs.Auth.Wildcard.Language.{
  Matches, empty, leave, take, NoStar, IsAscii, AtStar, nothing, star, nil_inv, star_inv, star-drop,
}
use jiaozifs.Auth.Wildcard.Scan.{match_chunk_sound, match_chunk_complete, match_chunk_ascii}

accept-eq : (rest t u : Text) → accept rest t ≡ some u → t ≡ u
unfolding accept
accept-eq rest t u e = ground arith

-- With nothing after it, a chunk is accepted only if it exhausts the name.
accept_last : (t u : Text) → accept [] t ≡ some u → u ≡ []
unfolding accept
accept_last [] u e = ground arith
accept_last (b ∷ t) u e = cc

pub accept-AtStar : (rest t : Text) → AtStar rest → Matches rest t → accept rest t ≡ some t
unfolding accept
accept-AtStar rest t nothing d = rw (nil_inv d)
accept-AtStar rest t (star e) d = ground arith

-- An accepted match at one place is a match of the chunk there.
pub at_current-match_chunk :
    (chunk rest s t : Text) → at_current chunk rest s ≡ some t → match_chunk chunk s ≡ some t
unfolding at_current
at_current-match_chunk chunk rest s t e = elim (Option-cases (match_chunk chunk s)) [
  | inl n ↦ cc (rw (n, at_current) at e)
  | inr (u, m) ↦ m ∙ ap some (accept-eq rest u t (rw (m, at_current) at e))
]

at_current_last : (chunk s t : Text) → at_current chunk [] s ≡ some t → t ≡ []
unfolding at_current
at_current_last chunk s t e = elim (Option-cases (match_chunk chunk s)) [
  | inl n ↦ cc (rw (n, at_current) at e)
  | inr (u, m) ↦ accept_last u t (rw (m, at_current) at e)
]

pub skipping_sound :
    (chunk rest s t : Text)
    → NoStar chunk
    → skipping chunk rest s ≡ some t
    → Matches rest t
    → Matches (b'*' ∷ chunk ++ rest) s
unfolding skipping or_else
skipping_sound chunk rest [] t h e d = cc
skipping_sound chunk rest (b ∷ s) t h e d = elim (Option-cases (at_current chunk rest s)) [
  | inl n ↦ take refl (skipping_sound chunk rest s t h (rw (n, or_else) at e) d)
  | inr (u, m) ↦
      let e' : u ≡ t = ground arith in
      take refl (
        leave refl (
          match_chunk_sound chunk rest s t h
            (at_current-match_chunk chunk rest s t (m ∙ ap some e')) d))
]

-- What lies behind a later place lies behind an earlier one.
drop-later : (n k : ℕ) (s : Text) → n ≤ k → (i : ℕ) × (drop i (drop n s) ≡ drop k s)
drop-later zero k s h = (k, refl)
drop-later (suc n) zero s h = absurd (omega arith)
drop-later (suc n) (suc k) [] h = (0, refl)
drop-later (suc n) (suc k) (b ∷ s) h = drop-later n k s (omega arith)

-- An earlier place serves where a later one does.
earlier :
    (chunk rest : Text) (b : ℕ) (s t u : Text) (k : ℕ)
    → AtStar rest
    → IsAscii (b ∷ s)
    → at_current chunk rest (b ∷ s) ≡ some t
    → length chunk ≤ k
    → u ≡ drop k s
    → Matches rest u
    → Matches rest t
earlier chunk _ b s t u k nothing a e far l d = rw (at_current_last chunk (b ∷ s) t e) empty
earlier chunk _ b s t u k (star {c} {p} q) a e far l d =
    let here =
      match_chunk_ascii chunk (b ∷ s) t a (at_current-match_chunk chunk (c ∷ p) (b ∷ s) t e) in
    let (i, on) = drop-later (length chunk) (suc k) (b ∷ s) (omega arith) in
    let place : u ≡ drop i t = l ∙ sym on ∙ ap (drop i) (sym here) in
    let starred = subst₂ (λ (x : ℕ) (w : Text). Matches (x ∷ p) w) q place d in
    subst (λ (x : ℕ). Matches (x ∷ p) t) (sym q) (star-drop p i t starred)

-- The search finds a place from which the rest matches, no earlier than the chunk is long.
record Found (chunk rest s : Text) (o : Option Text) : Type 0 where
  left : Text
  found : o ≡ some left
  matched : Matches rest left
  place : ℕ
  far : length chunk ≤ place
  is_left : left ≡ drop place s

module _ (chunk rest : Text) (h : NoStar chunk) (tail : AtStar rest) where
  abbrev seek : Text → Option Text
  seek s = or_else (at_current chunk rest s) (skipping chunk rest s)

  Found-here : (s : Text) → IsAscii s → Matches (chunk ++ rest) s → Found chunk rest s (seek s)
  unfolding or_else at_current
  Found-here s a d =
      let (t, m, r) = match_chunk_complete chunk rest s h d in
      record {
        left = t;
        found = rw (m, at_current) (rw (accept-AtStar rest t tail r));
        matched = r;
        place = length chunk;
        far = omega arith;
        is_left = match_chunk_ascii chunk s t a m;
      }

  Found-later :
      (b : ℕ) (s : Text)
      → IsAscii (b ∷ s)
      → Found chunk rest s (seek s)
      → Found chunk rest (b ∷ s) (seek (b ∷ s))
  unfolding skipping or_else
  Found-later b s a f = elim (Option-cases (at_current chunk rest (b ∷ s))) [
    | inl n ↦ record {
      left = f.left;
      found = rw (n, or_else) f.found;
      matched = f.matched;
      place = suc f.place;
      far = omega (arith, f.far);
      is_left = f.is_left;
    }
    | inr (t, m) ↦ record {
      left = t;
      found = rw (m, or_else);
      matched = earlier chunk rest b s t f.left f.place tail a m f.far f.is_left f.matched;
      place = length chunk;
      far = omega arith;
      is_left = match_chunk_ascii chunk (b ∷ s) t a (at_current-match_chunk chunk rest (b ∷ s) t m);
    }
  ]

  seek-Found :
      (s : Text) → IsAscii s → Matches (b'*' ∷ chunk ++ rest) s → Found chunk rest s (seek s)
  seek-Found [] a d = elim (star_inv d) [ inl d' ↦ Found-here [] a d' | inr (b, s, e, d') ↦ cc ]
  seek-Found (b ∷ s) a d = elim (star_inv d) [
    | inl d' ↦ Found-here (b ∷ s) a d'
    | inr (b', s', e, d') ↦
        Found-later b s a
          (seek-Found s a.1 (subst (Matches (b'*' ∷ chunk ++ rest)) (ground arith) d'))
  ]

  -- After a star, wherever the rest of the pattern can match, the first accepted place serves.
  pub seek_complete :
      (s : Text)
      → IsAscii s
      → Matches (b'*' ∷ chunk ++ rest) s
      → (t : Text) × (seek s ≡ some t) × Matches rest t × IsAscii t
  seek_complete s a d =
      let f = seek-Found s a d in
      (f.left, f.found, f.matched, subst IsAscii (sym f.is_left) (All-drop _ f.place s a))
