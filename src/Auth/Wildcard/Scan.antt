-- ===== src/Auth/Wildcard/Scan.antt =====
-- The pieces into which `Match` cuts a pattern, and what a chunk matches.
use jiaozifs.Prelude.{ℕ, ◌≤◌, ◌≡◌, ◌≢◌, refl, Bool, true, false, [], ◌∷◌, ◌++◌, arith, ap}
use jiaozifs.Prelude.{some, ◌==◌, Bool-cases, drop, length, Text, subst, ◌↔◌}
use jiaozifs.Prelude.{inl, inr, sym, ◌-◌}
use jiaozifs.Utf8.{rune_width, rune_width_ascii}
use jiaozifs.Auth.Wildcard.{skip_stars, break_star, first_segment, scan_chunk, match_chunk}
use jiaozifs.Auth.Wildcard.Language.{
  Matches, leave, rune, byte, NoStar, IsAscii, AtStar, nothing, star, two_stars, one_inv,
}

-- A pattern that may have a star before it.
abbrev pub Segment : Bool → Text → Text → Type 0
Segment true p s = Matches (b'*' ∷ p) s
Segment false p s = Matches p s

Segment-star_iff :
    (st : Bool) (c : ℕ) (p s : Text) → c ≡ b'*' → Matches (b'*' ∷ p) s ↔ Segment st (c ∷ p) s
Segment-star_iff true c p s e = rw e (λ d. leave refl d, two_stars p s)
Segment-star_iff false c p s e = rw e (λ d. d, λ d. d)

-- Dropping the leading stars keeps the meaning.
skip_stars_iff :
    (st : Bool) (p s : Text) → Segment (skip_stars st p).0 (skip_stars st p).1 s ↔ Segment st p s
unfolding skip_stars
skip_stars_iff st [] s = (λ d. d, λ d. d)
skip_stars_iff st (c ∷ p) s = elim (Bool-cases (c == b'*')) [
  | inl e ↦
      let here = Segment-star_iff st c p s (ground arith) in
      let rest = skip_stars_iff true p s in rw e (λ d. here.0 (rest.0 d), λ d. rest.1 (here.1 d))
  | inr e ↦ rw e (λ d. d, λ d. d)
]

-- The head is no star.
abbrev pub HeadPlain : Text → Type 0
HeadPlain [] = Unit
HeadPlain (c ∷ p) = c ≢ b'*'

skip_stars-HeadPlain : (st : Bool) (p : Text) → HeadPlain (skip_stars st p).1
unfolding skip_stars
skip_stars-HeadPlain st [] = tt
skip_stars-HeadPlain st (c ∷ p) = elim (Bool-cases (c == b'*')) [
  | inl e ↦ rw e (skip_stars-HeadPlain true p)
  | inr e ↦ rw e (ground arith)
]

skip_stars-length-le : (st : Bool) (p : Text) → length (skip_stars st p).1 ≤ length p
unfolding skip_stars
skip_stars-length-le st [] = omega arith
skip_stars-length-le st (c ∷ p) = ground (arith, skip_stars-length-le true p)

-- A cut before the first star.
pub record IsCut (p a b : Text) : Type 0 where
  pub whole : a ++ b ≡ p
  pub plain : NoStar a
  pub tail : AtStar b
  pub shorter : length b ≤ length p

break_star-IsCut : (p : Text) → IsCut p (break_star p).0 (break_star p).1
unfolding break_star
break_star-IsCut [] = record { whole = refl; plain = tt; tail = nothing; shorter = omega arith }
break_star-IsCut (c ∷ p) = elim (Bool-cases (c == b'*')) [
  | inl e ↦
      rw e (record { whole = refl; plain = tt; tail = star (ground arith); shorter = omega arith })
  | inr e ↦
      let ih = break_star-IsCut p in
      rw e (record {
        whole = ap (λ (t : Text). c ∷ t) ih.whole;
        plain = (ground arith, ih.plain);
        tail = ih.tail;
        shorter = omega (arith, ih.shorter);
      })
]

first_segment-IsCut : (p : Text) → HeadPlain p → IsCut p (first_segment p).0 (first_segment p).1
unfolding first_segment
first_segment-IsCut [] h = record {
  whole = refl;
  plain = tt;
  tail = nothing;
  shorter = omega arith;
}
first_segment-IsCut (c ∷ p) h =
    let cut = break_star-IsCut p in
    record {
      whole = ap (λ (t : Text). c ∷ t) cut.whole;
      plain = (h, cut.plain);
      tail = cut.tail;
      shorter = omega (arith, cut.shorter);
    }

-- What one call of `scanChunk` gives: the chunk has no star, and with the rest it means the pattern.
pub record IsScan (p : Text) (st : Bool) (chunk rest : Text) : Type 0 where
  pub means : (s : Text) → Segment st (chunk ++ rest) s ↔ Matches p s
  pub plain : NoStar chunk
  pub tail : AtStar rest
  -- an empty chunk comes only from an empty pattern
  pub ends : chunk ≡ [] → rest ≡ []

first_segment-ends : (p : Text) → (first_segment p).0 ≡ [] → (first_segment p).1 ≡ []
unfolding first_segment
first_segment-ends [] e = refl
first_segment-ends (c ∷ p) e = cc

pub scan_chunk-IsScan : (p : Text) → IsScan p (scan_chunk p).0 (scan_chunk p).1 (scan_chunk p).2
unfolding scan_chunk
scan_chunk-IsScan p =
    let cut = first_segment-IsCut (skip_stars false p).1 (skip_stars-HeadPlain false p) in
    record {
      means = λ s.
          subst (λ (t : Text). Segment (skip_stars false p).0 t s ↔ Matches p s) (sym cut.whole)
            (skip_stars_iff false p s);
      plain = cut.plain;
      tail = cut.tail;
      ends = first_segment-ends (skip_stars false p).1;
    }

first_segment-shorter : (p : Text) → length (first_segment p).1 ≤ length p - 1
unfolding first_segment
first_segment-shorter [] = omega arith
first_segment-shorter (c ∷ p) = omega (arith, (break_star-IsCut p).shorter)

-- The pattern gets shorter in every round.
pub scan_chunk-shorter : (c : ℕ) (p : Text) → length (scan_chunk (c ∷ p)).2 ≤ length p
unfolding scan_chunk
scan_chunk-shorter c p =
    omega (
      arith,
      first_segment-shorter (skip_stars false (c ∷ p)).1,
      skip_stars-length-le false (c ∷ p),
    )

-- What a chunk matches, the whole pattern matches, if the rest matches what is left.
pub match_chunk_sound :
    (chunk rest s t : Text)
    → NoStar chunk
    → match_chunk chunk s ≡ some t
    → Matches rest t
    → Matches (chunk ++ rest) s
unfolding match_chunk
match_chunk_sound [] rest s t h e d = subst (Matches rest) (ground arith) d
match_chunk_sound (c ∷ chunk) rest [] t h e d = cc
match_chunk_sound (c ∷ chunk) rest (b ∷ s) t h e d = elim (Bool-cases (c == b'?')) [
  | inl q ↦
      let e' = rw q at e in
      rune (ground arith)
        (match_chunk_sound chunk rest (drop (rune_width (b ∷ s)) (b ∷ s)) t h.1 e' d)
  | inr q ↦ elim (Bool-cases (c == b)) [
    | inl r ↦
        let e' : match_chunk chunk s ≡ some t = ground arith in
        byte h.0 (ground arith) (ground arith) (match_chunk_sound chunk rest s t h.1 e' d)
    | inr r ↦ absurd (ground arith)
  ]
]

-- A chunk matches wherever the pattern does.
pub match_chunk_complete :
    (chunk rest s : Text)
    → NoStar chunk
    → Matches (chunk ++ rest) s
    → (t : Text) × (match_chunk chunk s ≡ some t) × Matches rest t
unfolding match_chunk
match_chunk_complete [] rest s h d = (s, refl, d)
match_chunk_complete (c ∷ chunk) rest [] h d = let (b, s, e, _) = one_inv h.0 d in cc
match_chunk_complete (c ∷ chunk) rest (b ∷ s) h d =
    let (b', s', e, step) = one_inv h.0 d in
    elim step [
      | inl (q, d') ↦
          let (t, m, r) =
            match_chunk_complete chunk rest (drop (rune_width (b ∷ s)) (b ∷ s)) h.1 d' in
          (t, ground arith, r)
      | inr (q, r, d') ↦
          let (t, m, r') =
            match_chunk_complete chunk rest s h.1
              (subst (Matches (chunk ++ rest)) (ground arith) d') in
          (t, ground arith, r')
    ]

-- Over ASCII a chunk takes as many bytes as it has.
pub match_chunk_ascii :
    (chunk s t : Text) → IsAscii s → match_chunk chunk s ≡ some t → t ≡ drop (length chunk) s
unfolding match_chunk
match_chunk_ascii [] s t a e = ground arith
match_chunk_ascii (c ∷ chunk) [] t a e = cc
match_chunk_ascii (c ∷ chunk) (b ∷ s) t a e =
    ground (arith, rune_width_ascii b s a.0, match_chunk_ascii chunk s t a.1)
