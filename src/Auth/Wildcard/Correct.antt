-- ===== src/Auth/Wildcard/Correct.antt =====
-- `Match` answers, is right when it answers yes, and over ASCII names is right both ways.
use jiaozifs.Prelude.{
  ℕ, zero, suc, ◌≤◌, ◌≡◌, refl, ◌↔◌, Bool, true, false, ◌&&◌, [], ◌∷◌, ◌++◌, arith, ap, sym, ◌∙◌,
}
use jiaozifs.Prelude.{
  Option, none, some, Option-cases, Bool-cases, is_empty, length, Text, subst, inl, inr,
  if◌then◌else◌, All-drop,
}
use mathlib.Core.Option.{get_or, some-injective}
use mathlib.Core.Bool.{false≢true}
use jiaozifs.Auth.Wildcard.{scan_chunk, at_current, or_else, skipping, advance, match_loop, match}
use jiaozifs.Auth.Wildcard.Language.{Matches, empty, leave, take, NoStar, IsAscii, AtStar, nil_inv}
use jiaozifs.Auth.Wildcard.Scan.{
  Segment, scan_chunk-IsScan, scan_chunk-shorter, match_chunk_sound, match_chunk_complete,
  match_chunk_ascii,
}
use jiaozifs.Auth.Wildcard.Search.{
  at_current-match_chunk, skipping_sound, seek_complete, accept-AtStar,
}

-- Rounds never outnumber the bytes of the pattern.
pub match_loop_total :
    (f : ℕ) (p s : Text) → length p ≤ f → (b : Bool) × (match_loop f p s ≡ some b)
unfolding match_loop
match_loop_total f [] s h = (is_empty s, refl)
match_loop_total zero (c ∷ p) s h = absurd (omega arith)
match_loop_total (suc f) (c ∷ p) s h =
    let (st, chunk, rest) = scan_chunk (c ∷ p) in
    elim (Bool-cases (st && is_empty chunk)) [
      | inl e ↦ (true, rw (e, match_loop))
      | inr e ↦ elim (Option-cases (advance st chunk rest s)) [
        | inl n ↦ (false, rw (e, n, match_loop))
        | inr (t, n) ↦
            let (b, r) = match_loop_total f rest t (omega (arith, scan_chunk-shorter c p)) in
            (b, rw (e, n, match_loop) r)
      ]
    ]

-- What a round leaves, matched by the rest of the pattern, makes the whole match.
advance_sound :
    (st : Bool) (chunk rest s t : Text)
    → NoStar chunk
    → advance st chunk rest s ≡ some t
    → Matches rest t
    → Segment st (chunk ++ rest) s
unfolding advance or_else
advance_sound st chunk rest s t h e d = elim (Option-cases (at_current chunk rest s)) [
  | inr (u, m) ↦
      let e' : u ≡ t = ground arith in
      let d' =
        match_chunk_sound chunk rest s t h (at_current-match_chunk chunk rest s t (m ∙ ap some e'))
          d in
      under st d'
  | inl n ↦ later st (rw (n, or_else) at e)
]
  where
    under : (st : Bool) → Matches (chunk ++ rest) s → Segment st (chunk ++ rest) s
    under true d = leave refl d
    under false d = d

    later :
        (st : Bool)
        → (if st then skipping chunk rest s else none) ≡ some t
        → Segment st (chunk ++ rest) s
    later true e = skipping_sound chunk rest s t h e d
    later false e = cc

-- A star with nothing after it matches what is left of the name.
star_all : (s : Text) → Matches (b'*' ∷ []) s
star_all [] = leave refl empty
star_all (b ∷ s) = take refl (star_all s)

all_stars :
    (st : Bool) (chunk rest s : Text)
    → (st && is_empty chunk) ≡ true
    → (chunk ≡ [] → rest ≡ [])
    → Segment st (chunk ++ rest) s
all_stars true [] rest s q ends = rw (ends refl) (star_all s)
all_stars true (c ∷ chunk) rest s q ends = cc
all_stars false chunk rest s q ends = cc

match_loop_sound : (f : ℕ) (p s : Text) → match_loop f p s ≡ some true → Matches p s
unfolding match_loop
match_loop_sound f [] [] e = empty
match_loop_sound f [] (b ∷ s) e = cc
match_loop_sound zero (c ∷ p) s e = cc
match_loop_sound (suc f) (c ∷ p) s e =
    let (st, chunk, rest) = scan_chunk (c ∷ p) in
    let scan = scan_chunk-IsScan (c ∷ p) in
    elim (Bool-cases (st && is_empty chunk)) [
      | inl q ↦ (scan.means s).0 (all_stars st chunk rest s q scan.ends)
      | inr q ↦ elim (Option-cases (advance st chunk rest s)) [
        | inl n ↦ absurd (false≢true (some-injective _ _ (rw (q, n, match_loop) at e)))
        | inr (t, n) ↦ (scan.means s).0 (
            advance_sound st chunk rest s t scan.plain n
              (match_loop_sound f rest t (rw (q, n, match_loop) at e)))
      ]
    ]

-- What a round accepts over ASCII, where the pattern matches.
advance_complete :
    (st : Bool) (chunk rest s : Text)
    → NoStar chunk
    → AtStar rest
    → IsAscii s
    → Segment st (chunk ++ rest) s
    → (t : Text) × (advance st chunk rest s ≡ some t) × Matches rest t × IsAscii t
unfolding advance or_else at_current
advance_complete true chunk rest s h tail a d = seek_complete chunk rest h tail s a d
advance_complete false chunk rest s h tail a d =
    let (t, m, r) = match_chunk_complete chunk rest s h d in
    (
      t,
      rw (m, at_current, accept-AtStar rest t tail r, or_else),
      r,
      subst IsAscii (sym (match_chunk_ascii chunk s t a m)) (All-drop _ (length chunk) s a),
    )

match_loop_complete :
    (f : ℕ) (p s : Text) → length p ≤ f → IsAscii s → Matches p s → match_loop f p s ≡ some true
unfolding match_loop
match_loop_complete f [] s h a d = rw (nil_inv d)
match_loop_complete zero (c ∷ p) s h a d = absurd (omega arith)
match_loop_complete (suc f) (c ∷ p) s h a d =
    let (st, chunk, rest) = scan_chunk (c ∷ p) in
    let scan = scan_chunk-IsScan (c ∷ p) in
    elim (Bool-cases (st && is_empty chunk)) [
      | inl q ↦ rw (q, match_loop)
      | inr q ↦
          let (t, n, r, a') =
            advance_complete st chunk rest s scan.plain scan.tail a ((scan.means s).1 d) in
          rw (q, n, match_loop)
            (match_loop_complete f rest t (omega (arith, scan_chunk-shorter c p)) a' r)
    ]

match_of_loop : (p s : Text) → match p s ≡ get_or (match_loop (length p) p s) false
unfolding match
match_of_loop p s = refl

-- Whatever the bytes of the name, `Match` answers yes only where the pattern matches it.
pub match_sound : (p s : Text) → match p s ≡ true → Matches p s
match_sound p s e =
    let (b, r) = match_loop_total (length p) p s (omega arith) in
    match_loop_sound (length p) p s
      (r ∙ ap some (sym (ap (λ (o : Option Bool). get_or o false) r) ∙ sym (match_of_loop p s) ∙ e))

-- Over an ASCII name `Match` answers yes exactly where the pattern matches it.
pub match_iff : (p s : Text) → IsAscii s → (match p s ≡ true) ↔ Matches p s
match_iff p s a = (
  match_sound p s,
  λ d.
      match_of_loop p s
      ∙ ap (λ (o : Option Bool). get_or o false)
          (match_loop_complete (length p) p s (omega arith) a d),
)
