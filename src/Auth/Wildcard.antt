-- ===== src/Auth/Wildcard.antt =====
-- auth/rbac/wildcard/match.go: shell patterns with `*` and `?` over byte strings.
-- `Language` says what a pattern means, `Scan` what the pieces do, `Correct` that they agree.
pub mod Language
pub mod Scan
pub mod Search
pub mod Correct
pub mod Prefix
use jiaozifs.Prelude.{ℕ, zero, suc, ◌≡◌, Bool, true, false, not, ◌&&◌, ◌||◌, [], ◌∷◌}
use jiaozifs.Prelude.{Option, none, some, ◌==◌, if◌then◌else◌, is_empty, drop, length, Text}
use jiaozifs.Utf8.{rune_width}
use mathlib.Core.Option.{get_or}

-- The `for` loop that drops leading stars and remembers that there was one.
pub skip_stars : Bool → Text → Bool × Text
skip_stars star [] = (star, [])
skip_stars star (c ∷ p) = let rest = skip_stars true p in if c == b'*' then rest else (star, c ∷ p)

-- What stands before the first star, and the rest from that star on.
pub break_star : Text → Text × Text
break_star [] = ([], [])
break_star (c ∷ p) = let (a, b) = break_star p in if c == b'*' then ([], c ∷ p) else (c ∷ a, b)

-- The search for a star begins at index 1, so the first byte is in the chunk whatever it is.
pub first_segment : Text → Text × Text
first_segment [] = ([], [])
first_segment (c ∷ p) = let (a, b) = break_star p in (c ∷ a, b)

pub scan_chunk : Text → Bool × Text × Text
scan_chunk pattern =
    let (star, p) = skip_stars false pattern in
    let (chunk, rest) = first_segment p in (star, chunk, rest)

-- `none` is the result `("", false)`.
pub match_chunk : Text → Text → Option Text
match_chunk [] s = some s
match_chunk (p ∷ chunk) [] = none
match_chunk (p ∷ chunk) (c ∷ s) =
    let n = if p == b'?' then rune_width (c ∷ s) else 1 in
    let rest = match_chunk chunk (drop n (c ∷ s)) in if p == b'?' || p == c then rest else none

-- A match of the last chunk counts only if it exhausts the name.
pub accept : Text → Text → Option Text
accept rest t = if is_empty t || not (is_empty rest) then some t else none

pub at_current : Text → Text → Text → Option Text
at_current chunk rest name = elim (match_chunk chunk name) [ none ↦ none | some t ↦ accept rest t ]

pub or_else : Option Text → Option Text → Option Text
or_else none later = later
or_else (some t) later = some t

-- The `for` loop that skips i + 1 bytes of the name.
pub skipping : Text → Text → Text → Option Text
skipping chunk rest [] = none
skipping chunk rest (c ∷ name) = or_else (at_current chunk rest name) (skipping chunk rest name)

-- Where one round of the outer loop leaves the name; `none` is `return false`.
pub advance : Bool → Text → Text → Text → Option Text
advance star chunk rest name =
    or_else (at_current chunk rest name) (if star then skipping chunk rest name else none)

-- The outer loop, with fuel for its rounds; `none` is running out of it.
pub match_loop : ℕ → Text → Text → Option Bool
match_loop f [] name = some (is_empty name)
match_loop zero (c ∷ p) name = none
match_loop (suc f) (c ∷ p) name =
    let (star, chunk, rest) = scan_chunk (c ∷ p) in
    let next : Option Bool = elim (advance star chunk rest name) [
      | none ↦ some false
      | some t ↦ match_loop f rest t
    ] in
    if star && is_empty chunk then some true else next

-- `Match`. Every round shortens the pattern, so its length is fuel enough.
unfoldable pub match : Text → Text → Bool
unfolding skip_stars break_star first_segment scan_chunk match_chunk accept at_current or_else
    skipping advance match_loop rune_width
match pattern name = get_or (match_loop (length pattern) pattern name) false
