-- ===== src/Strings.antt =====
-- Go's `strings` as far as the program uses it, on byte strings. The separators are single bytes.
pub mod Cut
pub mod Trim
use jiaozifs.Prelude.{ℕ, zero, suc, ◌-◌, Bool, true, false, List, [], ◌∷◌, ◌++◌, Option, none, some}
use jiaozifs.Prelude.{◌==◌, if◌then◌else◌, length, has_prefix, Text}

-- `strings.Cut`: what stands before and after the first separator.
unfoldable pub cut : ℕ → Text → Option (Text × Text)
cut sep [] = none
cut sep (c ∷ s) =
    let rest = cut sep s in
    if c == sep then some ([], s) else elim rest [ none ↦ none | some (a, b) ↦ some (c ∷ a, b) ]

-- `strings.SplitN(s, sep, n + 1)`: at most n cuts, the last part is what is left.
unfoldable pub split_n : ℕ → ℕ → Text → List Text
unfolding cut
split_n sep zero s = s ∷ []
split_n sep (suc n) s = elim (cut sep s) [ none ↦ s ∷ [] | some (a, b) ↦ a ∷ split_n sep n b ]

-- `strings.Split`: as many cuts as there are separators.
unfoldable pub split : ℕ → Text → List Text
unfolding split_n
split sep s = split_n sep (length s) s

replace_from : Text → Text → ℕ → Text → Text
replace_from old new skip [] = []
replace_from old new (suc skip) (c ∷ s) = replace_from old new skip s
replace_from old new zero (c ∷ s) =
    let found = replace_from old new (length old - 1) s in
    let not_here = replace_from old new 0 s in
    if has_prefix (c ∷ s) old then new ++ found else c ∷ not_here

-- `strings.ReplaceAll`, for an `old` that is not empty.
unfoldable pub replace_all : Text → Text → Text → Text
unfolding replace_from has_prefix
replace_all s old new = replace_from old new 0 s
