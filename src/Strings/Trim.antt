-- ===== src/Strings/Trim.antt =====
-- Go's `strings.TrimSpace` and `strings.Trim`. White space beyond ASCII is told by its encoding.
use jiaozifs.Prelude.{
  ℕ, zero, suc, ◌-◌, Bool, ◌&&◌, ◌||◌, [], ◌∷◌, ◌==◌, leb, if◌then◌else◌, Text, reverse,
  contains_code,
}

-- The last byte of a space of three bytes that begins with 0xe2 and 0x80.
general_space : ℕ → Bool
general_space c = leb 0x80 c && leb c 0x8a || c == 0xa8 || c == 0xa9 || c == 0xaf

two_bytes : ℕ → ℕ → Bool
two_bytes a b = a == 0xc2 && (b == 0x85 || b == 0xa0)

three_bytes : ℕ → ℕ → ℕ → Bool
unfolding general_space
three_bytes a b c =
    a == 0xe1 && b == 0x9a && c == 0x80
    || a == 0xe2 && b == 0x80 && general_space c
    || a == 0xe2 && b == 0x81 && c == 0x9f
    || a == 0xe3 && b == 0x80 && c == 0x80

ascii_space : ℕ → Bool
ascii_space a = leb 9 a && leb a 13 || a == 32

-- How many bytes the space takes that a text begins with, and that a reversed text begins with; 0
-- where there is none.
space_width : Text → ℕ
unfolding ascii_space two_bytes three_bytes
space_width [] = 0
space_width (a ∷ []) = if ascii_space a then 1 else 0
space_width (a ∷ b ∷ []) = if ascii_space a then 1 else if two_bytes a b then 2 else 0
space_width (a ∷ b ∷ c ∷ s) =
    if ascii_space a then 1 else if two_bytes a b then 2 else if three_bytes a b c then 3 else 0

space_width_back : Text → ℕ
unfolding ascii_space two_bytes three_bytes
space_width_back [] = 0
space_width_back (a ∷ []) = if ascii_space a then 1 else 0
space_width_back (a ∷ b ∷ []) = if ascii_space a then 1 else if two_bytes b a then 2 else 0
space_width_back (a ∷ b ∷ c ∷ s) =
    if ascii_space a then 1 else if two_bytes b a then 2 else if three_bytes c b a then 3 else 0

-- Drops spaces; `skip` counts what is left of the one before.
drop_spaces : (Text → ℕ) → ℕ → Text → Text
drop_spaces width skip [] = []
drop_spaces width (suc skip) (c ∷ s) = drop_spaces width skip s
drop_spaces width zero (c ∷ s) =
    let n = width (c ∷ s) in
    let rest = drop_spaces width (n - 1) s in if n == 0 then c ∷ s else rest

-- `strings.TrimSpace`
unfoldable pub trim_space : Text → Text
unfolding space_width space_width_back drop_spaces
trim_space s = reverse (drop_spaces space_width_back 0 (reverse (drop_spaces space_width 0 s)))

drop_in : Text → Text → Text
unfolding contains_code
drop_in cutset [] = []
drop_in cutset (c ∷ s) =
    let rest = drop_in cutset s in if contains_code cutset c then rest else c ∷ s

-- `strings.Trim`, for an ASCII cutset.
unfoldable pub trim : Text → Text → Text
unfolding drop_in
trim s cutset = reverse (drop_in cutset (reverse (drop_in cutset s)))
