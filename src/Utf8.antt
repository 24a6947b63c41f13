-- ===== src/Utf8.antt =====
-- The part of Go's `unicode/utf8` that the program uses: how many bytes `DecodeRuneInString` takes.
-- An invalid encoding counts as one byte, an empty string as none.
use jiaozifs.Prelude.{ℕ, ◌≤◌, ◌≡◌, Bool, true, ◌&&◌, [], ◌∷◌, arith}
use jiaozifs.Prelude.{leb, ◌==◌, if◌then◌else◌, length, Text}

-- A byte between two bounds, both included.
within : ℕ → ℕ → ℕ → Bool
within lo hi b = leb lo b && leb b hi

continuation : ℕ → Bool
unfolding within
continuation b = within 0x80 0xbf b

-- The second byte that may follow the first: the table `acceptRanges` of the Go library.
second_accepted : ℕ → ℕ → Bool
unfolding within
second_accepted a b =
    if a == 0xe0
    then within 0xa0 0xbf b
    else if a == 0xed
    then within 0x80 0x9f b
    else if a == 0xf0
    then within 0x90 0xbf b
    else if a == 0xf4
    then within 0x80 0x8f b
    else within 0x80 0xbf b

-- The length that the first byte of a multi-byte encoding announces; 1 if it begins none.
announced : ℕ → ℕ
unfolding within
announced a =
    if within 0xc2 0xdf a
    then 2
    else if within 0xe0 0xef a
    then 3
    else if within 0xf0 0xf4 a
    then 4
    else 1

width_two : ℕ → Text → ℕ
width_two a [] = 1
width_two a (b ∷ s) = if second_accepted a b then 2 else 1

width_three : ℕ → Text → ℕ
width_three a (b ∷ c ∷ s) = if second_accepted a b && continuation c then 3 else 1
width_three a s = 1

width_four : ℕ → Text → ℕ
width_four a (b ∷ c ∷ d ∷ s) =
    if second_accepted a b && continuation c && continuation d then 4 else 1
width_four a s = 1

width_after : ℕ → ℕ → Text → ℕ
width_after n a s =
    if n == 2
    then width_two a s
    else if n == 3
    then width_three a s
    else if n == 4
    then width_four a s
    else 1

-- The second result of `utf8.DecodeRuneInString`.
unfoldable pub rune_width : Text → ℕ
unfolding continuation second_accepted announced width_two width_three width_four width_after
rune_width [] = 0
rune_width (a ∷ s) = width_after (announced a) a s

width_two-le : (a : ℕ) (s : Text) → (1 ≤ width_two a s) × (width_two a s ≤ length (a ∷ s))
unfolding width_two
width_two-le a [] = omega arith
width_two-le a (b ∷ s) = ground arith

width_three-le : (a : ℕ) (s : Text) → (1 ≤ width_three a s) × (width_three a s ≤ length (a ∷ s))
unfolding width_three
width_three-le a (b ∷ c ∷ s) = ground arith
width_three-le a _ = omega arith

width_four-le : (a : ℕ) (s : Text) → (1 ≤ width_four a s) × (width_four a s ≤ length (a ∷ s))
unfolding width_four
width_four-le a (b ∷ c ∷ d ∷ s) = ground arith
width_four-le a _ = omega arith

width_after-le :
    (n a : ℕ) (s : Text) → (1 ≤ width_after n a s) × (width_after n a s ≤ length (a ∷ s))
unfolding width_after
width_after-le n a s = ground (arith, width_two-le a s, width_three-le a s, width_four-le a s)

-- A byte is taken from every text that has one, and never more than there are.
pub rune_width-bounds :
    (a : ℕ) (s : Text) → (1 ≤ rune_width (a ∷ s)) × (rune_width (a ∷ s) ≤ length (a ∷ s))
unfolding rune_width
rune_width-bounds a s = width_after-le (announced a) a s

announced_ascii : (a : ℕ) → leb a 127 ≡ true → announced a ≡ 1
unfolding announced
announced_ascii a h = ground arith

-- An ASCII byte stands for itself.
pub rune_width_ascii : (a : ℕ) (s : Text) → a ≤ 127 → rune_width (a ∷ s) ≡ 1
unfolding rune_width
rune_width_ascii a s h = rw (announced_ascii a (ground arith))
