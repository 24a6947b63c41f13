-- ===== src/Filemode.antt =====
-- models/filemode/filemode.go: git's file modes and the modes of the file system.
pub mod Print
pub mod Disk
use jiaozifs.Prelude.{
  ℕ, zero, suc, ◌+◌, ◌-◌, ◌*◌, ◌/◌, ◌%◌, ◌^◌, ◌≡◌, refl, Bool, true, false, not, ◌&&◌, ◌||◌, List,
  [], ◌∷◌, ◌++◌,
}
use jiaozifs.Prelude.{
  Result, ok, err, Text, ltb, leb, ◌==◌, if◌then◌else◌, ◌⊎◌, inl, inr, Bool-cases, arith,
}

-- A `FileMode` is an unsigned number of 32 bits. The constants are those of the file, in octal there.
abbrev pub empty_mode : ℕ
empty_mode = 0

abbrev pub dir : ℕ
dir = 0x4000

abbrev pub regular : ℕ
regular = 0x81a4

abbrev pub deprecated : ℕ
deprecated = 0x81b4

abbrev pub executable : ℕ
executable = 0x81ed

abbrev pub symlink : ℕ
symlink = 0xa000

abbrev pub submodule : ℕ
submodule = 0xe000

-- `no_equivalent` and `malformed_mode` are the errors of the two conversions, `bad_syntax` and
-- `out_of_range` those of `strconv.ParseUint`.
pub data ModeError : Type 0 where
  no_equivalent malformed_mode bad_syntax out_of_range : ModeError

-- `m & (1 << k) != 0`
bit : ℕ → ℕ → Bool
bit m k = (m / 2 ^ k) % 2 == 1

-- The bits of `os.FileMode`.
abbrev mode_dir : ℕ
mode_dir = 31

abbrev mode_temporary : ℕ
mode_temporary = 28

abbrev mode_symlink : ℕ
mode_symlink = 27

abbrev mode_char_device : ℕ
mode_char_device = 21

-- The bits of `os.ModeType`: directory, symbolic link, device, named pipe, socket, character device
-- and irregular.
abbrev mode_type : List ℕ
mode_type = mode_dir ∷ mode_symlink ∷ 26 ∷ 25 ∷ 24 ∷ mode_char_device ∷ 19 ∷ []

any_bit : ℕ → List ℕ → Bool
unfolding bit
any_bit m [] = false
any_bit m (k ∷ ks) = bit m k || any_bit m ks

-- `os.FileMode.IsRegular`
os_is_regular : ℕ → Bool
unfolding any_bit
os_is_regular m = not (any_bit m mode_type)

pub is_set_char_device : ℕ → Bool
unfolding bit
is_set_char_device m = bit m mode_char_device

pub is_set_temporary : ℕ → Bool
unfolding bit
is_set_temporary m = bit m mode_temporary

pub is_set_user_executable : ℕ → Bool
unfolding bit
is_set_user_executable m = bit m 6

pub is_set_sym_link : ℕ → Bool
unfolding bit
is_set_sym_link m = bit m mode_symlink

unfoldable pub new_from_os_file_mode : ℕ → Result ModeError ℕ
unfolding os_is_regular is_set_char_device is_set_temporary is_set_user_executable is_set_sym_link
    bit
new_from_os_file_mode m =
    if os_is_regular m
    then (if is_set_temporary m
        then err no_equivalent
        else if is_set_char_device m
        then err no_equivalent
        else if is_set_user_executable m
        then ok executable
        else ok regular)
    else if bit m mode_dir
    then ok dir
    else if is_set_sym_link m
    then ok symlink
    else err no_equivalent

unfoldable pub is_malformed : ℕ → Bool
is_malformed m =
    not (m == dir)
    && not (m == regular)
    && not (m == deprecated)
    && not (m == executable)
    && not (m == symlink)
    && not (m == submodule)

unfoldable pub is_regular : ℕ → Bool
is_regular m = m == regular || m == deprecated

unfoldable pub is_file : ℕ → Bool
is_file m = m == regular || m == deprecated || m == executable || m == symlink

-- `os.ModePerm` is 0777 in octal.
unfoldable pub to_os_file_mode : ℕ → Result ModeError ℕ
to_os_file_mode m =
    if m == dir
    then ok (0x1ff + 2 ^ mode_dir)
    else if m == submodule
    then ok (0x1ff + 2 ^ mode_dir)
    else if m == regular
    then ok 0x1a4
    else if m == deprecated
    then ok 0x1a4
    else if m == executable
    then ok 0x1ed
    else if m == symlink
    then ok (0x1ff + 2 ^ mode_symlink)
    else err malformed_mode

-- `Bytes`: four bytes, the lowest first.
unfoldable pub bytes : ℕ → Text
bytes m = (m % 256) ∷ ((m / 256) % 256) ∷ ((m / 65536) % 256) ∷ ((m / 16777216) % 256) ∷ []

is_octal : ℕ → Bool
is_octal c = leb b'0' c && leb c b'7'

-- The loop of `strconv.ParseUint` for base 8 and 32 bits, on the value so far.
parse_octal : ℕ → Text → Result ModeError ℕ
unfolding is_octal
parse_octal n [] = ok n
parse_octal n (c ∷ s) =
    let value = n * 8 + (c - b'0') in
    let rest = parse_octal value s in
    if not (is_octal c)
    then err bad_syntax
    else if ltb value (2 ^ 32)
    then rest
    else err out_of_range

-- `New`; the mode that it returns with an error is `Empty`.
unfoldable pub new_mode : Text → Result ModeError ℕ
unfolding parse_octal
new_mode [] = err bad_syntax
new_mode (c ∷ s) = parse_octal 0 (c ∷ s)

-- The last `k` octal digits.
octal_digits : ℕ → ℕ → Text
octal_digits zero m = []
octal_digits (suc k) m = octal_digits k (m / 8) ++ (b'0' + m % 8) ∷ []

-- The digits of a number of 32 bits past the seventh: none where the number is small enough.
leading : ℕ → ℕ → Text
leading zero m = []
leading (suc k) m =
    let rest = leading k (m / 8) in if m == 0 then [] else rest ++ (b'0' + m % 8) ∷ []

-- `String`: seven octal digits, and those before them that the number needs.
unfoldable pub mode_string : ℕ → Text
unfolding octal_digits leading
mode_string m = leading 4 (m / 2097152) ++ octal_digits 7 m

-- What a round trip through the file system leaves of a mode.
abbrev pub canonical : ℕ → ℕ
canonical m = if m == deprecated then regular else if m == submodule then dir else m
