-- ===== src/HttpRange.antt =====
-- utils/httputil/range.go: the range of bytes that a request asks for.
use jiaozifs.Prelude.{ℕ, suc, ◌+◌, ◌-◌, ◌*◌, ◌^◌, ◌≤◌, ◌≡◌, Bool, not, ◌&&◌, List, [], ◌∷◌, arith}
use jiaozifs.Prelude.{
  Result, ok, err, ◌>>=◌, >>=-eq-ok, Text, codes, ltb, leb, ◌==◌, if◌then◌else◌, is_empty, drop,
  has_prefix,
}
use jiaozifs.Strings.{split}

-- `end` is the field `EndOffset` plus one: that field is -1 for the suffix of an empty object.
pub record Range : Type 0 where
  pub start_offset : ℕ
  pub end : ℕ

pub data RangeError : Type 0 where
  bad_range unsatisfiable_range : RangeError

is_digit : ℕ → Bool
is_digit c = leb b'0' c && leb c b'9'

-- The loop of `strconv.ParseInt` in base 10 for 64 bits, on the value so far.
parse_digits : ℕ → Text → Result RangeError ℕ
unfolding is_digit
parse_digits n [] = ok n
parse_digits n (c ∷ s) =
    let value = n * 10 + (c - b'0') in
    let rest = parse_digits value s in
    if is_digit c && ltb value (2 ^ 63) then rest else err bad_range

parse_unsigned : Text → Result RangeError ℕ
unfolding parse_digits
parse_unsigned [] = err bad_range
parse_unsigned (c ∷ s) = parse_digits 0 (c ∷ s)

-- `strconv.ParseInt`, whose errors all become `ErrBadRange`. A minus never reaches it, since the
-- parts are cut at every minus.
parse_int : Text → Result RangeError ℕ
unfolding parse_unsigned
parse_int [] = err bad_range
parse_int (c ∷ s) = if c == b'+' then parse_unsigned s else parse_unsigned (c ∷ s)

-- A suffix of the object; the subtraction stops at 0, as the test in the code does.
suffix_range : Text → ℕ → Result RangeError Range
unfolding parse_int
suffix_range to length =
    parse_int to >>= λ n. ok (record { start_offset = length - n; end = length })

from_range : Text → ℕ → Result RangeError Range
unfolding parse_int
from_range from length = parse_int from >>= λ b.
    if leb length b then err unsatisfiable_range else ok (record { start_offset = b; end = length })

-- After the cut at the length the second part of the test for satisfiability is only true for an
-- object of negative length.
both_range : Text → Text → ℕ → Result RangeError Range
unfolding parse_int
both_range from to length = parse_int from >>= λ b. parse_int to >>= λ e.
    if leb length b
    then err unsatisfiable_range
    else ok (record { start_offset = b; end = if leb length e then length else suc e })

range_of_parts : List Text → ℕ → Result RangeError Range
unfolding suffix_range from_range both_range
range_of_parts (from ∷ to ∷ []) length =
    if is_empty from && is_empty to
    then err bad_range
    else if is_empty from
    then suffix_range to length
    else if is_empty to
    then from_range from length
    else both_range from to length
range_of_parts parts length = err bad_range

-- `ParseRange`, for a length that is not negative.
unfoldable pub parse_range : Text → ℕ → Result RangeError Range
unfolding range_of_parts split has_prefix
parse_range spec length =
    if not (has_prefix spec (codes "bytes="))
    then err bad_range
    else range_of_parts (split b'-' (drop 6 spec)) length

suffix_range-le :
    (to : Text) (n : ℕ) (r : Range) → suffix_range to n ≡ ok r → (r.start_offset ≤ n) × (r.end ≤ n)
unfolding suffix_range
suffix_range-le to n r h = let (b, e, e') = >>=-eq-ok (parse_int to) _ h in ground arith

from_range-le :
    (from : Text) (n : ℕ) (r : Range)
    → from_range from n ≡ ok r
    → (r.start_offset ≤ n) × (r.end ≤ n)
unfolding from_range
from_range-le from n r h = let (b, e, e') = >>=-eq-ok (parse_int from) _ h in ground arith

both_range-le :
    (from to : Text) (n : ℕ) (r : Range)
    → both_range from to n ≡ ok r
    → (r.start_offset ≤ n) × (r.end ≤ n)
unfolding both_range
both_range-le from to n r h =
    let (b, e, e') = >>=-eq-ok (parse_int from) _ h in
    let (c, d, d') = >>=-eq-ok (parse_int to) _ e' in ground arith

range_of_parts-le :
    (parts : List Text) (n : ℕ) (r : Range)
    → range_of_parts parts n ≡ ok r
    → (r.start_offset ≤ n) × (r.end ≤ n)
unfolding range_of_parts
range_of_parts-le (from ∷ to ∷ []) n r h =
    ground (arith, suffix_range-le to n r, from_range-le from n r, both_range-le from to n r)
range_of_parts-le _ n r h = cc

-- A range that parsing gives never reaches past the object: its start is at most the length, and
-- so is its end, the byte after its last.
pub parse_range-le :
    (spec : Text) (n : ℕ) (r : Range)
    → parse_range spec n ≡ ok r
    → (r.start_offset ≤ n) × (r.end ≤ n)
unfolding parse_range
parse_range-le spec n r h = ground (arith, range_of_parts-le (split b'-' (drop 6 spec)) n r)
