-- ===== src/Auth/Arn.antt =====
-- auth/rbac/arn.go: the five fields of a resource name, and the match of one name against another.
pub mod Parse
pub mod Compare
use jiaozifs.Prelude.{ℕ, suc, Bool, true, false, not, ◌||◌, List, [], ◌∷◌, Result, ok, err, ◌>>=◌}
use jiaozifs.Prelude.{ltb, ◌==◌, if◌then◌else◌, is_empty, length, Text, codes, text_eq}
use jiaozifs.Strings.{split_n}
use jiaozifs.Auth.Wildcard
use jiaozifs.Auth.Model.{all_resources}

pub record Arn : Type 0 where
  pub partition : Text
  pub service : Text
  pub region : Text
  pub account_id : Text
  pub resource_id : Text

-- `ErrInvalidArn`, the only error of this file.
pub data ArnError : Type 0 where
  invalid_arn : ArnError

abbrev pub empty_arn : Arn
empty_arn = record { partition = []; service = []; region = []; account_id = []; resource_id = [] }

-- The indices are those of the constant block: 0 is `fieldIndexArn`, 5 `fieldIndexResource`.
-- On an error the Go function also returns the fields set so far, which no caller reads.
pub arn_parse_field : Arn → Text → ℕ → Result ArnError Arn
unfolding text_eq
arn_parse_field arn field i =
    if i == 0
    then (if not (text_eq field (codes "arn")) then err invalid_arn else ok arn)
    else if i == 1
    then (if not (text_eq field (codes "gitdata"))
        then err invalid_arn
        else ok (record arn { partition = field }))
    else if i == 2
    then (if ltb (length field) 1
        then err invalid_arn
        else if not (text_eq field (codes "jiaozifs"))
        then err invalid_arn
        else ok (record arn { service = field }))
    else if i == 3
    then ok (record arn { region = field })
    else if i == 4
    then ok (record arn { account_id = field })
    else if i == 5
    then (if ltb (length field) 1 then err invalid_arn else ok (record arn { resource_id = field }))
    else ok arn

-- The loop over the parts.
pub parse_fields : Arn → ℕ → List Text → Result ArnError Arn
parse_fields arn i [] = ok arn
parse_fields arn i (part ∷ parts) =
    arn_parse_field arn part i >>= λ arn'. parse_fields arn' (suc i) parts

pub parse_parts : List Text → Result ArnError Arn
unfolding parse_fields arn_parse_field
parse_parts parts = if ltb (length parts) 6 then err invalid_arn else parse_fields empty_arn 0 parts

unfoldable pub parse_arn : Text → Result ArnError Arn
unfolding parse_parts split_n
parse_arn s = parse_parts (split_n b':' 5 s)

-- The tests of `ArnMatch` once both names are parsed.
pub match_fields : Arn → Arn → Bool
unfolding text_eq Wildcard.match
match_fields source dest =
    if not (text_eq source.service dest.service)
    then false
    else if not (text_eq source.partition dest.partition)
    then false
    else if not (text_eq source.account_id dest.account_id)
    then false
    else if Wildcard.match source.resource_id dest.resource_id
    then true
    else false

unfoldable pub arn_match : Text → Text → Bool
unfolding text_eq parse_arn match_fields
arn_match src dst = if text_eq src all_resources then true else elim (parse_arn src) [
  | err _ ↦ false
  | ok source ↦ elim (parse_arn dst) [ err _ ↦ false | ok dest ↦ match_fields source dest ]
]
