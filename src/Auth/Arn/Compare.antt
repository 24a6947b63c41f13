-- ===== src/Auth/Arn/Compare.antt =====
-- What `ArnMatch` decides: a wildcard match of the resource inside one partition, service and account.
use jiaozifs.Prelude.{◌≡◌, ◌↔◌, ◌⊎◌, inl, inr, refl, subst, true, arith}
use jiaozifs.Prelude.{
  Result, ok, err, Text, text_eq, text_eq_iff, text_eq_refl, Bool-cases, All-append_right,
}
use jiaozifs.Auth.Model.{all_resources}
use jiaozifs.Auth.Wildcard
use jiaozifs.Auth.Wildcard.Language.{Matches, IsAscii}
use jiaozifs.Auth.Wildcard.Correct.{match_sound, match_iff}
use jiaozifs.Auth.Arn.{Arn, ArnError, invalid_arn, parse_arn, match_fields, arn_match}
use jiaozifs.Auth.Arn.Parse.{print_arn, IsArn, parse_arn_iff}

-- One name covers another: both are well formed, have the same account, and the resource matches.
pub record Covers (src dst : Text) : Type 0 where
  pub source : Arn
  pub dest : Arn
  pub source_text : src ≡ print_arn source
  pub dest_text : dst ≡ print_arn dest
  pub source_IsArn : IsArn source
  pub dest_IsArn : IsArn dest
  pub account : source.account_id ≡ dest.account_id
  pub resource : Matches source.resource_id dest.resource_id

pub match_fields_iff :
    (a b : Arn)
    → IsArn a
    → IsArn b
    → (match_fields a b ≡ true)
      ↔ ((a.account_id ≡ b.account_id) × (Wildcard.match a.resource_id b.resource_id ≡ true))
unfolding match_fields
match_fields_iff a b v w = ground (
  arith,
  text_eq_iff a.service b.service,
  text_eq_iff a.partition b.partition,
  text_eq_iff a.account_id b.account_id,
)

Result-cases : (r : Result ArnError Arn) → (r ≡ err invalid_arn) ⊎ ((a : Arn) × (r ≡ ok a))
Result-cases (ok a) = inr (a, refl)
Result-cases (err invalid_arn) = inl refl

-- A match of two names other than the lone star comes from parsing both.
arn_match-eq-true :
    (src dst : Text)
    → arn_match src dst ≡ true
    → (src ≡ all_resources)
      ⊎ ((a : Arn) × (b : Arn) × (parse_arn src ≡ ok a)
          × (parse_arn dst ≡ ok b)
          × (match_fields a b ≡ true))
unfolding arn_match
arn_match-eq-true src dst e = elim (Bool-cases (text_eq src all_resources)) [
  | inl q ↦ inl ((text_eq_iff src all_resources).0 q)
  | inr q ↦ elim (Result-cases (parse_arn src)) [
    | inl p ↦ cc (rw (q, p, arn_match) at e)
    | inr (a, p) ↦ elim (Result-cases (parse_arn dst)) [
      | inl p' ↦ cc (rw (q, p, p', arn_match) at e)
      | inr (b, p') ↦ inr (a, b, p, p', rw (q, p, p', arn_match) at e)
    ]
  ]
]

pub arn_match_sound :
    (src dst : Text) → arn_match src dst ≡ true → (src ≡ all_resources) ⊎ Covers src dst
arn_match_sound src dst e = elim (arn_match-eq-true src dst e) [
  | inl q ↦ inl q
  | inr (a, b, p, p', m) ↦
      let (src_text, v) = (parse_arn_iff src a).0 p in
      let (dst_text, w) = (parse_arn_iff dst b).0 p' in
      let (same, matched) = (match_fields_iff a b v w).0 m in
      inr (record {
        source = a;
        dest = b;
        source_text = src_text;
        dest_text = dst_text;
        source_IsArn = v;
        dest_IsArn = w;
        account = same;
        resource = match_sound a.resource_id b.resource_id matched;
      })
]

pub arn_match_all : (dst : Text) → arn_match all_resources dst ≡ true
unfolding arn_match
arn_match_all dst = rw (text_eq_refl all_resources)

-- The resource of an ASCII name is ASCII.
resource-IsAscii : (a : Arn) → IsAscii (print_arn a) → IsAscii a.resource_id
resource-IsAscii a h =
    let h1 = All-append_right _ a.partition _ h.1.1.1.1 in
    let h2 = All-append_right _ a.service _ h1.1 in
    let h3 = All-append_right _ a.region _ h2.1 in
    let h4 = All-append_right _ a.account_id _ h3.1 in h4.1

pub arn_match_complete : (src dst : Text) → IsAscii dst → Covers src dst → arn_match src dst ≡ true
unfolding arn_match
arn_match_complete src dst ascii c = elim (Bool-cases (text_eq src all_resources)) [
  | inl q ↦ rw q
  | inr q ↦
      let p = (parse_arn_iff src c.source).1 (c.source_text, c.source_IsArn) in
      let p' = (parse_arn_iff dst c.dest).1 (c.dest_text, c.dest_IsArn) in
      let plain = resource-IsAscii c.dest (subst IsAscii c.dest_text ascii) in
      let matched = (match_iff c.source.resource_id c.dest.resource_id plain).1 c.resource in
      rw (q, p, p', arn_match)
        ((match_fields_iff c.source c.dest c.source_IsArn c.dest_IsArn).1 (c.account, matched))
]

-- For an ASCII name: the pattern matches exactly if it is the lone star, or both are resource names
-- with one account and the resource of the pattern matches that of the name.
pub arn_match_iff :
    (src dst : Text)
    → IsAscii dst
    → (arn_match src dst ≡ true) ↔ ((src ≡ all_resources) ⊎ Covers src dst)
arn_match_iff src dst ascii = (
  arn_match_sound src dst,
  λ s. elim s [ inl e ↦ rw e (arn_match_all dst) | inr c ↦ arn_match_complete src dst ascii c ],
)
