-- ===== src/Auth/Arn/Parse.antt =====
-- Which texts are resource names: parsing and printing are inverses.
use jiaozifs.Prelude.{◌≤◌, ◌≡◌, ◌≢◌, ◌↔◌, refl, ap, ◌∙◌, List, [], ◌∷◌, ◌++◌}
use jiaozifs.Prelude.{ok, arith, length, Text, codes, text_eq, text_eq_iff, List-cases, inl, inr}
use jiaozifs.Strings.{split_n}
use jiaozifs.Strings.Cut.{
  Without, length-split_n-le, split_n-append, split_n-eq-cons, split_n_last, split_n-zero,
}
use jiaozifs.Auth.Arn.{Arn, parse_parts, parse_arn}

-- The text of a resource name.
abbrev pub print_arn : Arn → Text
print_arn a =
    codes "arn"
    ++ (b':'
        ∷ (a.partition
            ++ (b':'
                ∷ (a.service
                    ++ (b':' ∷ (a.region ++ (b':' ∷ (a.account_id ++ (b':' ∷ a.resource_id)))))))))

-- The fields that a parsed name can have.
pub record IsArn (a : Arn) : Type 0 where
  pub partition : a.partition ≡ codes "gitdata"
  pub service : a.service ≡ codes "jiaozifs"
  pub region : Without b':' a.region
  pub account : Without b':' a.account_id
  pub resource : a.resource_id ≢ []

-- The six parts of a name.
abbrev fields : Arn → List Text
fields a = codes "arn" ∷ a.partition ∷ a.service ∷ a.region ∷ a.account_id ∷ a.resource_id ∷ []

parse_parts-fields :
    (a : Arn)
    → a.partition ≡ codes "gitdata"
    → a.service ≡ codes "jiaozifs"
    → a.resource_id ≢ []
    → parse_parts (fields a) ≡ ok a
unfolding parse_parts text_eq
parse_parts-fields a p s r = elim (List-cases a.resource_id) [
  | inl e ↦ absurd (r e)
  | inr (x, xs, e) ↦ rw (p, s, e) (ground arith)
]

split_n-print : (a : Arn) → IsArn a → split_n b':' 5 (print_arn a) ≡ fields a
split_n-print a v =
    split_n-append b':' 4 (codes "arn") _ (omega arith)
    ∙ ap (λ t. codes "arn" ∷ t)
        (split_n-append b':' 3 a.partition _ (rw v.partition (omega arith))
          ∙ ap (λ t. a.partition ∷ t)
              (split_n-append b':' 2 a.service _ (rw v.service (omega arith))
                ∙ ap (λ t. a.service ∷ t)
                    (split_n-append b':' 1 a.region _ v.region
                      ∙ ap (λ t. a.region ∷ t)
                          (split_n-append b':' 0 a.account_id _ v.account
                            ∙ ap (λ t. a.account_id ∷ t) (split_n-zero b':' a.resource_id)))))

-- What the loop over the parts accepts.
parse_parts-eq-ok :
    (parts : List Text) (a : Arn)
    → length parts ≤ 6
    → parse_parts parts ≡ ok a
    → (parts ≡ fields a)
      × (a.partition ≡ codes "gitdata")
      × (a.service ≡ codes "jiaozifs")
      × (a.resource_id ≢ [])
unfolding parse_parts
parse_parts-eq-ok (p ∷ q ∷ r ∷ s ∷ t ∷ u ∷ []) a h e =
    let first = text_eq_iff p (codes "arn") in
    let second = text_eq_iff q (codes "gitdata") in
    let third = text_eq_iff r (codes "jiaozifs") in
    (
      ground (arith, first, second, third),
      ground (arith, first, second, third),
      ground (arith, first, second, third),
      ground (arith, first, second, third),
    )
parse_parts-eq-ok (p ∷ q ∷ r ∷ s ∷ t ∷ u ∷ v ∷ parts) a h e = absurd (omega arith)
parse_parts-eq-ok _ a h e = cc

parts-print :
    (s : Text) (a : Arn)
    → split_n b':' 5 s ≡ fields a
    → (s ≡ print_arn a) × Without b':' a.region × Without b':' a.account_id
parts-print s a e =
    let (s1, e1, w1, r1) = split_n-eq-cons b':' 4 s _ _ _ e in
    let (s2, e2, w2, r2) = split_n-eq-cons b':' 3 s1 _ _ _ r1 in
    let (s3, e3, w3, r3) = split_n-eq-cons b':' 2 s2 _ _ _ r2 in
    let (s4, e4, w4, r4) = split_n-eq-cons b':' 1 s3 _ _ _ r3 in
    let (s5, e5, w5, r5) = split_n-eq-cons b':' 0 s4 _ _ _ r4 in
    (rw (e1, e2, e3, e4, e5, split_n_last b':' s5 _ r5) refl, w4, w5)

-- Parsing gives `a` exactly on the printed form of `a`: partition `gitdata`, service `jiaozifs`, no
-- colon in the region or the account, and a resource that is not empty (it may hold colons).
pub parse_arn_iff : (s : Text) (a : Arn) → (parse_arn s ≡ ok a) ↔ ((s ≡ print_arn a) × IsArn a)
unfolding parse_arn
parse_arn_iff s a = (
  λ e.
      let (parts, p, q, r) =
        parse_parts-eq-ok (split_n b':' 5 s) a (length-split_n-le b':' 5 s) e in
      let (whole, w, w') = parts-print s a parts in
      (whole, record { partition = p; service = q; region = w; account = w'; resource = r }),
  λ (whole, v).
      ap (λ t. parse_parts (split_n b':' 5 t)) whole
      ∙ ap parse_parts (split_n-print a v)
      ∙ parse_parts-fields a v.partition v.service v.resource,
)
