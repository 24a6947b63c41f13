-- ===== src/Auth/Rbac/Policies.antt =====
-- Which policies a group gives, and what its identifiers being empty means.
use jiaozifs.Prelude.{◌≡◌, ◌↔◌, ◌⊎◌, inl, inr, refl, true, List, [], ◌∷◌, Any, now, later, Any-cons}
use jiaozifs.Prelude.{Bool-cases, ap, sym, ◌∙◌}
use mathlib.Core.Bool.{true≢false}
use jiaozifs.Auth.Model.{Uuid, Policy}
use jiaozifs.Prelude.{contains}
use jiaozifs.Auth.Db.{Db, filter_policies, list_policies}

-- The policy is one of the rows.
abbrev pub Row : Policy → List Policy → Type 0
Row p = Any (λ q. q ≡ p)

filter_policies_iff :
    (ids : List Uuid) (p : Policy) (ps : List Policy)
    → Row p (filter_policies ids ps) ↔ (Row p ps × (contains ids p.id ≡ true))
unfolding filter_policies
filter_policies_iff ids p [] = (λ a. elim a [ ], λ (a, _). elim a [ ])
filter_policies_iff ids p (q ∷ ps) = elim (Bool-cases (contains ids q.id)) [
  | inl e ↦ rw e (
    λ a. elim ((Any-cons _ q (filter_policies ids ps)).0 a) [
      | inl same ↦ (now same, ap (λ (r : Policy). contains ids r.id) (sym same) ∙ e)
      | inr rest ↦ let (row, h) = (filter_policies_iff ids p ps).0 rest in (later row, h)
    ],
    λ (a, h). elim ((Any-cons _ q ps).0 a) [
      | inl same ↦ now same
      | inr rest ↦ later ((filter_policies_iff ids p ps).1 (rest, h))
    ],
  )
  | inr e ↦ rw e (
    λ a. let (row, h) = (filter_policies_iff ids p ps).0 a in (later row, h),
    λ (a, h). elim ((Any-cons _ q ps).0 a) [
      | inl same ↦
          absurd (true≢false (sym h ∙ ap (λ (r : Policy). contains ids r.id) (sym same) ∙ e))
      | inr rest ↦ (filter_policies_iff ids p ps).1 (rest, h)
    ],
  )
]

-- The policies of a list of identifiers are the rows with one of them, but those of an empty list
-- are all the rows.
pub list_policies_iff :
    (db : Db) (ids : List Uuid) (p : Policy)
    → Row p (list_policies db ids) ↔ (Row p db.policies × ((ids ≡ []) ⊎ (contains ids p.id ≡ true)))
unfolding list_policies
list_policies_iff db [] p = (λ a. (a, inl refl), λ (a, _). a)
list_policies_iff db (id ∷ ids) p = (
  λ a. let (row, h) = (filter_policies_iff (id ∷ ids) p db.policies).0 a in (row, inr h),
  λ (a, h). elim h [
    | inl e ↦ absurd (cc)
    | inr e ↦ (filter_policies_iff (id ∷ ids) p db.policies).1 (a, e)
  ],
)
