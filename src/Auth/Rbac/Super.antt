-- ===== src/Auth/Rbac/Super.antt =====
-- What `InitRbac` sets up in empty tables: its first user may do everything.
use jiaozifs.Prelude.{
  ℕ, ◌≡◌, ◌≢◌, ◌⊎◌, inl, inr, refl, true, false, [], ◌∷◌, ◌++◌, arith, Any, now, later,
}
use jiaozifs.Prelude.{Bool-cases, Text, codes, text_eq, text_eq_iff, text_eq_refl, ok, err, ◌>>=◌}
use jiaozifs.Auth.Model.{Uuid, Policy, Statement, effect_allow, all_resources, Group, User}
use jiaozifs.Prelude.{contains}
use jiaozifs.Auth.Statements.{all_access_actions}
use jiaozifs.Auth.Arn.Compare.{arn_match_all}
use jiaozifs.Auth.Check.Leaf.{Denying, Some, check_policies_iff}
use jiaozifs.Auth.Wildcard
use jiaozifs.Auth.Check.{Permission, ResourceParams, node, check_permissions, render, allow}
use jiaozifs.Auth.Db.{Db, list_policies, get_group_by_user_id}
use jiaozifs.Auth.Rbac.{allowed, init_rbac, authorize, respond, super_group}

-- The tables of a new installation.
abbrev pub empty_db : Db
empty_db = record {
  policies = [];
  groups = [];
  user_groups = [];
  users = [];
  members = [];
  repositories = [];
  issued = 0;
}

-- The action belongs to one of the three services.
abbrev pub IsSystem : Text → Type 0
IsSystem action =
    ((t : Text) × (action ≡ codes "repo:" ++ t))
    ⊎ (((t : Text) × (action ≡ codes "auth:" ++ t)) ⊎ ((t : Text) × (action ≡ codes "user:" ++ t)))

match_repo : (t : Text) → Wildcard.match (codes "repo:*") (codes "repo:" ++ t) ≡ true
unfolding Wildcard.match
match_repo [] = refl
match_repo (b ∷ t) = refl

match_auth : (t : Text) → Wildcard.match (codes "auth:*") (codes "auth:" ++ t) ≡ true
unfolding Wildcard.match
match_auth [] = refl
match_auth (b ∷ t) = refl

match_user : (t : Text) → Wildcard.match (codes "user:*") (codes "user:" ++ t) ≡ true
unfolding Wildcard.match
match_user [] = refl
match_user (b ∷ t) = refl

render_all : (params : ResourceParams) → render params all_resources ≡ all_resources
unfolding render
render_all params = ground arith

abbrev super_statement : Statement
super_statement = record {
  effect = effect_allow;
  actions = all_access_actions;
  resource = all_resources;
}

abbrev super_policy : Uuid → Policy
super_policy id = record { id = id; name = super_group; statements = super_statement ∷ [] }

system_action :
    (action : Text) → IsSystem action → Any (λ a. Wildcard.match a action ≡ true) all_access_actions
system_action action (inl (t, e)) = now (rw e (match_repo t))
system_action action (inr (inl (t, e))) = later (now (rw e (match_auth t)))
system_action action (inr (inr (t, e))) = later (later (now (rw e (match_user t))))

super_check :
    (id : Uuid) (perm : Permission) (params : ResourceParams)
    → IsSystem perm.action
    → check_permissions (node perm) params (super_policy id ∷ []) ≡ allow
unfolding check_permissions
super_check id perm params h = (check_policies_iff perm params (super_policy id ∷ [])).1.1 (
  no_denial,
  now (
      now (record {
        resource = rw (render_all params) (arn_match_all perm.resource);
        action = system_action perm.action h;
      })),
)
  where
    no_denial : ¬ Some perm params (Denying perm params) (super_policy id ∷ [])
    no_denial (now (now (_, e))) = cc
    no_denial (now (later a)) = elim a [ ]
    no_denial (later a) = elim a [ ]

module _ (uuid_generate : ℕ → Uuid) (admin_user : User)
    (distinct : (i j : ℕ) → uuid_generate i ≡ uuid_generate j → i ≡ j) where
  pub differ : (i j : ℕ) → i ≢ j → text_eq (uuid_generate i) (uuid_generate j) ≡ false
  differ i j h = elim (Bool-cases (text_eq (uuid_generate i) (uuid_generate j))) [
    | inl e ↦ absurd (h (distinct i j ((text_eq_iff (uuid_generate i) (uuid_generate j)).0 e)))
    | inr e ↦ e
  ]

  -- The tables after `InitRbac`, and its administrator.
  unfoldable pub installed : Uuid × Db
  unfolding init_rbac
  installed = elim (init_rbac uuid_generate admin_user empty_db) [
    | ok p ↦ p
    | err e ↦ ([], empty_db)
  ]

  pub init_rbac-installed : init_rbac uuid_generate admin_user empty_db ≡ ok installed
  unfolding installed
  init_rbac-installed = refl

  abbrev admin_group : Group
  admin_group = record { id = uuid_generate 1; name = super_group; policies = uuid_generate 0 ∷ [] }

  installed_group : get_group_by_user_id installed.1 installed.0 ≡ ok admin_group
  unfolding installed get_group_by_user_id
  installed_group = ground (
    arith,
    text_eq_refl (uuid_generate 12),
    text_eq_refl (uuid_generate 1),
    differ 11 1 (omega arith),
    differ 9 1 (omega arith),
    differ 7 1 (omega arith),
    differ 5 1 (omega arith),
    differ 3 1 (omega arith),
  )

  installed_policies :
      list_policies installed.1 (uuid_generate 0 ∷ []) ≡ super_policy (uuid_generate 0) ∷ []
  unfolding installed list_policies contains
  installed_policies = ground (
    arith,
    text_eq_refl (uuid_generate 0),
    differ 0 10 (omega arith),
    differ 0 8 (omega arith),
    differ 0 6 (omega arith),
    differ 0 4 (omega arith),
    differ 0 2 (omega arith),
  )

  -- In a new installation `InitRbac` succeeds, and then its administrator is allowed every
  -- permission whose action belongs to one of the services, on any resource.
  pub init_rbac-authorize :
      (perm : Permission)
      → IsSystem perm.action
      → (init_rbac uuid_generate admin_user empty_db >>= λ (admin, db).
          authorize db admin (node perm))
        ≡ ok allowed
  unfolding authorize respond
  init_rbac-authorize perm h =
      rw (init_rbac-installed, authorize, installed_group, installed_policies)
        (rw (super_check (uuid_generate 0) perm _ h))
