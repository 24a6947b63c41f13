-- ===== src/Auth/Rbac.antt =====
-- auth/rbac/rbac.go: the built-in groups, and the answers for a user and for a repository's member.
pub mod Policies
pub mod Viewer
pub mod Super
pub mod Stranger
use jiaozifs.Prelude.{ℕ, Bool, true, false, not, List, [], ◌∷◌, ◌++◌, Option, none, some}
use jiaozifs.Prelude.{Result, ok, err, ◌>>=◌, if◌then◌else◌, Text, codes, text_eq, is_empty}
use jiaozifs.Auth.Model.{
  Uuid, nil_uuid, Resource, all_resources, user_id_capture, repo_id_capture, repo_u_r_arn,
  repo_u_arn, user_arn, user_aksk_arn, effect_allow, effect_deny, Statement, Policy, Group, User,
}
use jiaozifs.Auth.Actions.{update_visible_action, create_repository_action}
use jiaozifs.Auth.Statements.{StatementError, make_statement_for_policy_type}
use jiaozifs.Auth.Check.{CheckResult, allow, neutral, deny, Node, ResourceParams, check_permissions}
use jiaozifs.Auth.Db.{
  RbacError, not_found, duplicate, statement_not_found, Member, Repository, UserGroup, Db,
  list_policies, get_group_by_user_id, get_group_by_id, get_group_by_name, get_member,
  get_repository, insert_policy, insert_group, insert_user, insert_user_group,
}

abbrev pub super_group : Text
super_group = codes "Super"

abbrev pub repo_admin : Text
repo_admin = codes "RepoAdmin"

abbrev pub repo_write : Text
repo_write = codes "RepoWrite"

abbrev pub repo_read : Text
repo_read = codes "RepoRead"

abbrev pub repo_viewer : Text
repo_viewer = codes "Viewer"

abbrev pub user_own_access : Text
user_own_access = codes "UserOwnAccess"

or_die : Result StatementError (List Statement) → Result RbacError (List Statement)
or_die (ok statements) = ok statements
or_die (err e) = err statement_not_found

-- `MakeStatementForPolicyTypeOrDie`
make_statement_or_die : Text → List Resource → Result RbacError (List Statement)
unfolding or_die make_statement_for_policy_type
make_statement_or_die typ resources = or_die (make_statement_for_policy_type typ resources)

-- The statements of the built-in groups that `InitRbac` writes out.
abbrev pub repo_admin_statements : List Statement
unfolding repo_u_r_arn repo_u_arn
repo_admin_statements =
    record {
      effect = effect_allow;
      actions = codes "repo:*" ∷ [];
      resource = repo_u_r_arn user_id_capture repo_id_capture;
    }
    ∷ record {
      effect = effect_deny;
      actions = update_visible_action ∷ [];
      resource = repo_u_arn user_id_capture;
    }
    ∷ []

abbrev pub user_owner_statement : Statement
unfolding repo_u_arn
user_owner_statement = record {
  effect = effect_allow;
  actions = create_repository_action ∷ codes "repo:*" ∷ [];
  resource = repo_u_arn user_id_capture;
}

abbrev new_policy : Text → List Statement → Policy
new_policy name statements = record { id = nil_uuid; name = name; statements = statements }

module _ (uuid_generate : ℕ → Uuid) where
  -- `addGroupPolicy`. Every caller passes one policy.
  add_group_policy : Text → Policy → Db → Result RbacError (Group × Db)
  unfolding insert_policy insert_group
  add_group_policy group_name policy db = do
    (policy', db') ← insert_policy uuid_generate policy db
    insert_group uuid_generate
        (record { id = nil_uuid; name = group_name; policies = policy'.id ∷ [] }) db'

  -- `InitRbac` of an administrator: the transaction keeps the new tables only if every step succeeds.
  unfoldable pub init_rbac : User → Db → Result RbacError (Uuid × Db)
  unfolding add_group_policy make_statement_or_die repo_u_r_arn repo_u_arn user_arn user_aksk_arn
      insert_user insert_user_group
  init_rbac admin_user db0 = do
    let all = all_resources ∷ []
    let repo = repo_u_r_arn user_id_capture repo_id_capture ∷ []
    all_access ← make_statement_or_die (codes "AllAccess") all
    (super, db1) ← add_group_policy super_group (new_policy super_group all_access) db0
    (_, db2) ← add_group_policy repo_admin (new_policy repo_admin repo_admin_statements) db1
    read_write ← make_statement_or_die (codes "RepoReadWrite") repo
    (_, db3) ← add_group_policy repo_write (new_policy repo_write read_write) db2
    read ← make_statement_or_die (codes "RepoRead") repo
    (_, db4) ← add_group_policy repo_read (new_policy repo_read read) db3
    view ← make_statement_or_die (codes "RepoRead") repo
    (_, db5) ← add_group_policy repo_viewer (new_policy repo_viewer view) db4
    own ←
        make_statement_or_die (codes "UserFullAccess")
          (user_arn user_id_capture ∷ user_aksk_arn user_id_capture ∷ [])
    (_, db6) ←
        add_group_policy user_own_access
          (new_policy user_own_access (own ++ user_owner_statement ∷ [])) db5
    (admin, db7) ← insert_user uuid_generate admin_user db6
    db8 ←
        insert_user_group uuid_generate
          (record { id = nil_uuid; user_id = admin.id; group_id = super.id }) db7
    ok (admin.id, db8)

-- `AuthorizationResponse`: allowed, or refused with `ErrInsufficientPermissions`.
pub data Response : Type 0 where
  allowed insufficient_permissions : Response

pub respond : CheckResult → Response
respond allow = allowed
respond _ = insufficient_permissions

unfoldable pub authorize : Db → Uuid → Node → Result RbacError Response
authorize db operator_id required = do
  group ← get_group_by_user_id db operator_id
  let policies = list_policies db group.policies
  ok (
      respond (
        check_permissions required (record { user_id = operator_id; repo_id = nil_uuid }) policies))

-- `viewerPolicies`, the field of `RbacAuth` that is kept between calls; empty while it is nil.
pub record RbacAuth : Type 0 where
  pub viewer_policies : List Policy

unfoldable pub get_viewer_policy : Db → RbacAuth → Result RbacError (List Policy × RbacAuth)
unfolding get_group_by_name list_policies
get_viewer_policy db s =
    let fetched : Result RbacError (List Policy × RbacAuth) =
      get_group_by_name db repo_viewer >>= λ group.
      let policies = list_policies db group.policies in
      ok (policies, record { viewer_policies = policies }) in
    if not (is_empty s.viewer_policies) then ok (s.viewer_policies, s) else fetched

pub get_member_policy : Db → Uuid → Uuid → Result RbacError (List Policy)
get_member_policy db operator_id repo_id = do
  member ← get_member db operator_id repo_id
  group ← get_group_by_id db member.group_id
  ok (list_policies db group.policies)

-- `err != nil && !errors.Is(err, models.ErrNotFound)`
pub or_none : Result RbacError (List Policy) → Result RbacError (List Policy)
or_none (err not_found) = ok []
or_none r = r

-- The policies for a repository: the viewers' if it is visible, then the member's.
pub member_policies :
    Db → RbacAuth → Repository → Uuid → Uuid → Result RbacError (List Policy × RbacAuth)
member_policies db s repo repo_id operator_id = do
  (viewer, s') ← (if repo.visible then get_viewer_policy db s else ok ([], s))
  member ← or_none (get_member_policy db operator_id repo_id)
  ok (viewer ++ member, s')

-- The cache is left as it was where the call fails before it is written.
unfoldable pub authorize_member :
    Db → RbacAuth → Uuid → Uuid → Node → Result RbacError (Response × RbacAuth)
unfolding member_policies get_viewer_policy get_member_policy or_none respond
authorize_member db s repo_id operator_id required = do
  repo ← get_repository db repo_id
  let params : ResourceParams = record { user_id = repo.owner_id; repo_id = repo_id }
  let answer : Result RbacError (Response × RbacAuth) =
      member_policies db s repo repo_id operator_id >>= λ (policies, s').
      if is_empty policies
      then ok (insufficient_permissions, s')
      else ok (respond (check_permissions required params policies), s')
  if text_eq repo.owner_id operator_id then ok (allowed, s) else answer
