-- ===== src/Auth/Check.antt =====
-- auth/rbac/rbac.go: `checkPermissions` over a tree of required permissions.
pub mod Leaf
pub mod Tree
use jiaozifs.Prelude.{Bool, true, false, not, ◌&&◌, List, [], ◌∷◌, if◌then◌else◌, Text, text_eq}
use jiaozifs.Auth.Model.{
  Uuid, nil_uuid, Resource, with_user_id, with_repo_id, effect_deny, Statement, Policy,
}
use jiaozifs.Auth.Wildcard
use jiaozifs.Auth.Arn.{arn_match}

pub data CheckResult : Type 0 where
  allow neutral deny : CheckResult

pub record Permission : Type 0 where
  pub action : Text
  pub resource : Resource

-- The struct `Node`, split by its type. `unknown` is any other value of `NodeType`.
mutual
  pub data Node : Type 0 where
    node : Permission → Node
    or_node : Nodes → Node
    and_node : Nodes → Node
    unknown : Node

  pub data Nodes : Type 0 where
    nil : Nodes
    cons : Node → Nodes → Nodes

pub record ResourceParams : Type 0 where
  pub user_id : Uuid
  pub repo_id : Uuid

unfoldable pub render : ResourceParams → Resource → Resource
unfolding text_eq with_user_id with_repo_id
render rp r =
    let r' = if not (text_eq rp.user_id nil_uuid) then with_user_id r rp.user_id else r in
    if not (text_eq rp.repo_id nil_uuid) then with_repo_id r' rp.repo_id else r'

-- The loop over the actions of a statement. The result `deny` is the early return; any other is the
-- variable `allowed` after the loop.
pub check_actions : Text → Text → List Text → CheckResult → CheckResult
unfolding Wildcard.match text_eq
check_actions effect action [] allowed = allowed
check_actions effect action (pattern ∷ actions) allowed =
    let matched = Wildcard.match pattern action in
    let rest = check_actions effect action actions (if matched then allow else allowed) in
    if matched && text_eq effect effect_deny then deny else rest

-- After an early return the loops around it return too.
pub or_return : CheckResult → CheckResult → CheckResult
or_return deny rest = deny
or_return _ rest = rest

pub check_statements : Permission → ResourceParams → List Statement → CheckResult → CheckResult
unfolding check_actions or_return render arn_match
check_statements perm params [] allowed = allowed
check_statements perm params (stmt ∷ stmts) allowed =
    let allowed' =
      if arn_match (render params stmt.resource) perm.resource
      then check_actions stmt.effect perm.action stmt.actions allowed
      else allowed in
    or_return allowed' (check_statements perm params stmts allowed')

pub check_policies : Permission → ResourceParams → List Policy → CheckResult → CheckResult
unfolding check_statements or_return
check_policies perm params [] allowed = allowed
check_policies perm params (policy ∷ policies) allowed =
    let allowed' = check_statements perm params policy.statements allowed in
    or_return allowed' (check_policies perm params policies allowed')

-- `if allowed != CheckAllow { allowed = result }`
pub keep_allow : CheckResult → CheckResult → CheckResult
keep_allow allow result = allow
keep_allow _ result = result

unfoldable mutual
  unfolding check_policies or_return keep_allow

  pub check_permissions : Node → ResourceParams → List Policy → CheckResult
  check_permissions (node perm) params policies = check_policies perm params policies neutral
  check_permissions (or_node nodes) params policies = check_any nodes params policies neutral
  check_permissions (and_node nodes) params policies = check_all nodes params policies
  check_permissions unknown params policies = deny

  -- the loop of `NodeTypeOr`
  pub check_any : Nodes → ResourceParams → List Policy → CheckResult → CheckResult
  check_any nil params policies allowed = allowed
  check_any (cons n nodes) params policies allowed =
      let result = check_permissions n params policies in
      or_return result (check_any nodes params policies (keep_allow allowed result))

  -- the loop of `NodeTypeAnd`
  pub check_all : Nodes → ResourceParams → List Policy → CheckResult
  check_all nil params policies = allow
  check_all (cons n nodes) params policies = elim (check_permissions n params policies) [
    | allow ↦ check_all nodes params policies
    | neutral ↦ neutral
    | deny ↦ deny
  ]
