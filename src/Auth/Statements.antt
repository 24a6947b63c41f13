-- ===== src/Auth/Statements.antt =====
-- auth/rbac/statements.go: the built-in statements by name, and their use for resources.
use jiaozifs.Prelude.{
  List, [], ◌∷◌, map, Option, none, some, Result, ok, err, if◌then◌else◌, Text, codes, text_eq,
  is_empty,
}
use jiaozifs.Auth.Model.{Resource, Statement, effect_allow}
use jiaozifs.Auth.Actions.{
  add_group_member_action, create_branch_action, create_commit_action, create_merge_request_action,
  create_tag_action, create_wip_action, delete_branch_action, delete_object_action,
  delete_repository_action, delete_tag_action, delete_wip_action, get_group_member_action,
  list_branches_action, list_commits_action, list_group_member_action, list_merge_request_action,
  list_objects_action, list_repositories_action, list_tags_action, list_wip_action,
  read_branch_action, read_commit_action, read_config_action, read_merge_request_action,
  read_object_action, read_repository_action, read_tag_action, read_wip_action,
  remove_group_member_action, update_merge_request_action, update_repository_action,
  write_branch_action, write_config_action, write_object_action, write_tag_action, write_wip_action,
}

abbrev pub all_access_actions : List Text
all_access_actions = codes "repo:*" ∷ codes "auth:*" ∷ codes "user:*" ∷ []

abbrev pub repo_read_write_actions : List Text
repo_read_write_actions =
    read_repository_action ∷ update_repository_action ∷ delete_repository_action
    ∷ list_repositories_action ∷ read_object_action ∷ write_object_action ∷ delete_object_action
    ∷ list_objects_action ∷ create_commit_action ∷ read_commit_action ∷ list_commits_action
    ∷ create_branch_action ∷ delete_branch_action ∷ read_branch_action ∷ list_branches_action
    ∷ write_branch_action ∷ create_tag_action ∷ delete_tag_action ∷ read_tag_action
    ∷ list_tags_action ∷ write_tag_action ∷ delete_wip_action ∷ create_merge_request_action
    ∷ read_merge_request_action ∷ update_merge_request_action ∷ list_merge_request_action
    ∷ read_config_action ∷ write_config_action ∷ read_wip_action ∷ list_wip_action
    ∷ write_wip_action ∷ create_wip_action ∷ []

abbrev pub repo_read_actions : List Text
repo_read_actions = codes "repo:Read*" ∷ codes "repo:List*" ∷ []

abbrev pub repo_read_config_actions : List Text
repo_read_config_actions = read_config_action ∷ []

abbrev pub repo_write_config_actions : List Text
repo_write_config_actions =
    read_config_action ∷ write_config_action ∷ add_group_member_action ∷ remove_group_member_action
    ∷ []

abbrev pub repo_member_read_actions : List Text
repo_member_read_actions = get_group_member_action ∷ list_group_member_action ∷ []

abbrev pub repo_member_access_actions : List Text
repo_member_access_actions =
    get_group_member_action ∷ list_group_member_action ∷ add_group_member_action
    ∷ remove_group_member_action ∷ []

abbrev pub user_full_access_actions : List Text
user_full_access_actions = codes "auth:*" ∷ codes "user:*" ∷ []

-- `ErrStatementNotFound`.
pub data StatementError : Type 0 where
  statement_not_found : StatementError

-- A statement of the table, whose resource is left empty.
abbrev named : List Text → Statement
named actions = record { effect = effect_allow; actions = actions; resource = [] }

abbrev pub statement_by_name : List (Text × Statement)
statement_by_name =
    (codes "AllAccess", named all_access_actions)
    ∷ (codes "RepoReadWrite", named repo_read_write_actions)
    ∷ (codes "RepoRead", named repo_read_actions)
    ∷ (codes "RepoReadConfig", named repo_read_config_actions)
    ∷ (codes "RepoWriteConfig", named repo_write_config_actions)
    ∷ (codes "RepoMemberRead", named repo_member_read_actions)
    ∷ (codes "RepoMemberAccess", named repo_member_access_actions)
    ∷ (codes "UserFullAccess", named user_full_access_actions)
    ∷ []

find_statement : Text → List (Text × Statement) → Option Statement
unfolding text_eq
find_statement typ [] = none
find_statement typ ((name, statement) ∷ table) =
    if text_eq name typ then some statement else find_statement typ table

unfoldable pub get_actions_for_policy_type : Text → Result StatementError (List Text)
unfolding find_statement
get_actions_for_policy_type typ = elim (find_statement typ statement_by_name) [
  | none ↦ err statement_not_found
  | some statement ↦ ok statement.actions
]

-- The zero value of the slice's elements.
abbrev empty_statement : Statement
empty_statement = record { effect = []; actions = []; resource = [] }

-- The assignment in the loop: only a statement without a resource is copied.
limited_to : Statement → Resource → Statement
limited_to statement resource =
    if is_empty statement.resource
    then record statement { resource = resource }
    else empty_statement

unfoldable pub make_statement_for_policy_type :
    Text → List Resource → Result StatementError (List Statement)
unfolding find_statement limited_to
make_statement_for_policy_type typ resources = elim (find_statement typ statement_by_name) [
  | none ↦ err statement_not_found
  | some statement ↦ ok (map (limited_to statement) resources)
]
