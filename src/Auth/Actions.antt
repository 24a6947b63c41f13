-- ===== src/Auth/Actions.antt =====
-- models/rbacmodel/actions.go: the names of the actions, and the form that a name must have.
use jiaozifs.Prelude.{
  Bool, not, List, [], ◌∷◌, Result, ok, err, ◌==◌, if◌then◌else◌, length, Text, codes, contains,
  false,
}
use jiaozifs.Strings.{split}

abbrev pub read_repository_action : Text
read_repository_action = codes "repo:ReadRepository"

abbrev pub create_repository_action : Text
create_repository_action = codes "repo:CreateRepository"

abbrev pub update_repository_action : Text
update_repository_action = codes "repo:UpdateRepository"

abbrev pub delete_repository_action : Text
delete_repository_action = codes "repo:DeleteRepository"

abbrev pub list_repositories_action : Text
list_repositories_action = codes "repo:ListRepositories"

abbrev pub update_visible_action : Text
update_visible_action = codes "repo:UpdateVisible"

abbrev pub read_object_action : Text
read_object_action = codes "repo:ReadObject"

abbrev pub write_object_action : Text
write_object_action = codes "repo:WriteObject"

abbrev pub delete_object_action : Text
delete_object_action = codes "repo:DeleteObject"

abbrev pub list_objects_action : Text
list_objects_action = codes "repo:ListObjects"

abbrev pub create_commit_action : Text
create_commit_action = codes "repo:CreateCommit"

abbrev pub read_commit_action : Text
read_commit_action = codes "repo:ReadCommit"

abbrev pub list_commits_action : Text
list_commits_action = codes "repo:ListCommits"

abbrev pub create_branch_action : Text
create_branch_action = codes "repo:CreateBranch"

abbrev pub delete_branch_action : Text
delete_branch_action = codes "repo:DeleteBranch"

abbrev pub read_branch_action : Text
read_branch_action = codes "repo:ReadBranch"

abbrev pub write_branch_action : Text
write_branch_action = codes "repo:WriteBranch"

abbrev pub list_branches_action : Text
list_branches_action = codes "repo:ListBranches"

abbrev pub create_tag_action : Text
create_tag_action = codes "repo:CreateTag"

abbrev pub delete_tag_action : Text
delete_tag_action = codes "repo:DeleteTag"

abbrev pub read_tag_action : Text
read_tag_action = codes "repo:ReadTag"

abbrev pub write_tag_action : Text
write_tag_action = codes "repo:WriteTag"

abbrev pub list_tags_action : Text
list_tags_action = codes "repo:ListTags"

abbrev pub read_wip_action : Text
read_wip_action = codes "repo:GetWip"

abbrev pub list_wip_action : Text
list_wip_action = codes "repo:ListWip"

abbrev pub write_wip_action : Text
write_wip_action = codes "repo:WriteWip"

abbrev pub create_wip_action : Text
create_wip_action = codes "repo:CreateWip"

abbrev pub delete_wip_action : Text
delete_wip_action = codes "repo:DeleteWip"

abbrev pub read_config_action : Text
read_config_action = codes "repo:ReadConfig"

abbrev pub write_config_action : Text
write_config_action = codes "repo:WriteConfig"

abbrev pub create_merge_request_action : Text
create_merge_request_action = codes "repo:CreateMergeRequest"

abbrev pub read_merge_request_action : Text
read_merge_request_action = codes "repo:ReadMergeRequest"

abbrev pub update_merge_request_action : Text
update_merge_request_action = codes "repo:UpdateMergeRequest"

abbrev pub list_merge_request_action : Text
list_merge_request_action = codes "repo:ListMergeRequest"

abbrev pub merge_merge_request_action : Text
merge_merge_request_action = codes "repo:MergeMergeRequest"

abbrev pub add_group_member_action : Text
add_group_member_action = codes "repo:AddGroupMember"

abbrev pub remove_group_member_action : Text
remove_group_member_action = codes "repo:RemoveGroupMember"

abbrev pub get_group_member_action : Text
get_group_member_action = codes "repo:GetGroupMember"

abbrev pub list_group_member_action : Text
list_group_member_action = codes "repo:GetGroupMember"

abbrev pub read_group_action : Text
read_group_action = codes "auth:ReadGroup"

abbrev pub create_group_action : Text
create_group_action = codes "auth:CreateGroup"

abbrev pub delete_group_action : Text
delete_group_action = codes "auth:DeleteGroup"

abbrev pub list_groups_action : Text
list_groups_action = codes "auth:ListGroups"

abbrev pub read_policy_action : Text
read_policy_action = codes "auth:ReadPolicy"

abbrev pub create_policy_action : Text
create_policy_action = codes "auth:CreatePolicy"

abbrev pub update_policy_action : Text
update_policy_action = codes "auth:UpdatePolicy"

abbrev pub delete_policy_action : Text
delete_policy_action = codes "auth:DeletePolicy"

abbrev pub list_policies_action : Text
list_policies_action = codes "auth:ListPolicies"

abbrev pub attach_policy_action : Text
attach_policy_action = codes "auth:AttachPolicy"

abbrev pub detach_policy_action : Text
detach_policy_action = codes "auth:DetachPolicy"

abbrev pub user_profile_action : Text
user_profile_action = codes "user:UserProfile"

abbrev pub read_user_action : Text
read_user_action = codes "user:ReadUser"

abbrev pub list_users_action : Text
list_users_action = codes "user:ListUsers"

abbrev pub delete_user_action : Text
delete_user_action = codes "user:DeleteUser"

abbrev pub read_credentials_action : Text
read_credentials_action = codes "user:ReadCredentials"

abbrev pub create_credentials_action : Text
create_credentials_action = codes "user:CreateCredentials"

abbrev pub delete_credentials_action : Text
delete_credentials_action = codes "user:DeleteCredentials"

abbrev pub list_credentials_action : Text
list_credentials_action = codes "user:ListCredentials"

-- `ErrInvalidAction` and `ErrInvalidServiceName`.
pub data ActionError : Type 0 where
  invalid_action invalid_service_name : ActionError

-- The keys of `serviceSet`.
abbrev pub service_set : List Text
service_set = codes "repo" ∷ codes "auth" ∷ codes "user" ∷ []

service_known : List Text → Bool
unfolding contains
service_known [] = false
service_known (service ∷ parts) = contains service_set service

unfoldable pub is_valid_action : Text → Result ActionError (Unit {0})
unfolding split service_known
is_valid_action name =
    let parts = split b':' name in
    if not (length parts == 2)
    then err invalid_action
    else if not (service_known parts)
    then err invalid_service_name
    else ok tt
