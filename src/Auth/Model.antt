-- ===== src/Auth/Model.antt =====
-- models/rbacmodel: resources, statements, policies and groups, and the lists of actions.
-- An identifier is the text that `uuid.String` prints for it. Creation and update times are left out.
use jiaozifs.Prelude.{List, ◌++◌, Text, codes}
use jiaozifs.Strings.{replace_all}

abbrev pub Uuid : Type 0
Uuid = Text

-- `uuid.Nil`
abbrev pub nil_uuid : Uuid
nil_uuid = codes "00000000-0000-0000-0000-000000000000"

abbrev pub Resource : Type 0
Resource = Text

abbrev pub all_resources : Resource
all_resources = codes "*"

-- `repoArnPrefix`, `authArnPrefix` and `userArnPrefix` are the same text.
abbrev pub arn_prefix : Resource
arn_prefix = codes "arn:gitdata:jiaozifs:::"

abbrev pub user_id_capture : Text
user_id_capture = codes "{user_id}"

abbrev pub repo_id_capture : Text
repo_id_capture = codes "{repo_id}"

unfoldable pub with_repo_id : Resource → Text → Resource
unfolding replace_all
with_repo_id r repo_id = replace_all r repo_id_capture repo_id

unfoldable pub with_user_id : Resource → Text → Resource
unfolding replace_all
with_user_id r user_id = replace_all r user_id_capture user_id

unfoldable pub repo_u_r_arn : Text → Text → Resource
repo_u_r_arn user_id repo_id =
    arn_prefix ++ (codes "repository/" ++ (user_id ++ (codes "/" ++ repo_id)))

unfoldable pub repo_u_arn : Text → Resource
repo_u_arn user_id = arn_prefix ++ (codes "repository/" ++ (user_id ++ codes "/*"))

unfoldable pub user_arn : Text → Resource
user_arn user_id = arn_prefix ++ (codes "user/" ++ user_id)

unfoldable pub user_aksk_arn : Text → Resource
user_aksk_arn user_id = arn_prefix ++ (codes "user/aksk/" ++ user_id)

abbrev pub effect_allow : Text
effect_allow = codes "allow"

abbrev pub effect_deny : Text
effect_deny = codes "deny"

pub record Statement : Type 0 where
  pub effect : Text
  pub actions : List Text
  pub resource : Resource

pub record Policy : Type 0 where
  pub id : Uuid
  pub name : Text
  pub statements : List Statement

pub record Group : Type 0 where
  pub id : Uuid
  pub name : Text
  pub policies : List Uuid

-- The columns of a user that are read.
pub record User : Type 0 where
  pub id : Uuid
  pub name : Text
  pub email : Text
