-- ===== src/Auth/Db.antt =====
-- models and models/rbacmodel: the tables that the permission checks read, with the conditions of
-- their queries. A table is the list of its rows, newest first; the failures of the database itself
-- (connections, scans) are left out. Rows that no check reads carry only their identifiers.
use jiaozifs.Prelude.{ℕ, suc, Bool, false, ◌||◌, ◌&&◌, List, [], ◌∷◌, Option, none, some}
use jiaozifs.Prelude.{Result, ok, err, if◌then◌else◌, Text, text_eq, is_empty}
use jiaozifs.Auth.Model.{Uuid, nil_uuid, Policy, Group, User}
use jiaozifs.Prelude.{contains}

-- `not_found` is `models.ErrNotFound`, which is `sql.ErrNoRows`; `duplicate` breaks a `unique` mark.
-- `statement_not_found` is the panic of the functions named `…OrDie`.
pub data RbacError : Type 0 where
  not_found duplicate statement_not_found : RbacError

pub record Member : Type 0 where
  pub user_id : Uuid
  pub repo_id : Uuid
  pub group_id : Uuid

pub record Repository : Type 0 where
  pub id : Uuid
  pub owner_id : Uuid
  pub visible : Bool

pub record UserGroup : Type 0 where
  pub id : Uuid
  pub user_id : Uuid
  pub group_id : Uuid

-- `issued` counts the identifiers that `uuid_generate_v4` has given out.
pub record Db : Type 0 where
  pub policies : List Policy
  pub groups : List Group
  pub user_groups : List UserGroup
  pub users : List User
  pub members : List Member
  pub repositories : List Repository
  pub issued : ℕ

-- `Limit(1)` with a condition.
unfoldable pub find_first {ℓ} : {A : Type ℓ} → (A → Bool) → List A → Option A
find_first test [] = none
find_first test (x ∷ xs) = if test x then some x else find_first test xs

or_not_found {ℓ} : {A : Type ℓ} → Option A → Result RbacError A
or_not_found none = err not_found
or_not_found (some x) = ok x

-- A condition that is added only for an identifier other than `uuid.Nil`.
unfoldable pub where_id : Uuid → Uuid → Bool
unfolding text_eq
where_id id field = text_eq id nil_uuid || text_eq field id

unfoldable pub filter_policies : List Uuid → List Policy → List Policy
unfolding contains
filter_policies ids [] = []
filter_policies ids (p ∷ ps) =
    if contains ids p.id then p ∷ filter_policies ids ps else filter_policies ids ps

-- `PolicyRepo.List`: the condition on the identifiers is added only if there are some.
unfoldable pub list_policies : Db → List Uuid → List Policy
unfolding filter_policies
list_policies db ids = if is_empty ids then db.policies else filter_policies ids db.policies

-- The row that a join finds no group for: every column is empty.
abbrev empty_group : Group
empty_group = record { id = nil_uuid; name = []; policies = [] }

group_of_row : List Group → UserGroup → Group
unfolding find_first text_eq
group_of_row groups row = elim (find_first (λ g. text_eq g.id row.group_id) groups) [
  | none ↦ empty_group
  | some g ↦ g
]

-- `GroupRepo.GetGroupByUserID`, a right join with the table of users' groups.
unfoldable pub get_group_by_user_id : Db → Uuid → Result RbacError Group
unfolding find_first group_of_row text_eq
get_group_by_user_id db user_id =
    elim (find_first (λ row. text_eq row.user_id user_id) db.user_groups) [
      | none ↦ err not_found
      | some row ↦ ok (group_of_row db.groups row)
    ]

-- `GroupRepo.Get` by an identifier, and by a name.
unfoldable pub get_group_by_id : Db → Uuid → Result RbacError Group
unfolding find_first or_not_found where_id
get_group_by_id db id = or_not_found (find_first (λ g. where_id id g.id) db.groups)

unfoldable pub get_group_by_name : Db → Text → Result RbacError Group
unfolding find_first or_not_found text_eq
get_group_by_name db name = or_not_found (find_first (λ g. text_eq g.name name) db.groups)

-- `MemberRepo.GetMember` with a user and a repository.
unfoldable pub get_member : Db → Uuid → Uuid → Result RbacError Member
unfolding find_first or_not_found where_id
get_member db user_id repo_id =
    or_not_found
      (find_first (λ m. where_id repo_id m.repo_id && where_id user_id m.user_id) db.members)

-- `RepositoryRepo.Get` with an identifier.
unfoldable pub get_repository : Db → Uuid → Result RbacError Repository
unfolding find_first or_not_found where_id
get_repository db id = or_not_found (find_first (λ r. where_id id r.id) db.repositories)

name_taken : Text → List Policy → Bool
unfolding text_eq
name_taken name [] = false
name_taken name (p ∷ ps) = text_eq p.name name || name_taken name ps

group_taken : Text → List Group → Bool
unfolding text_eq
group_taken name [] = false
group_taken name (g ∷ gs) = text_eq g.name name || group_taken name gs

user_taken : User → List User → Bool
unfolding text_eq
user_taken user [] = false
user_taken user (u ∷ us) =
    (text_eq u.name user.name || text_eq u.email user.email) || user_taken user us

row_taken : UserGroup → List UserGroup → Bool
unfolding text_eq
row_taken row [] = false
row_taken row (r ∷ rs) =
    (text_eq r.user_id row.user_id && text_eq r.group_id row.group_id) || row_taken row rs

-- The inserts. The database chooses the identifier.
module _ (uuid_generate : ℕ → Uuid) where
  unfoldable pub insert_policy : Policy → Db → Result RbacError (Policy × Db)
  unfolding name_taken
  insert_policy policy db =
      let policy' = record policy { id = uuid_generate db.issued } in
      if name_taken policy.name db.policies
      then err duplicate
      else ok (policy', record db { policies = policy' ∷ db.policies; issued = suc db.issued })

  unfoldable pub insert_group : Group → Db → Result RbacError (Group × Db)
  unfolding group_taken
  insert_group group db =
      let group' = record group { id = uuid_generate db.issued } in
      if group_taken group.name db.groups
      then err duplicate
      else ok (group', record db { groups = group' ∷ db.groups; issued = suc db.issued })

  -- The name and the email of a user are each used once.
  unfoldable pub insert_user : User → Db → Result RbacError (User × Db)
  unfolding user_taken
  insert_user user db =
      let user' = record user { id = uuid_generate db.issued } in
      if user_taken user db.users
      then err duplicate
      else ok (user', record db { users = user' ∷ db.users; issued = suc db.issued })

  -- A user is in a group once.
  unfoldable pub insert_user_group : UserGroup → Db → Result RbacError Db
  unfolding row_taken
  insert_user_group row db =
      let row' = record row { id = uuid_generate db.issued } in
      if row_taken row db.user_groups
      then err duplicate
      else ok (record db { user_groups = row' ∷ db.user_groups; issued = suc db.issued })
