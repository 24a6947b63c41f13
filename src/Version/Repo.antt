-- ===== src/Version/Repo.antt =====
-- models/branch.go, tag.go, wip.go and commit.go: the rows of a repository and the queries of
-- versionmgr/work_repo.go, with the conditions that these set. Failures of the database itself are
-- left out. The database chooses an identifier by `uuid_generate`.
pub mod State
pub mod Operations
pub mod Write
pub mod Refs
pub mod Triple
pub mod Invariant
pub mod Kept
pub mod Preserved
pub mod RefsPreserved
pub mod Steps
pub mod Rows
pub mod Committed
pub mod Landed
pub mod Branched
mod Tests
use jiaozifs.Prelude.{
  ℕ, zero, suc, ◌+◌, ◌/◌, ◌%◌, Bool, true, false, ◌&&◌, ◌||◌, not, List, [], ◌∷◌, ◌++◌, Option,
  none, some,
}
use jiaozifs.Prelude.{Result, ok, err, if◌then◌else◌, Text, text_eq}
pub use jiaozifs.Auth.Model.{User}
use jiaozifs.Auth.Model.{Uuid}
use jiaozifs.Auth.Db.{find_first, where_id}
use jiaozifs.Version.Objects.{Table, commit_object, type_code}
use jiaozifs.Version.Objects.Program.{TreeError}

-- `nil_pointer` is the panic; `tree_error` is an error of a work tree.
pub data RepoError : Type 0 where
  not_found duplicate repo_id_mismatch not_in_wip not_in_branch base_not_branch : RepoError
  already_exists no_commit empty_commit bad_hex bad_ref_type nil_pointer : RepoError
  tree_error : TreeError → RepoError

-- A time is a number of seconds.
pub record Signature : Type 0 where
  pub name : Text
  pub email : Text
  pub when : ℕ

pub record CommitRow : Type 0 where
  pub hash : Text
  pub repository_id : Uuid
  pub author : Signature
  pub committer : Signature
  pub merge_tag : Text
  pub message : Text
  pub tree_hash : Text
  pub parent_hashes : List Text

pub record Branch : Type 0 where
  pub id : Uuid
  pub repository_id : Uuid
  pub commit_hash : Text
  pub name : Text
  pub creator_id : Uuid

pub record Tag : Type 0 where
  pub id : Uuid
  pub repository_id : Uuid
  pub name : Text
  pub creator_id : Uuid
  pub target : Text
  pub message : Option Text

pub record Wip : Type 0 where
  pub id : Uuid
  pub current_tree : Text
  pub base_commit : Text
  pub repository_id : Uuid
  pub ref_id : Uuid
  pub creator_id : Uuid
  pub updated_at : ℕ

-- `issued` counts the identifiers that were given out.
pub record RepoDb : Type 0 where
  pub branches : List Branch
  pub tags : List Tag
  pub wips : List Wip
  pub commits : List CommitRow
  pub users : List User
  pub trees : Table
  pub issued : ℕ

unfoldable pub or_not_found {ℓ} : {A : Type ℓ} → Option A → Result RepoError A
or_not_found none = err not_found
or_not_found (some x) = ok x

-- Eight bytes of `WritInt64`, the highest first.
int64_bytes : ℕ → ℕ → Text
int64_bytes zero t = []
int64_bytes (suc n) t = int64_bytes n (t / 256) ++ t % 256 ∷ []

signature_bytes : Signature → Text
unfolding int64_bytes
signature_bytes s = s.name ++ (s.email ++ int64_bytes 8 s.when)

all_bytes : List Text → Text
all_bytes [] = []
all_bytes (h ∷ hs) = h ++ all_bytes hs

-- What `Commit.GetHash` writes.
unfoldable pub commit_bytes : CommitRow → Text
unfolding type_code signature_bytes all_bytes
commit_bytes c =
    type_code commit_object
    ∷ (signature_bytes c.author
        ++ (signature_bytes c.committer
            ++ (c.merge_tag ++ (c.message ++ (c.tree_hash ++ all_bytes c.parent_hashes)))))

-- `BranchRepo.Get` by a repository and a name.
unfoldable pub get_branch : Uuid → Text → RepoDb → Result RepoError Branch
unfolding find_first where_id text_eq or_not_found
get_branch repo_id name db = or_not_found (
    find_first (λ (b : Branch). where_id repo_id b.repository_id && text_eq b.name name)
      db.branches)

unfoldable pub set_commit_hash : Uuid → Text → List Branch → List Branch
unfolding text_eq
set_commit_hash id h [] = []
set_commit_hash id h (b ∷ bs) =
    let rest = set_commit_hash id h bs in
    if text_eq b.id id then record b { commit_hash = h } ∷ rest else b ∷ rest

-- `BranchRepo.UpdateByID` with a commit.
unfoldable pub update_branch : Uuid → Text → RepoDb → RepoDb
unfolding set_commit_hash
update_branch id h db = record db { branches = set_commit_hash id h db.branches }

-- The rows that a delete leaves.
unfoldable pub keep_rows {ℓ} : {A : Type ℓ} → (A → Bool) → List A → List A
keep_rows test [] = []
keep_rows test (x ∷ xs) = let rest = keep_rows test xs in if test x then rest else x ∷ rest

-- `BranchRepo.Delete` by a repository and a name.
unfoldable pub delete_branches : Uuid → Text → RepoDb → RepoDb
unfolding keep_rows where_id text_eq
delete_branches repo_id name db = record db {
  branches =
      keep_rows (λ (b : Branch). where_id repo_id b.repository_id && text_eq b.name name)
        db.branches;
}

-- `WipRepo.Get` by a creator, a repository and a branch.
unfoldable pub get_wip : Uuid → Uuid → Uuid → RepoDb → Result RepoError Wip
unfolding find_first where_id or_not_found
get_wip creator repo_id ref db = or_not_found (
    find_first
      (λ (w : Wip).
        where_id creator w.creator_id && where_id repo_id w.repository_id && where_id ref w.ref_id)
      db.wips)

unfoldable pub new_or_old : Option Text → Text → Text
new_or_old none old = old
new_or_old (some new) old = new

unfoldable pub update_wips : Uuid → Option Text → Option Text → ℕ → List Wip → List Wip
unfolding text_eq new_or_old
update_wips id tree base now [] = []
update_wips id tree base now (w ∷ ws) =
    let rest = update_wips id tree base now ws in
    let new = record w {
      current_tree = new_or_old tree w.current_tree;
      base_commit = new_or_old base w.base_commit;
      updated_at = now;
    } in
    if text_eq w.id id then new ∷ rest else w ∷ rest

-- `WipRepo.UpdateByID`; a field that is nil stays as it is.
unfoldable pub update_wip : Uuid → Option Text → Option Text → ℕ → RepoDb → RepoDb
unfolding update_wips
update_wip id tree base now db = record db { wips = update_wips id tree base now db.wips }

-- `WipRepo.Delete` by a creator, a repository and a branch.
unfoldable pub delete_wips : Uuid → Uuid → Uuid → RepoDb → RepoDb
unfolding keep_rows where_id
delete_wips creator repo_id ref db = record db {
  wips =
      keep_rows
        (λ (w : Wip).
          where_id creator w.creator_id
          && where_id repo_id w.repository_id
          && where_id ref w.ref_id)
        db.wips;
}

-- `TagRepo.Get` by a repository and a name, and `TagRepo.Delete` by a repository and an identifier.
unfoldable pub get_tag : Uuid → Text → RepoDb → Result RepoError Tag
unfolding find_first where_id text_eq or_not_found
get_tag repo_id name db =
    or_not_found
      (find_first (λ (t : Tag). where_id repo_id t.repository_id && text_eq t.name name) db.tags)

unfoldable pub delete_tags : Uuid → Uuid → RepoDb → RepoDb
unfolding keep_rows where_id
delete_tags repo_id id db = record db {
  tags = keep_rows (λ (t : Tag). where_id id t.id && where_id repo_id t.repository_id) db.tags;
}

-- `CommitRepo.Commit`
unfoldable pub get_commit_row : Uuid → Text → RepoDb → Result RepoError CommitRow
unfolding find_first text_eq or_not_found
get_commit_row repo_id h db =
    or_not_found (
      find_first (λ (c : CommitRow). text_eq c.repository_id repo_id && text_eq c.hash h)
        db.commits)

-- `CommitRepo.Insert`; the key of a row is its hash with its repository.
unfoldable pub insert_commit_row : Uuid → CommitRow → RepoDb → Result RepoError RepoDb
unfolding text_eq get_commit_row
insert_commit_row repo_id c db =
    if not (text_eq c.repository_id repo_id)
    then err repo_id_mismatch
    else elim (get_commit_row repo_id c.hash db) [
      | ok old ↦ err duplicate
      | err e ↦ ok (record db { commits = c ∷ db.commits })
    ]

-- `UserRepo.Get` by an identifier.
unfoldable pub get_user : Uuid → RepoDb → Result RepoError User
unfolding find_first where_id or_not_found
get_user id db = or_not_found (find_first (λ (u : User). where_id id u.id) db.users)

-- The inserts of rows whose identifier the database chooses.
module _ (uuid_generate : ℕ → Uuid) where
  unfoldable pub insert_branch : Branch → RepoDb → Branch × RepoDb
  insert_branch b db =
      let b' = record b { id = uuid_generate db.issued } in
      (b', record db { branches = b' ∷ db.branches; issued = suc db.issued })

  -- One name is used once in a repository.
  unfoldable pub insert_tag : Tag → RepoDb → Result RepoError (Tag × RepoDb)
  unfolding get_tag find_first text_eq
  insert_tag t db =
      let t' = record t { id = uuid_generate db.issued } in
      let same = λ (x : Tag). text_eq x.repository_id t.repository_id && text_eq x.name t.name in
      elim (find_first same db.tags) [
        | some old ↦ err duplicate
        | none ↦ ok (t', record db { tags = t' ∷ db.tags; issued = suc db.issued })
      ]

  -- A creator has one row for a branch of a repository.
  unfoldable pub insert_wip : Wip → RepoDb → Result RepoError (Wip × RepoDb)
  unfolding find_first text_eq
  insert_wip w db =
      let w' = record w { id = uuid_generate db.issued } in
      let same = λ (x : Wip).
        text_eq x.creator_id w.creator_id
        && text_eq x.repository_id w.repository_id
        && text_eq x.ref_id w.ref_id in
      elim (find_first same db.wips) [
        | some old ↦ err duplicate
        | none ↦ ok (w', record db { wips = w' ∷ db.wips; issued = suc db.issued })
      ]
