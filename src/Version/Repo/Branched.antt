-- ===== src/Version/Repo/Branched.antt =====
-- versionmgr/work_repo.go: `CheckOut` of a branch that `CreateBranch` made.
use jiaozifs.Prelude.{
  ℕ, suc, ◌≡◌, refl, Bool, true, false, ◌||◌, ◌∷◌, Option, none, some, ok, err, Text, text_eq,
  text_eq_refl, is_empty,
}
use jiaozifs.Auth.Model.{Uuid, nil_uuid}
use jiaozifs.Auth.Db.{find_first, where_id}
use jiaozifs.Version.Repo.{
  not_found, RepoDb, Branch, Wip, Tag, CommitRow, User, get_branch, get_commit_row, insert_branch,
  or_not_found,
}
use jiaozifs.Version.Repo.State.{
  RepoState, in_branch, Head, own, set_cur_state, ◌>>=◌, ◌>>◌, and_then, execute, executed,
}
use jiaozifs.Version.Repo.Operations.{
  branch_ref, commit_at, tree_of, check_out, check_out_tree, check_out_branch,
}
use jiaozifs.Version.Repo.Refs.{create_branch, new_branch, commit_hash_of, look_up, looked_up}

or_true : (b : Bool) → (b || true) ≡ true
or_true true = refl
or_true false = refl

where_id_refl : (id : Uuid) → where_id id id ≡ true
unfolding where_id
where_id_refl id = rw (text_eq_refl id) (or_true (text_eq id nil_uuid))

module _ (operator : User) (repo_id : Uuid) (decode_hex : Text → Option Text)
    (uuid_generate : ℕ → Uuid) where
  abbrev pub branch_of : Text → CommitRow → ℕ → Branch
  branch_of name c n = record {
    id = uuid_generate n;
    repository_id = repo_id;
    commit_hash = c.hash;
    name = name;
    creator_id = operator.id;
  }

  -- A name that is not taken, created as a branch in a state with a stored commit, can be checked
  -- out at once, and the cache is then at that branch, that commit and the tree of that commit.
  pub check_out-create_branch :
      (s : RepoState) (h : Option Head) (p : Option Wip) (b : Option Branch) (t : Option Tag)
      (c : CommitRow) (name : Text) (db : RepoDb)
      → get_branch repo_id name db ≡ err not_found
      → get_commit_row repo_id c.hash db ≡ ok c
      → is_empty c.hash ≡ false
      → (create_branch operator repo_id uuid_generate name
            >> check_out operator repo_id decode_hex (branch_ref name))
          (record { state = s; head_tree = h; wip = p; branch = b; tag = t; commit = some c }, db)
        ≡ (
          ok tt,
          (
            record {
              state = in_branch;
              head_tree = some (own c.tree_hash);
              wip = none;
              branch = some (branch_of name c db.issued);
              tag = none;
              commit = some c;
            },
            record db {
              branches = branch_of name c db.issued ∷ db.branches;
              issued = suc db.issued;
            },
          ),
        )
  unfolding create_branch new_branch commit_hash_of look_up looked_up ◌>>=◌ and_then execute
      executed insert_branch check_out check_out_tree check_out_branch commit_at tree_of
      set_cur_state
  check_out-create_branch s h p b t c name db e g k =
      rw (e, get_branch, find_first, where_id_refl repo_id, text_eq_refl name, or_not_found, k, g)
        refl
