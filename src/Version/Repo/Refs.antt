-- ===== src/Version/Repo/Refs.antt =====
-- versionmgr/work_repo.go: the operations on wips, branches and tags as a whole.
use jiaozifs.Prelude.{
  ℕ, Bool, true, false, Option, none, some, Result, ok, err, [], Text, is_empty, if◌then◌else◌,
}
use jiaozifs.Auth.Model.{Uuid, nil_uuid}
use jiaozifs.Version.Repo.{
  RepoError, not_in_branch, already_exists, no_commit, empty_commit, CommitRow, Branch, Tag, Wip,
  User, RepoDb, get_branch, delete_branches, get_wip, delete_wips, get_tag, delete_tags,
  insert_branch, insert_tag, insert_wip,
}
use jiaozifs.Version.Repo.State.{
  in_wip, in_branch, own, of_wip, Working, set_cur_state, Act, give, fail, ◌>>=◌, ◌>>◌, working,
  update, query, execute, transaction, deref,
}
use jiaozifs.Version.Repo.Operations.{is_state, commit_at, tree_of, set_head}

-- A row, or nothing where the query finds none, which is its only error.
unfoldable pub looked_up :
    {A : Type 0}
    → Working
    → RepoDb
    → Result RepoError A
    → Result RepoError (Option A) × (Working × RepoDb)
looked_up w db (ok a) = (ok (some a), (w, db))
looked_up w db (err e) = (ok none, (w, db))

unfoldable pub look_up : {A : Type 0} → (RepoDb → Result RepoError A) → Act (Option A)
unfolding looked_up
look_up q (w, db) = looked_up w db (q db)

-- The cache with a wip that was created, and with one that was there, which does not change the state.
unfoldable pub start_wip : Branch → Wip → Act (Wip × Bool)
unfolding set_cur_state
start_wip b p =
    set_head of_wip >> update (set_cur_state in_wip (some p) (some b) none none) >> give (p, true)

unfoldable pub reuse_wip : Wip → Act (Wip × Bool)
reuse_wip p = set_head (own p.current_tree) >> give (p, false)

unfoldable pub commit_hash_of : Option CommitRow → Text
commit_hash_of none = []
commit_hash_of (some c) = c.hash

module _ (operator : User) (repo_id : Uuid) (uuid_generate : ℕ → Uuid) where
  unfoldable pub new_wip : ℕ → Branch → Text → Wip
  new_wip now b tree = record {
    id = nil_uuid;
    current_tree = tree;
    base_commit = b.commit_hash;
    repository_id = repo_id;
    ref_id = b.id;
    creator_id = operator.id;
    updated_at = now;
  }

  unfoldable pub create_wip : ℕ → Branch → Act (Wip × Bool)
  unfolding commit_at tree_of execute insert_wip new_wip start_wip
  create_wip now b = commit_at repo_id b.commit_hash >>= λ c.
      execute (insert_wip uuid_generate (new_wip now b (tree_of c))) >>= start_wip b

  unfoldable pub use_wip : ℕ → Branch → Option Wip → Act (Wip × Bool)
  unfolding reuse_wip create_wip
  use_wip now b (some p) = reuse_wip p
  use_wip now b none = create_wip now b

  unfoldable pub get_or_create_wip : ℕ → Act (Wip × Bool)
  unfolding is_state deref look_up get_wip use_wip
  get_or_create_wip now =
      let on_branch = working >>= λ w.
      deref w.branch >>= λ b. look_up (get_wip operator.id repo_id b.id) >>= use_wip now b in
      working >>= λ w. if is_state w.state in_branch then on_branch else fail not_in_branch

  -- The database tells how many rows were deleted; here the row is looked up before.
  unfoldable pub delete_wip : Act (Unit {0})
  unfolding is_state deref get_wip execute delete_wips
  delete_wip =
      let deleted = working >>= λ w. deref w.branch >>= λ b.
      query (get_wip operator.id repo_id b.id) >>= λ p.
      execute (λ db. ok (tt, delete_wips operator.id repo_id b.id db)) in
      working >>= λ w. if is_state w.state in_branch then deleted else fail not_in_branch

  unfoldable pub new_branch : Text → Text → Option Branch → Act Branch
  unfolding execute insert_branch
  new_branch name h (some old) = fail already_exists
  new_branch name h none = execute (λ db. ok (
      insert_branch uuid_generate
        (record {
          id = nil_uuid;
          repository_id = repo_id;
          commit_hash = h;
          name = name;
          creator_id = operator.id;
        })
        db))

  unfoldable pub create_branch : Text → Act Branch
  unfolding look_up get_branch new_branch commit_hash_of
  create_branch name = look_up (get_branch repo_id name) >>= λ old.
      working >>= λ w. new_branch name (commit_hash_of w.commit) old

  unfoldable pub delete_branch : Act (Unit {0})
  unfolding deref transaction execute delete_branches delete_wips
  delete_branch = transaction (
      working >>= λ w. deref w.branch >>= λ b.
      execute (λ db. ok (tt, delete_branches repo_id b.name db))
      >> execute (λ db. ok (tt, delete_wips nil_uuid repo_id b.id db)))

  unfoldable pub tag_at : Text → Option Text → CommitRow → Act Tag
  unfolding execute insert_tag
  tag_at name msg c =
      let row : Tag = record {
        id = nil_uuid;
        repository_id = repo_id;
        name = name;
        creator_id = operator.id;
        target = c.hash;
        message = msg;
      } in
      let tagged = execute (insert_tag uuid_generate row) in
      if is_empty c.hash then fail empty_commit else tagged

  unfoldable pub new_tag : Text → Option Text → Option CommitRow → Option Tag → Act Tag
  unfolding tag_at
  new_tag name msg c (some old) = fail already_exists
  new_tag name msg none none = fail no_commit
  new_tag name msg (some c) none = tag_at name msg c

  unfoldable pub create_tag : Text → Option Text → Act Tag
  unfolding look_up get_tag new_tag
  create_tag name msg =
      look_up (get_tag repo_id name) >>= λ old. working >>= λ w. new_tag name msg w.commit old

  unfoldable pub delete_tag : Act (Unit {0})
  unfolding deref transaction execute delete_tags
  delete_tag =
      transaction
        (working >>= λ w. deref w.tag >>= λ t. execute (λ db. ok (tt, delete_tags repo_id t.id db)))
