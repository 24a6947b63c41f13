-- ===== src/Version/Repo/Write.antt =====
-- versionmgr/work_repo.go: the operations that write wips, commits, branches and tags.
use jiaozifs.Prelude.{
  ℕ, [], ◌∷◌, Option, none, some, Result, ok, err, Text, text_eq, is_empty, if◌then◌else◌,
}
use jiaozifs.Auth.Model.{Uuid}
use jiaozifs.Version.Objects.{Table, new_root_tree_entry}
use jiaozifs.Version.Objects.Program.{TreeError, Prog, run}
use jiaozifs.Version.Worktree.{WorkNode, new_work_node}
use jiaozifs.Version.Repo.{
  RepoError, not_in_wip, base_not_branch, nil_pointer, tree_error, Signature, CommitRow, Branch,
  Wip, User, RepoDb, commit_bytes, get_branch, update_branch, update_wip, insert_commit_row,
  get_user,
}
use jiaozifs.Version.Repo.State.{
  in_wip, in_branch, Head, own, of_wip, Working, set_cur_state, Act, give, fail, ◌>>=◌, ◌>>◌,
  working, update, query, execute, transaction, deref,
}
use jiaozifs.Version.Repo.Operations.{is_state, commit_at, tree_of}

-- What a run on the table of trees does to the database.
unfoldable pub of_run :
    {A : Type 0}
    → Working
    → RepoDb
    → Result TreeError A × Table
    → Result RepoError A × (Working × RepoDb)
of_run w db (ok a, t) = (ok a, (w, record db { trees = t }))
of_run w db (err e, t) = (err (tree_error e), (w, record db { trees = t }))

-- The cached wip and branch after a commit.
unfoldable pub set_base : Text → Option Wip → Option Wip
set_base h none = none
set_base h (some p) = some (record p { base_commit = h })

unfoldable pub set_commit : Text → Option Branch → Option Branch
set_commit h none = none
set_commit h (some b) = some (record b { commit_hash = h })

unfoldable pub set_tree : Text → Option Wip → Option Wip
set_tree h none = none
set_tree h (some p) = some (record p { current_tree = h })

unfoldable pub rebased : Text → Working → Working
unfolding set_base set_commit
rebased h w = record w { branch = set_commit h w.branch; wip = set_base h w.wip }

unfoldable pub retreed : Text → Working → Working
unfolding set_tree
retreed h w = record w { wip = set_tree h w.wip; head_tree = some of_wip }

-- The hash that `headTree` points to.
unfoldable pub head_hash : Option Head → Option Wip → Act Text
unfolding deref
head_hash none p = fail nil_pointer
head_hash (some (own h)) p = give h
head_hash (some of_wip) p = deref p >>= λ q. give q.current_tree

unfoldable pub author_of : User → Wip → Signature
author_of u p = record { name = u.name; email = u.email; when = p.updated_at }

-- The operator, the repository and its default branch are those of the `WorkRepository`; `md5` is the
-- sum of `crypto/md5`, and `now` is the time of the operation.
module _ (operator : User) (repo_id : Uuid) (default_branch : Text) (md5 : Text → Text)
    (now : ℕ) where
  unfoldable pub on_trees : {A : Type 0} → Prog A → Act A
  unfolding of_run run
  on_trees p (w, db) = of_run w db (run repo_id p db.trees)

  -- The default head, which `rootTree` loads where none is cached.
  unfoldable pub load_head : Act (Unit {0})
  unfolding get_branch commit_at tree_of set_cur_state
  load_head = query (get_branch repo_id default_branch) >>= λ ref.
      update (λ w. record w { branch = some ref })
      >> (commit_at repo_id ref.commit_hash >>= λ c.
          update (set_cur_state in_branch none (some ref) none c)
          >> update (λ w. record w { head_tree = some (own (tree_of c)) }))

  unfoldable pub ensure_head : Option Head → Act (Unit {0})
  unfolding load_head
  ensure_head none = load_head
  ensure_head (some h) = give tt

  unfoldable pub root_tree : Act WorkNode
  unfolding ensure_head head_hash on_trees new_work_node new_root_tree_entry
  root_tree = working >>= λ w.
      ensure_head w.head_tree
      >> (working >>= λ w'.
          head_hash w'.head_tree w'.wip >>= λ h. on_trees (new_work_node (new_root_tree_entry h)))

  -- `changeInWip`
  unfoldable pub change_with : (WorkNode → Prog WorkNode) → Act WorkNode
  unfolding is_state root_tree on_trees
  change_with change =
      let changed = root_tree >>= λ n. on_trees (change n) in
      working >>= λ w. if is_state w.state in_wip then changed else fail not_in_wip

  -- The commit of `commitChangeRoot`.
  unfoldable pub new_commit : Signature → Text → Text → Branch → CommitRow
  unfolding commit_bytes
  new_commit author root msg b =
      let row : CommitRow = record {
        hash = [];
        repository_id = repo_id;
        author = author;
        committer = record { name = operator.name; email = operator.email; when = now };
        merge_tag = [];
        message = msg;
        tree_hash = root;
        parent_hashes = if is_empty b.commit_hash then [] else b.commit_hash ∷ [];
      } in
      record row { hash = md5 (commit_bytes row) }

  unfoldable pub with_unit : Result RepoError RepoDb → Result RepoError (Unit {0} × RepoDb)
  with_unit (ok db) = ok (tt, db)
  with_unit (err e) = err e

  unfoldable pub commit_change_root : Signature → Text → Text → Act CommitRow
  unfolding deref new_commit insert_commit_row with_unit execute update_branch
  commit_change_root author root msg = working >>= λ w. deref w.branch >>= λ b.
      execute (λ db. with_unit (insert_commit_row repo_id (new_commit author root msg b) db))
      >> execute (λ db. ok (tt, update_branch b.id (new_commit author root msg b).hash db))
      >> give (new_commit author root msg b)

  -- The test and the author, which committing and changing with a commit begin with.
  unfoldable pub commit_start : Act (Wip × Signature)
  unfolding deref text_eq get_user author_of
  commit_start = working >>= λ w. deref w.branch >>= λ b. deref w.wip >>= λ p.
      let authored = query (get_user p.creator_id) >>= λ u. give (p, author_of u p) in
      if text_eq b.commit_hash p.base_commit then authored else fail base_not_branch

  -- The assignments behind the transaction of `CommitChanges`.
  unfoldable pub commit_done : CommitRow → Act CommitRow
  unfolding deref rebased
  commit_done c = working >>= λ w. deref w.wip >>= λ p.
      update (λ v. record (rebased c.hash v) { head_tree = some of_wip }) >> give c

  unfoldable pub commit_wip : Text → Wip → Signature → Act CommitRow
  unfolding transaction commit_change_root execute update_wip
  commit_wip msg p author = transaction (
      commit_change_root author p.current_tree msg >>= λ c.
      execute (λ db. ok (tt, update_wip p.id none (some c.hash) now db)) >> give c)

  unfoldable pub commit_changes : Text → Act CommitRow
  unfolding is_state commit_start commit_wip commit_done
  commit_changes msg =
      let committed = commit_start >>= λ (p, author). commit_wip msg p author >>= commit_done in
      working >>= λ w. if is_state w.state in_wip then committed else fail not_in_wip

  -- The cache and the row of the wip get the new tree, and the row gets the commit if there is one.
  unfoldable pub write_wip : Text → Option Text → Act (Unit {0})
  unfolding deref retreed execute update_wip
  write_wip tree base = working >>= λ w. deref w.wip >>= λ p.
      update (retreed tree) >> execute (λ db. ok (tt, update_wip p.id (some tree) base now db))

  unfoldable pub change_in_wip : (WorkNode → Prog WorkNode) → Act (Unit {0})
  unfolding transaction change_with write_wip
  change_in_wip change = transaction (change_with change >>= λ n. write_wip n.entry.hash none)

  unfoldable pub change_and_commit : Text → (WorkNode → Prog WorkNode) → Act CommitRow
  unfolding commit_start transaction change_with commit_change_root write_wip rebased
  change_and_commit msg change = commit_start >>= λ (p, author).
      transaction (
        change_with change >>= λ n. commit_change_root author n.entry.hash msg >>= λ c.
        write_wip n.entry.hash (some c.hash) >> give c)
      >>= λ c. update (rebased c.hash) >> give c
