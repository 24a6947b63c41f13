-- ===== src/Version/Repo/Steps.antt =====
-- versionmgr/work_repo.go: sequences of operations on one work repository.
use jiaozifs.Prelude.{ℕ, List, [], ◌∷◌, Option, Result, ok, err, Text}
use jiaozifs.Auth.Model.{Uuid}
use jiaozifs.Version.Objects.Program.{Prog}
use jiaozifs.Version.Worktree.{WorkNode}
use jiaozifs.Version.Repo.{RepoError, RepoDb, User}
use jiaozifs.Version.Repo.State.{Working, fresh, Act, give, ◌>>◌, update}
use jiaozifs.Version.Repo.Operations.{Ref, check_out}
use jiaozifs.Version.Repo.Write.{root_tree, commit_changes, change_in_wip, change_and_commit}
use jiaozifs.Version.Repo.Refs.{
  get_or_create_wip, delete_wip, create_branch, delete_branch, create_tag, delete_tag,
}
use jiaozifs.Version.Repo.Triple.{Ends, Triple}
use jiaozifs.Version.Repo.Invariant.{HasShape, HasHead, IsWellFormed, Keeps, Keeps-check_out}
use jiaozifs.Version.Repo.Kept.{Keeps->>=, Keeps-give, Keeps-update}
use jiaozifs.Version.Repo.Preserved.{
  Keeps-root_tree, Keeps-commit_changes, Keeps-change_in_wip, Keeps-change_and_commit,
}
use jiaozifs.Version.Repo.RefsPreserved.{
  Keeps-get_or_create_wip, Keeps-delete_wip, Keeps-create_branch, Keeps-delete_branch,
  Keeps-create_tag, Keeps-delete_tag,
}

-- A call of a method, with its arguments.
pub data Op : Type 0 where
  op_check_out : Ref → Op
  op_root_tree op_get_or_create_wip op_delete_wip op_delete_branch op_delete_tag op_reset : Op
  op_create_branch op_commit : Text → Op
  op_create_tag : Text → Option Text → Op
  op_change : (WorkNode → Prog WorkNode) → Op
  op_change_commit : Text → (WorkNode → Prog WorkNode) → Op

module _ (operator : User) (repo_id : Uuid) (default_branch : Text) (md5 : Text → Text)
    (decode_hex : Text → Option Text) (uuid_generate : ℕ → Uuid) where
  unit_of : {A : Type 0} → Act A → Act (Unit {0})
  unit_of m = m >> give tt

  -- A call at a time.
  unfoldable pub perform : ℕ → Op → Act (Unit {0})
  unfolding unit_of check_out root_tree get_or_create_wip delete_wip delete_branch delete_tag
      create_branch create_tag commit_changes change_in_wip change_and_commit
  perform now (op_check_out ref) = check_out operator repo_id decode_hex ref
  perform now op_root_tree = unit_of (root_tree operator repo_id default_branch md5 now)
  perform now op_get_or_create_wip = unit_of (get_or_create_wip operator repo_id uuid_generate now)
  perform now op_delete_wip = delete_wip operator repo_id uuid_generate
  perform now op_delete_branch = delete_branch operator repo_id uuid_generate
  perform now op_delete_tag = delete_tag operator repo_id uuid_generate
  perform now op_reset = update (λ w. fresh)
  perform now (op_create_branch name) = unit_of (create_branch operator repo_id uuid_generate name)
  perform now (op_create_tag name msg) =
      unit_of (create_tag operator repo_id uuid_generate name msg)
  perform now (op_commit msg) = unit_of (commit_changes operator repo_id default_branch md5 now msg)
  perform now (op_change change) = change_in_wip operator repo_id default_branch md5 now change
  perform now (op_change_commit msg change) =
      unit_of (change_and_commit operator repo_id default_branch md5 now msg change)

  -- The calls one after the other; the caller may go on after an error.
  unfoldable pub perform_all : List (ℕ × Op) → Working × RepoDb → Working × RepoDb
  unfolding perform
  perform_all [] s = s
  perform_all ((now, op) ∷ ops) s = perform_all ops (perform now op s).1

  Keeps-unit_of : {A : Type 0} (m : Act A) → Keeps m → Keeps (unit_of m)
  unfolding unit_of
  Keeps-unit_of m x = Keeps->>= m (λ a. give tt) x (λ a. Keeps-give tt)

  Keeps-perform : (now : ℕ) (op : Op) → Keeps (perform now op)
  unfolding perform HasShape HasHead
  Keeps-perform now (op_check_out ref) = Keeps-check_out operator repo_id decode_hex ref
  Keeps-perform now op_root_tree =
      Keeps-unit_of _ (Keeps-root_tree operator repo_id default_branch md5 now)
  Keeps-perform now op_get_or_create_wip =
      Keeps-unit_of _ (Keeps-get_or_create_wip operator repo_id uuid_generate now)
  Keeps-perform now op_delete_wip = Keeps-delete_wip operator repo_id uuid_generate
  Keeps-perform now op_delete_branch = Keeps-delete_branch operator repo_id uuid_generate
  Keeps-perform now op_delete_tag = Keeps-delete_tag operator repo_id uuid_generate
  Keeps-perform now op_reset = Keeps-update (λ w. fresh) (λ w x. (tt, tt))
  Keeps-perform now (op_create_branch name) =
      Keeps-unit_of _ (Keeps-create_branch operator repo_id uuid_generate name)
  Keeps-perform now (op_create_tag name msg) =
      Keeps-unit_of _ (Keeps-create_tag operator repo_id uuid_generate name msg)
  Keeps-perform now (op_commit msg) =
      Keeps-unit_of _ (Keeps-commit_changes operator repo_id default_branch md5 now msg)
  Keeps-perform now (op_change change) =
      Keeps-change_in_wip operator repo_id default_branch md5 now change
  Keeps-perform now (op_change_commit msg change) =
      Keeps-unit_of _ (Keeps-change_and_commit operator repo_id default_branch md5 now msg change)

  Ends-both :
      {A : Type 0} (r : Result RepoError A × (Working × RepoDb))
      → Ends IsWellFormed IsWellFormed r
      → IsWellFormed r.1.0
  unfolding Ends
  Ends-both (ok a, (w, db)) x = x
  Ends-both (err e, (w, db)) x = x

  perform-IsWellFormed :
      (now : ℕ) (op : Op) (w : Working) (db : RepoDb)
      → IsWellFormed w
      → IsWellFormed (perform now op (w, db)).1.0
  unfolding Triple
  perform-IsWellFormed now op w db x =
      Ends-both (perform now op (w, db)) (Keeps-perform now op w db x)

  kept_by_all :
      (ops : List (ℕ × Op)) (w : Working) (db : RepoDb)
      → IsWellFormed w
      → IsWellFormed (perform_all ops (w, db)).0
  unfolding perform_all
  kept_by_all [] w db x = x
  kept_by_all ((now, op) ∷ ops) w db x =
      kept_by_all ops (perform now op (w, db)).1.0 (perform now op (w, db)).1.1
        (perform-IsWellFormed now op w db x)

  -- Whatever methods are called on a new work repository, in whatever order, with errors or without,
  -- the cache has the pointers of its state: a wip and a branch in a wip, a branch in a branch, a
  -- commit in a commit, a tag and a commit in a tag; and a head that points to the wip has one.
  pub perform_all-IsWellFormed :
      (ops : List (ℕ × Op)) (db : RepoDb) → IsWellFormed (perform_all ops (fresh, db)).0
  unfolding HasShape HasHead
  perform_all-IsWellFormed ops db = kept_by_all ops fresh db (tt, tt)
