-- ===== src/Version/Repo/Preserved.antt =====
-- versionmgr/work_repo.go: the operations that write keep the cache well formed.
use jiaozifs.Prelude.{ℕ, refl, Option, none, some, Result, ok, Text, text_eq}
use jiaozifs.Auth.Model.{Uuid}
use jiaozifs.Version.Objects.{new_root_tree_entry}
use jiaozifs.Version.Objects.Program.{Prog, run}
use jiaozifs.Version.Worktree.{WorkNode, new_work_node}
use jiaozifs.Version.Repo.{
  RepoError, get_branch, get_user, insert_commit_row, update_branch, update_wip, not_in_wip,
  base_not_branch, RepoDb, Branch, Wip, CommitRow, User, Signature,
}
use jiaozifs.Version.Repo.State.{
  and_then, in_wip, in_branch, Head, own, set_cur_state, Act, give, ◌>>=◌, ◌>>◌, working, update,
  query, execute, transaction, deref,
}
use jiaozifs.Version.Repo.Operations.{is_state, commit_at, tree_of}
use jiaozifs.Version.Repo.Write.{
  rebased, retreed, head_hash, author_of, on_trees, load_head, root_tree, change_with,
  commit_change_root, commit_start, commit_changes, commit_done, commit_wip, write_wip, ensure_head,
  new_commit, with_unit, change_in_wip, change_and_commit,
}
use jiaozifs.Version.Repo.Triple.{Ends, Triple, Triple->>=, Triple-fail, Triple-update}
use jiaozifs.Version.Repo.Invariant.{HasShape, HasHead, IsWellFormed, Keeps, Keeps-commit_at}
use jiaozifs.Version.Repo.Kept.{
  Keeps->>=, Keeps-give, Keeps-update, Keeps-if, HasShape-map, IsWellFormed-rebased, HasWip,
  Triple-own_wip, HasWip-retreed, IsWellFormed-committed, Keeps-query, Keeps-execute, Keeps-deref,
  Keeps-working, Keeps-transaction, Ends-of_run, Keeps-head_hash,
}

module _ (operator : User) (repo_id : Uuid) (default_branch : Text) (md5 : Text → Text)
    (now : ℕ) where
  Keeps-on_trees :
      {A : Type 0} (p : Prog A) → Keeps (on_trees operator repo_id default_branch md5 now p)
  unfolding on_trees Triple
  Keeps-on_trees p = λ w db x. Ends-of_run w db (run repo_id p db.trees) x

  Keeps-default :
      (ref : Branch) (c : Option CommitRow)
      → Keeps (
          update (set_cur_state in_branch none (some ref) none c)
          >> update (λ w. record w { head_tree = some (own (tree_of c)) }))
  unfolding set_cur_state HasShape HasHead Ends ◌>>=◌ and_then Triple
  Keeps-default ref c = λ w db x. ((ref, refl), tt)

  Keeps-load_head : Keeps (load_head operator repo_id default_branch md5 now)
  unfolding load_head
  Keeps-load_head =
      Keeps->>= (query (get_branch repo_id default_branch)) _
        (Keeps-query (get_branch repo_id default_branch))
        λ ref.
          Keeps->>= (update (λ w. record w { branch = some ref })) _
            (Keeps-update _ λ w (x, y). (
              HasShape-map w.state w.wip w.wip w.branch (some ref) w.tag w.commit (λ p. p)
                  (λ b. (ref, refl)) x,
              y,
            ))
            λ z.
              Keeps->>= (commit_at repo_id ref.commit_hash) _
                (Keeps-commit_at repo_id ref.commit_hash) λ c. Keeps-default ref c

  Keeps-ensure_head :
      (h : Option Head) → Keeps (ensure_head operator repo_id default_branch md5 now h)
  unfolding ensure_head
  Keeps-ensure_head none = Keeps-load_head
  Keeps-ensure_head (some h) = Keeps-give tt

  pub Keeps-root_tree : Keeps (root_tree operator repo_id default_branch md5 now)
  unfolding root_tree
  Keeps-root_tree = Keeps->>= working _ Keeps-working λ w.
      Keeps->>= (ensure_head operator repo_id default_branch md5 now w.head_tree) _
        (Keeps-ensure_head w.head_tree)
        λ z. Keeps->>= working _ Keeps-working λ w'.
          Keeps->>= (head_hash w'.head_tree w'.wip) _ (Keeps-head_hash w'.head_tree w'.wip)
            λ h. Keeps-on_trees (new_work_node (new_root_tree_entry h))

  Keeps-change_with :
      (change : WorkNode → Prog WorkNode)
      → Keeps (change_with operator repo_id default_branch md5 now change)
  unfolding change_with
  Keeps-change_with change = Keeps->>= working _ Keeps-working λ w.
      Keeps-if (is_state w.state in_wip) _ _
        (Keeps->>= (root_tree operator repo_id default_branch md5 now) _ Keeps-root_tree
          (λ n. Keeps-on_trees (change n)))
        (Triple-fail IsWellFormed WorkNode IsWellFormed not_in_wip)

  Keeps-commit_change_root :
      (author : Signature) (root msg : Text)
      → Keeps (commit_change_root operator repo_id default_branch md5 now author root msg)
  unfolding commit_change_root
  Keeps-commit_change_root author root msg = Keeps->>= working _ Keeps-working λ w.
      Keeps->>= (deref w.branch) _ (Keeps-deref w.branch) λ b.
        let c = new_commit operator repo_id default_branch md5 now author root msg b in
        let inserted = λ (db : RepoDb).
          with_unit operator repo_id default_branch md5 now (insert_commit_row repo_id c db) in
        let moved : RepoDb → Result RepoError (Unit {0} × RepoDb) =
          λ db. ok (tt, update_branch b.id c.hash db) in
        Keeps->>= (execute inserted >> execute moved) (λ y. give c)
          (Keeps->>= (execute inserted) (λ z. execute moved) (Keeps-execute inserted)
            (λ z. Keeps-execute moved))
          λ y. Keeps-give c

  Keeps-commit_start : Keeps (commit_start operator repo_id default_branch md5 now)
  unfolding commit_start
  Keeps-commit_start = Keeps->>= working _ Keeps-working λ w.
      Keeps->>= (deref w.branch) _ (Keeps-deref w.branch) λ b.
        Keeps->>= (deref w.wip) _ (Keeps-deref w.wip) λ p.
          Keeps-if (text_eq b.commit_hash p.base_commit) _ _
            (Keeps->>= (query (get_user p.creator_id)) _ (Keeps-query (get_user p.creator_id))
              (λ u. Keeps-give (p, author_of u p)))
            (Triple-fail IsWellFormed (Wip × Signature) IsWellFormed base_not_branch)

  Keeps-write_wip :
      (tree : Text) (base : Option Text)
      → Keeps (write_wip operator repo_id default_branch md5 now tree base)
  unfolding write_wip
  Keeps-write_wip tree base = Triple-own_wip IsWellFormed _ λ p.
      Triple->>= IsWellFormed HasWip IsWellFormed IsWellFormed (update (retreed tree)) _
        (Triple-update IsWellFormed HasWip IsWellFormed (retreed tree)
          (λ w x. (HasWip-retreed tree w x).0))
        (λ z. Keeps-execute (λ db. ok (tt, update_wip p.id (some tree) base now db)))

  Keeps-commit_done :
      (c : CommitRow) → Keeps (commit_done operator repo_id default_branch md5 now c)
  unfolding commit_done
  Keeps-commit_done c = Triple-own_wip IsWellFormed _ λ p.
      Triple->>= IsWellFormed HasWip IsWellFormed IsWellFormed (update _) _
        (Triple-update IsWellFormed HasWip IsWellFormed _ (IsWellFormed-committed c.hash))
        (λ z. Keeps-give c)

  Keeps-store :
      (p : Wip) (c : CommitRow)
      → Keeps (execute (λ db. ok (tt {0}, update_wip p.id none (some c.hash) now db)) >> give c)
  Keeps-store p c =
      let stored : RepoDb → Result RepoError (Unit {0} × RepoDb) =
        λ db. ok (tt, update_wip p.id none (some c.hash) now db) in
      Keeps->>= (execute stored) (λ z. give c) (Keeps-execute stored) (λ z. Keeps-give c)

  Keeps-commit_wip :
      (msg : Text) (p : Wip) (author : Signature)
      → Keeps (commit_wip operator repo_id default_branch md5 now msg p author)
  unfolding commit_wip
  Keeps-commit_wip msg p author =
      let committed =
        commit_change_root operator repo_id default_branch md5 now author p.current_tree msg in
      let then_stored : CommitRow → Act CommitRow =
        λ c. execute (λ db. ok (tt {0}, update_wip p.id none (some c.hash) now db)) >> give c in
      Keeps-transaction (committed >>= then_stored) (
        Keeps->>= committed then_stored (Keeps-commit_change_root author p.current_tree msg)
          (Keeps-store p))

  pub Keeps-commit_changes :
      (msg : Text) → Keeps (commit_changes operator repo_id default_branch md5 now msg)
  unfolding commit_changes
  Keeps-commit_changes msg =
      let committed : Wip × Signature → Act CommitRow = λ (p, author).
        commit_wip operator repo_id default_branch md5 now msg p author
        >>= commit_done operator repo_id default_branch md5 now in
      Keeps->>= working _ Keeps-working λ w.
        Keeps-if (is_state w.state in_wip) _ _
          (Keeps->>= (commit_start operator repo_id default_branch md5 now) committed
            Keeps-commit_start
            λ (p, author).
              Keeps->>= (commit_wip operator repo_id default_branch md5 now msg p author)
                (commit_done operator repo_id default_branch md5 now)
                (Keeps-commit_wip msg p author) Keeps-commit_done)
          (Triple-fail IsWellFormed CommitRow IsWellFormed not_in_wip)

  pub Keeps-change_in_wip :
      (change : WorkNode → Prog WorkNode)
      → Keeps (change_in_wip operator repo_id default_branch md5 now change)
  unfolding change_in_wip
  Keeps-change_in_wip change =
      let written : WorkNode → Act (Unit {0}) =
        λ n. write_wip operator repo_id default_branch md5 now n.entry.hash none in
      Keeps-transaction (change_with operator repo_id default_branch md5 now change >>= written) (
        Keeps->>= (change_with operator repo_id default_branch md5 now change) written
          (Keeps-change_with change) (λ n. Keeps-write_wip n.entry.hash none))

  Keeps-change_commit :
      (msg : Text) (author : Signature) (n : WorkNode)
      → Keeps (
          commit_change_root operator repo_id default_branch md5 now author n.entry.hash msg
          >>= λ c.
              write_wip operator repo_id default_branch md5 now n.entry.hash (some c.hash)
              >> give c)
  Keeps-change_commit msg author n =
      let written : CommitRow → Act CommitRow = λ c.
        write_wip operator repo_id default_branch md5 now n.entry.hash (some c.hash) >> give c in
      Keeps->>= (commit_change_root operator repo_id default_branch md5 now author n.entry.hash msg)
        written (Keeps-commit_change_root author n.entry.hash msg)
        λ c.
          Keeps->>= (write_wip operator repo_id default_branch md5 now n.entry.hash (some c.hash))
            (λ z. give c) (Keeps-write_wip n.entry.hash (some c.hash)) (λ z. Keeps-give c)

  pub Keeps-change_and_commit :
      (msg : Text) (change : WorkNode → Prog WorkNode)
      → Keeps (change_and_commit operator repo_id default_branch md5 now msg change)
  unfolding change_and_commit
  Keeps-change_and_commit msg change =
      let changed = change_with operator repo_id default_branch md5 now change in
      let done : CommitRow → Act CommitRow = λ c. update (rebased c.hash) >> give c in
      Keeps->>= (commit_start operator repo_id default_branch md5 now) _ Keeps-commit_start
        λ (p, author).
          let committed : WorkNode → Act CommitRow = λ n.
            commit_change_root operator repo_id default_branch md5 now author n.entry.hash msg
            >>= λ c.
                write_wip operator repo_id default_branch md5 now n.entry.hash (some c.hash)
                >> give c in
          Keeps->>= (transaction (changed >>= committed)) done
            (Keeps-transaction (changed >>= committed) (
              Keeps->>= changed committed (Keeps-change_with change)
                (Keeps-change_commit msg author)))
            λ c.
              Keeps->>= (update (rebased c.hash)) (λ z. give c)
                (Keeps-update (rebased c.hash) (IsWellFormed-rebased c.hash)) (λ z. Keeps-give c)
