-- ===== src/Version/Repo/Committed.antt =====
-- versionmgr/work_repo.go: what `CommitChanges` leaves.
use jiaozifs.Prelude.{
  ℕ, ◌≡◌, refl, ◌∷◌, Option, none, some, ok, err, Text, text_eq_iff, text_eq_refl,
}
use jiaozifs.Auth.Model.{Uuid}
use jiaozifs.Version.Repo.{
  not_found, RepoDb, Branch, Wip, User, get_user, get_commit_row, insert_commit_row, update_branch,
  update_wip,
}
use jiaozifs.Version.Repo.State.{in_wip, Head, of_wip, ◌>>=◌, and_then, deref, execute, transaction}
use jiaozifs.Version.Repo.Operations.{is_state}
use jiaozifs.Version.Repo.Write.{
  author_of, new_commit, commit_start, commit_wip, commit_done, commit_changes, commit_change_root,
  with_unit, rebased,
}

module _ (operator : User) (repo_id : Uuid) (default_branch : Text) (md5 : Text → Text)
    (now : ℕ) where
  -- In a wip whose base is the commit of its branch, with a creator and a commit that is new,
  -- committing ends well. The commit has the tree of the wip and the commit of the branch for its
  -- parent; the row of the branch and of the wip, and the cached branch and wip, have it afterwards.
  pub commit_changes-eq :
      (h : Option Head) (p : Wip) (b : Branch) (u : User) (msg : Text) (db : RepoDb)
      → b.commit_hash ≡ p.base_commit
      → get_user p.creator_id db ≡ ok u
      → get_commit_row repo_id
          (new_commit operator repo_id default_branch md5 now
            (author_of u p)
            p.current_tree
            msg
            b).hash
          db
        ≡ err not_found
      → commit_changes operator repo_id default_branch md5 now msg (
        record {
          state = in_wip;
          head_tree = h;
          wip = some p;
          branch = some b;
          tag = none;
          commit = none;
        },
        db,
      )
        ≡ (let c =
              new_commit operator repo_id default_branch md5 now
                (author_of u p)
                p.current_tree
                msg
                b in
            (
              ok c,
              (
                record {
                  state = in_wip;
                  head_tree = some of_wip;
                  wip = some (record p { base_commit = c.hash });
                  branch = some (record b { commit_hash = c.hash });
                  tag = none;
                  commit = none;
                },
                update_wip p.id none
                    (some c.hash)
                    now
                    (update_branch b.id c.hash (record db { commits = c ∷ db.commits })),
              ),
            ))
  unfolding commit_changes commit_start commit_wip commit_done commit_change_root ◌>>=◌ and_then
      deref execute transaction is_state with_unit rebased insert_commit_row
  commit_changes-eq h p b u msg db e f g =
      rw
        (
          (text_eq_iff b.commit_hash p.base_commit).1 e,
          f,
          insert_commit_row,
          text_eq_refl repo_id,
          g,
        )
        refl
