-- ===== src/Version/Repo/Landed.antt =====
-- versionmgr/work_repo.go: the commit that `CommitChanges` makes, and what the queries give after it.
use jiaozifs.Prelude.{
  ℕ, ◌≡◌, ◌≢◌, [], ◌∷◌, Option, none, some, ok, ◌>>=◌, Text, text_eq, if◌then◌else◌,
}
use jiaozifs.Auth.Model.{Uuid}
use jiaozifs.Version.Repo.{
  RepoDb, Branch, Wip, CommitRow, User, get_commit_row, get_branch, get_wip, commit_bytes,
}
use jiaozifs.Version.Repo.State.{in_wip, Head, of_wip, Working}
use jiaozifs.Version.Repo.Rows.{moved, rebased_row}

-- A wip that is checked out.
abbrev pub in_the_wip : Option Head → Wip → Branch → Working
in_the_wip h p b = record {
  state = in_wip;
  head_tree = h;
  wip = some p;
  branch = some b;
  tag = none;
  commit = none;
}

module _ (operator : User) (repo_id : Uuid) (default_branch : Text) (md5 : Text → Text)
    (now : ℕ) where
  -- The commit is one of the wip on its branch, by the operator.
  pub record IsCommitOf (p : Wip) (b : Branch) (u : User) (msg : Text) (c : CommitRow)
      : Type 0 where
    pub tree : c.tree_hash ≡ p.current_tree
    pub first : b.commit_hash ≡ [] → c.parent_hashes ≡ []
    pub child : b.commit_hash ≢ [] → c.parent_hashes ≡ b.commit_hash ∷ []
    pub author : c.author ≡ record { name = u.name; email = u.email; when = p.updated_at }
    pub committer :
        c.committer ≡ record { name = operator.name; email = operator.email; when = now }
    pub message : c.message ≡ msg
    pub repository_id : c.repository_id ≡ repo_id
    pub hash : c.hash ≡ md5 (commit_bytes c)

  -- The cache and the queries after the commit, by the queries before it: the branch and the wip are
  -- at the commit, the commit is stored, and the other rows are what they were.
  pub record Lands (p : Wip) (b : Branch) (c : CommitRow) (db : RepoDb) (w : Working) (db' : RepoDb)
      : Type 0 where
    pub cached :
        w
        ≡ in_the_wip
            (some of_wip)
            (record p { base_commit = c.hash })
            (record b { commit_hash = c.hash })
    pub branch_row : get_branch repo_id b.name db' ≡ ok (record b { commit_hash = c.hash })
    pub wip_row :
        get_wip p.creator_id repo_id b.id db'
        ≡ ok (record p { base_commit = c.hash; updated_at = now })
    pub stored : get_commit_row repo_id c.hash db' ≡ ok c
    pub commits :
        (h : Text)
        → get_commit_row repo_id h db'
          ≡ (if text_eq c.hash h then ok c else get_commit_row repo_id h db)
    pub branches :
        (name : Text)
        → get_branch repo_id name db'
          ≡ (get_branch repo_id name db >>= λ x. ok (moved b.id c.hash x))
    pub wips :
        (creator ref : Uuid)
        → get_wip creator repo_id ref db'
          ≡ (get_wip creator repo_id ref db >>= λ x. ok (rebased_row p.id c.hash now x))
