-- ===== src/Version/Repo/Tests.antt =====
-- versionmgr/work_repo.go: a small repository with a branch, its wip and a first commit.
use jiaozifs.Prelude.{◌≡◌, refl, ℕ, List, [], ◌∷◌, none, some, ok, Text, codes}
use jiaozifs.Auth.Model.{Uuid}
use jiaozifs.Version.Worktree.Write.{add_leaf}
use jiaozifs.Version.Objects.{Blob, new_blob, default_leaf_property}
use jiaozifs.Version.Repo.{get_branch, RepoDb, Branch, Wip, CommitRow, User, get_commit_row}
use jiaozifs.Version.Repo.State.{in_branch, ◌>>◌, fresh, in_wip, own, ◌>>=◌}
use jiaozifs.Version.Repo.Operations.{check_out, branch_ref, wip_ref}
use jiaozifs.Version.Repo.Write.{author_of, new_commit}
use jiaozifs.Version.Repo.Invariant.{IsWellFormed}
use jiaozifs.Version.Repo.Steps.{
  Op, op_check_out, op_get_or_create_wip, op_change, op_commit, op_delete_branch, perform_all,
  perform_all-IsWellFormed,
}
use jiaozifs.Version.Repo.Refs.{create_branch}
use jiaozifs.Version.Repo.Branched.{branch_of, check_out-create_branch}

abbrev md5_like : Text → Text
md5_like s = 1 ∷ s

abbrev operator : User
operator = record { id = codes "u"; name = codes "ann"; email = codes "a@b" }

abbrev repo : Uuid
repo = codes "r"

abbrev main : Branch
main = record {
  id = codes "m";
  repository_id = repo;
  commit_hash = [];
  name = codes "main";
  creator_id = codes "u";
}

abbrev wip : Wip
wip = record {
  id = codes "w";
  current_tree = codes "tree";
  base_commit = [];
  repository_id = repo;
  ref_id = codes "m";
  creator_id = codes "u";
  updated_at = 5;
}

abbrev db : RepoDb
db = record {
  branches = main ∷ [];
  tags = [];
  wips = wip ∷ [];
  commits = [];
  users = operator ∷ [];
  trees = [];
  issued = 0;
}

abbrev first : CommitRow
first =
    new_commit operator repo (codes "main") md5_like 9 (author_of operator wip) (codes "tree")
      (codes "msg") main

-- The branch has a commit, and the tables have another branch beside it.
abbrev ahead : Branch
ahead = record main { commit_hash = codes "old" }

abbrev ahead_wip : Wip
ahead_wip = record wip { base_commit = codes "old" }

abbrev ahead_db : RepoDb
ahead_db = record db {
  branches = record main { id = codes "n"; name = codes "side" } ∷ ahead ∷ [];
  wips = ahead_wip ∷ [];
}

abbrev blob : Blob
blob = new_blob md5_like default_leaf_property repo (codes "sum") 3

-- A wip is made on the branch, a file is added to it and committed, and the branch is deleted.
abbrev calls : List (ℕ × Op)
calls =
    (1, op_check_out (branch_ref (codes "main")))
    ∷ (2, op_get_or_create_wip)
    ∷ (3, op_check_out (wip_ref (codes "main")))
    ∷ (4, op_change (λ root. add_leaf md5_like repo root (codes "a/b") blob))
    ∷ (5, op_commit (codes "msg"))
    ∷ (6, op_delete_branch)
    ∷ []

perform_all-IsWellFormed_example :
    IsWellFormed
      (perform_all operator repo
        (codes "main")
        md5_like
        (λ t. none)
        (λ n. n ∷ [])
        calls
        (fresh, record db { wips = [] })).0
perform_all-IsWellFormed_example =
    perform_all-IsWellFormed operator repo (codes "main") md5_like (λ t. none) (λ n. n ∷ []) calls
      (record db { wips = [] })

after_calls :
    (perform_all operator repo
      (codes "main")
      md5_like
      (λ t. none)
      (λ n. n ∷ [])
      calls
      (fresh, record db { wips = [] })).0.state
    ≡ in_wip
unfolding perform_all ◌>>=◌ add_leaf new_blob
after_calls = refl

check_out-create_branch_example :
    (create_branch operator repo (λ n. n ∷ []) (codes "next")
        >> check_out operator repo (λ t. none) (branch_ref (codes "next")))
      (
        record {
          state = in_branch;
          head_tree = none;
          wip = none;
          branch = some main;
          tag = none;
          commit = some first;
        },
        record db { commits = first ∷ [] },
      )
    ≡ (
      ok tt,
      (
        record {
          state = in_branch;
          head_tree = some (own first.tree_hash);
          wip = none;
          branch = some (branch_of operator repo (λ t. none) (λ n. n ∷ []) (codes "next") first 0);
          tag = none;
          commit = some first;
        },
        record db {
          commits = first ∷ [];
          branches =
              branch_of operator repo (λ t. none) (λ n. n ∷ []) (codes "next") first 0 ∷ main ∷ [];
          issued = 1;
        },
      ),
    )
unfolding get_branch get_commit_row new_commit author_of
check_out-create_branch_example =
    check_out-create_branch operator repo (λ t. none) (λ n. n ∷ []) in_branch none none (some main)
      none first (codes "next") (record db { commits = first ∷ [] }) refl refl refl
