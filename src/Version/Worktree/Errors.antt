-- ===== src/Version/Worktree/Errors.antt =====
-- versionmgr/worktree.go: the errors of the operations along a path that ends early, and along one that
-- goes on behind a file.
use jiaozifs.Prelude.{◌≡◌, ap, ◌∙◌, false, if-false, err, is_empty, Text}
use jiaozifs.Auth.Model.{Uuid}
use jiaozifs.Version.Objects.{Blob, Table}
use jiaozifs.Version.Objects.Program.{TreeError, blob_must_be_leaf, Prog, run}
use jiaozifs.Version.Objects.Run.{run->>=_err}
use jiaozifs.Version.Worktree.{WorkNode, Found, find_node_by_path, clean_path}
use jiaozifs.Strings.{split}
use jiaozifs.Version.Worktree.Find.{LeadsFrom}
use jiaozifs.Version.Worktree.Blocked.{Blocks, LeadsFrom-Blocks}
use jiaozifs.Version.Worktree.Write.{add_leaf, replace_leaf}
use jiaozifs.Version.Worktree.Read.{reach, ls, find_blob}
use jiaozifs.Version.Worktree.Remove.{remove_entry}

module _ (md5 : Text → Text) (repo_id : Uuid) where
  -- `findNodeByPath` as the operations call it.
  abbrev pub locate : WorkNode → Text → Prog Found
  locate root path = find_node_by_path root (clean_path path)

  run-reach_err :
      (root : WorkNode) (path : Text) (t : Table) (x : TreeError)
      → run repo_id (locate root path) t ≡ (err x, t)
      → run repo_id (reach root (clean_path path)) t ≡ (err x, t)
  unfolding reach
  run-reach_err root path t x e = run->>=_err repo_id (locate root path) _ t x t e

  run-ls_of_reach :
      (root : WorkNode) (path : Text) (t : Table) (x : TreeError)
      → is_empty (clean_path path) ≡ false
      → run repo_id (reach root (clean_path path)) t ≡ (err x, t)
      → run repo_id (ls root path) t ≡ (err x, t)
  unfolding ls
  run-ls_of_reach root path t x b e =
      ap (λ p. run repo_id p t) (if-false (is_empty (clean_path path)) _ _ b)
      ∙ run->>=_err repo_id (reach root (clean_path path)) _ t x t e

  run-find_blob_of_reach :
      (root : WorkNode) (path : Text) (t : Table) (x : TreeError)
      → run repo_id (reach root (clean_path path)) t ≡ (err x, t)
      → run repo_id (find_blob root path) t ≡ (err x, t)
  unfolding find_blob
  run-find_blob_of_reach root path t x e =
      run->>=_err repo_id (reach root (clean_path path)) _ t x t e

  error_of_search :
      (root : WorkNode) (path : Text) (blob : Blob) (t : Table) (x : TreeError)
      → is_empty (clean_path path) ≡ false
      → run repo_id (find_node_by_path root (clean_path path)) t ≡ (err x, t)
      → (run repo_id (add_leaf md5 repo_id root path blob) t ≡ (err x, t))
        × (run repo_id (replace_leaf md5 repo_id root path blob) t ≡ (err x, t))
        × (run repo_id (remove_entry md5 repo_id root path) t ≡ (err x, t))
        × (run repo_id (find_blob root path) t ≡ (err x, t))
        × (run repo_id (ls root path) t ≡ (err x, t))
  unfolding add_leaf replace_leaf remove_entry
  error_of_search root path blob t x b e =
      let r = run-reach_err root path t x e in
      (
        run->>=_err repo_id (locate root path) _ t x t e,
        run->>=_err repo_id (locate root path) _ t x t e,
        run->>=_err repo_id (locate root path) _ t x t e,
        run-find_blob_of_reach root path t x r,
        run-ls_of_reach root path t x b r,
      )

  -- Where a path that is not empty goes on behind a file that the tree has on the way, adding,
  -- replacing, removing, finding the blob and listing all fail with `blob_must_be_leaf`, and the
  -- table stays as it was.
  pub blob_must_be_leaf-of_file :
      (root : WorkNode) (path : Text) (blob : Blob) (t : Table)
      → is_empty (clean_path path) ≡ false
      → LeadsFrom repo_id (Blocks repo_id) t root (split b'/' (clean_path path))
      → (run repo_id (add_leaf md5 repo_id root path blob) t ≡ (err blob_must_be_leaf, t))
        × (run repo_id (replace_leaf md5 repo_id root path blob) t ≡ (err blob_must_be_leaf, t))
        × (run repo_id (remove_entry md5 repo_id root path) t ≡ (err blob_must_be_leaf, t))
        × (run repo_id (find_blob root path) t ≡ (err blob_must_be_leaf, t))
        × (run repo_id (ls root path) t ≡ (err blob_must_be_leaf, t))
  unfolding find_node_by_path
  blob_must_be_leaf-of_file root path blob t b w =
      error_of_search root path blob t blob_must_be_leaf b
        (LeadsFrom-Blocks repo_id t root (split b'/' (clean_path path)) w)
