-- ===== src/Version/Worktree/RoundTrip.antt =====
-- versionmgr/worktree.go: a leaf that was added or replaced is found again under its path.
use jiaozifs.Prelude.{◌≡◌, ◌≢◌, refl, ap, ◌∙◌, true, if-true, [], ok, Text}
use jiaozifs.Strings.{split}
use jiaozifs.Auth.Model.{Uuid}
use jiaozifs.Version.Objects.{
  blob_object, type_is, type_code, Blob, Table, file_tree_of_blob, blob_of_row,
}
use jiaozifs.Version.Objects.Program.{run, ReadsBack}
use jiaozifs.Version.Objects.Post.{Post-run}
use jiaozifs.Version.Objects.Run.{run->>=}
use jiaozifs.Version.Worktree.{WorkNode, find_segs, find_node_by_path, clean_path}
use jiaozifs.Version.Worktree.Write.{add_leaf, replace_leaf}
use jiaozifs.Version.Worktree.Read.{reach, find_blob}
use jiaozifs.Version.Worktree.Find.{LeadsFrom, AtBlob, LeadsFrom-Finds, last_name}
use jiaozifs.Version.Worktree.Leaf.{Reaches, Post-add_leaf, Post-replace_leaf}

-- The last name of a path, as the work tree reads it.
abbrev pub base_name : Text → Text
base_name path = last_name (split b'/' (clean_path path))

pub Finds-find_blob :
    (repo_id : Uuid) (path : Text) (blob : Blob) (new : WorkNode) (u : Table)
    → blob.type ≡ blob_object
    → LeadsFrom repo_id (AtBlob repo_id blob) u new (split b'/' (clean_path path))
    → run repo_id (find_blob new path) u ≡ (ok (blob, base_name path), u)
unfolding find_blob reach find_node_by_path run type_is type_code file_tree_of_blob blob_of_row
Finds-find_blob repo_id path blob new u k w =
    let (exist, o, r, l, b, nm) =
      LeadsFrom-Finds repo_id blob u new (split b'/' (clean_path path)) w in
    let is_blob : type_is blob_object o.node.type ≡ true =
      ap (λ row. type_is blob_object row.type) b ∙ ap (type_is blob_object) k in
    run->>= repo_id (reach new (clean_path path)) _ u o u (
      run->>= repo_id (find_segs new (split b'/' (clean_path path))) _ u (exist, []) u r
      ∙ rw l refl)
    ∙ ap (λ p. run repo_id p u) (if-true (type_is blob_object o.node.type) _ _ is_blob)
    ∙ ap (λ row. (ok (blob_of_row row, o.entry.name), u)) b
    ∙ ap (λ name. (ok (blob, name), u)) nm

module _ (md5 : Text → Text) (repo_id : Uuid) where
  -- Where adding a leaf ends well and every row it inserts reads back, the new root finds the blob
  -- under the path, with the last name of the path.
  pub add_leaf-find_blob :
      ((s : Text) → md5 s ≢ [])
      → (root : WorkNode) (path : Text) (blob : Blob) (t : Table) (new : WorkNode) (u : Table)
      → blob.type ≡ blob_object
      → run repo_id (add_leaf md5 repo_id root path blob) t ≡ (ok new, u)
      → ReadsBack repo_id (add_leaf md5 repo_id root path blob) t
      → run repo_id (find_blob new path) u ≡ (ok (blob, base_name path), u)
  add_leaf-find_blob ne root path blob t new u k e b = Finds-find_blob repo_id path blob new u k (
      Post-run repo_id (Reaches md5 ne repo_id path blob) (add_leaf md5 repo_id root path blob) t
        new u (Post-add_leaf md5 ne repo_id root path blob t) b e)

  -- The same of replacing a leaf.
  pub replace_leaf-find_blob :
      ((s : Text) → md5 s ≢ [])
      → (root : WorkNode) (path : Text) (blob : Blob) (t : Table) (new : WorkNode) (u : Table)
      → blob.type ≡ blob_object
      → run repo_id (replace_leaf md5 repo_id root path blob) t ≡ (ok new, u)
      → ReadsBack repo_id (replace_leaf md5 repo_id root path blob) t
      → run repo_id (find_blob new path) u ≡ (ok (blob, base_name path), u)
  replace_leaf-find_blob ne root path blob t new u k e b =
      Finds-find_blob repo_id path blob new u k (
        Post-run repo_id (Reaches md5 ne repo_id path blob)
          (replace_leaf md5 repo_id root path blob) t new u
          (Post-replace_leaf md5 ne repo_id root path blob t) b e)
