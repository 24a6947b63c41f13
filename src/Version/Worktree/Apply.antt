-- ===== src/Version/Worktree/Apply.antt =====
-- versionmgr/worktree.go: `ApplyOneChange`.
use jiaozifs.Prelude.{ok, err, Text, none, some}
use jiaozifs.Auth.Model.{Uuid}
use jiaozifs.Merkletrie.Noder.{NoderPath, node_hash, path_last, path_string}
use jiaozifs.Merkletrie.Change.{Change, insert, delete, modify, action}
use jiaozifs.Version.Objects.Program.{
  malformed_change, index_out_of_range, Prog, raise, ◌>>=◌, get_blob,
}
use jiaozifs.Version.Worktree.{WorkNode}
use jiaozifs.Version.Worktree.Write.{add_leaf, replace_leaf}
use jiaozifs.Version.Worktree.Remove.{remove_entry}

-- `Path.Hash`, which panics on an empty path.
unfoldable pub path_hash : NoderPath → Prog Text
unfolding path_last
path_hash p = elim (path_last p) [
  | none ↦ raise index_out_of_range
  | some n ↦ Prog.done (node_hash n)
]

module _ (md5 : Text → Text) (repo_id : Uuid) where
  unfoldable pub apply_one_change : WorkNode → Change → Prog WorkNode
  unfolding action path_hash get_blob path_string add_leaf remove_entry replace_leaf
  apply_one_change root c = elim (action c) [
    | err e ↦ raise malformed_change
    | ok insert ↦
        path_hash c.to >>= λ h. get_blob h >>= λ b. add_leaf md5 repo_id root (path_string c.to) b
    | ok delete ↦ remove_entry md5 repo_id root (path_string c.from)
    | ok modify ↦ path_hash c.to >>= λ h.
        get_blob h >>= λ b. replace_leaf md5 repo_id root (path_string c.to) b
  ]
