-- ===== src/Version/Worktree/Remove.antt =====
-- versionmgr/worktree.go: `RemoveEntry`.
use jiaozifs.Prelude.{
  Bool, true, false, ◌||◌, List, [], ◌∷◌, Option, none, some, if◌then◌else◌, is_empty, Text,
}
use jiaozifs.Auth.Model.{Uuid}
use jiaozifs.Version.Objects.{TreeEntry, TreeNode}
use jiaozifs.Version.Objects.Program.{path_not_found, index_out_of_range, Prog, done, raise, ◌>>=◌}
use jiaozifs.Version.Worktree.{
  WorkNode, empty_dir_entry, new_work_node, find_node_by_path, clean_path,
}
use jiaozifs.Version.Worktree.Write.{upwards, delete_direct_entry, replace_sub_tree_entry}

-- What the loop of `RemoveEntry` carries: `lastEntry`, and `newNode`, which is nil at first.
pub record Removing : Type 0 where
  pub last : TreeEntry
  pub new : Option TreeNode

-- The state behind a delete; the hash stays empty where nothing is left of the directory.
unfoldable pub after_delete : Text → Option TreeNode → Removing
after_delete name none = record {
  last = record { name = name; is_dir = true; hash = [] };
  new = none;
}
after_delete name (some n) = record {
  last = record { name = name; is_dir = true; hash = n.hash };
  new = some n;
}

-- The node that `RemoveEntry` leaves as the root.
unfoldable pub new_root : Removing → Prog WorkNode
unfolding new_work_node
new_root s = elim s.new [ none ↦ new_work_node empty_dir_entry | some n ↦ new_work_node s.last ]

module _ (md5 : Text → Text) (repo_id : Uuid) where
  -- The loop; the test `is_first` is that of the index 0.
  unfoldable pub remove_up : Bool → Removing → List TreeEntry → Prog Removing
  unfolding new_work_node delete_direct_entry replace_sub_tree_entry after_delete
  remove_up is_first s [] = done s
  remove_up is_first s (e ∷ es) =
      let deleted = λ (n : WorkNode). delete_direct_entry md5 repo_id n s.last.name >>= λ left.
      remove_up false (after_delete e.name left) es in
      let replaced = λ (n : WorkNode). replace_sub_tree_entry md5 repo_id n s.last >>= λ new.
      remove_up false (after_delete e.name (some new)) es in
      new_work_node e >>= λ n. if is_first || is_empty s.last.hash then deleted n else replaced n

  -- The entries behind the first, which is the one to be removed.
  unfoldable pub remove_from : List TreeEntry → Prog Removing
  unfolding remove_up
  remove_from [] = raise index_out_of_range
  remove_from (e ∷ es) = remove_up true (record { last = e; new = none }) es

  unfoldable pub remove_entry : WorkNode → Text → Prog WorkNode
  unfolding clean_path find_node_by_path upwards remove_from new_root
  remove_entry root path = do
    (exist, missing) ← find_node_by_path root (clean_path path)
    let rest = remove_from (upwards root exist) >>= new_root
    if is_empty missing then rest else raise path_not_found
