-- ===== src/Version/Worktree.antt =====
-- versionmgr/tree_node.go and worktree.go: the nodes of a tree in the table, and the search along
-- a path.
pub mod Write
mod Remove
mod Read
mod Apply
mod Entries
mod Leads
mod Find
mod Build
mod Climb
mod Found
mod Gone
mod Blocked
mod Removal
mod Leaf
mod RoundTrip
mod RemoveTrip
mod Snapshot
mod Errors
mod Changed
mod Tests
use jiaozifs.Prelude.{
  Bool, true, false, not, List, [], ◌∷◌, ◌++◌, reverse, map, Option, none, some, if◌then◌else◌,
  is_empty,
}
use jiaozifs.Prelude.{Text, codes, text_eq}
use jiaozifs.Strings.{split, replace_all}
use jiaozifs.Strings.Trim.{trim, trim_space}
use jiaozifs.Auth.Model.{Uuid}
use jiaozifs.Filemode.{dir}
use jiaozifs.Version.Objects.{
  ObjectType, tree_object, blob_object, TreeEntry, Property, default_dir_property, Blob, TreeNode,
  FileTree, new_root_tree_entry, entry_equal, sort_sub_objects, new_tree_node, file_tree_of_blob,
  file_tree_of_node, blob_of_row,
}
use jiaozifs.Version.Objects.Program.{
  TreeError, path_not_found, entry_exit, blob_must_be_leaf, not_directory, node_not_directory,
  node_not_blob, name_is_empty, Prog, done, raise, ◌>>=◌, ◌>>◌, insert_file_tree, get_blob,
  get_tree_node,
}

-- The type `TreeNode` of this package: an entry with the tree it stands for.
pub record WorkNode : Type 0 where
  pub entry : TreeEntry
  pub tree_node : TreeNode

abbrev pub empty_root : TreeNode
empty_root = record {
  hash = [];
  repository_id = [];
  type = tree_object;
  sub_objects = [];
  properties = record { mode = 0 };
}

abbrev pub empty_dir_entry : TreeEntry
empty_dir_entry = record { name = []; is_dir = false; hash = [] }

-- `NewTreeNode`
unfoldable pub new_work_node : TreeEntry → Prog WorkNode
unfolding entry_equal get_tree_node
new_work_node entry =
    if entry_equal entry empty_dir_entry
    then done (record { entry = entry; tree_node = empty_root })
    else get_tree_node entry.hash >>= λ n. done (record { entry = entry; tree_node = n })

-- The search by name of `SubEntry`, `SubDir` and `SubFile`.
unfoldable pub find_entry : Text → List TreeEntry → Option TreeEntry
unfolding text_eq
find_entry name [] = none
find_entry name (e ∷ es) = if text_eq e.name name then some e else find_entry name es

unfoldable pub sub_dir : WorkNode → Text → Prog WorkNode
unfolding find_entry new_work_node
sub_dir n name = elim (find_entry name n.tree_node.sub_objects) [
  | none ↦ raise path_not_found
  | some e ↦ if e.is_dir then new_work_node e else raise node_not_directory
]

unfoldable pub sub_file : WorkNode → Text → Prog Blob
unfolding find_entry get_blob
sub_file n name = elim (find_entry name n.tree_node.sub_objects) [
  | none ↦ raise path_not_found
  | some e ↦ if e.is_dir then raise node_not_blob else get_blob e.hash
]

-- `Children`, on the entries.
unfoldable pub children : List TreeEntry → Prog (List WorkNode)
unfolding new_work_node
children [] = done []
children (e ∷ es) = new_work_node e >>= λ n. children es >>= λ ns. done (n ∷ ns)

pub record FullObject : Type 0 where
  pub node : FileTree
  pub entry : TreeEntry

-- What `findNodeByPath` gives: `existNodes` and `missingPath`.
abbrev pub Found : Type 0
Found = List FullObject × List Text

-- The branch of the loop for a directory, before the rest of the names.
unfoldable pub enter_dir : WorkNode → TreeEntry → (WorkNode → Prog Found) → Prog Found
unfolding sub_dir file_tree_of_node
enter_dir cur e rest = sub_dir cur e.name >>= λ next. rest next >>= λ (exist, missing).
    done (record { node = file_tree_of_node next.tree_node; entry = e } ∷ exist, missing)

-- The branch for a file, which must be at the last name.
unfoldable pub enter_file : WorkNode → TreeEntry → List Text → Prog Found
unfolding sub_file file_tree_of_blob
enter_file cur e segs = sub_file cur e.name >>= λ blob.
    if is_empty segs
    then done (record { node = file_tree_of_blob blob; entry = e } ∷ [], [])
    else raise blob_must_be_leaf

-- The loop of `findNodeByPath`.
unfoldable pub find_segs : WorkNode → List Text → Prog Found
unfolding find_entry enter_dir enter_file
find_segs cur [] = done ([], [])
find_segs cur (seg ∷ segs) = elim (find_entry seg cur.tree_node.sub_objects) [
  | none ↦ done ([], seg ∷ segs)
  | some e ↦
      let in_dir = enter_dir cur e (λ next. find_segs next segs) in
      if e.is_dir then in_dir else enter_file cur e segs
]

-- `CleanPath`; `filepath.ToSlash` changes nothing where the separator is a slash.
unfoldable pub clean_path : Text → Text
unfolding replace_all trim trim_space
clean_path p = trim (trim_space (replace_all p (codes "\\") (codes "/"))) (codes "/\\")

unfoldable pub find_node_by_path : WorkNode → Text → Prog Found
unfolding find_segs split
find_node_by_path root path = find_segs root (split b'/' path)
