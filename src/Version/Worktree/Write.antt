-- ===== src/Version/Worktree/Write.antt =====
-- versionmgr/worktree.go: the operations that write the nodes of a tree, `AddLeaf` and `ReplaceLeaf`.
-- An operation that changes the tree gives its new root; the field `root` is not used after an error.
use jiaozifs.Prelude.{
  Bool, true, false, List, [], ◌∷◌, ◌++◌, reverse, map, Option, none, some, if◌then◌else◌, is_empty,
}
use jiaozifs.Prelude.{Text, text_eq}
use jiaozifs.Auth.Model.{Uuid}
use jiaozifs.Version.Objects.{
  TreeEntry, Property, default_dir_property, Blob, TreeNode, new_root_tree_entry, sort_sub_objects,
  new_tree_node, file_tree_of_blob, file_tree_of_node,
}
use jiaozifs.Version.Objects.Program.{
  path_not_found, entry_exit, name_is_empty, Prog, done, raise, ◌>>=◌, ◌>>◌, insert_file_tree,
}
use jiaozifs.Version.Worktree.{
  WorkNode, FullObject, new_work_node, children, empty_dir_entry, find_node_by_path, clean_path,
}

-- The test that `AppendDirectEntry` makes of the children.
unfoldable pub has_child : Text → List WorkNode → Bool
unfolding text_eq
has_child name [] = false
has_child name (n ∷ ns) = if text_eq n.entry.name name then true else has_child name ns

unfoldable pub without_name : Text → List TreeEntry → List TreeEntry
unfolding text_eq
without_name name [] = []
without_name name (e ∷ es) =
    let rest = without_name name es in if text_eq e.name name then rest else e ∷ rest

-- The assignment to `subObjects[index]`, where the index is the first with the name, and the last
-- one where there is none.
unfoldable pub replace_at_name : TreeEntry → List TreeEntry → List TreeEntry
unfolding text_eq
replace_at_name new [] = []
replace_at_name new (e ∷ []) = new ∷ []
replace_at_name new (e ∷ x ∷ xs) =
    let rest = replace_at_name new (x ∷ xs) in
    if text_eq e.name new.name then new ∷ (x ∷ xs) else e ∷ rest

-- The entries of the nodes that exist, deepest first, and then that of the root, whose name is empty.
unfoldable pub upwards : WorkNode → List FullObject → List TreeEntry
unfolding new_root_tree_entry
upwards root exist =
    reverse (map (λ (o : FullObject). o.entry) exist) ++ new_root_tree_entry root.entry.hash ∷ []

-- `md5` is the sum of the package `crypto/md5`; the identifier is that of the repository.
module _ (md5 : Text → Text) (repo_id : Uuid) where
  -- `NewTreeNode` of the models with the insert behind it.
  unfoldable pub insert_tree : Property → List TreeEntry → Prog TreeNode
  unfolding new_tree_node file_tree_of_node insert_file_tree
  insert_tree props es =
      let n = new_tree_node md5 props repo_id es in insert_file_tree (file_tree_of_node n) >> done n

  unfoldable pub append_direct_entry : WorkNode → TreeEntry → Prog TreeNode
  unfolding children has_child insert_tree sort_sub_objects
  append_direct_entry root entry = children root.tree_node.sub_objects >>= λ ns.
      if has_child entry.name ns
      then raise entry_exit
      else insert_tree default_dir_property
          (sort_sub_objects (root.tree_node.sub_objects ++ entry ∷ []))

  -- `none` where nothing is left.
  unfoldable pub delete_direct_entry : WorkNode → Text → Prog (Option TreeNode)
  unfolding without_name insert_tree
  delete_direct_entry root name =
      let subs = without_name name root.tree_node.sub_objects in
      if is_empty subs
      then done none
      else insert_tree root.tree_node.properties subs >>= λ n. done (some n)

  unfoldable pub replace_sub_tree_entry : WorkNode → TreeEntry → Prog TreeNode
  unfolding replace_at_name insert_tree
  replace_sub_tree_entry root entry =
      if is_empty root.tree_node.sub_objects
      then raise path_not_found
      else insert_tree root.tree_node.properties (replace_at_name entry root.tree_node.sub_objects)

  -- The loop over the missing names behind the first, deepest first.
  unfoldable pub build_dirs : TreeEntry → List Text → Prog TreeEntry
  unfolding insert_tree
  build_dirs last [] = done last
  build_dirs last (name ∷ names) =
      let rest = insert_tree default_dir_property (last ∷ []) >>= λ n.
      build_dirs (record { name = name; is_dir = true; hash = n.hash }) names in
      if is_empty name then raise name_is_empty else rest

  -- The whole loop over the missing names; none of them gives the zero entry.
  unfoldable pub build_missing : Blob → List Text → Prog TreeEntry
  unfolding build_dirs insert_file_tree file_tree_of_blob
  build_missing blob [] = done empty_dir_entry
  build_missing blob (name ∷ names) =
      let rest =
        insert_file_tree (file_tree_of_blob blob)
        >> build_dirs (record { name = name; is_dir = false; hash = blob.hash }) names in
      if is_empty name then raise name_is_empty else rest

  -- The body of the loops over the nodes that exist, for the nodes behind the first.
  unfoldable pub replace_up : TreeEntry → List TreeEntry → Prog TreeEntry
  unfolding new_work_node replace_sub_tree_entry
  replace_up last [] = done last
  replace_up last (e ∷ es) = new_work_node e >>= λ n. replace_sub_tree_entry n last >>= λ new.
      replace_up (record { name = e.name; is_dir = true; hash = new.hash }) es

  -- The loop of `AddLeaf`; the list is never empty, since the root stands at its end.
  unfoldable pub append_up : TreeEntry → List TreeEntry → Prog TreeEntry
  unfolding new_work_node append_direct_entry replace_up
  append_up last [] = done last
  append_up last (e ∷ es) = new_work_node e >>= λ n. append_direct_entry n last >>= λ new.
      replace_up (record { name = e.name; is_dir = true; hash = new.hash }) es

  -- `AddLeaf` behind its tests.
  unfoldable pub add_missing : WorkNode → Blob → List FullObject → List Text → Prog WorkNode
  unfolding insert_file_tree file_tree_of_blob build_missing append_up upwards new_work_node
  add_missing root blob exist missing = do
    insert_file_tree (file_tree_of_blob blob)
    last ← build_missing blob (reverse missing)
    last' ← append_up last (upwards root exist)
    new_work_node last'

  unfoldable pub add_leaf : WorkNode → Text → Blob → Prog WorkNode
  unfolding clean_path find_node_by_path add_missing
  add_leaf root path blob = do
    (exist, missing) ← find_node_by_path root (clean_path path)
    if is_empty missing then raise entry_exit else add_missing root blob exist missing

  -- The loop of `ReplaceLeaf`: the first entry becomes that of the blob.
  unfoldable pub replace_leaf_up : Blob → List TreeEntry → Prog TreeEntry
  unfolding replace_up
  replace_leaf_up blob [] = done empty_dir_entry
  replace_leaf_up blob (e ∷ es) =
      replace_up (record { name = e.name; is_dir = false; hash = blob.hash }) es

  -- `ReplaceLeaf` behind its tests.
  unfoldable pub replace_found : WorkNode → Blob → List FullObject → Prog WorkNode
  unfolding insert_file_tree file_tree_of_blob replace_leaf_up upwards new_work_node
  replace_found root blob exist = do
    insert_file_tree (file_tree_of_blob blob)
    last ← replace_leaf_up blob (upwards root exist)
    new_work_node last

  unfoldable pub replace_leaf : WorkNode → Text → Blob → Prog WorkNode
  unfolding clean_path find_node_by_path replace_found
  replace_leaf root path blob = do
    (exist, missing) ← find_node_by_path root (clean_path path)
    if is_empty missing then replace_found root blob exist else raise path_not_found
