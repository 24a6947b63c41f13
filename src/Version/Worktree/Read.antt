-- ===== src/Version/Worktree/Read.antt =====
-- versionmgr/worktree.go: the reads `Ls` and `FindBlob`.
use jiaozifs.Prelude.{ℕ, Bool, List, [], ◌∷◌, if◌then◌else◌, is_empty, Text}
use jiaozifs.Version.Objects.{tree_object, blob_object, TreeEntry, Blob, blob_of_row, type_is}
use jiaozifs.Version.Objects.Program.{
  path_not_found, not_directory, index_out_of_range, Prog, done, raise, ◌>>=◌, get_blob,
  get_tree_node,
}
use jiaozifs.Version.Worktree.{WorkNode, FullObject, find_node_by_path, clean_path}

-- `FullTreeEntry` without its times.
pub record FullTreeEntry : Type 0 where
  pub name : Text
  pub is_dir : Bool
  pub hash : Text
  pub size : ℕ

full_entry : TreeEntry → ℕ → FullTreeEntry
full_entry e size = record { name = e.name; is_dir = e.is_dir; hash = e.hash; size = size }

unfoldable pub get_full_entry : List TreeEntry → Prog (List FullTreeEntry)
unfolding full_entry get_tree_node get_blob
get_full_entry [] = done []
get_full_entry (e ∷ es) =
    let rest = get_full_entry es in
    let in_dir : Prog (List FullTreeEntry) =
      get_tree_node e.hash >>= λ n. rest >>= λ fs. done (full_entry e 0 ∷ fs) in
    let at_file : Prog (List FullTreeEntry) =
      get_blob e.hash >>= λ b. rest >>= λ fs. done (full_entry e b.size ∷ fs) in
    if e.is_dir then in_dir else at_file

-- The element at `len(existNode)-1`.
unfoldable pub last_object : List FullObject → Prog FullObject
last_object [] = raise index_out_of_range
last_object (o ∷ []) = done o
last_object (o ∷ p ∷ os) = last_object (p ∷ os)

-- What both reads do to reach a path.
unfoldable pub reach : WorkNode → Text → Prog FullObject
unfolding find_node_by_path last_object
reach root path = do
  (exist, missing) ← find_node_by_path root path
  let rest = last_object exist
  if is_empty missing then rest else raise path_not_found

unfoldable pub ls : WorkNode → Text → Prog (List FullTreeEntry)
unfolding clean_path get_full_entry reach type_is
ls root pattern =
    let inside = λ (o : FullObject).
      let entries = get_full_entry o.node.sub_objects in
      if type_is tree_object o.node.type then entries else raise not_directory in
    if is_empty (clean_path pattern)
    then get_full_entry root.tree_node.sub_objects
    else reach root (clean_path pattern) >>= inside

-- The blob with its name.
unfoldable pub find_blob : WorkNode → Text → Prog (Blob × Text)
unfolding clean_path reach type_is blob_of_row
find_blob root path = do
  o ← reach root (clean_path path)
  if type_is blob_object o.node.type
      then done (blob_of_row o.node, o.entry.name)
      else raise path_not_found
