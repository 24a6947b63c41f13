-- ===== src/Version/Objects.antt =====
-- models/tree.go: the entries of a tree, blobs and trees with their hashes, and the table that holds
-- both. Times of creation and of update are left out.
pub mod Program
pub mod Post
pub mod Run
pub mod Reads
use jiaozifs.Prelude.{
  Bool, true, false, ◌&&◌, List, [], ◌∷◌, ◌++◌, Option, none, some, Text, codes, text_eq, ltb,
  if◌then◌else◌,
}
use Prim.Native.Nat.{Ordering}
use jiaozifs.Prelude.{ℕ, ◌==◌, text_compare}
use jiaozifs.Auth.Model.{Uuid}
use jiaozifs.Filemode.{dir, regular, mode_string}

pub data ObjectType : Type 0 where
  invalid_object commit_object tree_object blob_object tag_object : ObjectType

pub record TreeEntry : Type 0 where
  pub name : Text
  pub is_dir : Bool
  pub hash : Text

pub record Property : Type 0 where
  pub mode : ℕ

abbrev pub default_dir_property : Property
default_dir_property = record { mode = dir }

abbrev pub default_leaf_property : Property
default_leaf_property = record { mode = regular }

pub record Blob : Type 0 where
  pub hash : Text
  pub repository_id : Uuid
  pub check_sum : Text
  pub type : ObjectType
  pub size : ℕ
  pub properties : Property

pub record TreeNode : Type 0 where
  pub hash : Text
  pub repository_id : Uuid
  pub type : ObjectType
  pub sub_objects : List TreeEntry
  pub properties : Property

-- A row of the table `trees`.
pub record FileTree : Type 0 where
  pub hash : Text
  pub repository_id : Uuid
  pub check_sum : Text
  pub type : ObjectType
  pub size : ℕ
  pub properties : Property
  pub sub_objects : List TreeEntry

unfoldable pub new_root_tree_entry : Text → TreeEntry
new_root_tree_entry h = record { name = []; is_dir = true; hash = h }

-- `TreeEntry.Equal`
unfoldable pub entry_equal : TreeEntry → TreeEntry → Bool
unfolding text_eq
entry_equal a b = text_eq a.hash b.hash && text_eq a.name b.name

-- `<` on names, byte by byte.
unfoldable pub name_less : TreeEntry → TreeEntry → Bool
unfolding text_compare
name_less a b = elim (text_compare a.name b.name) [ Ordering.lt ↦ true | _ ↦ false ]

unfoldable pub insert_sub_object : TreeEntry → List TreeEntry → List TreeEntry
unfolding name_less
insert_sub_object e [] = e ∷ []
insert_sub_object e (x ∷ xs) =
    let rest = insert_sub_object e xs in if name_less x e then x ∷ rest else e ∷ (x ∷ xs)

-- `SortSubObjects`. The library leaves the order of equal names open; here the earlier is first.
unfoldable pub sort_sub_objects : List TreeEntry → List TreeEntry
unfolding insert_sub_object
sort_sub_objects [] = []
sort_sub_objects (e ∷ es) = insert_sub_object e (sort_sub_objects es)

-- `int8(objectType)`, which is not negative.
unfoldable pub type_code : ObjectType → ℕ
type_code invalid_object = 0
type_code commit_object = 1
type_code tree_object = 2
type_code blob_object = 3
type_code tag_object = 4

-- `==` on the types.
unfoldable pub type_is : ObjectType → ObjectType → Bool
unfolding type_code
type_is a b = type_code a == type_code b

-- What the hashers write for the properties, a map with one key.
unfoldable pub property_bytes : Property → Text
unfolding mode_string
property_bytes p = codes "mode" ++ mode_string p.mode

unfoldable pub entry_bytes : List TreeEntry → Text
entry_bytes [] = []
entry_bytes (e ∷ es) = e.hash ++ (e.name ++ entry_bytes es)

-- The bytes that `TreeNode.calculateHash` and `Blob.calculateHash` write.
unfoldable pub tree_bytes : List TreeEntry → Property → Text
unfolding type_code property_bytes entry_bytes
tree_bytes es p = type_code tree_object ∷ (entry_bytes es ++ property_bytes p)

unfoldable pub blob_bytes : Text → Property → Text
unfolding type_code property_bytes
blob_bytes check_sum p = type_code blob_object ∷ (check_sum ++ property_bytes p)

-- `md5` is the sum of the package `crypto/md5`.
module _ (md5 : Text → Text) where
  unfoldable pub new_blob : Property → Uuid → Text → ℕ → Blob
  unfolding blob_bytes
  new_blob props repo_id check_sum size = record {
    hash = md5 (blob_bytes check_sum props);
    repository_id = repo_id;
    check_sum = check_sum;
    type = blob_object;
    size = size;
    properties = props;
  }

  unfoldable pub new_tree_node : Property → Uuid → List TreeEntry → TreeNode
  unfolding tree_bytes sort_sub_objects
  new_tree_node props repo_id sub_objects =
      let sorted = sort_sub_objects sub_objects in
      record {
        hash = md5 (tree_bytes sorted props);
        repository_id = repo_id;
        type = tree_object;
        sub_objects = sorted;
        properties = props;
      }

-- `Blob.FileTree` and `TreeNode.FileTree`; the columns that they leave out are empty.
unfoldable pub file_tree_of_blob : Blob → FileTree
file_tree_of_blob b = record {
  hash = b.hash;
  repository_id = b.repository_id;
  check_sum = b.check_sum;
  type = b.type;
  size = b.size;
  properties = b.properties;
  sub_objects = [];
}

unfoldable pub file_tree_of_node : TreeNode → FileTree
file_tree_of_node n = record {
  hash = n.hash;
  repository_id = n.repository_id;
  check_sum = [];
  type = n.type;
  size = 0;
  properties = n.properties;
  sub_objects = n.sub_objects;
}

-- `FileTree.Blob` and `FileTree.TreeNode`, which are also what selecting their columns reads.
unfoldable pub blob_of_row : FileTree → Blob
blob_of_row r = record {
  hash = r.hash;
  repository_id = r.repository_id;
  check_sum = r.check_sum;
  type = r.type;
  size = r.size;
  properties = r.properties;
}

unfoldable pub node_of_row : FileTree → TreeNode
node_of_row r = record {
  hash = r.hash;
  repository_id = r.repository_id;
  type = r.type;
  sub_objects = r.sub_objects;
  properties = r.properties;
}

-- The table, whose key is the repository with the hash.
abbrev pub Table : Type 0
Table = List FileTree

unfoldable pub has_key : Uuid → Text → FileTree → Bool
unfolding text_eq
has_key repo_id hash row = text_eq row.repository_id repo_id && text_eq row.hash hash

-- The query of `Blob` and of `TreeNode`.
unfoldable pub find_row : Uuid → Text → Table → Option FileTree
unfolding has_key
find_row repo_id hash [] = none
find_row repo_id hash (row ∷ rows) =
    if has_key repo_id hash row then some row else find_row repo_id hash rows

-- An insert that does nothing where the key is there.
unfoldable pub insert_row : FileTree → Table → Table
unfolding has_key
insert_row new [] = new ∷ []
insert_row new (row ∷ rows) =
    let rest = insert_row new rows in
    if has_key new.repository_id new.hash row then row ∷ rows else row ∷ rest
