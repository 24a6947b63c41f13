-- ===== src/Merkletrie/Noder.antt =====
-- versionmgr/merkletrie/noder: a node is known by its name, its hash, whether it is a directory, and
-- its children; a path is the list of its nodes from the root down. The empty path is the nil slice.
use Prim.Native.Nat.{Ordering}
use jiaozifs.Prelude.{Bool, List, [], ◌∷◌, ◌++◌, Option, none, some, Text, text_compare}

mutual
  pub data Noder : Type 0 where
    noder : Text → Text → Bool → Noders → Noder

  pub data Noders : Type 0 where
    no_children : Noders
    child : Noder → Noders → Noders

abbrev pub node_name : Noder → Text
node_name (noder name hash is_dir subs) = name

abbrev pub node_hash : Noder → Text
node_hash (noder name hash is_dir subs) = hash

abbrev pub node_is_dir : Noder → Bool
node_is_dir (noder name hash is_dir subs) = is_dir

abbrev pub NoderPath : Type 0
NoderPath = List Noder

-- What `String` writes after the first name.
path_tail : NoderPath → Text
path_tail [] = []
path_tail (n ∷ p) = b'/' ∷ (node_name n ++ path_tail p)

-- `Path.String`
unfoldable pub path_string : NoderPath → Text
unfolding path_tail
path_string [] = []
path_string (n ∷ p) = node_name n ++ path_tail p

-- `Path.Last`; `none` is the panic on an empty path.
unfoldable pub path_last : NoderPath → Option Noder
path_last [] = none
path_last (n ∷ []) = some n
path_last (n ∷ m ∷ p) = path_last (m ∷ p)

-- `Path.Compare`: name by name, and a path comes before those that it begins.
unfoldable pub path_compare : NoderPath → NoderPath → Ordering
unfolding text_compare
path_compare [] [] = Ordering.eq
path_compare [] (m ∷ q) = Ordering.lt
path_compare (n ∷ p) [] = Ordering.gt
path_compare (n ∷ p) (m ∷ q) = elim (text_compare (node_name n) (node_name m)) [
  | Ordering.eq ↦ path_compare p q
  | Ordering.lt ↦ Ordering.lt
  | Ordering.gt ↦ Ordering.gt
]
