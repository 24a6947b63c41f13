-- ===== src/Merkletrie/Change.antt =====
-- versionmgr/merkletrie/change.go: what a change is, and what it did.
use jiaozifs.Prelude.{[], ◌∷◌, Result, ok, err, Text}
use jiaozifs.Merkletrie.Noder.{NoderPath, path_string}

pub data Action : Type 0 where
  insert delete modify : Action

-- `from` is empty for an insertion, `to` for a deletion.
pub record Change : Type 0 where
  pub from : NoderPath
  pub to : NoderPath

-- The error of `Action`: nil from and to.
pub data Malformed : Type 0 where
  malformed_change : Malformed

action_of : NoderPath → NoderPath → Result Malformed Action
action_of [] [] = err malformed_change
action_of [] (n ∷ p) = ok insert
action_of (n ∷ p) [] = ok delete
action_of (n ∷ p) (m ∷ q) = ok modify

unfoldable pub action : Change → Result Malformed Action
unfolding action_of
action c = action_of c.from c.to

path_of : NoderPath → NoderPath → Text
path_of [] to = path_string to
path_of (n ∷ p) to = path_string (n ∷ p)

-- `Change.Path`: the path before the change, or after it where there is none before.
unfoldable pub change_path : Change → Text
unfolding path_of path_string
change_path c = path_of c.from c.to

unfoldable pub new_insert : NoderPath → Change
new_insert p = record { from = []; to = p }

unfoldable pub new_delete : NoderPath → Change
new_delete p = record { from = p; to = [] }

unfoldable pub new_modify : NoderPath → NoderPath → Change
new_modify a b = record { from = a; to = b }
