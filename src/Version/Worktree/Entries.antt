-- ===== src/Version/Worktree/Entries.antt =====
-- versionmgr/tree_node.go: the search for an entry by its name, after each change of the entries.
use jiaozifs.Prelude.{◌≡◌, refl, ap, ◌∙◌, arith, false, List, [], ◌∷◌, ◌++◌, none, some}
use jiaozifs.Prelude.{Text, text_eq_iff, text_eq_refl, text_compare, text_compare_self}
use jiaozifs.Version.Objects.{TreeEntry, name_less, insert_sub_object, sort_sub_objects}
use jiaozifs.Version.Worktree.{find_entry}
use jiaozifs.Version.Worktree.Write.{without_name, replace_at_name}

pub find_entry-name :
    (s : Text) (es : List TreeEntry) (e : TreeEntry) → find_entry s es ≡ some e → e.name ≡ s
unfolding find_entry
find_entry-name s [] e q = cc
find_entry-name s (x ∷ es) e q = ground (arith, find_entry-name s es e, text_eq_iff x.name s)

name_less-ne : (x e : TreeEntry) → x.name ≡ e.name → name_less x e ≡ false
unfolding name_less
name_less-ne x e q = rw (ap (λ s. text_compare s e.name) q ∙ text_compare_self e.name, name_less)

find_entry-insert_sub_object :
    (s : Text) (e : TreeEntry) (es : List TreeEntry)
    → find_entry s (insert_sub_object e es) ≡ find_entry s (e ∷ es)
unfolding find_entry insert_sub_object
find_entry-insert_sub_object s e [] = refl
find_entry-insert_sub_object s e (x ∷ es) = ground (
  arith,
  find_entry-insert_sub_object s e es,
  text_eq_iff x.name s,
  text_eq_iff e.name s,
  name_less-ne x e,
)

-- The order of the entries is no matter, since equal names keep theirs.
pub find_entry-sort_sub_objects :
    (s : Text) (es : List TreeEntry) → find_entry s (sort_sub_objects es) ≡ find_entry s es
unfolding find_entry sort_sub_objects
find_entry-sort_sub_objects s [] = refl
find_entry-sort_sub_objects s (e ∷ es) =
    rw (find_entry-insert_sub_object s e (sort_sub_objects es), find_entry-sort_sub_objects s es)
      refl

pub find_entry-replace_at_name :
    (new x : TreeEntry) (es : List TreeEntry)
    → find_entry new.name (replace_at_name new (x ∷ es)) ≡ some new
unfolding find_entry replace_at_name
find_entry-replace_at_name new x [] = rw (text_eq_refl new.name)
find_entry-replace_at_name new x (y ∷ es) =
    ground (arith, find_entry-replace_at_name new y es, text_eq_refl new.name)

pub find_entry-without_name :
    (s : Text) (es : List TreeEntry) → find_entry s (without_name s es) ≡ none
unfolding find_entry without_name
find_entry-without_name s [] = refl
find_entry-without_name s (e ∷ es) = ground (arith, find_entry-without_name s es)

-- An entry that is put behind entries that do not have its name.
pub find_entry-append :
    (new : TreeEntry) (es : List TreeEntry)
    → find_entry new.name es ≡ none
    → find_entry new.name (es ++ new ∷ []) ≡ some new
unfolding find_entry
find_entry-append new [] q = rw (text_eq_refl new.name)
find_entry-append new (e ∷ es) q = ground (arith, find_entry-append new es)

pub find_entry-only : (e : TreeEntry) → find_entry e.name (e ∷ []) ≡ some e
unfolding find_entry
find_entry-only e = rw (text_eq_refl e.name)
