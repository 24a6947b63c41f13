-- ===== src/Version/Worktree/Tests.antt =====
-- versionmgr/worktree.go: runs on a small repository. Its hashes are the bytes with a one in front.
use jiaozifs.Prelude.{
  true, false, sym, ap, ◌∙◌, Option, none, some, ◌≡◌, ◌≢◌, refl, [], ◌∷◌, List, Result, ok, err,
  Text, codes,
}
use jiaozifs.Auth.Model.{Uuid}
use jiaozifs.Merkletrie.Noder.{Noder, noder, node_hash, no_children, path_last}
use jiaozifs.Merkletrie.Change.{Change, new_insert, new_delete, action}
use jiaozifs.Version.Objects.{
  Blob, Table, new_blob, default_leaf_property, file_tree_of_blob, find_row, FileTree, ObjectType,
  blob_object,
}
use jiaozifs.Version.Objects.Program.{TreeError, run, ReadsBack, path_not_found, blob_must_be_leaf}
use jiaozifs.Version.Worktree.{WorkNode, find_node_by_path, clean_path, empty_dir_entry, empty_root}
use jiaozifs.Version.Worktree.Write.{add_leaf, replace_leaf}
use jiaozifs.Version.Worktree.Read.{FullTreeEntry, ls, find_blob}
use jiaozifs.Version.Worktree.Remove.{remove_entry}
use jiaozifs.Version.Worktree.RoundTrip.{add_leaf-find_blob, replace_leaf-find_blob, base_name}
use jiaozifs.Version.Worktree.RemoveTrip.{remove_entry-find_blob}
use jiaozifs.Version.Worktree.Changed.{BringsFile, Shows, apply_one_change-Shows}
use jiaozifs.Version.Worktree.Errors.{blob_must_be_leaf-of_file}
use jiaozifs.Version.Worktree.Snapshot.{
  find_blob-apply_one_change, ls-apply_one_change, apply_one_change-other_repository,
}
use jiaozifs.Version.Worktree.{find_entry}
use jiaozifs.Version.Worktree.Leads.{Leads}
use jiaozifs.Version.Worktree.Find.{LeadsFrom}
use jiaozifs.Version.Worktree.Gone.{Absent}
use jiaozifs.Strings.{split}
use jiaozifs.Version.Objects.{TreeEntry}
use jiaozifs.Prelude.{inl, inr}
use jiaozifs.Version.Worktree.Apply.{apply_one_change}

abbrev md5_like : Text → Text
md5_like s = 1 ∷ s

md5_like-ne : (s : Text) → md5_like s ≢ []
md5_like-ne s e = cc

abbrev repo : Uuid
repo = codes "r"

abbrev empty : WorkNode
empty = record { entry = empty_dir_entry; tree_node = empty_root }

abbrev blob : Blob
blob = new_blob md5_like default_leaf_property repo (codes "sum") 3

root_of : Result TreeError WorkNode × Table → WorkNode
root_of (ok n, t) = n
root_of (err e, t) = empty

abbrev path : Text
path = codes "/a/b "

abbrev added : Result TreeError WorkNode × Table
added = run repo (add_leaf md5_like repo empty path blob) []

add_leaf-find_blob_example :
    run repo (find_blob (root_of added) path) added.1 ≡ (ok (blob, base_name path), added.1)
unfolding run add_leaf root_of ReadsBack new_blob
add_leaf-find_blob_example =
    add_leaf-find_blob md5_like repo md5_like-ne empty path blob [] (root_of added) added.1 refl
      refl (refl, (refl, (refl, (refl, tt))))

abbrev tree : WorkNode
tree = root_of added

abbrev rows : Table
rows = added.1

-- The second version of the file.
abbrev blob2 : Blob
blob2 = new_blob md5_like default_leaf_property repo (codes "more") 4

abbrev replaced : Result TreeError WorkNode × Table
replaced = run repo (replace_leaf md5_like repo tree path blob2) rows

replace_leaf-find_blob_example :
    run repo (find_blob (root_of replaced) path) replaced.1
    ≡ (ok (blob2, base_name path), replaced.1)
unfolding run replace_leaf add_leaf root_of ReadsBack new_blob
replace_leaf-find_blob_example =
    replace_leaf-find_blob md5_like repo md5_like-ne tree path blob2 rows (root_of replaced)
      replaced.1 refl refl (refl, (refl, (refl, tt)))

-- A file is removed beside which another one stays.
abbrev both : Result TreeError WorkNode × Table
both = run repo (add_leaf md5_like repo tree (codes "a/c") blob2) rows

abbrev removed : Result TreeError WorkNode × Table
removed = run repo (remove_entry md5_like repo (root_of both) path) both.1

remove_entry-find_blob_example :
    run repo (find_blob (root_of removed) path) removed.1 ≡ (err path_not_found, removed.1)
unfolding run remove_entry add_leaf root_of ReadsBack new_blob
remove_entry-find_blob_example =
    remove_entry-find_blob md5_like repo md5_like-ne (root_of both) path both.1 (root_of removed)
      removed.1 refl (refl, (refl, tt))

abbrev change : Change
change = new_insert (noder (codes "d") blob2.hash false no_children ∷ [])

abbrev with_row : Table
with_row = file_tree_of_blob blob2 ∷ rows

abbrev changed : Result TreeError WorkNode × Table
changed = run repo (apply_one_change md5_like repo tree change) with_row

change-BringsFile : BringsFile repo change with_row
unfolding find_row path_last add_leaf root_of new_insert new_blob file_tree_of_blob
change-BringsFile n row q f =
    let type_at : Option FileTree → ObjectType =
      λ o. elim o [ none ↦ blob_object | some r ↦ r.type ] in
    let hash_at : Option Noder → Text = λ o. elim o [ none ↦ [] | some m ↦ node_hash m ] in
    sym (ap type_at f) ∙ sym (ap (λ h. type_at (find_row repo h with_row)) (ap hash_at q))

apply_one_change-Shows_example : Shows repo change with_row (root_of changed) changed.1
unfolding run apply_one_change add_leaf root_of ReadsBack new_blob Shows action new_insert
    file_tree_of_blob
apply_one_change-Shows_example =
    apply_one_change-Shows md5_like repo md5_like-ne tree change with_row (root_of changed)
      changed.1 change-BringsFile refl (refl, (refl, (refl, tt)))

abbrev deletion : Change
deletion =
    new_delete
      (noder (codes "a") [] true no_children ∷ noder (codes "b") blob.hash false no_children ∷ [])

abbrev after_change : Table
after_change = (run repo (apply_one_change md5_like repo tree deletion) rows).1

find_blob-apply_one_change_example :
    run repo (find_blob tree path) after_change ≡ (ok (blob, codes "b"), after_change)
unfolding run find_blob add_leaf root_of new_blob
find_blob-apply_one_change_example =
    find_blob-apply_one_change md5_like repo tree deletion tree path rows (blob, codes "b") refl

abbrev listing : List FullTreeEntry
listing = record { name = codes "b"; is_dir = false; hash = blob.hash; size = 3 } ∷ []

ls-apply_one_change_example :
    run repo (ls tree (codes "a")) after_change ≡ (ok listing, after_change)
unfolding run ls add_leaf root_of new_blob
ls-apply_one_change_example =
    ls-apply_one_change md5_like repo tree deletion tree (codes "a") rows listing refl

apply_one_change-other_repository_example :
    ((run [] (find_blob tree path) after_change).0 ≡ (run [] (find_blob tree path) rows).0)
    × ((run [] (ls tree path) after_change).0 ≡ (run [] (ls tree path) rows).0)
apply_one_change-other_repository_example =
    apply_one_change-other_repository md5_like repo tree deletion [] tree path rows (λ e. cc)

abbrev failed : {A : Type 0} → TreeError → Result TreeError A × Table
failed x = (err x, rows)

entry_or_root : Option TreeEntry → TreeEntry
entry_or_root none = empty_dir_entry
entry_or_root (some e) = e

abbrev entry_at : WorkNode → Text → TreeEntry
entry_at n name = entry_or_root (find_entry name n.tree_node.sub_objects)

row_or_blob : Option FileTree → FileTree
row_or_blob none = file_tree_of_blob blob
row_or_blob (some row) = row

abbrev row_at : TreeEntry → FileTree
row_at e = row_or_blob (find_row repo e.hash rows)

abbrev leaf_entry : TreeEntry
leaf_entry = entry_or_root (find_entry (codes "b") (row_at (entry_at tree (codes "a"))).sub_objects)

-- A path that goes on behind a file.
blob_must_be_leaf-of_file_example :
    (run repo (add_leaf md5_like repo tree (codes "a/b/c") blob) rows ≡ failed blob_must_be_leaf)
    × (run repo (replace_leaf md5_like repo tree (codes "a/b/c") blob) rows
        ≡ failed blob_must_be_leaf)
    × (run repo (remove_entry md5_like repo tree (codes "a/b/c")) rows ≡ failed blob_must_be_leaf)
    × (run repo (find_blob tree (codes "a/b/c")) rows ≡ failed blob_must_be_leaf)
    × (run repo (ls tree (codes "a/b/c")) rows ≡ failed blob_must_be_leaf)
unfolding run find_node_by_path clean_path add_leaf root_of new_blob Absent LeadsFrom Leads split
    find_entry find_row entry_or_root row_or_blob file_tree_of_blob
blob_must_be_leaf-of_file_example =
    blob_must_be_leaf-of_file md5_like repo tree (codes "a/b/c") blob rows refl (
      entry_at tree (codes "a"),
      refl,
      inr (
        record {
          is_dir = refl;
          has_hash = λ e. cc e;
          row = row_at (entry_at tree (codes "a"));
          found = refl;
          next = leaf_entry;
          named = refl;
        },
        inl (record {
          is_file = refl;
          row = row_at leaf_entry;
          found = refl;
          name = codes "c";
          rest = [];
          split = refl;
        }),
      ),
    )
