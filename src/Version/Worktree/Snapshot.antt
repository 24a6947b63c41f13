-- ===== src/Version/Worktree/Snapshot.antt =====
-- versionmgr/worktree.go: a change writes rows only, so that every older tree reads as before.
use jiaozifs.Prelude.{◌≡◌, ◌≢◌, refl, Option-cases, inl, inr, List, [], ◌∷◌, ok, is_empty, Text}
use jiaozifs.Strings.{split}
use jiaozifs.Auth.Model.{Uuid}
use jiaozifs.Merkletrie.Change.{Change}
use jiaozifs.Version.Objects.{
  TreeEntry, tree_object, blob_object, type_is, Blob, Table, entry_equal,
}
use jiaozifs.Version.Objects.Program.{not_found, run, run-Extends, get_blob, get_tree_node}
use jiaozifs.Version.Objects.Reads.{Reads, Reads->>=, Reads-if, Reads-kept, Reads-apart}
use jiaozifs.Version.Worktree.{
  WorkNode, FullObject, empty_dir_entry, find_entry, new_work_node, sub_dir, sub_file, find_segs,
  enter_dir, enter_file, find_node_by_path, clean_path,
}
use jiaozifs.Version.Worktree.Read.{
  FullTreeEntry, get_full_entry, last_object, reach, ls, find_blob,
}
use jiaozifs.Version.Worktree.Apply.{apply_one_change}

Reads-get_blob : (h : Text) → Reads (get_blob h)
unfolding Reads get_blob
Reads-get_blob h = ((not_found, refl), λ row. tt)

Reads-new_work_node : (e : TreeEntry) → Reads (new_work_node e)
unfolding Reads new_work_node get_tree_node
Reads-new_work_node e =
    Reads-if (entry_equal e empty_dir_entry) _ _ tt ((not_found, refl), λ row. tt)

Reads-sub_dir : (n : WorkNode) (name : Text) → Reads (sub_dir n name)
unfolding Reads sub_dir
Reads-sub_dir n name = elim (Option-cases (find_entry name n.tree_node.sub_objects)) [
  | inl q ↦ rw (sub_dir, q) tt
  | inr (e, q) ↦ rw (sub_dir, q) (Reads-if e.is_dir _ _ (Reads-new_work_node e) tt)
]

Reads-sub_file : (n : WorkNode) (name : Text) → Reads (sub_file n name)
unfolding Reads sub_file
Reads-sub_file n name = elim (Option-cases (find_entry name n.tree_node.sub_objects)) [
  | inl q ↦ rw (sub_file, q) tt
  | inr (e, q) ↦ rw (sub_file, q) (Reads-if e.is_dir _ _ tt (Reads-get_blob e.hash))
]

Reads-find_segs : (cur : WorkNode) (names : List Text) → Reads (find_segs cur names)
unfolding Reads find_segs enter_dir enter_file
Reads-find_segs cur [] = tt
Reads-find_segs cur (name ∷ names) =
    elim (Option-cases (find_entry name cur.tree_node.sub_objects)) [
      | inl q ↦ rw (find_segs, q) tt
      | inr (e, q) ↦
          rw (find_segs, q)
            (Reads-if e.is_dir _ _
              (Reads->>= (sub_dir cur e.name) _ (Reads-sub_dir cur e.name) (λ next.
                Reads->>= (find_segs next names) _ (Reads-find_segs next names) (λ found. tt)))
              (Reads->>= (sub_file cur e.name) _ (Reads-sub_file cur e.name)
                (λ blob. Reads-if (is_empty names) _ _ tt tt)))
    ]

Reads-last_object : (os : List FullObject) → Reads (last_object os)
unfolding Reads last_object
Reads-last_object [] = tt
Reads-last_object (o ∷ []) = tt
Reads-last_object (o ∷ p ∷ os) = Reads-last_object (p ∷ os)

Reads-reach : (root : WorkNode) (path : Text) → Reads (reach root path)
unfolding Reads reach find_node_by_path
Reads-reach root path =
    Reads->>= (find_segs root (split b'/' path)) _ (Reads-find_segs root (split b'/' path))
      λ (exist, missing). Reads-if (is_empty missing) _ _ (Reads-last_object exist) tt

Reads-find_blob : (root : WorkNode) (path : Text) → Reads (find_blob root path)
unfolding Reads find_blob
Reads-find_blob root path =
    Reads->>= (reach root (clean_path path)) _ (Reads-reach root (clean_path path))
      λ o. Reads-if (type_is blob_object o.node.type) _ _ tt tt

Reads-get_full_entry : (es : List TreeEntry) → Reads (get_full_entry es)
unfolding Reads get_full_entry get_tree_node get_blob
Reads-get_full_entry [] = tt
Reads-get_full_entry (e ∷ es) =
    Reads-if e.is_dir _ _
      (
        (not_found, refl),
        λ row. Reads->>= (get_full_entry es) _ (Reads-get_full_entry es) (λ fs. tt),
      )
      (
        (not_found, refl),
        λ row. Reads->>= (get_full_entry es) _ (Reads-get_full_entry es) (λ fs. tt),
      )

Reads-ls : (root : WorkNode) (path : Text) → Reads (ls root path)
unfolding Reads ls
Reads-ls root path =
    Reads-if (is_empty (clean_path path)) _ _ (Reads-get_full_entry root.tree_node.sub_objects) (
      Reads->>= (reach root (clean_path path)) _ (Reads-reach root (clean_path path)) (λ o.
        Reads-if (type_is tree_object o.node.type) _ _ (Reads-get_full_entry o.node.sub_objects)
          tt))

module _ (md5 : Text → Text) (repo_id : Uuid) where
  -- Whatever change is applied to whatever root, and also where it fails, a blob that a root gives
  -- under a path before is what this root gives under the path afterwards.
  pub find_blob-apply_one_change :
      (root : WorkNode) (c : Change) (old : WorkNode) (path : Text) (t : Table) (b : Blob × Text)
      → run repo_id (find_blob old path) t ≡ (ok b, t)
      → run repo_id (find_blob old path) (run repo_id (apply_one_change md5 repo_id root c) t).1
        ≡ (ok b, (run repo_id (apply_one_change md5 repo_id root c) t).1)
  find_blob-apply_one_change root c old path t b q =
      Reads-kept repo_id (find_blob old path) repo_id t _ t b (Reads-find_blob old path)
        (run-Extends repo_id (apply_one_change md5 repo_id root c) t) q

  -- The same of the listing of a directory.
  pub ls-apply_one_change :
      (root : WorkNode) (c : Change) (old : WorkNode) (path : Text) (t : Table)
      (es : List FullTreeEntry)
      → run repo_id (ls old path) t ≡ (ok es, t)
      → run repo_id (ls old path) (run repo_id (apply_one_change md5 repo_id root c) t).1
        ≡ (ok es, (run repo_id (apply_one_change md5 repo_id root c) t).1)
  ls-apply_one_change root c old path t es q =
      Reads-kept repo_id (ls old path) repo_id t _ t es (Reads-ls old path)
        (run-Extends repo_id (apply_one_change md5 repo_id root c) t) q

  -- A change in one repository makes no difference to what finding a blob and listing a directory
  -- give in another repository, errors included.
  pub apply_one_change-other_repository :
      (root : WorkNode) (c : Change) (id : Uuid) (other : WorkNode) (path : Text) (t : Table)
      → id ≢ repo_id
      → ((run id (find_blob other path) (run repo_id (apply_one_change md5 repo_id root c) t).1).0
          ≡ (run id (find_blob other path) t).0)
        × ((run id (ls other path) (run repo_id (apply_one_change md5 repo_id root c) t).1).0
            ≡ (run id (ls other path) t).0)
  apply_one_change-other_repository root c id other path t n =
      let x = run-Extends repo_id (apply_one_change md5 repo_id root c) t in
      (
        Reads-apart id (find_blob other path) repo_id t _ n (Reads-find_blob other path) x,
        Reads-apart id (ls other path) repo_id t _ n (Reads-ls other path) x,
      )
