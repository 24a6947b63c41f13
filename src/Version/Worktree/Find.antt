-- ===== src/Version/Worktree/Find.antt =====
-- versionmgr/worktree.go: what `findNodeByPath` finds along a way to a blob, and along one that ends early.
use jiaozifs.Prelude.{
  ◌≡◌, ◌≢◌, refl, ap, ◌∙◌, subst, true, false, inl, inr, List, [], ◌∷◌, some, ok, if-true, if-false,
}
use jiaozifs.Prelude.{Text}
use jiaozifs.Auth.Model.{Uuid}
use jiaozifs.Version.Objects.{
  TreeEntry, FileTree, Blob, Table, find_row, file_tree_of_blob, file_tree_of_node, node_of_row,
  blob_of_row,
}
use jiaozifs.Version.Objects.Program.{TreeError, done, raise, run}
use jiaozifs.Version.Objects.Run.{run->>=}
use jiaozifs.Version.Worktree.{
  WorkNode, FullObject, find_entry, sub_dir, sub_file, find_segs, enter_dir, enter_file,
}
use jiaozifs.Version.Worktree.Entries.{find_entry-name}
use jiaozifs.Version.Worktree.Read.{last_object}
use jiaozifs.Version.Worktree.Leads.{End, Leads, IsKept, run-sub_dir, run-sub_file}

-- The last name of a path.
unfoldable pub last_name : List Text → Text
last_name [] = []
last_name (name ∷ []) = name
last_name (name ∷ x ∷ names) = last_name (x ∷ names)

module _ (repo_id : Uuid) where
  -- The way ends at an entry for the blob.
  unfoldable pub AtBlob : Blob → End
  AtBlob blob t e names =
      (names ≡ [])
      × (e.is_dir ≡ false)
      × (find_row repo_id e.hash t ≡ some (file_tree_of_blob blob))

  pub AtBlob-IsKept : (blob : Blob) → IsKept repo_id (AtBlob blob)
  unfolding AtBlob
  AtBlob-IsKept blob t u e names x (n, d, f) =
      (n, d, x.kept repo_id e.hash (file_tree_of_blob blob) f)

  -- The way from a node; an empty list of names is not one.
  unfoldable pub LeadsFrom : End → Table → WorkNode → List Text → Type 0
  LeadsFrom G t n [] = ⊥
  LeadsFrom G t n (name ∷ names) =
      (e : TreeEntry) × (find_entry name n.tree_node.sub_objects ≡ some e)
      × Leads repo_id G t e names

  raise-ne-done : {A : Type 0} (x : TreeError) (a : A) → raise x ≢ done a
  raise-ne-done x a e = subst (λ p. elim p [ done b ↦ ⊥ | raise y ↦ Unit {0} | _ ↦ ⊥ ]) e tt

  last_object-cons :
      (p : FullObject) (os : List FullObject) (o : FullObject)
      → last_object os ≡ done o
      → last_object (p ∷ os) ≡ done o
  unfolding last_object
  last_object-cons p [] o e = absurd (raise-ne-done _ o e)
  last_object-cons p (q ∷ os) o e = e

  -- The objects, and that the last of them is the blob with the last name.
  abbrev pub Finds : Table → WorkNode → List Text → Blob → Type 0
  Finds t n names blob =
      (exist : List FullObject) × (o : FullObject) × (run repo_id (find_segs n names) t
        ≡ (ok (exist, []), t))
      × (last_object exist ≡ done o)
      × (o.node ≡ file_tree_of_blob blob)
      × (o.entry.name ≡ last_name names)

  pub found_by_name :
      (name : Text) (es : List TreeEntry) (e : TreeEntry)
      → find_entry name es ≡ some e
      → find_entry e.name es ≡ some e
  found_by_name name es e f = ap (λ s. find_entry s es) (find_entry-name name es e f) ∙ f

  -- The step of `findNodeByPath` into a directory.
  pub run-find_segs_dir :
      (t : Table) (n : WorkNode) (name : Text) (names : List Text) (e : TreeEntry) (row : FileTree)
      (exist : List FullObject) (missing : List Text)
      → find_entry name n.tree_node.sub_objects ≡ some e
      → e.is_dir ≡ true
      → e.hash ≢ []
      → find_row repo_id e.hash t ≡ some row
      → run repo_id (find_segs (record { entry = e; tree_node = node_of_row row }) names) t
        ≡ (ok (exist, missing), t)
      → run repo_id (find_segs n (name ∷ names)) t ≡ (
        ok (record { node = file_tree_of_node (node_of_row row); entry = e } ∷ exist, missing),
        t,
      )
  unfolding find_segs run enter_dir
  run-find_segs_dir t n name names e row exist missing f d h q r =
      let next : WorkNode = record { entry = e; tree_node = node_of_row row } in
      let at_dir : find_segs n (name ∷ names) ≡ enter_dir n e (λ m. find_segs m names) =
        rw (find_segs, f) (if-true e.is_dir _ _ d) in
      let found = found_by_name name n.tree_node.sub_objects e f in
      ap (λ p. run repo_id p t) at_dir
      ∙ run->>= repo_id (sub_dir n e.name) _ t next t (run-sub_dir repo_id t n e row found d h q)
      ∙ run->>= repo_id (find_segs next names) _ t (exist, missing) t r

  -- The step to a file.
  run-find_segs_file :
      (t : Table) (n : WorkNode) (name : Text) (e : TreeEntry) (row : FileTree)
      → find_entry name n.tree_node.sub_objects ≡ some e
      → e.is_dir ≡ false
      → find_row repo_id e.hash t ≡ some row
      → run repo_id (find_segs n (name ∷ [])) t
        ≡ (ok (record { node = file_tree_of_blob (blob_of_row row); entry = e } ∷ [], []), t)
  unfolding find_segs run enter_file
  run-find_segs_file t n name e row f d q =
      let at_file : find_segs n (name ∷ []) ≡ enter_file n e [] =
        rw (find_segs, f) (if-false e.is_dir _ _ d) in
      let found = found_by_name name n.tree_node.sub_objects e f in
      ap (λ p. run repo_id p t) at_file
      ∙ run->>= repo_id (sub_file n e.name) _ t (blob_of_row row) t
          (run-sub_file repo_id t n e row found d q)

  pub LeadsFrom-Finds :
      (blob : Blob) (t : Table) (n : WorkNode) (names : List Text)
      → LeadsFrom (AtBlob blob) t n names
      → Finds t n names blob
  unfolding LeadsFrom Leads AtBlob last_object last_name blob_of_row file_tree_of_blob node_of_row
  LeadsFrom-Finds blob t n [] w = absurd w
  LeadsFrom-Finds blob t n (name ∷ []) (e, f, (z, d, q)) = (
    record { node = file_tree_of_blob blob; entry = e } ∷ [],
    record { node = file_tree_of_blob blob; entry = e },
    run-find_segs_file t n name e (file_tree_of_blob blob) f d q,
    refl,
    refl,
    find_entry-name name n.tree_node.sub_objects e f,
  )
  LeadsFrom-Finds blob t n (name ∷ x ∷ names) (e, f, inl (z, d, q)) = absurd (cc z)
  LeadsFrom-Finds blob t n (name ∷ x ∷ names) (e, f, inr (s, w)) =
      let next : WorkNode = record { entry = e; tree_node = node_of_row s.row } in
      let (exist, o, r, l, b, nm) = LeadsFrom-Finds blob t next (x ∷ names) (s.next, s.named, w) in
      (
        record { node = file_tree_of_node (node_of_row s.row); entry = e } ∷ exist,
        o,
        run-find_segs_dir t n name (x ∷ names) e s.row exist [] f s.is_dir s.has_hash s.found r,
        last_object-cons _ exist o l,
        b,
        nm,
      )
