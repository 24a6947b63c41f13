-- ===== src/Version/Worktree/Blocked.antt =====
-- versionmgr/worktree.go: what `findNodeByPath` gives along a path that goes on behind a file.
use jiaozifs.Prelude.{
  ◌≡◌, ◌≢◌, ap, ◌∙◌, true, false, inl, inr, List, [], ◌∷◌, some, err, if-true, if-false,
}
use jiaozifs.Prelude.{Text}
use jiaozifs.Auth.Model.{Uuid}
use jiaozifs.Version.Objects.{TreeEntry, FileTree, Table, find_row, node_of_row, blob_of_row}
use jiaozifs.Version.Objects.Program.{TreeError, blob_must_be_leaf, run}
use jiaozifs.Version.Objects.Run.{run->>=, run->>=_err}
use jiaozifs.Version.Worktree.{
  WorkNode, find_entry, find_segs, sub_dir, sub_file, enter_dir, enter_file,
}
use jiaozifs.Version.Worktree.Leads.{End, Leads, run-sub_dir, run-sub_file}
use jiaozifs.Version.Worktree.Find.{LeadsFrom, found_by_name}

module _ (repo_id : Uuid) where
  -- A file whose row is there, with names left behind it.
  pub record Blocking (t : Table) (e : TreeEntry) (names : List Text) : Type 0 where
    pub is_file : e.is_dir ≡ false
    pub row : FileTree
    pub found : find_row repo_id e.hash t ≡ some row
    pub name : Text
    pub rest : List Text
    pub split : names ≡ name ∷ rest

  abbrev pub Blocks : End
  Blocks = Blocking

  -- The step of `findNodeByPath` into a directory behind which it fails.
  run-find_segs_dir_err :
      (t : Table) (n : WorkNode) (name : Text) (names : List Text) (e : TreeEntry) (row : FileTree)
      (x : TreeError)
      → find_entry name n.tree_node.sub_objects ≡ some e
      → e.is_dir ≡ true
      → e.hash ≢ []
      → find_row repo_id e.hash t ≡ some row
      → run repo_id (find_segs (record { entry = e; tree_node = node_of_row row }) names) t
        ≡ (err x, t)
      → run repo_id (find_segs n (name ∷ names)) t ≡ (err x, t)
  unfolding find_segs enter_dir
  run-find_segs_dir_err t n name names e row x f d h q r =
      let next : WorkNode = record { entry = e; tree_node = node_of_row row } in
      let at_dir : find_segs n (name ∷ names) ≡ enter_dir n e (λ m. find_segs m names) =
        rw (find_segs, f) (if-true e.is_dir _ _ d) in
      let found = found_by_name repo_id name n.tree_node.sub_objects e f in
      ap (λ p. run repo_id p t) at_dir
      ∙ run->>= repo_id (sub_dir n e.name) _ t next t (run-sub_dir repo_id t n e row found d h q)
      ∙ run->>=_err repo_id (find_segs next names) _ t x t r

  -- The step to a file that is not at the last name.
  run-find_segs_blocked :
      (t : Table) (n : WorkNode) (name x : Text) (names : List Text) (e : TreeEntry)
      (row : FileTree)
      → find_entry name n.tree_node.sub_objects ≡ some e
      → e.is_dir ≡ false
      → find_row repo_id e.hash t ≡ some row
      → run repo_id (find_segs n (name ∷ x ∷ names)) t ≡ (err blob_must_be_leaf, t)
  unfolding find_segs run enter_file
  run-find_segs_blocked t n name x names e row f d q =
      let at_file : find_segs n (name ∷ x ∷ names) ≡ enter_file n e (x ∷ names) =
        rw (find_segs, f) (if-false e.is_dir _ _ d) in
      let found = found_by_name repo_id name n.tree_node.sub_objects e f in
      ap (λ p. run repo_id p t) at_file
      ∙ run->>= repo_id (sub_file n e.name) _ t (blob_of_row row) t
          (run-sub_file repo_id t n e row found d q)

  pub LeadsFrom-Blocks :
      (t : Table) (n : WorkNode) (names : List Text)
      → LeadsFrom repo_id Blocks t n names
      → run repo_id (find_segs n names) t ≡ (err blob_must_be_leaf, t)
  unfolding LeadsFrom Leads node_of_row
  LeadsFrom-Blocks t n [] w = absurd w
  LeadsFrom-Blocks t n (name ∷ []) (e, f, b) = absurd (cc b.split)
  LeadsFrom-Blocks t n (name ∷ x ∷ names) (e, f, inl b) =
      run-find_segs_blocked t n name x names e b.row f b.is_file b.found
  LeadsFrom-Blocks t n (name ∷ x ∷ names) (e, f, inr (s, w)) =
      let next : WorkNode = record { entry = e; tree_node = node_of_row s.row } in
      run-find_segs_dir_err t n name (x ∷ names) e s.row blob_must_be_leaf f s.is_dir s.has_hash
        s.found (LeadsFrom-Blocks t next (x ∷ names) (s.next, s.named, w))
