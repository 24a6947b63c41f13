-- ===== src/Version/Worktree/Leads.antt =====
-- versionmgr/worktree.go: the ways from an entry down the table along the names of a path.
use jiaozifs.Prelude.{
  ◌≡◌, ◌≢◌, refl, ap, ◌∙◌, true, false, inl, inr, ◌⊎◌, List, [], ◌∷◌, some, ok, if-true, if-false,
}
use jiaozifs.Prelude.{Text, text_eq-ne}
use jiaozifs.Auth.Model.{Uuid}
use jiaozifs.Version.Objects.{
  TreeEntry, FileTree, Table, find_row, entry_equal, node_of_row, blob_of_row,
}
use jiaozifs.Version.Objects.Program.{run, Extends, get_blob, get_tree_node}
use jiaozifs.Version.Worktree.{WorkNode, find_entry, new_work_node, sub_dir, sub_file}

-- Where a way ends: the table, the last entry, and the names that are left.
abbrev pub End : Type 1
End = Table → TreeEntry → List Text → Type 0

module _ (repo_id : Uuid) where
  -- The entry is a directory, its row is in the table, and the row has an entry with the name.
  pub record Enters (t : Table) (e : TreeEntry) (name : Text) : Type 0 where
    pub is_dir : e.is_dir ≡ true
    pub has_hash : e.hash ≢ []
    pub row : FileTree
    pub found : find_row repo_id e.hash t ≡ some row
    pub next : TreeEntry
    pub named : find_entry name row.sub_objects ≡ some next

  unfoldable pub Leads : End → End
  Leads G t e [] = G t e []
  Leads G t e (name ∷ names) =
      G t e (name ∷ names) ⊎ ((x : Enters t e name) × Leads G t x.next names)

  -- An end that stays one in every table that extends the table.
  abbrev pub IsKept : End → Type 0
  IsKept G =
      (t u : Table) (e : TreeEntry) (names : List Text)
      → Extends repo_id t u
      → G t e names
      → G u e names

  pub Leads-kept : (G : End) → IsKept G → IsKept (Leads G)
  unfolding Leads
  Leads-kept G k t u e [] x w = k t u e [] x w
  Leads-kept G k t u e (name ∷ names) x (inl g) = inl (k t u e (name ∷ names) x g)
  Leads-kept G k t u e (name ∷ names) x (inr (s, w)) = inr (
    record {
      is_dir = s.is_dir;
      has_hash = s.has_hash;
      row = s.row;
      found = x.kept repo_id e.hash s.row s.found;
      next = s.next;
      named = s.named;
    },
    Leads-kept G k t u s.next names x w,
  )

  pub Leads-end :
      (G : End) (t : Table) (e : TreeEntry) (names : List Text) → G t e names → Leads G t e names
  unfolding Leads
  Leads-end G t e [] g = g
  Leads-end G t e (name ∷ names) g = inl g

  -- Loading the node of an entry whose row is there.
  pub run-new_work_node :
      (t : Table) (e : TreeEntry) (row : FileTree)
      → e.hash ≢ []
      → find_row repo_id e.hash t ≡ some row
      → run repo_id (new_work_node e) t
        ≡ (ok (record { entry = e; tree_node = node_of_row row }), t)
  unfolding run new_work_node entry_equal get_tree_node
  run-new_work_node t e row n q = rw (text_eq-ne e.hash [] n, get_tree_node, run, q) refl

  run-get_blob :
      (t : Table) (h : Text) (row : FileTree)
      → find_row repo_id h t ≡ some row
      → run repo_id (get_blob h) t ≡ (ok (blob_of_row row), t)
  unfolding get_blob run
  run-get_blob t h row q = rw (get_blob, run, q) refl

  pub run-sub_dir :
      (t : Table) (n : WorkNode) (e : TreeEntry) (row : FileTree)
      → find_entry e.name n.tree_node.sub_objects ≡ some e
      → e.is_dir ≡ true
      → e.hash ≢ []
      → find_row repo_id e.hash t ≡ some row
      → run repo_id (sub_dir n e.name) t
        ≡ (ok (record { entry = e; tree_node = node_of_row row }), t)
  unfolding sub_dir
  run-sub_dir t n e row f d h q =
      ap (λ p. run repo_id p t) (rw (sub_dir, f) (if-true e.is_dir _ _ d))
      ∙ run-new_work_node t e row h q

  pub run-sub_file :
      (t : Table) (n : WorkNode) (e : TreeEntry) (row : FileTree)
      → find_entry e.name n.tree_node.sub_objects ≡ some e
      → e.is_dir ≡ false
      → find_row repo_id e.hash t ≡ some row
      → run repo_id (sub_file n e.name) t ≡ (ok (blob_of_row row), t)
  unfolding sub_file
  run-sub_file t n e row f d q =
      ap (λ p. run repo_id p t) (rw (sub_file, f) (if-false e.is_dir _ _ d))
      ∙ run-get_blob t e.hash row q
