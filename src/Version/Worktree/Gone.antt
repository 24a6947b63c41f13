-- ===== src/Version/Worktree/Gone.antt =====
-- versionmgr/worktree.go: what `findNodeByPath` finds along a path that ends early.
use jiaozifs.Prelude.{
  ◌≡◌, ◌≢◌, refl, true, false, inl, inr, ◌⊎◌, List, [], ◌∷◌, none, some, ok, is_empty,
}
use jiaozifs.Prelude.{Text}
use jiaozifs.Auth.Model.{Uuid}
use jiaozifs.Version.Objects.{TreeEntry, FileTree, Table, find_row, node_of_row}
use jiaozifs.Version.Objects.Program.{run}
use jiaozifs.Version.Worktree.{WorkNode, FullObject, find_entry, find_segs}
use jiaozifs.Version.Worktree.Leads.{End, Leads, IsKept}
use jiaozifs.Version.Worktree.Find.{run-find_segs_dir}

module _ (repo_id : Uuid) where
  -- A directory without an entry for the first name that is left.
  pub record Lacking (t : Table) (e : TreeEntry) (names : List Text) : Type 0 where
    pub is_dir : e.is_dir ≡ true
    pub has_hash : e.hash ≢ []
    pub row : FileTree
    pub found : find_row repo_id e.hash t ≡ some row
    pub name : Text
    pub rest : List Text
    pub split : names ≡ name ∷ rest
    pub unnamed : find_entry name row.sub_objects ≡ none

  abbrev pub Lacks : End
  Lacks = Lacking

  pub Lacks-IsKept : IsKept repo_id Lacks
  Lacks-IsKept t u e names x l = record {
    is_dir = l.is_dir;
    has_hash = l.has_hash;
    row = l.row;
    found = x.kept repo_id e.hash l.row l.found;
    name = l.name;
    rest = l.rest;
    split = l.split;
    unnamed = l.unnamed;
  }

  -- Nothing is at the path from the node.
  unfoldable pub Absent : Table → WorkNode → List Text → Type 0
  Absent t n [] = ⊥
  Absent t n (name ∷ names) =
      (find_entry name n.tree_node.sub_objects ≡ none)
      ⊎ ((e : TreeEntry) × (find_entry name n.tree_node.sub_objects ≡ some e)
          × Leads repo_id Lacks t e names)

  abbrev pub Misses : Table → WorkNode → List Text → Type 0
  Misses t n names =
      (exist : List FullObject) × (missing : List Text) × (run repo_id (find_segs n names) t
        ≡ (ok (exist, missing), t))
      × (is_empty missing ≡ false)

  Absent-in_dir :
      (t : Table) (n : WorkNode) (name : Text) (names : List Text) (e : TreeEntry) (row : FileTree)
      → find_entry name n.tree_node.sub_objects ≡ some e
      → e.is_dir ≡ true
      → e.hash ≢ []
      → find_row repo_id e.hash t ≡ some row
      → Misses t (record { entry = e; tree_node = node_of_row row }) names
      → Misses t n (name ∷ names)
  Absent-in_dir t n name names e row f d h q (exist, missing, r, b) =
      (_, missing, run-find_segs_dir repo_id t n name names e row exist missing f d h q r, b)

  Absent-here :
      (t : Table) (n : WorkNode) (name : Text) (names : List Text)
      → find_entry name n.tree_node.sub_objects ≡ none
      → Misses t n (name ∷ names)
  unfolding run find_segs
  Absent-here t n name names f = ([], name ∷ names, rw (find_segs, f) refl, refl)

  pub Absent-Misses :
      (t : Table) (n : WorkNode) (names : List Text) → Absent t n names → Misses t n names
  unfolding Absent Leads node_of_row
  Absent-Misses t n [] a = absurd a
  Absent-Misses t n (name ∷ names) (inl f) = Absent-here t n name names f
  Absent-Misses t n (name ∷ []) (inr (e, f, l)) = absurd (cc l.split)
  Absent-Misses t n (name ∷ x ∷ names) (inr (e, f, inl l)) =
      let next : WorkNode = record { entry = e; tree_node = node_of_row l.row } in
      let lacks : find_entry x l.row.sub_objects ≡ none = cc (l.split, l.unnamed) in
      Absent-in_dir t n name (x ∷ names) e l.row f l.is_dir l.has_hash l.found
        (Absent-here t next x names lacks)
  Absent-Misses t n (name ∷ x ∷ names) (inr (e, f, inr (s, l))) =
      let next : WorkNode = record { entry = e; tree_node = node_of_row s.row } in
      Absent-in_dir t n name (x ∷ names) e s.row f s.is_dir s.has_hash s.found
        (Absent-Misses t next (x ∷ names) (inr (s.next, s.named, l)))
