-- ===== src/Version/Worktree/Build.antt =====
-- versionmgr/worktree.go: the directories that are written from a changed entry up to the root lead to it.
use jiaozifs.Prelude.{
  ◌≡◌, ◌≢◌, refl, ap, ◌∙◌, arith, true, false, inl, inr, List, [], ◌∷◌, ◌++◌, none, some, is_empty,
  List-cases,
}
use jiaozifs.Prelude.{Text, text_eq-ne}
use jiaozifs.Auth.Model.{Uuid}
use jiaozifs.Version.Objects.{
  TreeEntry, TreeNode, Property, default_dir_property, FileTree, Table, find_row, sort_sub_objects,
  new_tree_node, file_tree_of_node, node_of_row, entry_equal,
}
use jiaozifs.Version.Objects.Program.{Extends, insert_file_tree, get_tree_node}
use jiaozifs.Version.Objects.Post.{Post, Post->>=, Post_any, Post-if, Post-mono}
use jiaozifs.Version.Worktree.{WorkNode, empty_dir_entry, find_entry, new_work_node, children}
use jiaozifs.Version.Worktree.Write.{
  has_child, insert_tree, append_direct_entry, replace_sub_tree_entry, replace_at_name,
}
use jiaozifs.Version.Worktree.Entries.{
  find_entry-sort_sub_objects, find_entry-replace_at_name, find_entry-append,
}
use jiaozifs.Version.Worktree.Leads.{End, Leads, IsKept, Leads-kept}

module _ (repo_id : Uuid) where
  Post-new_work_node :
      (e : TreeEntry) (t : Table) → Post repo_id (new_work_node e) t (λ n u. n.entry ≡ e)
  unfolding Post new_work_node
  Post-new_work_node e t =
      Post-if repo_id _ (entry_equal e empty_dir_entry) _ _ t (λ b. refl)
        (λ b.
          Post->>= repo_id _ _ (get_tree_node e.hash) _ t
            (Post_any repo_id (get_tree_node e.hash) t) (λ n u x q. refl))

  pub Post-load :
      (Q : WorkNode → Table → Type 0) (e : TreeEntry) (row : FileTree) (t : Table)
      → e.hash ≢ []
      → find_row repo_id e.hash t ≡ some row
      → Q (record { entry = e; tree_node = node_of_row row }) t
      → Post repo_id (new_work_node e) t Q
  unfolding Post new_work_node entry_equal get_tree_node
  Post-load Q e row t n q p = rw (text_eq-ne e.hash [] n, get_tree_node, Post, q) p

  Post-children :
      (es : List TreeEntry) (t : Table)
      → Post repo_id
          (children es)
          t
          (λ ns u. (s : Text) → has_child s ns ≡ false → find_entry s es ≡ none)
  unfolding Post children has_child find_entry
  Post-children [] t = λ s e. refl
  Post-children (e ∷ es) t =
      Post->>= repo_id _ _ (new_work_node e) _ t (Post-new_work_node e t) λ n u x q.
        Post->>= repo_id _ _ (children es) _ u (Post-children es u)
          λ ns v y r. λ s h. ground (arith, q, r s, h)

module _ (md5 : Text → Text) (md5-ne : (s : Text) → md5 s ≢ []) (repo_id : Uuid) (G : End)
    (kept : IsKept repo_id G) where
  -- The row of a tree that was inserted.
  pub record Stored (n : TreeNode) (es : List TreeEntry) (u : Table) : Type 0 where
    pub has_hash : n.hash ≢ []
    pub found : find_row repo_id n.hash u ≡ some (file_tree_of_node n)
    pub sorted : n.sub_objects ≡ sort_sub_objects es

  pub Post-insert_tree :
      (props : Property) (es : List TreeEntry) (t : Table)
      → Post repo_id (insert_tree md5 repo_id props es) t (λ n u. Stored n es u)
  unfolding Post insert_tree new_tree_node insert_file_tree file_tree_of_node
  Post-insert_tree props es t = λ r b. record { has_hash = md5-ne _; found = b; sorted = refl }

  -- A directory that was stored with the entry in it leads where the entry does.
  pub wrap :
      (t u : Table) (last : TreeEntry) (names : List Text) (name : Text) (n : TreeNode)
      (es : List TreeEntry)
      → Leads repo_id G t last names
      → Extends repo_id t u
      → Stored n es u
      → find_entry last.name es ≡ some last
      → Leads repo_id G u (record { name = name; is_dir = true; hash = n.hash }) (last.name ∷ names)
  unfolding Leads file_tree_of_node
  wrap t u last names name n es w x s f = inr (
    record {
      is_dir = refl;
      has_hash = s.has_hash;
      row = file_tree_of_node n;
      found = s.found;
      next = last;
      named = ap (find_entry last.name) s.sorted ∙ find_entry-sort_sub_objects last.name es ∙ f;
    },
    Leads-kept repo_id G kept t u last names x w,
  )

  -- A tree that was stored with the entry in it.
  abbrev pub StoredWith : TreeEntry → TreeNode → Table → Type 0
  StoredWith last new u =
      (es : List TreeEntry) × Stored new es u × (find_entry last.name es ≡ some last)

  pub Post-append_direct_entry :
      (n : WorkNode) (last : TreeEntry) (t : Table)
      → Post repo_id (append_direct_entry md5 repo_id n last) t (StoredWith last)
  unfolding Post append_direct_entry
  Post-append_direct_entry n last t =
      let subs = n.tree_node.sub_objects in
      let with_last = sort_sub_objects (subs ++ last ∷ []) in
      Post->>= repo_id _ _ (children subs) _ t (Post-children repo_id subs t) λ ns u x absent.
        Post-if repo_id _ (has_child last.name ns) _ _ u (λ b. tt)
          λ b.
            Post-mono repo_id _ (StoredWith last)
              (insert_tree md5 repo_id default_dir_property with_last) u
              (Post-insert_tree default_dir_property with_last u)
              λ new v s. (
                with_last,
                s,
                find_entry-sort_sub_objects last.name (subs ++ last ∷ [])
                    ∙ find_entry-append last subs (absent last.name b),
              )

  pub Post-replace_sub_tree_entry :
      (n : WorkNode) (last : TreeEntry) (t : Table)
      → Post repo_id (replace_sub_tree_entry md5 repo_id n last) t (StoredWith last)
  unfolding Post replace_sub_tree_entry
  Post-replace_sub_tree_entry n last t = elim (List-cases n.tree_node.sub_objects) [
    | inl e ↦ rw e tt
    | inr (x, xs, e) ↦
        let es = replace_at_name last n.tree_node.sub_objects in
        let has_last : find_entry last.name es ≡ some last =
          rw e (find_entry-replace_at_name last x xs) in
        Post-if repo_id _ (is_empty n.tree_node.sub_objects) _ _ t (λ b. tt)
          λ b.
            Post-mono repo_id _ (StoredWith last)
              (insert_tree md5 repo_id n.tree_node.properties es) t
              (Post-insert_tree n.tree_node.properties es t) λ new v s. (es, s, has_last)
  ]
