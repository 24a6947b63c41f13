-- ===== src/Version/Worktree/Climb.antt =====
-- versionmgr/worktree.go: the loops that write one directory after another, up to the root.
use jiaozifs.Prelude.{
  ◌≡◌, ◌≢◌, ap, sym, ◌∙◌, subst, true, List, [], ◌∷◌, ◌++◌, is_empty, map, reverse, reverse-cons,
  append_assoc,
}
use jiaozifs.Prelude.{Text, some}
use jiaozifs.Auth.Model.{Uuid}
use jiaozifs.Version.Objects.{TreeEntry, TreeNode, default_dir_property, Table}
use jiaozifs.Version.Objects.Program.{Extends, Extends-trans}
use jiaozifs.Version.Objects.Post.{Post, Post->>=, Post_any, Post-if}
use jiaozifs.Version.Worktree.{find_entry, new_work_node}
use jiaozifs.Version.Worktree.Write.{
  insert_tree, append_direct_entry, replace_sub_tree_entry, build_dirs, replace_up, append_up,
}
use jiaozifs.Version.Worktree.Entries.{find_entry-only}
use jiaozifs.Version.Worktree.Leads.{End, Leads, IsKept}
use jiaozifs.Version.Worktree.Build.{
  Stored, StoredWith, wrap, Post-insert_tree, Post-append_direct_entry, Post-replace_sub_tree_entry,
}

abbrev pub entry_names : List TreeEntry → List Text
entry_names es = map (λ (e : TreeEntry). e.name) es

module _ (md5 : Text → Text) (md5-ne : (s : Text) → md5 s ≢ []) (repo_id : Uuid) (G : End)
    (kept : IsKept repo_id G) where
  -- The entry leads along the names behind its own.
  abbrev pub LeadsAs : List Text → TreeEntry → Table → Type 0
  LeadsAs full e t = (names : List Text) × Leads repo_id G t e names × (e.name ∷ names ≡ full)

  -- The entry of a directory that was stored.
  abbrev pub dir_entry : Text → TreeNode → TreeEntry
  dir_entry name n = record { name = name; is_dir = true; hash = n.hash }

  -- One more directory above it.
  pub LeadsAs-wrap :
      (t u : Table) (last : TreeEntry) (full : List Text) (name : Text) (n : TreeNode)
      (es : List TreeEntry)
      → LeadsAs full last t
      → Extends repo_id t u
      → Stored md5 md5-ne repo_id G kept n es u
      → find_entry last.name es ≡ some last
      → LeadsAs (name ∷ full) (record { name = name; is_dir = true; hash = n.hash }) u
  LeadsAs-wrap t u last full name n es (names, w, q) x s f = (
    last.name ∷ names,
    wrap md5 md5-ne repo_id G kept t u last names name n es w x s f,
    ap (λ l. name ∷ l) q,
  )

  pub upward-cons :
      (name : Text) (names full : List Text)
      → reverse names ++ (name ∷ full) ≡ reverse (name ∷ names) ++ full
  upward-cons name names full =
      sym (append_assoc (reverse names) (name ∷ []) full)
      ∙ ap (λ l. l ++ full) (sym (reverse-cons name names))

  pub Post-build_dirs :
      (last : TreeEntry) (names full : List Text) (t : Table)
      → LeadsAs full last t
      → Post repo_id (build_dirs md5 repo_id last names) t (LeadsAs (reverse names ++ full))
  unfolding Post build_dirs
  Post-build_dirs last [] full t w = w
  Post-build_dirs last (name ∷ names) full t w =
      let tree = insert_tree md5 repo_id default_dir_property (last ∷ []) in
      Post-if repo_id _ (is_empty name) _ _ t (λ b. tt)
        λ b.
          Post->>= repo_id _ (LeadsAs (reverse (name ∷ names) ++ full)) tree
            (λ n. build_dirs md5 repo_id (dir_entry name n) names) t
            (Post-insert_tree md5 md5-ne repo_id G kept default_dir_property (last ∷ []) t)
            λ n u x s.
              subst
                (λ l. Post repo_id (build_dirs md5 repo_id (dir_entry name n) names) u (LeadsAs l))
                (upward-cons name names full)
                (Post-build_dirs (dir_entry name n) names (name ∷ full) u
                  (LeadsAs-wrap t u last full name n (last ∷ []) w x s (find_entry-only last)))

  -- The rest of a climb, behind a directory that was stored with the entry.
  Post-replace_up_from :
      (last e : TreeEntry) (es : List TreeEntry) (full : List Text) (t u : Table) (n : TreeNode)
      → LeadsAs full last t
      → Extends repo_id t u
      → StoredWith md5 md5-ne repo_id G kept last n u
      → (LeadsAs (e.name ∷ full) (dir_entry e.name n) u
          → Post repo_id
              (replace_up md5 repo_id (dir_entry e.name n) es)
              u
              (LeadsAs (reverse (entry_names es) ++ (e.name ∷ full))))
      → Post repo_id
          (replace_up md5 repo_id (dir_entry e.name n) es)
          u
          (LeadsAs (reverse (entry_names (e ∷ es)) ++ full))
  Post-replace_up_from last e es full t u n w x (subs, s, f) k =
      subst (λ l. Post repo_id (replace_up md5 repo_id (dir_entry e.name n) es) u (LeadsAs l))
        (upward-cons e.name (entry_names es) full)
        (k (LeadsAs-wrap t u last full e.name n subs w x s f))

  pub Post-replace_up :
      (last : TreeEntry) (es : List TreeEntry) (full : List Text) (t : Table)
      → LeadsAs full last t
      → Post repo_id (replace_up md5 repo_id last es) t (LeadsAs (reverse (entry_names es) ++ full))
  unfolding Post replace_up
  Post-replace_up last [] full t w = w
  Post-replace_up last (e ∷ es) full t w =
      Post->>= repo_id _ _ (new_work_node e) _ t (Post_any repo_id (new_work_node e) t) λ m u x any.
        Post->>= repo_id _ _ (replace_sub_tree_entry md5 repo_id m last) _ u
          (Post-replace_sub_tree_entry md5 md5-ne repo_id G kept m last u)
          λ n v y s.
            Post-replace_up_from last e es full t v n w (Extends-trans repo_id t u v x y) s
              (Post-replace_up (dir_entry e.name n) es (e.name ∷ full) v)

  pub Post-append_up :
      (last : TreeEntry) (es : List TreeEntry) (full : List Text) (t : Table)
      → LeadsAs full last t
      → Post repo_id (append_up md5 repo_id last es) t (LeadsAs (reverse (entry_names es) ++ full))
  unfolding Post append_up
  Post-append_up last [] full t w = w
  Post-append_up last (e ∷ es) full t w =
      Post->>= repo_id _ _ (new_work_node e) _ t (Post_any repo_id (new_work_node e) t) λ m u x any.
        Post->>= repo_id _ _ (append_direct_entry md5 repo_id m last) _ u
          (Post-append_direct_entry md5 md5-ne repo_id G kept m last u)
          λ n v y s.
            Post-replace_up_from last e es full t v n w (Extends-trans repo_id t u v x y) s
              (Post-replace_up (dir_entry e.name n) es (e.name ∷ full) v)
