-- ===== src/Version/Worktree/Removal.antt =====
-- versionmgr/worktree.go: the loop of `RemoveEntry` leaves nothing at the path.
use jiaozifs.Prelude.{
  ◌≡◌, ◌≢◌, refl, ap, sym, ◌∙◌, subst, false, false≢true, ◌||◌, inl, inr, ◌⊎◌, List, [], ◌∷◌, ◌++◌,
  Option, none, some, is_empty, drop, reverse, reverse-cons,
}
use jiaozifs.Prelude.{Text}
use jiaozifs.Auth.Model.{Uuid}
use jiaozifs.Version.Objects.{TreeEntry, TreeNode, Table, file_tree_of_node}
use jiaozifs.Version.Objects.Program.{done, ◌>>=◌, Extends, Extends-trans}
use jiaozifs.Version.Objects.Post.{Post, Post->>=, Post_any, Post-if}
use jiaozifs.Version.Worktree.{WorkNode, find_entry, new_work_node}
use jiaozifs.Version.Worktree.Write.{
  without_name, insert_tree, delete_direct_entry, replace_sub_tree_entry,
}
use jiaozifs.Version.Worktree.Remove.{Removing, after_delete, remove_up, remove_from}
use jiaozifs.Version.Worktree.Entries.{find_entry-sort_sub_objects, find_entry-without_name}
use jiaozifs.Version.Worktree.Leads.{Leads}
use jiaozifs.Version.Worktree.Gone.{Lacking, Lacks, Lacks-IsKept}
use jiaozifs.Version.Worktree.Build.{Stored, Post-insert_tree, Post-replace_sub_tree_entry}
use jiaozifs.Version.Worktree.Climb.{LeadsAs, dir_entry, LeadsAs-wrap, entry_names, upward-cons}

module _ (md5 : Text → Text) (md5-ne : (s : Text) → md5 s ≢ []) (repo_id : Uuid) where
  abbrev pub LacksAs : List Text → TreeEntry → Table → Type 0
  LacksAs = LeadsAs md5 md5-ne repo_id (Lacks repo_id) (Lacks-IsKept repo_id)

  -- Nothing is left of the directory, or it lacks the names behind its own.
  abbrev pub Emptied : List Text → Removing → Table → Type 0
  Emptied full s t =
      ((s.new ≡ none) × (s.last.hash ≡ []) × ((names : List Text) × (s.last.name ∷ names ≡ full)))
      ⊎ (((n : TreeNode) × (s.new ≡ some n)) × LacksAs full s.last t)

  -- The directory is stored without an entry of the name, or it has none left.
  abbrev Without : Text → Option TreeNode → Table → Type 0
  Without name left u =
      (left ≡ none)
      ⊎ ((n : TreeNode) × (es : List TreeEntry) × (left ≡ some n)
          × Stored md5 md5-ne repo_id (Lacks repo_id) (Lacks-IsKept repo_id) n es u
          × (find_entry name es ≡ none))

  Post-delete_direct_entry :
      (n : WorkNode) (name : Text) (t : Table)
      → Post repo_id (delete_direct_entry md5 repo_id n name) t (Without name)
  unfolding Post delete_direct_entry
  Post-delete_direct_entry n name t =
      let es = without_name name n.tree_node.sub_objects in
      Post-if repo_id (Without name) (is_empty es) _ _ t (λ b. inl refl)
        λ b.
          Post->>= repo_id _ (Without name) (insert_tree md5 repo_id n.tree_node.properties es)
            (λ m. done (some m)) t
            (Post-insert_tree md5 md5-ne repo_id (Lacks repo_id) (Lacks-IsKept repo_id)
              n.tree_node.properties es t)
            λ m u x s. inr (m, es, refl, s, find_entry-without_name name n.tree_node.sub_objects)

  Emptied-delete :
      (name above : Text) (names : List Text) (left : Option TreeNode) (u : Table)
      → Without name left u
      → Emptied (above ∷ name ∷ names) (after_delete above left) u
  unfolding after_delete Leads file_tree_of_node
  Emptied-delete name above names left u (inl z) =
      subst (λ l. Emptied (above ∷ name ∷ names) (after_delete above l) u) (sym z)
        (inl (refl, refl, (name ∷ names, refl)))
  Emptied-delete name above names left u (inr (m, es, q, s, f)) =
      let lacks : Lacking repo_id u
          (dir_entry md5 md5-ne repo_id (Lacks repo_id) (Lacks-IsKept repo_id) above m)
          (name ∷ names) =
        record {
          is_dir = refl;
          has_hash = s.has_hash;
          row = file_tree_of_node m;
          found = s.found;
          name = name;
          rest = names;
          split = refl;
          unnamed = ap (find_entry name) s.sorted ∙ find_entry-sort_sub_objects name es ∙ f;
        } in
      subst (λ l. Emptied (above ∷ name ∷ names) (after_delete above l) u) (sym q)
        (inr ((m, refl), (name ∷ names, inl lacks, refl)))

  Emptied-replace :
      (last : TreeEntry) (above : Text) (full : List Text) (n : TreeNode) (es : List TreeEntry)
      (t u : Table)
      → LacksAs full last t
      → Extends repo_id t u
      → Stored md5 md5-ne repo_id (Lacks repo_id) (Lacks-IsKept repo_id) n es u
      → find_entry last.name es ≡ some last
      → Emptied (above ∷ full) (after_delete above (some n)) u
  unfolding after_delete
  Emptied-replace last above full n es t u w x s f = inr (
    (n, refl),
    LeadsAs-wrap md5 md5-ne repo_id (Lacks repo_id) (Lacks-IsKept repo_id) t u last full above n es
        w x s f,
  )

  -- What the rest of the loop does to the nodes above the emptied one.
  abbrev Goes : Removing → List TreeEntry → List Text → Table → Type 0
  Goes s es full u =
      Post repo_id (remove_up md5 repo_id false s es) u (Emptied (reverse (entry_names es) ++ full))

  Post-delete_then :
      (n : WorkNode) (name : Text) (e : TreeEntry) (names : List Text) (es : List TreeEntry)
      (t : Table)
      → ((s : Removing) (u : Table)
          → Emptied (e.name ∷ name ∷ names) s u
          → Goes s es (e.name ∷ name ∷ names) u)
      → Post repo_id
          (delete_direct_entry md5 repo_id n name >>= λ left.
            remove_up md5 repo_id false (after_delete e.name left) es)
          t
          (Emptied (reverse (entry_names (e ∷ es)) ++ (name ∷ names)))
  Post-delete_then n name e names es t k =
      Post->>= repo_id _ (Emptied (reverse (entry_names (e ∷ es)) ++ (name ∷ names)))
        (delete_direct_entry md5 repo_id n name)
        (λ left. remove_up md5 repo_id false (after_delete e.name left) es) t
        (Post-delete_direct_entry n name t)
        λ left u x w.
          subst
            (λ l.
              Post repo_id (remove_up md5 repo_id false (after_delete e.name left) es) u
                (Emptied l))
            (upward-cons md5 md5-ne repo_id (Lacks repo_id) (Lacks-IsKept repo_id) e.name
              (entry_names es) (name ∷ names))
            (k (after_delete e.name left) u (Emptied-delete name e.name names left u w))

  Post-replace_then :
      (n : WorkNode) (last e : TreeEntry) (full : List Text) (es : List TreeEntry) (t u : Table)
      → LacksAs full last t
      → Extends repo_id t u
      → ((s : Removing) (v : Table) → Emptied (e.name ∷ full) s v → Goes s es (e.name ∷ full) v)
      → Post repo_id
          (replace_sub_tree_entry md5 repo_id n last >>= λ new.
            remove_up md5 repo_id false (after_delete e.name (some new)) es)
          u
          (Emptied (reverse (entry_names (e ∷ es)) ++ full))
  Post-replace_then n last e full es t u w x k =
      Post->>= repo_id _ (Emptied (reverse (entry_names (e ∷ es)) ++ full))
        (replace_sub_tree_entry md5 repo_id n last)
        (λ new. remove_up md5 repo_id false (after_delete e.name (some new)) es) u
        (Post-replace_sub_tree_entry md5 md5-ne repo_id (Lacks repo_id) (Lacks-IsKept repo_id) n
          last u)
        λ new v y (subs, s, f).
          subst
            (λ l.
              Post repo_id (remove_up md5 repo_id false (after_delete e.name (some new)) es) v
                (Emptied l))
            (upward-cons md5 md5-ne repo_id (Lacks repo_id) (Lacks-IsKept repo_id) e.name
              (entry_names es) full)
            (k (after_delete e.name (some new)) v (
              Emptied-replace last e.name full new subs t v w (Extends-trans repo_id t u v x y) s
                f))

  -- The steps of the loop behind the first.
  pub Post-remove_up :
      (s : Removing) (es : List TreeEntry) (full : List Text) (t : Table)
      → Emptied full s t
      → Goes s es full t
  unfolding Post remove_up
  Post-remove_up s [] full t w = w
  Post-remove_up s (e ∷ es) full t (inl (z, h, (names, q))) =
      subst (λ l. Goes s (e ∷ es) l t) q
        (Post->>= repo_id _ _ (new_work_node e) _ t (Post_any repo_id (new_work_node e) t)
          λ n u x any.
            Post-if repo_id _ (false || is_empty s.last.hash) _ _ u
              (λ b.
                Post-delete_then n s.last.name e names es u
                  (λ s' v w. Post-remove_up s' es (e.name ∷ s.last.name ∷ names) v w))
              (λ b. absurd (false≢true (sym b ∙ ap is_empty h))))
  Post-remove_up s (e ∷ es) full t (inr (new, w)) =
      Post->>= repo_id _ _ (new_work_node e) _ t (Post_any repo_id (new_work_node e) t) λ n u x any.
        Post-if repo_id _ (false || is_empty s.last.hash) _ _ u
          (λ b.
            subst
              (λ l.
                Post repo_id
                  (delete_direct_entry md5 repo_id n s.last.name >>= λ left.
                    remove_up md5 repo_id false (after_delete e.name left) es)
                  u (Emptied (reverse (entry_names (e ∷ es)) ++ l)))
              w.2
              (Post-delete_then n s.last.name e w.0 es u
                (λ s' v w'. Post-remove_up s' es (e.name ∷ s.last.name ∷ w.0) v w')))
          (λ b.
            Post-replace_then n s.last e full es t u w x
              (λ s' v w'. Post-remove_up s' es (e.name ∷ full) v w'))

  -- The whole loop; at least the root stands above the entry to remove.
  pub Post-remove_from :
      (leaf e : TreeEntry) (es : List TreeEntry) (t : Table)
      → Post repo_id
          (remove_from md5 repo_id (leaf ∷ e ∷ es))
          t
          (Emptied (reverse (entry_names (leaf ∷ e ∷ es))))
  unfolding Post remove_from remove_up
  Post-remove_from leaf e es t =
      subst (λ l. Post repo_id (remove_from md5 repo_id (leaf ∷ e ∷ es)) t (Emptied l))
        (sym (reverse-cons leaf.name (entry_names (e ∷ es))))
        (Post->>= repo_id _ (Emptied (reverse (entry_names (e ∷ es)) ++ leaf.name ∷ []))
          (new_work_node e) _ t (Post_any repo_id (new_work_node e) t)
          λ n u x any.
            Post-delete_then n leaf.name e [] es u
              (λ s v w. Post-remove_up s es (e.name ∷ leaf.name ∷ []) v w))

  -- The same of all the nodes at once.
  pub Post-remove_all :
      (es : List TreeEntry) (names : List Text) (t : Table)
      → reverse (entry_names es) ≡ [] ∷ names
      → names ≢ []
      → Post repo_id (remove_from md5 repo_id es) t (Emptied ([] ∷ names))
  Post-remove_all [] names t q ne = absurd (cc q)
  Post-remove_all (leaf ∷ []) names t q ne = absurd (ne (sym (ap (drop 1) q)))
  Post-remove_all (leaf ∷ e ∷ es) names t q ne =
      subst (λ l. Post repo_id (remove_from md5 repo_id (leaf ∷ e ∷ es)) t (Emptied l)) q
        (Post-remove_from leaf e es t)
