-- ===== src/Version/Worktree/Found.antt =====
-- versionmgr/worktree.go: the names that `findNodeByPath` has found and those that are missing.
use jiaozifs.Prelude.{
  ℕ, zero, suc, ◌≢◌, ◌≡◌, refl, ap, sym, ◌∙◌, arith, inl, inr, List, [], ◌∷◌, ◌++◌, Option-cases,
  is_empty, is_empty-true, map, map-append, reverse, reverse-snoc, reverse-map-reverse,
}
use jiaozifs.Prelude.{Text}
use jiaozifs.Strings.{split_n}
use jiaozifs.Auth.Model.{Uuid}
use jiaozifs.Version.Objects.{TreeEntry, Table, new_root_tree_entry}
use jiaozifs.Version.Objects.Post.{Post, Post->>=, Post_any, Post-if}
use jiaozifs.Version.Worktree.{
  WorkNode, FullObject, find_entry, find_segs, enter_dir, enter_file, sub_dir, sub_file,
}
use jiaozifs.Version.Worktree.Write.{upwards}
use jiaozifs.Version.Worktree.Entries.{find_entry-name}
use jiaozifs.Version.Worktree.Climb.{entry_names}

pub split_n-ne_nil : (sep n : ℕ) (s : Text) → split_n sep n s ≢ []
unfolding split_n
split_n-ne_nil sep zero s e = cc
split_n-ne_nil sep (suc n) s e = ground arith

abbrev pub object_names : List FullObject → List Text
object_names exist = entry_names (map (λ (o : FullObject). o.entry) exist)

-- The names of the nodes that are found and of those that are missing are those of the path.
pub Post-find_segs :
    (repo_id : Uuid) (cur : WorkNode) (names : List Text) (t : Table)
    → Post repo_id
        (find_segs cur names)
        t
        (λ (exist, missing) u. object_names exist ++ missing ≡ names)
unfolding Post find_segs enter_dir enter_file
Post-find_segs repo_id cur [] t = refl
Post-find_segs repo_id cur (name ∷ names) t =
    elim (Option-cases (find_entry name cur.tree_node.sub_objects)) [
      | inl q ↦ rw (find_segs, q) refl
      | inr (e, q) ↦
          rw (find_segs, q)
            (Post-if repo_id _ e.is_dir _ _ t
              (λ b.
                Post->>= repo_id _ _ (sub_dir cur e.name) _ t
                  (Post_any repo_id (sub_dir cur e.name) t)
                  λ next u x any.
                    Post->>= repo_id _ _ (find_segs next names) _ u
                      (Post-find_segs repo_id next names u)
                      λ (exist, missing) v y r.
                        ap (λ l. e.name ∷ l) r
                        ∙ ap (λ s. s ∷ names) (find_entry-name name cur.tree_node.sub_objects e q))
              (λ b.
                Post->>= repo_id _ _ (sub_file cur e.name) _ t
                  (Post_any repo_id (sub_file cur e.name) t)
                  λ blob u x any.
                    Post-if repo_id _ (is_empty names) _ _ u
                      (λ z.
                        ap (λ s. s ∷ []) (find_entry-name name cur.tree_node.sub_objects e q)
                        ∙ ap (λ l. name ∷ l) (sym (is_empty-true names z)))
                      (λ z. tt)))
    ]

pub upwards-names :
    (root : WorkNode) (exist : List FullObject)
    → reverse (entry_names (upwards root exist)) ≡ [] ∷ object_names exist
unfolding upwards new_root_tree_entry
upwards-names root exist =
    let es = map (λ (o : FullObject). o.entry) exist in
    ap reverse (
      map-append (λ (e : TreeEntry). e.name) (reverse es)
        (new_root_tree_entry root.entry.hash ∷ []))
    ∙ reverse-snoc (entry_names (reverse es)) []
    ∙ ap (λ l. [] ∷ l) (reverse-map-reverse (λ (e : TreeEntry). e.name) es)
