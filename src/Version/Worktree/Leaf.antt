-- ===== src/Version/Worktree/Leaf.antt =====
-- versionmgr/worktree.go: where the new root of `AddLeaf` and of `ReplaceLeaf` leads.
use jiaozifs.Prelude.{
  ◌≡◌, ◌≢◌, refl, ap, sym, ◌∙◌, subst, false, false≢true, inl, inr, List, [], ◌∷◌, ◌++◌, append-nil,
  some, is_empty, length, drop, is_empty-true, reverse, reverse-cons, reverse-reverse,
}
use jiaozifs.Prelude.{Text}
use jiaozifs.Strings.{split}
use jiaozifs.Auth.Model.{Uuid}
use jiaozifs.Version.Objects.{
  TreeEntry, Blob, Table, find_row, insert_row, file_tree_of_blob, node_of_row,
}
use jiaozifs.Version.Objects.Program.{Prog, ◌>>=◌, insert_file_tree}
use jiaozifs.Version.Objects.Post.{Post, Post->>=, Post-if}
use jiaozifs.Version.Worktree.{
  WorkNode, FullObject, new_work_node, find_segs, find_node_by_path, clean_path,
}
use jiaozifs.Version.Worktree.Write.{
  build_dirs, build_missing, append_up, replace_up, upwards, add_missing, replace_found, add_leaf,
  replace_leaf, replace_leaf_up,
}
use jiaozifs.Version.Worktree.Leads.{Leads}
use jiaozifs.Version.Worktree.Find.{AtBlob, AtBlob-IsKept, LeadsFrom}
use jiaozifs.Version.Worktree.Found.{split_n-ne_nil, object_names, Post-find_segs, upwards-names}
use jiaozifs.Version.Worktree.Build.{Post-load}
use jiaozifs.Version.Worktree.Climb.{
  LeadsAs, entry_names, Post-build_dirs, Post-append_up, Post-replace_up,
}

reverse-ne_nil : (names : List Text) → is_empty names ≡ false → reverse names ≢ []
reverse-ne_nil names b e =
    false≢true (sym b ∙ ap is_empty (sym (reverse-reverse names) ∙ ap reverse e))

upwards-ne_nil : (root : WorkNode) (exist : List FullObject) → upwards root exist ≢ []
upwards-ne_nil root exist e =
    cc (sym (ap (λ es. reverse (entry_names es)) e) ∙ upwards-names root exist)

module _ (md5 : Text → Text) (md5-ne : (s : Text) → md5 s ≢ []) (repo_id : Uuid) where
  abbrev LeadsTo : Blob → List Text → TreeEntry → Table → Type 0
  LeadsTo blob = LeadsAs md5 md5-ne repo_id (AtBlob repo_id blob) (AtBlob-IsKept repo_id blob)

  LeadsTo-leaf :
      (blob : Blob) (name : Text) (t : Table)
      → find_row repo_id blob.hash t ≡ some (file_tree_of_blob blob)
      → LeadsTo blob (name ∷ []) (record { name = name; is_dir = false; hash = blob.hash }) t
  unfolding Leads AtBlob
  LeadsTo-leaf blob name t f = ([], (refl, refl, f), refl)

  Post-insert_blob :
      (blob : Blob) (t : Table)
      → Post repo_id
          (insert_file_tree (file_tree_of_blob blob))
          t
          (λ z u. find_row repo_id blob.hash u ≡ some (file_tree_of_blob blob))
  unfolding Post insert_file_tree file_tree_of_blob
  Post-insert_blob blob t r b = b

  Post-build_missing :
      (blob : Blob) (names : List Text) (t : Table)
      → names ≢ []
      → Post repo_id (build_missing md5 repo_id blob names) t (LeadsTo blob (reverse names))
  unfolding Post build_missing
  Post-build_missing blob [] t ne = absurd (ne refl)
  Post-build_missing blob (name ∷ names) t ne =
      let leaf : TreeEntry = record { name = name; is_dir = false; hash = blob.hash } in
      Post-if repo_id _ (is_empty name) _ _ t (λ b. tt)
        λ b.
          Post->>= repo_id _ (LeadsTo blob (reverse (name ∷ names)))
            (insert_file_tree (file_tree_of_blob blob)) (λ z. build_dirs md5 repo_id leaf names) t
            (Post-insert_blob blob t)
            λ z u x f.
              subst (λ l. Post repo_id (build_dirs md5 repo_id leaf names) u (LeadsTo blob l))
                (sym (reverse-cons name names))
                (Post-build_dirs md5 md5-ne repo_id _ (AtBlob-IsKept repo_id blob) leaf names
                  (name ∷ []) u (LeadsTo-leaf blob name u f))

  Post-replace_leaf_up :
      (blob : Blob) (es : List TreeEntry) (t : Table)
      → es ≢ []
      → find_row repo_id blob.hash t ≡ some (file_tree_of_blob blob)
      → Post repo_id
          (replace_leaf_up md5 repo_id blob es)
          t
          (LeadsTo blob (reverse (entry_names es)))
  unfolding replace_leaf_up
  Post-replace_leaf_up blob [] t ne f = absurd (ne refl)
  Post-replace_leaf_up blob (e ∷ es) t ne f =
      let leaf : TreeEntry = record { name = e.name; is_dir = false; hash = blob.hash } in
      subst (λ l. Post repo_id (replace_up md5 repo_id leaf es) t (LeadsTo blob l))
        (sym (reverse-cons e.name (entry_names es)))
        (Post-replace_up md5 md5-ne repo_id _ (AtBlob-IsKept repo_id blob) leaf es (e.name ∷ []) t
          (LeadsTo-leaf blob e.name t f))

  -- Loading the root from an entry that leads to the blob.
  Post-new_root :
      (blob : Blob) (e : TreeEntry) (names : List Text) (t : Table)
      → LeadsTo blob ([] ∷ names) e t
      → names ≢ []
      → Post repo_id
          (new_work_node e)
          t
          (λ new u. LeadsFrom repo_id (AtBlob repo_id blob) u new names)
  unfolding Leads AtBlob LeadsFrom node_of_row
  Post-new_root blob e [] t w ne = absurd (ne refl)
  Post-new_root blob e (name ∷ names) t (ns, l, q) ne =
      elim (subst (Leads repo_id (AtBlob repo_id blob) t e) (ap (drop 1) q) l) [
        | inl (z, d, f) ↦ absurd (cc z)
        | inr (s, w) ↦ Post-load repo_id _ e s.row t s.has_hash s.found (s.next, s.named, w)
      ]

  -- The root of the work tree leads to the blob along the path.
  abbrev pub Reaches : Text → Blob → WorkNode → Table → Type 0
  Reaches path blob new u =
      LeadsFrom repo_id (AtBlob repo_id blob) u new (split b'/' (clean_path path))

  Post-climb :
      (path : Text) (blob : Blob) (m : Prog TreeEntry) (t : Table)
      → Post repo_id m t (LeadsTo blob ([] ∷ split b'/' (clean_path path)))
      → Post repo_id (m >>= new_work_node) t (Reaches path blob)
  unfolding split
  Post-climb path blob m t p = Post->>= repo_id _ (Reaches path blob) m new_work_node t p λ e u x w.
      Post-new_root blob e (split b'/' (clean_path path)) u w
        (split_n-ne_nil b'/' (length (clean_path path)) (clean_path path))

  Post-add_missing :
      (path : Text) (root : WorkNode) (blob : Blob) (exist : List FullObject) (missing : List Text)
      (t : Table)
      → is_empty missing ≡ false
      → object_names exist ++ missing ≡ split b'/' (clean_path path)
      → Post repo_id (add_missing md5 repo_id root blob exist missing) t (Reaches path blob)
  unfolding Post add_missing insert_file_tree file_tree_of_blob
  Post-add_missing path root blob exist missing t b q = λ r f.
      let es = upwards root exist in
      let names-eq = ap (λ l. l ++ missing) (upwards-names root exist) ∙ ap (λ l. [] ∷ l) q in
      Post->>= repo_id _ (Reaches path blob) (build_missing md5 repo_id blob (reverse missing))
        (λ last. append_up md5 repo_id last es >>= new_work_node)
        (insert_row (file_tree_of_blob blob) t)
        (Post-build_missing blob (reverse missing) _ (reverse-ne_nil missing b))
        λ last u x w. Post-climb path blob (append_up md5 repo_id last es) u (
          subst (λ l. Post repo_id (append_up md5 repo_id last es) u (LeadsTo blob l)) names-eq
            (Post-append_up md5 md5-ne repo_id _ (AtBlob-IsKept repo_id blob) last es missing u
              (subst (λ l. LeadsTo blob l last u) (reverse-reverse missing) w)))

  pub Post-add_leaf :
      (root : WorkNode) (path : Text) (blob : Blob) (t : Table)
      → Post repo_id (add_leaf md5 repo_id root path blob) t (Reaches path blob)
  unfolding Post add_leaf find_node_by_path
  Post-add_leaf root path blob t =
      let names = split b'/' (clean_path path) in
      Post->>= repo_id _ (Reaches path blob) (find_segs root names) _ t
        (Post-find_segs repo_id root names t)
        λ (exist, missing) u x q.
          Post-if repo_id _ (is_empty missing) _ _ u (λ b. tt)
            (λ b. Post-add_missing path root blob exist missing u b q)

  Post-replace_found :
      (path : Text) (root : WorkNode) (blob : Blob) (exist : List FullObject) (t : Table)
      → object_names exist ≡ split b'/' (clean_path path)
      → Post repo_id (replace_found md5 repo_id root blob exist) t (Reaches path blob)
  unfolding Post replace_found insert_file_tree file_tree_of_blob
  Post-replace_found path root blob exist t q = λ r f.
      let es = upwards root exist in
      let names-eq = upwards-names root exist ∙ ap (λ l. [] ∷ l) q in
      let v = insert_row (file_tree_of_blob blob) t in
      Post-climb path blob (replace_leaf_up md5 repo_id blob es) v (
        subst (λ l. Post repo_id (replace_leaf_up md5 repo_id blob es) v (LeadsTo blob l)) names-eq
          (Post-replace_leaf_up blob es v (upwards-ne_nil root exist) f))

  pub Post-replace_leaf :
      (root : WorkNode) (path : Text) (blob : Blob) (t : Table)
      → Post repo_id (replace_leaf md5 repo_id root path blob) t (Reaches path blob)
  unfolding Post replace_leaf find_node_by_path
  Post-replace_leaf root path blob t =
      let names = split b'/' (clean_path path) in
      Post->>= repo_id _ (Reaches path blob) (find_segs root names) _ t
        (Post-find_segs repo_id root names t)
        λ (exist, missing) u x q.
          Post-if repo_id _ (is_empty missing) _ _ u
            (λ b. Post-replace_found path root blob exist u (
              sym (append-nil (object_names exist))
              ∙ ap (λ l. object_names exist ++ l) (sym (is_empty-true missing b))
              ∙ q))
            (λ b. tt)
