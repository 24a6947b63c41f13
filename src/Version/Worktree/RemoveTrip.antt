-- ===== src/Version/Worktree/RemoveTrip.antt =====
-- versionmgr/worktree.go: a path that was removed is not found any more.
use jiaozifs.Prelude.{
  ◌≡◌, ◌≢◌, refl, ap, sym, ◌∙◌, subst, append-nil, if-false, inl, inr, List, [], ◌∷◌, ◌++◌, ok, err,
  is_empty, is_empty-true, drop, length, Text,
}
use jiaozifs.Strings.{split}
use jiaozifs.Auth.Model.{Uuid}
use jiaozifs.Version.Objects.{Table, node_of_row}
use jiaozifs.Version.Objects.Program.{raise, ◌>>=◌, run, ReadsBack, path_not_found}
use jiaozifs.Version.Objects.Post.{Post, Post-run, Post->>=, Post-if}
use jiaozifs.Version.Objects.Run.{run->>=, run->>=_err}
use jiaozifs.Version.Worktree.{
  WorkNode, FullObject, find_entry, find_segs, find_node_by_path, clean_path, new_work_node,
}
use jiaozifs.Version.Worktree.Write.{upwards}
use jiaozifs.Version.Worktree.Remove.{Removing, new_root, remove_from, remove_entry}
use jiaozifs.Version.Worktree.Read.{last_object, reach, find_blob}
use jiaozifs.Version.Worktree.Leads.{Leads}
use jiaozifs.Version.Worktree.Build.{Post-load}
use jiaozifs.Version.Worktree.Gone.{Lacks, Absent, Absent-Misses}
use jiaozifs.Version.Worktree.Found.{split_n-ne_nil, object_names, Post-find_segs, upwards-names}
use jiaozifs.Version.Worktree.Removal.{Emptied, Post-remove_all}

module _ (md5 : Text → Text) (md5-ne : (s : Text) → md5 s ≢ []) (repo_id : Uuid) where
  Post-new_root :
      (s : Removing) (names : List Text) (t : Table)
      → Emptied md5 md5-ne repo_id ([] ∷ names) s t
      → names ≢ []
      → Post repo_id (new_root s) t (λ new u. Absent repo_id u new names)
  unfolding Post new_root new_work_node Absent Leads find_entry node_of_row
  Post-new_root s [] t w ne = absurd (ne refl)
  Post-new_root s (name ∷ names) t (inl (z, h, q)) ne = rw (new_root, z) (inl refl)
  Post-new_root s (name ∷ names) t (inr ((n, z), (ns, l, q))) ne =
      rw (new_root, z)
        (elim (subst (Leads repo_id (Lacks repo_id) t s.last) (ap (drop 1) q) l) [
          | inl g ↦
              Post-load repo_id _ s.last g.row t g.has_hash g.found (inl (cc (g.split, g.unnamed)))
          | inr (x, w) ↦
              Post-load repo_id _ s.last x.row t x.has_hash x.found (inr (x.next, x.named, w))
        ])

  -- Nothing is at the path from the root of the work tree.
  abbrev pub Cleared : Text → WorkNode → Table → Type 0
  Cleared path new u = Absent repo_id u new (split b'/' (clean_path path))

  Post-remove_found :
      (path : Text) (root : WorkNode) (exist : List FullObject) (t : Table)
      → object_names exist ≡ split b'/' (clean_path path)
      → Post repo_id (remove_from md5 repo_id (upwards root exist) >>= new_root) t (Cleared path)
  unfolding split
  Post-remove_found path root exist t q =
      let names = split b'/' (clean_path path) in
      let ne = split_n-ne_nil b'/' (length (clean_path path)) (clean_path path) in
      let names-eq = upwards-names root exist ∙ ap (λ l. [] ∷ l) q in
      Post->>= repo_id _ (Cleared path) (remove_from md5 repo_id (upwards root exist)) new_root t
        (Post-remove_all md5 md5-ne repo_id (upwards root exist) names t names-eq ne)
        λ s u x w. Post-new_root s names u w ne

  pub Post-remove_entry :
      (root : WorkNode) (path : Text) (t : Table)
      → Post repo_id (remove_entry md5 repo_id root path) t (Cleared path)
  unfolding Post remove_entry find_node_by_path
  Post-remove_entry root path t =
      let names = split b'/' (clean_path path) in
      Post->>= repo_id _ (Cleared path) (find_segs root names) _ t
        (Post-find_segs repo_id root names t)
        λ (exist, missing) u x q.
          Post-if repo_id _ (is_empty missing) _ _ u
            (λ b. Post-remove_found path root exist u (
              sym (append-nil (object_names exist))
              ∙ ap (λ l. object_names exist ++ l) (sym (is_empty-true missing b))
              ∙ q))
            (λ b. tt)

pub Absent-find_blob :
    (repo_id : Uuid) (path : Text) (new : WorkNode) (u : Table)
    → Absent repo_id u new (split b'/' (clean_path path))
    → run repo_id (find_blob new path) u ≡ (err path_not_found, u)
unfolding find_blob reach find_node_by_path run
Absent-find_blob repo_id path new u w =
    let names = split b'/' (clean_path path) in
    let (exist, missing, r, b) = Absent-Misses repo_id u new names w in
    run->>=_err repo_id (reach new (clean_path path)) _ u path_not_found u (
      run->>= repo_id (find_segs new names) _ u (exist, missing) u r
      ∙ ap (λ p. run repo_id p u)
          (if-false (is_empty missing) (last_object exist) (raise path_not_found) b))

module _ (md5 : Text → Text) (repo_id : Uuid) where
  -- Where a removal ends well and every row it inserts reads back, the new root finds nothing under the path.
  pub remove_entry-find_blob :
      ((s : Text) → md5 s ≢ [])
      → (root : WorkNode) (path : Text) (t : Table) (new : WorkNode) (u : Table)
      → run repo_id (remove_entry md5 repo_id root path) t ≡ (ok new, u)
      → ReadsBack repo_id (remove_entry md5 repo_id root path) t
      → run repo_id (find_blob new path) u ≡ (err path_not_found, u)
  remove_entry-find_blob ne root path t new u e b = Absent-find_blob repo_id path new u (
      Post-run repo_id (Cleared md5 ne repo_id path) (remove_entry md5 repo_id root path) t new u
        (Post-remove_entry md5 ne repo_id root path t) b e)
