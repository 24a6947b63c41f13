-- ===== src/Version/Worktree/Changed.antt =====
-- versionmgr/worktree.go: what the new root of `ApplyOneChange` has at the path of the change.
use jiaozifs.Prelude.{◌≡◌, ◌≢◌, [], ◌∷◌, Option-cases, inl, inr, some, ok, err, Text}
use jiaozifs.Auth.Model.{Uuid}
use jiaozifs.Merkletrie.Noder.{Noder, NoderPath, node_hash, path_last, path_string}
use jiaozifs.Merkletrie.Change.{Change, insert, delete, modify, action}
use jiaozifs.Version.Objects.{blob_object, Blob, FileTree, Table, find_row, blob_of_row}
use jiaozifs.Version.Objects.Program.{Prog, ◌>>=◌, run, ReadsBack, path_not_found, get_blob}
use jiaozifs.Version.Objects.Post.{Post, Post-run, Post-mono}
use jiaozifs.Version.Worktree.{WorkNode}
use jiaozifs.Version.Worktree.Write.{add_leaf, replace_leaf}
use jiaozifs.Version.Worktree.Read.{find_blob}
use jiaozifs.Version.Worktree.Remove.{remove_entry}
use jiaozifs.Version.Worktree.Apply.{path_hash, apply_one_change}
use jiaozifs.Version.Worktree.Leaf.{Reaches, Post-add_leaf, Post-replace_leaf}
use jiaozifs.Version.Worktree.RoundTrip.{base_name, Finds-find_blob}
use jiaozifs.Version.Worktree.RemoveTrip.{Post-remove_entry, Absent-find_blob}

module _ (repo_id : Uuid) where
  -- The blob whose hash the last node of the path has is found at the path.
  pub record Holds (to : NoderPath) (t : Table) (new : WorkNode) (u : Table) : Type 0 where
    pub node : Noder
    pub last : path_last to ≡ some node
    pub row : FileTree
    pub before : find_row repo_id (node_hash node) t ≡ some row
    pub reads :
        run repo_id (find_blob new (path_string to)) u
        ≡ (ok (blob_of_row row, base_name (path_string to)), u)

  -- What a change does to the root: the path holds the blob, or nothing.
  unfoldable pub Shows : Change → Table → WorkNode → Table → Type 0
  unfolding action
  Shows c t new u = elim (action c) [
    | err e ↦ ⊥
    | ok insert ↦ Holds c.to t new u
    | ok modify ↦ Holds c.to t new u
    | ok delete ↦ run repo_id (find_blob new (path_string c.from)) u ≡ (err path_not_found, u)
  ]

  -- The nodes that a change brings are files.
  abbrev pub BringsFile : Change → Table → Type 0
  BringsFile c t =
      (n : Noder) (row : FileTree)
      → path_last c.to ≡ some n
      → find_row repo_id (node_hash n) t ≡ some row
      → row.type ≡ blob_object

module _ (md5 : Text → Text) (md5-ne : (s : Text) → md5 s ≢ []) (repo_id : Uuid) where
  Post-get_blob :
      (Q : WorkNode → Table → Type 0) (h : Text) (k : Blob → Prog WorkNode) (t : Table)
      → ((row : FileTree)
          → find_row repo_id h t ≡ some row
          → Post repo_id (k (blob_of_row row)) t Q)
      → Post repo_id (get_blob h >>= k) t Q
  unfolding Post get_blob
  Post-get_blob Q h k t w = elim (Option-cases (find_row repo_id h t)) [
    | inl f ↦ rw (get_blob, Post, f) tt
    | inr (row, f) ↦ rw (get_blob, Post, f) (w row f)
  ]

  -- A write of the blob of the last node.
  Post-write :
      (write : Blob → Prog WorkNode) (to : NoderPath) (t : Table)
      → ((n : Noder) (row : FileTree)
          → path_last to ≡ some n
          → find_row repo_id (node_hash n) t ≡ some row
          → row.type ≡ blob_object)
      → ((blob : Blob)
          → Post repo_id (write blob) t (Reaches md5 md5-ne repo_id (path_string to) blob))
      → Post repo_id (path_hash to >>= λ h. get_blob h >>= write) t (Holds repo_id to t)
  unfolding Post path_hash blob_of_row
  Post-write write to t files w = elim (Option-cases (path_last to)) [
    | inl q ↦ rw (path_hash, q) tt
    | inr (n, q) ↦
        rw (path_hash, q)
          (Post-get_blob (Holds repo_id to t) (node_hash n) write t λ row f.
            Post-mono repo_id (Reaches md5 md5-ne repo_id (path_string to) (blob_of_row row))
              (Holds repo_id to t) (write (blob_of_row row)) t (w (blob_of_row row))
              λ new u r. record {
                node = n;
                last = q;
                row = row;
                before = f;
                reads =
                    Finds-find_blob repo_id (path_string to) (blob_of_row row) new u
                      (files n row q f) r;
              })
  ]

  Post-apply_at :
      (root : WorkNode) (from to : NoderPath) (t : Table)
      → BringsFile repo_id (record { from = from; to = to }) t
      → Post repo_id
          (apply_one_change md5 repo_id root (record { from = from; to = to }))
          t
          (Shows repo_id (record { from = from; to = to }) t)
  unfolding Post apply_one_change action Shows
  Post-apply_at root [] [] t files = tt
  Post-apply_at root [] (n ∷ to) t files =
      Post-write (add_leaf md5 repo_id root (path_string (n ∷ to))) (n ∷ to) t files
        (λ blob. Post-add_leaf md5 md5-ne repo_id root (path_string (n ∷ to)) blob t)
  Post-apply_at root (m ∷ from) [] t files =
      Post-mono repo_id _ _ (remove_entry md5 repo_id root (path_string (m ∷ from))) t
        (Post-remove_entry md5 md5-ne repo_id root (path_string (m ∷ from)) t)
        (Absent-find_blob repo_id (path_string (m ∷ from)))
  Post-apply_at root (m ∷ from) (n ∷ to) t files =
      Post-write (replace_leaf md5 repo_id root (path_string (n ∷ to))) (n ∷ to) t files
        (λ blob. Post-replace_leaf md5 md5-ne repo_id root (path_string (n ∷ to)) blob t)

  Post-apply_one_change :
      (root : WorkNode) (c : Change) (t : Table)
      → BringsFile repo_id c t
      → Post repo_id (apply_one_change md5 repo_id root c) t (Shows repo_id c t)
  Post-apply_one_change root c t files = Post-apply_at root c.from c.to t files

module _ (md5 : Text → Text) (repo_id : Uuid) where
  -- Where applying a change ends well and every row it inserts reads back, the path of an insertion
  -- or a modification has in the new root the blob that the change brings, if it brings a file, and
  -- the path of a deletion has nothing; a malformed change does not end well.
  pub apply_one_change-Shows :
      ((s : Text) → md5 s ≢ [])
      → (root : WorkNode) (c : Change) (t : Table) (new : WorkNode) (u : Table)
      → BringsFile repo_id c t
      → run repo_id (apply_one_change md5 repo_id root c) t ≡ (ok new, u)
      → ReadsBack repo_id (apply_one_change md5 repo_id root c) t
      → Shows repo_id c t new u
  apply_one_change-Shows ne root c t new u files e b =
      Post-run repo_id (Shows repo_id c t) (apply_one_change md5 repo_id root c) t new u
        (Post-apply_one_change md5 ne repo_id root c t files) b e
