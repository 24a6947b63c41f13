-- ===== src/Version/Objects/Program.antt =====
-- models/tree.go: what a function does with `IFileTreeRepo`, the interface to the table of one
-- repository, as a program, and what every such program leaves of the table.
use jiaozifs.Prelude.{
  ◌≡◌, ◌≢◌, refl, sym, ◌∙◌, arith, false, Bool-cases, inl, inr, [], ◌∷◌, Option, none, some, Result,
  ok, err,
}
use jiaozifs.Prelude.{Text, text_eq, text_eq_iff, if◌then◌else◌}
use jiaozifs.Auth.Model.{Uuid}
use jiaozifs.Version.Objects.{
  Blob, TreeNode, FileTree, Table, has_key, find_row, insert_row, blob_of_row, node_of_row,
}

-- `not_found` is `sql.ErrNoRows`, `repo_id_mismatch` is `ErrRepoIDMisMatch`. The next four are
-- those of versionmgr/worktree.go, and the next three have no name there. `malformed_change` is the error
-- of `Action`, and `index_out_of_range` the panic.
pub data TreeError : Type 0 where
  not_found repo_id_mismatch path_not_found entry_exit blob_must_be_leaf not_directory : TreeError
  node_not_directory node_not_blob name_is_empty malformed_change index_out_of_range : TreeError

-- `raise` is a return with an error, `find` a query by hash, `insert` is `Insert`.
pub data Prog (A : Type 0) : Type 0 where
  done : A → Prog A
  raise : TreeError → Prog A
  find : Text → (Option FileTree → Prog A) → Prog A
  insert : FileTree → Prog A → Prog A

infixl 5 ◌>>=◌ ◌>>◌
abbrev pub ◌>>=◌ : {A B : Type 0} → Prog A → (A → Prog B) → Prog B
done a >>= f = f a
raise e >>= f = raise e
find h k >>= f = find h (λ r. k r >>= f)
insert row m >>= f = insert row (m >>= f)

abbrev pub ◌>>◌ : {A B : Type 0} → Prog A → Prog B → Prog B
m >> k = m >>= λ _. k

unfoldable pub insert_file_tree : FileTree → Prog (Unit {0})
insert_file_tree row = insert row (done tt)

-- `IFileTreeRepo.Blob`
unfoldable pub get_blob : Text → Prog Blob
unfolding blob_of_row
get_blob h = find h λ r. elim r [ none ↦ raise not_found | some row ↦ done (blob_of_row row) ]

-- `IFileTreeRepo.TreeNode`
unfoldable pub get_tree_node : Text → Prog TreeNode
unfolding node_of_row
get_tree_node h = find h λ r. elim r [ none ↦ raise not_found | some row ↦ done (node_of_row row) ]

module _ (repo_id : Uuid) where
  -- What a program does with the table, which stays changed after an error.
  unfoldable pub run : {A : Type 0} → Prog A → Table → Result TreeError A × Table
  unfolding text_eq find_row insert_row
  run (done a) t = (ok a, t)
  run (raise e) t = (err e, t)
  run (find h k) t = run (k (find_row repo_id h t)) t
  run (insert row m) t =
      let rest = run m (insert_row row t) in
      if text_eq row.repository_id repo_id then rest else (err repo_id_mismatch, t)

  -- No row that the program inserts was kept out by another row with its hash.
  unfoldable pub ReadsBack : {A : Type 0} → Prog A → Table → Type 0
  ReadsBack (done a) t = Unit
  ReadsBack (raise e) t = Unit
  ReadsBack (find h k) t = ReadsBack (k (find_row repo_id h t)) t
  ReadsBack (insert row m) t =
      (find_row repo_id row.hash (insert_row row t) ≡ some row) × ReadsBack m (insert_row row t)

  -- Every row that could be found still is, and other repositories see no difference.
  pub record Extends (t t' : Table) : Type 0 where
    pub kept :
        (id : Uuid) (h : Text) (row : FileTree)
        → find_row id h t ≡ some row
        → find_row id h t' ≡ some row
    pub apart : (id : Uuid) (h : Text) → id ≢ repo_id → find_row id h t' ≡ find_row id h t

  pub Extends-refl : (t : Table) → Extends t t
  Extends-refl t = record { kept = λ id h row e. e; apart = λ id h n. refl }

  pub Extends-trans : (t u v : Table) → Extends t u → Extends u v → Extends t v
  Extends-trans t u v a b = record {
    kept = λ id h row e. b.kept id h row (a.kept id h row e);
    apart = λ id h n. b.apart id h n ∙ a.apart id h n;
  }

  insert_row-kept :
      (new : FileTree) (t : Table) (id : Uuid) (h : Text) (row : FileTree)
      → find_row id h t ≡ some row
      → find_row id h (insert_row new t) ≡ some row
  unfolding insert_row find_row
  insert_row-kept new [] id h row e = cc
  insert_row-kept new (x ∷ t) id h row e = ground (arith, insert_row-kept new t id h row)

  has_key_ne :
      (id : Uuid) (h : Text) (row : FileTree) → row.repository_id ≢ id → has_key id h row ≡ false
  unfolding has_key
  has_key_ne id h row n = ground (arith, text_eq_iff row.repository_id id)

  insert_row-apart :
      (new : FileTree) (t : Table) (id : Uuid) (h : Text)
      → new.repository_id ≢ id
      → find_row id h (insert_row new t) ≡ find_row id h t
  unfolding insert_row find_row
  insert_row-apart new [] id h n = rw (has_key_ne id h new n)
  insert_row-apart new (x ∷ t) id h n = ground (arith, insert_row-apart new t id h n)

  pub insert_row-Extends :
      (row : FileTree) (t : Table) → row.repository_id ≡ repo_id → Extends t (insert_row row t)
  insert_row-Extends row t r = record {
    kept = insert_row-kept row t;
    apart = λ id h n. insert_row-apart row t id h (λ q. n (sym q ∙ r));
  }

  -- Whatever a program does and however it ends, it extends the table.
  pub run-Extends : {A : Type 0} (m : Prog A) (t : Table) → Extends t (run m t).1
  unfolding run
  run-Extends (done a) t = Extends-refl t
  run-Extends (raise e) t = Extends-refl t
  run-Extends (find h k) t = run-Extends (k (find_row repo_id h t)) t
  run-Extends (insert row m) t = elim (Bool-cases (text_eq row.repository_id repo_id)) [
    | inl e ↦ rw e (
        Extends-trans t (insert_row row t) (run m (insert_row row t)).1
          (insert_row-Extends row t ((text_eq_iff row.repository_id repo_id).0 e))
          (run-Extends m (insert_row row t)))
    | inr e ↦ rw e (Extends-refl t)
  ]
