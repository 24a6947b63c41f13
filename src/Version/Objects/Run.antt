-- ===== src/Version/Objects/Run.antt =====
-- models/tree.go: running one program behind another.
use jiaozifs.Prelude.{◌≡◌, refl, ap, ◌∙◌, Bool-cases, inl, inr, Result, ok, err, text_eq}
use jiaozifs.Auth.Model.{Uuid}
use jiaozifs.Version.Objects.{Table, find_row, insert_row}
use jiaozifs.Version.Objects.Program.{TreeError, Prog, done, raise, find, insert, ◌>>=◌, run}

module _ (repo_id : Uuid) where
  unfoldable and_then :
      {A B : Type 0} → (A → Prog B) → Result TreeError A × Table → Result TreeError B × Table
  unfolding run
  and_then f (ok a, t) = run repo_id (f a) t
  and_then f (err e, t) = (err e, t)

  run-and_then :
      {A B : Type 0} (m : Prog A) (f : A → Prog B) (t : Table)
      → run repo_id (m >>= f) t ≡ and_then f (run repo_id m t)
  unfolding run and_then
  run-and_then (done x) f t = refl
  run-and_then (raise x) f t = refl
  run-and_then (find h k) f t = run-and_then (k (find_row repo_id h t)) f t
  run-and_then (insert row m) f t = elim (Bool-cases (text_eq row.repository_id repo_id)) [
    | inl q ↦ rw q (run-and_then m f (insert_row row t))
    | inr q ↦ rw q refl
  ]

  pub run->>= :
      {A B : Type 0} (m : Prog A) (f : A → Prog B) (t : Table) (a : A) (u : Table)
      → run repo_id m t ≡ (ok a, u)
      → run repo_id (m >>= f) t ≡ run repo_id (f a) u
  unfolding and_then
  run->>= m f t a u e = run-and_then m f t ∙ ap (and_then f) e

  pub run->>=_err :
      {A B : Type 0} (m : Prog A) (f : A → Prog B) (t : Table) (x : TreeError) (u : Table)
      → run repo_id m t ≡ (err x, u)
      → run repo_id (m >>= f) t ≡ (err x, u)
  unfolding and_then
  run->>=_err m f t x u e = run-and_then m f t ∙ ap (and_then f) e
