-- ===== src/Version/Objects/Post.antt =====
-- models/tree.go: what holds after a program that ends well, read off the program step by step.
use jiaozifs.Prelude.{
  ◌≡◌, sym, subst, Bool, true, false, Bool-cases, inl, inr, some, Result, ok, err, if◌then◌else◌,
  if-true, if-false,
}
use jiaozifs.Prelude.{text_eq, text_eq_iff}
use jiaozifs.Auth.Model.{Uuid}
use jiaozifs.Version.Objects.{Table, find_row, insert_row}
use jiaozifs.Version.Objects.Program.{
  TreeError, Prog, done, raise, find, insert, ◌>>=◌, run, ReadsBack, Extends, Extends-refl,
  Extends-trans, insert_row-Extends,
}

module _ (repo_id : Uuid) where
  -- `Q` holds of the result and of the table, if every row that is inserted reads back.
  unfoldable pub Post : {A : Type 0} → Prog A → Table → (A → Table → Type 0) → Type 0
  Post (done a) t Q = Q a t
  Post (raise e) t Q = Unit
  Post (find h k) t Q = Post (k (find_row repo_id h t)) t Q
  Post (insert row m) t Q =
      row.repository_id ≡ repo_id
      → find_row repo_id row.hash (insert_row row t) ≡ some row
      → Post m (insert_row row t) Q

  -- `Q` of what a run gives, unless it is an error.
  unfoldable Ends : {A : Type 0} → (A → Table → Type 0) → Result TreeError A × Table → Type 0
  Ends Q (ok a, t) = Q a t
  Ends Q (err e, t) = Unit

  Post-Ends :
      {A : Type 0} (Q : A → Table → Type 0) (m : Prog A) (t : Table)
      → Post m t Q
      → ReadsBack repo_id m t
      → Ends Q (run repo_id m t)
  unfolding Post ReadsBack run Ends
  Post-Ends Q (done a) t p b = p
  Post-Ends Q (raise x) t p b = tt
  Post-Ends Q (find h k) t p b = Post-Ends Q (k (find_row repo_id h t)) t p b
  Post-Ends Q (insert row m) t p b = elim (Bool-cases (text_eq row.repository_id repo_id)) [
    | inl q ↦
        rw q (
          Post-Ends Q m (insert_row row t) (p ((text_eq_iff row.repository_id repo_id).0 q) b.0)
            b.1)
    | inr q ↦ rw q tt
  ]

  -- What holds after a program that ends well.
  pub Post-run :
      {A : Type 0} (Q : A → Table → Type 0) (m : Prog A) (t : Table) (a : A) (t' : Table)
      → Post m t Q
      → ReadsBack repo_id m t
      → run repo_id m t ≡ (ok a, t')
      → Q a t'
  unfolding Ends
  Post-run Q m t a t' p b e = subst (Ends Q) e (Post-Ends Q m t p b)

  -- One program behind another, which sees a table that the first extends.
  pub Post->>= :
      {A B : Type 0} (P : A → Table → Type 0) (Q : B → Table → Type 0) (m : Prog A) (f : A → Prog B)
      (t : Table)
      → Post m t P
      → ((a : A) (u : Table) → Extends repo_id t u → P a u → Post (f a) u Q)
      → Post (m >>= f) t Q
  unfolding Post
  Post->>= P Q (done a) f t p k = k a t (Extends-refl repo_id t) p
  Post->>= P Q (raise e) f t p k = tt
  Post->>= P Q (find h c) f t p k = Post->>= P Q (c (find_row repo_id h t)) f t p k
  Post->>= P Q (insert row m) f t p k = λ r b.
      Post->>= P Q m f (insert_row row t) (p r b) (λ a u x q.
        k a u (Extends-trans repo_id t (insert_row row t) u (insert_row-Extends repo_id row t r) x)
          q)

  pub Post_any : {A : Type 0} (m : Prog A) (t : Table) → Post m t (λ a u. Unit)
  unfolding Post
  Post_any (done a) t = tt
  Post_any (raise e) t = tt
  Post_any (find h c) t = Post_any (c (find_row repo_id h t)) t
  Post_any (insert row m) t = λ r b. Post_any m (insert_row row t)

  pub Post-if :
      {A : Type 0} (Q : A → Table → Type 0) (b : Bool) (p q : Prog A) (t : Table)
      → (b ≡ true → Post p t Q)
      → (b ≡ false → Post q t Q)
      → Post (if b then p else q) t Q
  Post-if Q b p q t x y = elim (Bool-cases b) [
    | inl e ↦ subst (λ m. Post m t Q) (sym (if-true b p q e)) (x e)
    | inr e ↦ subst (λ m. Post m t Q) (sym (if-false b p q e)) (y e)
  ]

  pub Post-mono :
      {A : Type 0} (P Q : A → Table → Type 0) (m : Prog A) (t : Table)
      → Post m t P
      → ((a : A) (u : Table) → P a u → Q a u)
      → Post m t Q
  unfolding Post
  Post-mono P Q (done a) t p k = k a t p
  Post-mono P Q (raise e) t p k = tt
  Post-mono P Q (find h c) t p k = Post-mono P Q (c (find_row repo_id h t)) t p k
  Post-mono P Q (insert row m) t p k = λ r b. Post-mono P Q m (insert_row row t) (p r b) k
