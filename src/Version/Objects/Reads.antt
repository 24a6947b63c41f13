-- ===== src/Version/Objects/Reads.antt =====
-- models/tree.go: programs that only read, and stop at a row that is not there.
use jiaozifs.Prelude.{
  ◌≡◌, ◌≢◌, refl, ap, sym, ◌∙◌, subst, Bool, true, false, Option, Option-cases, inl, inr, none,
  some, Result, ok, if◌then◌else◌,
}
use jiaozifs.Auth.Model.{Uuid}
use jiaozifs.Version.Objects.{FileTree, Table, find_row}
use jiaozifs.Version.Objects.Program.{
  TreeError, Prog, done, raise, find, insert, ◌>>=◌, run, Extends,
}

unfoldable pub Reads : {A : Type 0} → Prog A → Type 0
Reads (done a) = Unit
Reads (raise e) = Unit
Reads (find h k) =
    ((e : TreeError) × (k none ≡ raise e)) × ((row : FileTree) → Reads (k (some row)))
Reads (insert row m) = ⊥

pub Reads->>= :
    {A B : Type 0} (m : Prog A) (f : A → Prog B)
    → Reads m
    → ((a : A) → Reads (f a))
    → Reads (m >>= f)
unfolding Reads
Reads->>= (done a) f r k = k a
Reads->>= (raise e) f r k = tt
Reads->>= (find h c) f ((e, q), r) k =
    ((e, ap (λ p. p >>= f) q), λ row. Reads->>= (c (some row)) f (r row) k)
Reads->>= (insert row m) f r k = absurd r

pub Reads-if :
    {A : Type 0} (b : Bool) (p q : Prog A) → Reads p → Reads q → Reads (if b then p else q)
Reads-if true p q x y = x
Reads-if false p q x y = y

module _ (repo_id : Uuid) where
  ok-ne-raise :
      {A : Type 0} (m : Prog A) (e : TreeError) (t u : Table) (a : A)
      → m ≡ raise e
      → run repo_id m t ≢ (ok a, u)
  unfolding run
  ok-ne-raise m e t u a q r =
      cc (ap (λ (x : Result TreeError _ × Table). x.0) (ap (λ p. run repo_id p t) (sym q) ∙ r))

  -- What a reader has found, it finds in every table that extends the table.
  pub Reads-kept :
      {A : Type 0} (m : Prog A) (id : Uuid) (t t' u : Table) (a : A)
      → Reads m
      → Extends id t t'
      → run repo_id m t ≡ (ok a, u)
      → run repo_id m t' ≡ (ok a, t')
  unfolding Reads run
  Reads-kept (done x) id t t' u a r e q = ap (λ p. (p.0, t')) q
  Reads-kept (raise x) id t t' u a r e q = absurd (ok-ne-raise (raise x) x t u a refl q)
  Reads-kept (find h k) id t t' u a ((x, z), r) e q = elim (Option-cases (find_row repo_id h t)) [
    | inl n ↦ absurd (ok-ne-raise (k none) x t u a z (ap (λ o. run repo_id (k o) t) (sym n) ∙ q))
    | inr (row, f) ↦
        ap (λ o. run repo_id (k o) t') (e.kept repo_id h row f)
        ∙ Reads-kept (k (some row)) id t t' u a (r row) e
            (ap (λ o. run repo_id (k o) t) (sym f) ∙ q)
  ]
  Reads-kept (insert row m) id t t' u a r e q = absurd r

  -- A reader of another repository sees no difference.
  pub Reads-apart :
      {A : Type 0} (m : Prog A) (id : Uuid) (t t' : Table)
      → repo_id ≢ id
      → Reads m
      → Extends id t t'
      → (run repo_id m t').0 ≡ (run repo_id m t).0
  unfolding Reads run
  Reads-apart (done x) id t t' n r e = refl
  Reads-apart (raise x) id t t' n r e = refl
  Reads-apart (find h k) id t t' n ((x, z), r) e =
      let same = λ (o : Option FileTree). (run repo_id (k o) t').0 ≡ (run repo_id (k o) t).0 in
      ap (λ o. (run repo_id (k o) t').0) (e.apart repo_id h n)
      ∙ (elim (Option-cases (find_row repo_id h t)) [
        | inl f ↦
            subst same (sym f)
              (ap (λ p. (run repo_id p t').0) z ∙ sym (ap (λ p. (run repo_id p t).0) z))
        | inr (row, f) ↦ subst same (sym f) (Reads-apart (k (some row)) id t t' n (r row) e)
      ])
  Reads-apart (insert row m) id t t' n r e = absurd r
