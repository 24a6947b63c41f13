-- ===== src/Version/History/Fetch.antt =====
-- versionmgr/commit_node.go: what `GetCommits` finds for the hashes of parents that are not skipped,
-- and what skipped commits in front of the others mean for a step of a walk.
use jiaozifs.Prelude.{
  ◌≡◌, ◌⊎◌, inl, inr, refl, ap, sym, ◌∙◌, arith, Bool, true, Bool-cases, List, [], ◌∷◌, Option,
  none, some,
}
use jiaozifs.Prelude.{
  Option-cases, Result, ok, err, ◌>>=◌, Text, if◌then◌else◌, now, later, Any-cons,
}
use mathlib.Core.Option.{some-injective}
use jiaozifs.Version.History.{
  Commit, CommitRepo, WalkError, find_commit, get_commit, get_commits, In,
}
use jiaozifs.Version.History.Walker.{skipped, Outcome, ended, moved, failed}

-- The hashes that the test does not drop.
unfoldable pub keep_hashes : (Text → Bool) → List Text → List Text
keep_hashes drops [] = []
keep_hashes drops (h ∷ hs) = let rest = keep_hashes drops hs in if drops h then rest else h ∷ rest

module _ (repo : CommitRepo) (drops : Text → Bool) where
  pub data Fetched (hs : List Text) : Result WalkError (List Commit) → Type 0 where
    missing : {e : WalkError} (h : Text) → In h hs → find_commit repo h ≡ none → Fetched hs (err e)
    fetched :
        {cs : List Commit}
        → ((p : Commit) (h : Text)
            → In h hs
            → find_commit repo h ≡ some p
            → (drops h ≡ true) ⊎ In p cs)
        → ((p : Commit) → In p cs → (h : Text) × In h hs × (find_commit repo h ≡ some p))
        → Fetched hs (ok cs)

  -- A dropped hash in front changes nothing.
  drop_first :
      (g : Text) (hs : List Text) (r : Result WalkError (List Commit))
      → drops g ≡ true
      → Fetched hs r
      → Fetched (g ∷ hs) r
  drop_first g hs _ e (missing h a n) = missing h (later a) n
  drop_first g hs _ e (fetched all from) =
      fetched
        (λ p h a f. elim ((Any-cons (λ y. y ≡ h) g hs).0 a) [
          | inl q ↦ inl (ap drops (sym q) ∙ e)
          | inr b ↦ all p h b f
        ])
        (λ p a. let (h, b, f) = from p a in (h, later b, f))

  -- A found commit in front.
  add_first :
      (g : Text) (hs : List Text) (c : Commit) (r : Result WalkError (List Commit))
      → find_commit repo g ≡ some c
      → Fetched hs r
      → Fetched (g ∷ hs) (r >>= λ cs. ok (c ∷ cs))
  add_first g hs c _ e (missing h a n) = missing h (later a) n
  add_first g hs c _ e (fetched {cs} all from) =
      fetched
        (λ p h a f. elim ((Any-cons (λ y. y ≡ h) g hs).0 a) [
          | inl q ↦ inr (now {xs = cs} (some-injective _ _ (sym e ∙ (ap (find_commit repo) q ∙ f))))
          | inr b ↦ elim (all p h b f) [ inl d ↦ inl d | inr i ↦ inr (later i) ]
        ])
        (λ p a. elim ((Any-cons (λ y. y ≡ p) c cs).0 a) [
          | inl q ↦ (g, now refl, e ∙ ap some q)
          | inr b ↦ let (h, i, f) = from p b in (h, later i, f)
        ])

  pub get_commits-Fetched : (hs : List Text) → Fetched hs (get_commits repo (keep_hashes drops hs))
  unfolding get_commits keep_hashes get_commit
  get_commits-Fetched [] = fetched (λ p h a f. absurd (elim a [ ])) (λ p a. absurd (elim a [ ]))
  get_commits-Fetched (g ∷ hs) = elim (Bool-cases (drops g)) [
    | inl e ↦ rw e (drop_first g hs _ e (get_commits-Fetched hs))
    | inr e ↦ elim (Option-cases (find_commit repo g)) [
      | inl n ↦ rw (e, n, get_commits, get_commit) (missing g (now refl) n)
      | inr (c, f) ↦
          rw (e, f, get_commits, get_commit) (add_first g hs c _ f (get_commits-Fetched hs))
    ]
  ]

module _ (repo : CommitRepo) (ext : List Text) {S : Type 0} (seen : S → List Text)
    (pending : S → List Commit) where
  -- Two states of which one has more pending, all of it skipped.
  pub Outcome_skip :
      (s t : S) (r : Result WalkError (Option (Commit × S)))
      → seen s ≡ seen t
      → ((p : Commit) → In p (pending s) → (skipped ext (seen t) p.hash ≡ true) ⊎ In p (pending t))
      → ((p : Commit) → In p (pending t) → In p (pending s))
      → Outcome repo ext seen pending t r
      → Outcome repo ext seen pending s r
  unfolding skipped
  Outcome_skip s t _ e less more (ended done) =
      ended (λ p a. rw e (elim (less p a) [ inl q ↦ q | inr b ↦ done p b ]))
  Outcome_skip s t _ e less more (failed c h a b n) = failed c h (more c a) b n
  Outcome_skip s t _ e less more (moved {c} {s'} st) = moved (record {
    popped = more c st.popped;
    fresh = rw e st.fresh;
    marked = st.marked ∙ ap (λ (hs : List Text). c.hash ∷ hs) (sym e);
    kept = λ p a. elim (less p a) [
      | inl q ↦ inl (rw st.marked (ground (arith, q)))
      | inr b ↦ st.kept p b
    ];
    parents = st.parents;
    only = λ p a. elim (st.only p a) [ inl b ↦ inl (more p b) | inr q ↦ inr q ];
  })
