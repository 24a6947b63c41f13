-- ===== src/Version/History/Postorder.antt =====
-- versionmgr/commit_walker.go: the walk over the history with a stack of commits, where a parent goes
-- on the stack without a look at what has been seen.
use jiaozifs.Prelude.{
  ℕ, ◌<◌, ◌≡◌, ◌⊎◌, ◌↔◌, inl, inr, refl, ap, ◌∙◌, subst, arith, true, false, Bool-cases, List, [],
  ◌∷◌,
}
use jiaozifs.Prelude.{
  Option, none, some, Result, ok, ◌>>=◌, Text, contains, if◌then◌else◌, now, later, Any-cons,
  length,
}
use jiaozifs.Version.History.{Commit, CommitRepo, WalkError, get_commits, In, for_each}
use jiaozifs.Version.History.Visits.{visit, From, IsDistinct, unseen-le}
use jiaozifs.Version.History.Invariant.{walk_total}
use jiaozifs.Version.History.Fetch.{
  keep_hashes, Fetched, missing, fetched, get_commits-Fetched, Outcome_skip,
}
use jiaozifs.Version.History.Walker.{
  skipped, skips_itself, Stored, IsComplete, Outcome, ended, moved, failed, Walker,
}

-- The top of the stack, the last element in the code, comes first.
pub record PostIter : Type 0 where
  pub seen : List Text
  pub stack : List Commit

-- `NewCommitPostorderIter`
unfoldable pub new_postorder : Commit → List Text → PostIter
new_postorder c ignore = record { seen = ignore; stack = c ∷ [] }

-- The loop that appends the parents.
unfoldable pub push_parents : List Commit → List Commit → List Commit
push_parents [] stack = stack
push_parents (p ∷ ps) stack = push_parents ps (p ∷ stack)

push_parents-In :
    (p : Commit) (ps stack : List Commit) → In p (push_parents ps stack) ↔ (In p ps ⊎ In p stack)
unfolding push_parents
push_parents-In p [] stack = (λ a. inr a, λ a. elim a [ inl b ↦ absurd (elim b [ ]) | inr b ↦ b ])
push_parents-In p (q ∷ ps) stack = ground (
  arith,
  push_parents-In p ps (q ∷ stack),
  Any-cons (λ y. y ≡ p) q stack,
  Any-cons (λ y. y ≡ p) q ps,
)

keep_hashes_all : (hs : List Text) → keep_hashes (λ h. false) hs ≡ hs
unfolding keep_hashes
keep_hashes_all [] = refl
keep_hashes_all (h ∷ hs) = ap (λ (l : List Text). h ∷ l) (keep_hashes_all hs)

skipped_nothing_else : (seen : List Text) (h : Text) → skipped [] seen h ≡ contains seen h
unfolding skipped contains
skipped_nothing_else seen h = ground arith

module _ (repo : CommitRepo) where
  -- The loop of `Next`, on the stack.
  unfoldable pub next_on_stack :
      List Text → List Commit → Result WalkError (Option (Commit × PostIter))
  unfolding contains push_parents get_commits
  next_on_stack seen [] = ok none
  next_on_stack seen (c ∷ stack) =
      let rest = next_on_stack seen stack in
      let visit = get_commits repo c.parent_hashes >>= λ ps.
      ok (some (c, record { seen = c.hash ∷ seen; stack = push_parents ps stack })) in
      if contains seen c.hash then rest else visit

  unfoldable pub postorder_next : PostIter → Result WalkError (Option (Commit × PostIter))
  unfolding next_on_stack
  postorder_next w = next_on_stack w.seen w.stack

  abbrev OutcomeOf : PostIter → Result WalkError (Option (Commit × PostIter)) → Type 0
  OutcomeOf = Outcome repo [] (λ (w : PostIter). w.seen) (λ w. w.stack)

  step_of_Fetched :
      (seen : List Text) (c : Commit) (stack : List Commit) (r : Result WalkError (List Commit))
      → skipped [] seen c.hash ≡ false
      → Fetched repo (λ h. false) c.parent_hashes r
      → OutcomeOf
          (record { seen = seen; stack = c ∷ stack })
          (r >>= λ ps.
            ok (some (c, record { seen = c.hash ∷ seen; stack = push_parents ps stack })))
  step_of_Fetched seen c stack _ e (missing h a n) = failed c h (now refl) a n
  step_of_Fetched seen c stack _ e (fetched {cs} all from) = moved (record {
    popped = now refl;
    fresh = e;
    marked = refl;
    kept = λ p a. elim ((Any-cons (λ y. y ≡ p) c stack).0 a) [
      | inl q ↦ inl (
          subst (λ (x : Commit). skipped [] (c.hash ∷ seen) x.hash ≡ true) q
            (skips_itself [] c.hash seen))
      | inr b ↦ inr ((push_parents-In p cs stack).1 (inr b))
    ];
    parents = λ p (h, a, f). elim (all p h a f) [
      | inl d ↦ absurd (cc)
      | inr i ↦ inr ((push_parents-In p cs stack).1 (inl i))
    ];
    only = λ p a. elim ((push_parents-In p cs stack).0 a) [
      | inl i ↦ inr (from p i)
      | inr b ↦ inl (later b)
    ];
  })

  postorder_outcome :
      (seen : List Text) (stack : List Commit)
      → OutcomeOf (record { seen = seen; stack = stack }) (next_on_stack seen stack)
  unfolding next_on_stack
  postorder_outcome seen [] = ended (λ p a. absurd (elim a [ ]))
  postorder_outcome seen (c ∷ stack) = elim (Bool-cases (contains seen c.hash)) [
    | inl e ↦ rw e (
        Outcome_skip repo [] (λ (w : PostIter). w.seen) (λ w. w.stack)
          (record { seen = seen; stack = c ∷ stack }) (record { seen = seen; stack = stack })
          (next_on_stack seen stack) refl
          (λ p a. elim ((Any-cons (λ y. y ≡ p) c stack).0 a) [
            | inl q ↦ inl (
                subst (λ (x : Commit). skipped [] seen x.hash ≡ true) q
                  (skipped_nothing_else seen c.hash ∙ e))
            | inr b ↦ inr b
          ])
          (λ p b. later b) (postorder_outcome seen stack))
    | inr e ↦ rw e (
        step_of_Fetched seen c stack (get_commits repo c.parent_hashes)
          (skipped_nothing_else seen c.hash ∙ e)
          (subst (λ hs. Fetched repo (λ h. false) c.parent_hashes (get_commits repo hs))
            (keep_hashes_all c.parent_hashes)
            (get_commits-Fetched repo (λ h. false) c.parent_hashes)))
  ]

  postorder_walker : Walker repo [] PostIter
  unfolding postorder_next
  postorder_walker = record {
    seen = λ w. w.seen;
    pending = λ w. w.stack;
    next = postorder_next;
    outcome = λ w. postorder_outcome w.seen w.stack;
  }

-- In a complete store, with fuel for more commits than the store has, the walk from a stored commit
-- ends without an error, and visits every commit that can be reached outside the ignored ones, no
-- other, and none twice.
pub postorder_walk_total :
    (repo : CommitRepo) (ignore : List Text) (start : Commit) (f : ℕ)
    → IsComplete repo
    → Stored repo start
    → length repo < f
    → (us : List Commit) × (for_each (postorder_next repo) visit f [] (new_postorder start ignore)
        ≡ some (ok us))
      × ((c : Commit) → In c us ↔ From repo [] ignore start c)
      × IsDistinct us
unfolding postorder_walker new_postorder
postorder_walk_total repo ignore start f whole known h =
    let (us, run, exact) =
      walk_total repo [] ignore start (postorder_walker repo) whole known f
        (new_postorder start ignore) refl refl (omega (arith, unseen-le ignore repo)) in
    (us, run, exact.0, exact.1)
