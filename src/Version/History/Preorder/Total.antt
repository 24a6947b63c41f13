-- ===== src/Version/History/Preorder/Total.antt =====
-- The walk in pre-order fills the interface of an iterator, and so it visits what can be reached.
use jiaozifs.Prelude.{
  ℕ, ◌<◌, ◌≡◌, ◌⊎◌, ◌↔◌, inl, inr, refl, ap, sym, subst, arith, true, false, Bool-cases, List, [],
  ◌∷◌, ◌++◌,
}
use jiaozifs.Prelude.{
  Option, none, some, Option-cases, Result, ok, ◌>>=◌, Text, contains, is_empty, length,
}
use jiaozifs.Prelude.{now, later, Any-cons, Any-append_left, Any-append_right, Any-append_cases}
use mathlib.Core.Option.{some-injective}
use jiaozifs.Version.History.{Commit, CommitRepo, WalkError, In, for_each}
use jiaozifs.Version.History.Visits.{visit, From, IsDistinct, unseen-le, find_commit-hash}
use jiaozifs.Version.History.Invariant.{walk_total}
use jiaozifs.Version.History.Fetch.{Fetched, missing, fetched, get_commits-Fetched, Outcome_skip}
use jiaozifs.Version.History.Walker.{
  skipped, skips_itself, Stored, IsComplete, Outcome, ended, moved, failed, Walker,
}
use jiaozifs.Version.History.Preorder.{
  PreIter, new_preorder, visit_preorder, scan_top, next_in_stack, next_from_start, preorder_next,
}

flatten : List (List Commit) → List Commit
flatten [] = []
flatten (top ∷ stack) = top ++ flatten stack

with_start : Option Commit → List Commit → List Commit
with_start none cs = cs
with_start (some c) cs = c ∷ cs

pending : PreIter → List Commit
unfolding with_start flatten
pending w = with_start w.start (flatten w.stack)

module _ (repo : CommitRepo) (ext : List Text) where
  abbrev OutcomeOf : PreIter → Result WalkError (Option (Commit × PreIter)) → Type 0
  OutcomeOf = Outcome repo ext (λ (w : PreIter). w.seen) pending

  skipped_of_contains :
      (seen : List Text) (h : Text) → contains seen h ≡ true → skipped ext seen h ≡ true
  unfolding skipped
  skipped_of_contains seen h e = ground (arith, e)

  step_of_Fetched :
      (seen : List Text) (c : Commit) (stack : List (List Commit))
      (r : Result WalkError (List Commit))
      → skipped ext seen c.hash ≡ false
      → Fetched repo (contains (c.hash ∷ seen)) c.parent_hashes r
      → OutcomeOf
          (record { seen = seen; start = some c; stack = stack })
          (r >>= λ ps.
            ok (some (c, record { seen = c.hash ∷ seen; start = none; stack = ps ∷ stack })))
  unfolding pending
  step_of_Fetched seen c stack _ e (missing h a n) = failed c h (now refl) a n
  step_of_Fetched seen c stack _ e (fetched {cs} all from) =
      moved {s' = record { seen = c.hash ∷ seen; start = none; stack = cs ∷ stack }} (record {
        popped = now refl;
        fresh = e;
        marked = refl;
        kept = λ p a. elim ((Any-cons (λ y. y ≡ p) c (flatten stack)).0 a) [
          | inl q ↦ inl (
              subst (λ (x : Commit). skipped ext (c.hash ∷ seen) x.hash ≡ true) q
                (skips_itself ext c.hash seen))
          | inr b ↦ inr (Any-append_right (λ y. y ≡ p) cs b)
        ];
        parents = λ p (h, a, f). elim (all p h a f) [
          | inl d ↦ inl (
              skipped_of_contains (c.hash ∷ seen) p.hash (
                subst (λ g. contains (c.hash ∷ seen) g ≡ true) (sym (find_commit-hash repo h p f))
                  d))
          | inr i ↦ inr (Any-append_left (λ y. y ≡ p) (flatten stack) i)
        ];
        only = λ p a. elim (Any-append_cases (λ y. y ≡ p) cs (flatten stack) a) [
          | inl i ↦ inr (from p i)
          | inr b ↦ inl (later b)
        ];
      })

  -- A commit without parents leaves the stack as it was.
  step_of_root :
      (seen : List Text) (c : Commit) (stack : List (List Commit))
      → skipped ext seen c.hash ≡ false
      → c.parent_hashes ≡ []
      → OutcomeOf
          (record { seen = seen; start = some c; stack = stack })
          (ok (some (c, record { seen = c.hash ∷ seen; start = none; stack = stack })))
  unfolding pending
  step_of_root seen c stack e no_parents = moved (record {
    popped = now refl;
    fresh = e;
    marked = refl;
    kept = λ p a. elim ((Any-cons (λ y. y ≡ p) c (flatten stack)).0 a) [
      | inl q ↦ inl (
          subst (λ (x : Commit). skipped ext (c.hash ∷ seen) x.hash ≡ true) q
            (skips_itself ext c.hash seen))
      | inr b ↦ inr b
    ];
    parents = λ p (h, a, f). absurd (elim (subst (In h) no_parents a) [ ]);
    only = λ p a. inl (later a);
  })

  visit_outcome :
      (seen : List Text) (c : Commit) (stack : List (List Commit))
      → skipped ext seen c.hash ≡ false
      → OutcomeOf
          (record { seen = seen; start = some c; stack = stack })
          (visit_preorder repo ext seen c stack)
  unfolding visit_preorder
  visit_outcome seen c stack e = elim (Bool-cases (is_empty c.parent_hashes)) [
    | inl q ↦ rw q (step_of_root seen c stack e (empty_nil c.parent_hashes q))
    | inr q ↦ rw q (
        step_of_Fetched seen c stack _ e
          (get_commits-Fetched repo (contains (c.hash ∷ seen)) c.parent_hashes))
  ]
    where
      empty_nil : (hs : List Text) → is_empty hs ≡ true → hs ≡ []
      empty_nil [] q = refl
      empty_nil (h ∷ hs) q = cc

  -- What stands in front of the first commit that is not skipped is skipped.
  scan_top-none :
      (seen : List Text) (top : List Commit)
      → scan_top repo ext seen top ≡ none
      → (p : Commit) → In p top
      → skipped ext seen p.hash ≡ true
  unfolding scan_top
  scan_top-none seen [] e p a = absurd (elim a [ ])
  scan_top-none seen (c ∷ cs) e p a = elim (Bool-cases (skipped ext seen c.hash)) [
    | inl q ↦ elim ((Any-cons (λ y. y ≡ p) c cs).0 a) [
      | inl same ↦ subst (λ (x : Commit). skipped ext seen x.hash ≡ true) same q
      | inr b ↦ scan_top-none seen cs (rw q at e) p b
    ]
    | inr q ↦ absurd (cc (rw q at e))
  ]

  -- The first commit that is not skipped, and the rest behind it.
  record Found (seen : List Text) (top : List Commit) (c : Commit) (cs : List Commit) : Type 0 where
    fresh : skipped ext seen c.hash ≡ false
    less : (p : Commit) → In p top → (skipped ext seen p.hash ≡ true) ⊎ In p (c ∷ cs)
    more : (p : Commit) → In p (c ∷ cs) → In p top

  scan_top-some :
      (seen : List Text) (top : List Commit) (c : Commit) (cs : List Commit)
      → scan_top repo ext seen top ≡ some (c, cs)
      → Found seen top c cs
  unfolding scan_top
  scan_top-some seen [] c cs e = absurd (cc e)
  scan_top-some seen (d ∷ ds) c cs e = elim (Bool-cases (skipped ext seen d.hash)) [
    | inl q ↦
        let found = scan_top-some seen ds c cs (rw q at e) in
        record {
          fresh = found.fresh;
          less = λ p a. elim ((Any-cons (λ y. y ≡ p) d ds).0 a) [
            | inl same ↦ inl (subst (λ (x : Commit). skipped ext seen x.hash ≡ true) same q)
            | inr b ↦ found.less p b
          ];
          more = λ p a. later (found.more p a);
        }
    | inr q ↦
        let same = some-injective _ _ (rw q at e) in
        let head : d ≡ c = ap (λ (x : Commit × List Commit). x.0) same in
        let tail : ds ≡ cs = ap (λ (x : Commit × List Commit). x.1) same in
        record {
          fresh = subst (λ (x : Commit). skipped ext seen x.hash ≡ false) head q;
          less = λ p a. inr (subst (In p) (ap (λ (x : Commit × List Commit). x.0 ∷ x.1) same) a);
          more = λ p a. subst (In p) (sym (ap (λ (x : Commit × List Commit). x.0 ∷ x.1) same)) a;
        }
  ]

  stack_outcome :
      (seen : List Text) (stack : List (List Commit))
      → OutcomeOf
          (record { seen = seen; start = none; stack = stack })
          (next_in_stack repo ext seen stack)
  unfolding next_in_stack pending
  stack_outcome seen [] = ended (λ p a. absurd (elim a [ ]))
  stack_outcome seen (top ∷ stack) = elim (Option-cases (scan_top repo ext seen top)) [
    | inl e ↦
        rw (e, next_in_stack)
          (Outcome_skip repo ext (λ (w : PreIter). w.seen) pending
            (record { seen = seen; start = none; stack = top ∷ stack })
            (record { seen = seen; start = none; stack = stack })
            (next_in_stack repo ext seen stack) refl
            (λ p a. elim (Any-append_cases (λ y. y ≡ p) top (flatten stack) a) [
              | inl b ↦ inl (scan_top-none seen top e p b)
              | inr b ↦ inr b
            ])
            (λ p b. Any-append_right (λ y. y ≡ p) top b) (stack_outcome seen stack))
    | inr ((c, cs), e) ↦
        rw (e, next_in_stack) (found_outcome seen top stack c cs (scan_top-some seen top c cs e))
  ]
    where
      found_outcome :
          (seen : List Text) (top : List Commit) (stack : List (List Commit)) (c : Commit)
          (cs : List Commit)
          → Found seen top c cs
          → OutcomeOf
              (record { seen = seen; start = none; stack = top ∷ stack })
              (visit_preorder repo ext seen c (cs ∷ stack))
      found_outcome seen top stack c cs found =
          Outcome_skip repo ext (λ (w : PreIter). w.seen) pending
            (record { seen = seen; start = none; stack = top ∷ stack })
            (record { seen = seen; start = some c; stack = cs ∷ stack })
            (visit_preorder repo ext seen c (cs ∷ stack)) refl
            (λ p a. elim (Any-append_cases (λ y. y ≡ p) top (flatten stack) a) [
              | inl b ↦ elim (found.less p b) [
                | inl q ↦ inl q
                | inr d ↦ inr (Any-append_left (λ y. y ≡ p) (flatten stack) d)
              ]
              | inr b ↦ inr (Any-append_right (λ y. y ≡ p) (c ∷ cs) b)
            ])
            (λ p a. elim (Any-append_cases (λ y. y ≡ p) (c ∷ cs) (flatten stack) a) [
              | inl b ↦ Any-append_left (λ y. y ≡ p) (flatten stack) (found.more p b)
              | inr b ↦ Any-append_right (λ y. y ≡ p) top b
            ])
            (visit_outcome seen c (cs ∷ stack) found.fresh)

  start_outcome :
      (seen : List Text) (start : Option Commit) (stack : List (List Commit))
      → OutcomeOf
          (record { seen = seen; start = start; stack = stack })
          (next_from_start repo ext seen start stack)
  unfolding next_from_start pending
  start_outcome seen none stack = stack_outcome seen stack
  start_outcome seen (some c) stack = elim (Bool-cases (skipped ext seen c.hash)) [
    | inl e ↦ rw e (
        Outcome_skip repo ext (λ (w : PreIter). w.seen) pending
          (record { seen = seen; start = some c; stack = stack })
          (record { seen = seen; start = none; stack = stack }) (next_in_stack repo ext seen stack)
          refl
          (λ p a. elim ((Any-cons (λ y. y ≡ p) c (flatten stack)).0 a) [
            | inl q ↦ inl (subst (λ (x : Commit). skipped ext seen x.hash ≡ true) q e)
            | inr b ↦ inr b
          ])
          (λ p b. later b) (stack_outcome seen stack))
    | inr e ↦ rw e (visit_outcome seen c stack e)
  ]

  preorder_walker : Walker repo ext PreIter
  unfolding preorder_next
  preorder_walker = record {
    seen = λ w. w.seen;
    pending = pending;
    next = preorder_next repo ext;
    outcome = λ w. start_outcome w.seen w.start w.stack;
  }

-- In a complete store, with fuel for more commits than the store has, the walk from a stored commit
-- ends without an error, and visits every commit that can be reached outside the ignored ones and
-- those seen elsewhere, no other, and none twice.
pub preorder_walk_total :
    (repo : CommitRepo) (ext ignore : List Text) (start : Commit) (f : ℕ)
    → IsComplete repo
    → Stored repo start
    → length repo < f
    → (us : List Commit) × (for_each (preorder_next repo ext) visit f [] (new_preorder start ignore)
        ≡ some (ok us))
      × ((c : Commit) → In c us ↔ From repo ext ignore start c)
      × IsDistinct us
unfolding preorder_walker new_preorder pending
preorder_walk_total repo ext ignore start f whole known h =
    let (us, run, exact) =
      walk_total repo ext ignore start (preorder_walker repo ext) whole known f
        (new_preorder start ignore) refl refl (omega (arith, unseen-le ignore repo)) in
    (us, run, exact.0, exact.1)
