-- ===== src/Version/History/Bfs.antt =====
-- versionmgr/commit_walker_bfs.go: the walk over the history with a queue. `seenExternal` never
-- changes, so it is a parameter. A walk that fails or ends keeps no state.
use jiaozifs.Prelude.{
  ℕ, ◌<◌, ◌≡◌, ◌↔◌, inl, inr, refl, ap, sym, ◌∙◌, subst, arith, true, false, Bool-cases, List, [],
  ◌∷◌, ◌++◌, append_assoc, append-nil,
}
use jiaozifs.Prelude.{
  Option, none, some, Result, ok, err, ◌>>=◌, Text, if◌then◌else◌, now, later, Any-cons,
  Any-append_left, Any-append_right, Any-append_cases, length,
}
use jiaozifs.Prelude.{Option-cases}
use jiaozifs.Version.History.Visits.{visit, From, IsDistinct, find_commit-hash, unseen-le}
use jiaozifs.Version.History.Invariant.{walk_total}
use jiaozifs.Version.History.Fetch.{
  keep_hashes, Fetched, missing, fetched, get_commits-Fetched, Outcome_skip,
}
use jiaozifs.Version.History.{
  Commit, CommitRepo, WalkError, find_commit, get_commit, get_commits, In, for_each,
}
use jiaozifs.Version.History.Walker.{
  skipped, skips_itself, Stored, IsComplete, Outcome, ended, moved, failed, Walker,
}

pub record BfsIter : Type 0 where
  pub seen : List Text
  pub queue : List Commit

-- `NewCommitIterBSF`
unfoldable pub new_bfs : Commit → List Text → BfsIter
new_bfs c ignore = record { seen = ignore; queue = c ∷ [] }

module _ (repo : CommitRepo) (ext : List Text) where
  unfoldable pub append_hash : BfsIter → Text → Result WalkError BfsIter
  unfolding skipped get_commit
  append_hash w h =
      if skipped ext w.seen h
      then ok w
      else get_commit repo h >>= λ c. ok (record w { queue = w.queue ++ c ∷ [] })

  -- The loop over the hashes of the parents.
  unfoldable pub append_hashes : BfsIter → List Text → Result WalkError BfsIter
  unfolding append_hash
  append_hashes w [] = ok w
  append_hashes w (h ∷ hs) = append_hash w h >>= λ w'. append_hashes w' hs

  -- The loop of `Next`, on the queue.
  unfoldable pub next_in_queue :
      List Text → List Commit → Result WalkError (Option (Commit × BfsIter))
  unfolding append_hashes skipped
  next_in_queue seen [] = ok none
  next_in_queue seen (c ∷ queue) =
      let rest = next_in_queue seen queue in
      let visit =
        append_hashes (record { seen = c.hash ∷ seen; queue = queue }) c.parent_hashes >>= λ w.
        ok (some (c, w)) in
      if skipped ext seen c.hash then rest else visit

  unfoldable pub bfs_next : BfsIter → Result WalkError (Option (Commit × BfsIter))
  unfolding next_in_queue
  bfs_next w = next_in_queue w.seen w.queue

  abbrev appended : BfsIter → Result WalkError (List Commit) → Result WalkError BfsIter
  appended w r = r >>= λ cs. ok (record w { queue = w.queue ++ cs })

  appended_first :
      (w : BfsIter) (c : Commit) (r : Result WalkError (List Commit))
      → appended (record w { queue = w.queue ++ c ∷ [] }) r ≡ appended w (r >>= λ cs. ok (c ∷ cs))
  appended_first w c (err e) = refl
  appended_first w c (ok cs) =
      ap (λ (q : List Commit). ok (record w { queue = q })) (append_assoc w.queue (c ∷ []) cs)

  -- Appending one by one is appending what `GetCommits` finds for the hashes that are not skipped.
  append_hashes-appended :
      (w : BfsIter) (hs : List Text)
      → append_hashes w hs ≡ appended w (get_commits repo (keep_hashes (skipped ext w.seen) hs))
  unfolding append_hashes append_hash get_commits get_commit keep_hashes
  append_hashes-appended w [] =
      ap (λ (q : List Commit). ok (record w { queue = q })) (sym (append-nil w.queue))
  append_hashes-appended w (h ∷ hs) = elim (Bool-cases (skipped ext w.seen h)) [
    | inl e ↦ rw (e, append_hash) (append_hashes-appended w hs)
    | inr e ↦ elim (Option-cases (find_commit repo h)) [
      | inl n ↦ rw (e, n, append_hash, get_commits, get_commit)
      | inr (c, f) ↦
          rw (e, f, append_hash, get_commits, get_commit)
            (append_hashes-appended (record w { queue = w.queue ++ c ∷ [] }) hs
              ∙ appended_first w c (get_commits repo (keep_hashes (skipped ext w.seen) hs)))
    ]
  ]

  abbrev OutcomeOf : BfsIter → Result WalkError (Option (Commit × BfsIter)) → Type 0
  OutcomeOf = Outcome repo ext (λ (w : BfsIter). w.seen) (λ w. w.queue)

  -- A commit that is not skipped, with what is found for its parents.
  step_of_Fetched :
      (seen : List Text) (c : Commit) (queue : List Commit) (r : Result WalkError (List Commit))
      → skipped ext seen c.hash ≡ false
      → Fetched repo (skipped ext (c.hash ∷ seen)) c.parent_hashes r
      → OutcomeOf
          (record { seen = seen; queue = c ∷ queue })
          (appended (record { seen = c.hash ∷ seen; queue = queue }) r >>= λ w. ok (some (c, w)))
  step_of_Fetched seen c queue _ e (missing h a n) = failed c h (now refl) a n
  step_of_Fetched seen c queue _ e (fetched {cs} all from) = moved (record {
    popped = now refl;
    fresh = e;
    marked = refl;
    kept = λ p a. elim ((Any-cons (λ y. y ≡ p) c queue).0 a) [
      | inl q ↦ inl (
          subst (λ (x : Commit). skipped ext (c.hash ∷ seen) x.hash ≡ true) q
            (skips_itself ext c.hash seen))
      | inr b ↦ inr (Any-append_left (λ y. y ≡ p) cs b)
    ];
    parents = λ p (h, a, f). elim (all p h a f) [
      | inl d ↦
          inl (
            subst (λ g. skipped ext (c.hash ∷ seen) g ≡ true) (sym (find_commit-hash repo h p f)) d)
      | inr i ↦ inr (Any-append_right (λ y. y ≡ p) queue i)
    ];
    only = λ p a. elim (Any-append_cases (λ y. y ≡ p) queue cs a) [
      | inl b ↦ inl (later b)
      | inr i ↦ inr (from p i)
    ];
  })

  bfs_outcome :
      (seen : List Text) (queue : List Commit)
      → OutcomeOf (record { seen = seen; queue = queue }) (next_in_queue seen queue)
  unfolding next_in_queue
  bfs_outcome seen [] = ended (λ p a. absurd (elim a [ ]))
  bfs_outcome seen (c ∷ queue) = elim (Bool-cases (skipped ext seen c.hash)) [
    | inl e ↦ rw e (
        Outcome_skip repo ext (λ (w : BfsIter). w.seen) (λ w. w.queue)
          (record { seen = seen; queue = c ∷ queue }) (record { seen = seen; queue = queue })
          (next_in_queue seen queue) refl
          (λ p a. elim ((Any-cons (λ y. y ≡ p) c queue).0 a) [
            | inl q ↦ inl (subst (λ (x : Commit). skipped ext seen x.hash ≡ true) q e)
            | inr b ↦ inr b
          ])
          (λ p b. later b) (bfs_outcome seen queue))
    | inr e ↦
        rw
          (
            e,
            append_hashes-appended (record { seen = c.hash ∷ seen; queue = queue }) c.parent_hashes,
          )
          (step_of_Fetched seen c queue _ e
            (get_commits-Fetched repo (skipped ext (c.hash ∷ seen)) c.parent_hashes))
  ]

  bfs_walker : Walker repo ext BfsIter
  unfolding bfs_next
  bfs_walker = record {
    seen = λ w. w.seen;
    pending = λ w. w.queue;
    next = bfs_next;
    outcome = λ w. bfs_outcome w.seen w.queue;
  }

-- In a complete store, with fuel for more commits than the store has, the walk from a stored
-- commit ends without an error, and visits every commit that can be reached outside the ignored
-- ones and those seen elsewhere, no other, and none twice.
pub bfs_walk_total :
    (repo : CommitRepo) (ext ignore : List Text) (start : Commit) (f : ℕ)
    → IsComplete repo
    → Stored repo start
    → length repo < f
    → (us : List Commit) × (for_each (bfs_next repo ext) visit f [] (new_bfs start ignore)
        ≡ some (ok us))
      × ((c : Commit) → In c us ↔ From repo ext ignore start c)
      × IsDistinct us
unfolding bfs_walker new_bfs
bfs_walk_total repo ext ignore start f whole known h =
    let (us, run, exact) =
      walk_total repo ext ignore start (bfs_walker repo ext) whole known f (new_bfs start ignore)
        refl refl (omega (arith, unseen-le ignore repo)) in
    (us, run, exact.0, exact.1)
