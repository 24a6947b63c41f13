-- ===== src/Version/History/Invariant.antt =====
-- What a walk over the history visits, for every iterator that fills the interface: each commit that
-- can be reached outside the ignored ones, once.
use jiaozifs.Prelude.{ℕ, zero, suc, ◌<◌, ◌≡◌, ◌⊎◌, ◌↔◌, inl, inr, refl, ap, sym, ◌∙◌, subst, arith}
use jiaozifs.Prelude.{true, false, List, [], ◌∷◌, Option, some, Result, ok}
use jiaozifs.Prelude.{Text, text_eq_iff, contains, now, later, Any-cons}
use mathlib.Core.Option.{some-injective}
use jiaozifs.Version.History.{Commit, CommitRepo, WalkError, find_commit, In, for_each}
use jiaozifs.Version.History.Walker.{
  skipped, Parent, Stored, IsComplete, Step, Outcome, ended, moved, failed, Walker,
}
use jiaozifs.Version.History.Visits.{
  visit, From, root, step, Visited, IsDistinct, Parent-Stored, unseen, unseen-cons-lt,
}

module _ (repo : CommitRepo) (ext ignore : List Text) (start : Commit) {S : Type 0}
    (w : Walker repo ext S) where
  -- What holds of the visited commits and the state of the iterator.
  record Inv (vs : List Commit) (s : S) : Type 0 where
    seen_iff :
        (h : Text) → (contains (w.seen s) h ≡ true) ↔ ((contains ignore h ≡ true) ⊎ Visited h vs)
    stored : (v : Commit) → In v vs → Stored repo v
    pending_stored : (p : Commit) → In p (w.pending s) → Stored repo p
    sound : (v : Commit) → In v vs → From repo ext ignore start v
    pending_sound :
        (p : Commit)
        → In p (w.pending s)
        → skipped ext ignore p.hash ≡ false
        → From repo ext ignore start p
    root_done : (skipped ext (w.seen s) start.hash ≡ true) ⊎ In start (w.pending s)
    parents_done :
        (v d : Commit)
        → In v vs
        → Parent repo v d
        → (skipped ext (w.seen s) d.hash ≡ true) ⊎ In d (w.pending s)
    distinct : IsDistinct vs

  skipped_mono :
      (g h : Text) (seen : List Text) → skipped ext seen h ≡ true → skipped ext (g ∷ seen) h ≡ true
  unfolding skipped contains
  skipped_mono g h seen e = ground arith

  unblocked :
      (seen : List Text) (h : Text)
      → (contains ignore h ≡ true → contains seen h ≡ true)
      → skipped ext seen h ≡ false
      → skipped ext ignore h ≡ false
  unfolding skipped
  unblocked seen h m e = ground arith

  fresh_seen : (seen : List Text) (h : Text) → skipped ext seen h ≡ false → contains seen h ≡ false
  unfolding skipped
  fresh_seen seen h e = ground arith

  contains_cons :
      (g h : Text) (seen : List Text)
      → (contains (g ∷ seen) h ≡ true) ↔ ((g ≡ h) ⊎ (contains seen h ≡ true))
  unfolding contains
  contains_cons g h seen = ground (arith, text_eq_iff g h)

  -- A step keeps the invariant.
  Inv-Step :
      (vs : List Commit) (s s' : S) (c : Commit)
      → Inv vs s
      → Step repo ext w.seen w.pending s c s'
      → Inv (c ∷ vs) s'
  Inv-Step vs s s' c i st = record {
    seen_iff = λ h. ground (arith, marked h, i.seen_iff h, Any-cons (λ v. v.hash ≡ h) c vs);
    stored = λ v a. elim ((Any-cons (λ x. x ≡ v) c vs).0 a) [
      | inl e ↦ subst (Stored repo) e stored_c
      | inr b ↦ i.stored v b
    ];
    pending_stored = λ p a. elim (st.only p a) [
      | inl b ↦ i.pending_stored p b
      | inr parent ↦ Parent-Stored repo c p parent
    ];
    sound = λ v a. elim ((Any-cons (λ x. x ≡ v) c vs).0 a) [
      | inl e ↦ subst (From repo ext ignore start) e from_c
      | inr b ↦ i.sound v b
    ];
    pending_sound = λ p a free. elim (st.only p a) [
      | inl b ↦ i.pending_sound p b free
      | inr parent ↦ step from_c parent free
    ];
    root_done = carry start i.root_done;
    parents_done = λ v d a parent. elim ((Any-cons (λ x. x ≡ v) c vs).0 a) [
      | inl e ↦ st.parents d (subst (λ (x : Commit). Parent repo x d) (sym e) parent)
      | inr b ↦ carry d (i.parents_done v d b parent)
    ];
    distinct = (λ a. new_c ((i.seen_iff c.hash).1 (inr a)), i.distinct);
  }
    where
      stored_c : Stored repo c
      stored_c = i.pending_stored c st.popped

      free_c : skipped ext ignore c.hash ≡ false
      free_c = unblocked (w.seen s) c.hash (λ e. (i.seen_iff c.hash).1 (inl e)) st.fresh

      from_c : From repo ext ignore start c
      from_c = i.pending_sound c st.popped free_c

      new_c : contains (w.seen s) c.hash ≡ true → ⊥
      new_c e = absurd (ground (arith, e, fresh_seen (w.seen s) c.hash st.fresh))

      marked :
          (h : Text)
          → (contains (w.seen s') h ≡ true) ↔ ((c.hash ≡ h) ⊎ (contains (w.seen s) h ≡ true))
      marked h = rw st.marked (contains_cons c.hash h (w.seen s))

      carry :
          (d : Commit)
          → (skipped ext (w.seen s) d.hash ≡ true) ⊎ In d (w.pending s)
          → (skipped ext (w.seen s') d.hash ≡ true) ⊎ In d (w.pending s')
      carry d (inl e) = inl (rw st.marked (skipped_mono c.hash d.hash (w.seen s) e))
      carry d (inr a) = st.kept d a

  Inv-start : (s : S) → w.seen s ≡ ignore → w.pending s ≡ start ∷ [] → Stored repo start → Inv [] s
  Inv-start s e e' h = record {
    seen_iff = λ g. rw e (λ a. inl a, λ a. elim a [ inl b ↦ b | inr b ↦ absurd (elim b [ ]) ]);
    stored = λ v a. absurd (elim a [ ]);
    pending_stored = λ p a. subst (Stored repo) (only_start p a) h;
    sound = λ v a. absurd (elim a [ ]);
    pending_sound = λ p a free. subst (From repo ext ignore start) (only_start p a) (
        root
          (subst (λ (x : Commit). skipped ext ignore x.hash ≡ false) (sym (only_start p a)) free));
    root_done = inr (subst (In start) (sym e') (now refl));
    parents_done = λ v d a p. absurd (elim a [ ]);
    distinct = tt;
  }
    where
      only_start : (p : Commit) → In p (w.pending s) → start ≡ p
      only_start p a = elim ((Any-cons (λ x. x ≡ p) start []).0 (subst (In p) e' a)) [
        | inl q ↦ q
        | inr b ↦ absurd (elim b [ ])
      ]

  -- Where nothing pending is left, what can be reached has been visited.
  visited_of_From :
      (vs : List Commit) (s : S)
      → Inv vs s
      → ((p : Commit) → In p (w.pending s) → skipped ext (w.seen s) p.hash ≡ true)
      → (d : Commit) → (skipped ext (w.seen s) d.hash ≡ true) ⊎ In d (w.pending s)
      → skipped ext ignore d.hash ≡ false
      → Stored repo d
      → In d vs
  unfolding skipped
  visited_of_From vs s i done d h free st =
      found vs (λ v a. i.stored v a)
        (elim ((i.seen_iff d.hash).0 seen_d) [ inl e ↦ absurd (ignored e) | inr a ↦ a ])
    where
      skipped_d : skipped ext (w.seen s) d.hash ≡ true
      skipped_d = elim h [ inl e ↦ e | inr a ↦ done d a ]

      seen_d : contains (w.seen s) d.hash ≡ true
      seen_d = ground (arith, skipped_d, free)

      ignored : contains ignore d.hash ≡ true → ⊥
      ignored e = absurd (ground (arith, e, free))

      same : (v : Commit) → Stored repo v → v.hash ≡ d.hash → v ≡ d
      same v sv e = some-injective _ _ (sym sv ∙ (ap (find_commit repo) e ∙ st))

      found :
          (us : List Commit)
          → ((v : Commit) → In v us → Stored repo v)
          → Visited d.hash us
          → In d us
      found [] k a = elim a [ ]
      found (v ∷ us) k (now e) = now (same v (k v (now refl)) e)
      found (v ∷ us) k (later a) = later (found us (λ u b. k u (later b)) a)

  complete :
      (vs : List Commit) (s : S)
      → Stored repo start
      → Inv vs s
      → ((p : Commit) → In p (w.pending s) → skipped ext (w.seen s) p.hash ≡ true)
      → (d : Commit) → From repo ext ignore start d
      → In d vs
  complete vs s h i done d (root free) = visited_of_From vs s i done d i.root_done free h
  complete vs s h i done d (step {c} reached parent free) =
      visited_of_From vs s i done d (i.parents_done c d (complete vs s h i done c reached) parent)
        free (Parent-Stored repo c d parent)

  -- The commits visited are those that can be reached, none of them twice.
  abbrev pub Exactly : List Commit → Type 0
  Exactly us = ((c : Commit) → In c us ↔ From repo ext ignore start c) × IsDistinct us

  abbrev Ends : ℕ → List Commit → S → Type 0
  Ends f vs s = (us : List Commit) × (for_each w.next visit f vs s ≡ some (ok us)) × Exactly us

  module _ (whole : IsComplete repo) (known : Stored repo start) where
    by_outcome :
        (f : ℕ) (vs : List Commit) (s : S)
        → ((us : List Commit) (t : S) → Inv us t → unseen (w.seen t) repo < f → Ends f us t)
        → Inv vs s
        → unseen (w.seen s) repo < suc f
        → (r : Result WalkError (Option (Commit × S))) → Outcome repo ext w.seen w.pending s r
        → w.next s ≡ r
        → Ends (suc f) vs s
    unfolding for_each visit
    by_outcome f vs s ih i h _ (ended done) e =
        (vs, rw (e, for_each), (λ c. (i.sound c, complete vs s known i done c), i.distinct))
    by_outcome f vs s ih i h _ (moved {c} {s'} st) e =
        let stored_c = i.pending_stored c st.popped in
        let less =
          unseen-cons-lt c.hash (w.seen s) repo c stored_c
            (fresh_seen (w.seen s) c.hash st.fresh) in
        let less' : unseen (w.seen s') repo < unseen (w.seen s) repo = rw st.marked less in
        let (us, run, exact) = ih (c ∷ vs) s' (Inv-Step vs s s' c i st) (omega arith) in
        (us, rw (e, for_each) run, exact)
    by_outcome f vs s ih i h _ (failed c g a b n) e =
        let (d, found) = whole c g (i.pending_stored c a) b in absurd (cc)

    walk_from :
        (f : ℕ) (vs : List Commit) (s : S) → Inv vs s → unseen (w.seen s) repo < f → Ends f vs s
    walk_from zero vs s i h = absurd (omega arith)
    walk_from (suc f) vs s i h = by_outcome f vs s (walk_from f) i h (w.next s) (w.outcome s) refl

    pub walk_total :
        (f : ℕ) (s : S)
        → w.seen s ≡ ignore
        → w.pending s ≡ start ∷ []
        → unseen ignore repo < f
        → Ends f [] s
    walk_total f s e e' h = walk_from f [] s (Inv-start s e e' known) (rw e h)
