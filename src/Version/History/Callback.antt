-- ===== src/Version/History/Callback.antt =====
-- versionmgr/merge_base.go: the callbacks of `IsAncestor` and `ancestorsIndex`, and how a walk with
-- them ends, for every iterator.
use jiaozifs.Prelude.{
  ℕ, zero, suc, ◌≡◌, ◌⊎◌, ◌↔◌, inl, inr, refl, sym, subst, arith, Bool, true, false, Bool-cases,
}
use jiaozifs.Prelude.{
  List, ◌∷◌, Option, none, some, Result, ok, err, Text, text_eq, text_eq_iff, contains,
  if◌then◌else◌, now, later, Any-cons,
}
use jiaozifs.Version.History.{Commit, WalkError, is_reachable, Signal, go_on, stop, fail, for_each}
use jiaozifs.Version.History.Visits.{visit, Visited}

-- The callback of `IsAncestor`: it stops at the commit.
unfoldable pub look_for : Text → Bool → Commit → Signal Bool
unfolding text_eq
look_for h found c = if text_eq c.hash h then stop true else go_on found

-- The callback of `ancestorsIndex`: it fails at the excluded commit.
unfoldable pub index_until : Text → List Text → Commit → Signal (List Text)
unfolding text_eq
index_until h index c = if text_eq c.hash h then fail is_reachable else go_on (c.hash ∷ index)

-- How a walk with another callback ends, against the walk that keeps every commit.
module _ {S : Type 0} (next : S → Result WalkError (Option (Commit × S))) (h : Text) where
  pub record Looked (b : Bool) (vs us : List Commit) : Type 0 where
    pub found : b ≡ true → Visited h us
    pub seen : Visited h us → (b ≡ true) ⊎ Visited h vs
    pub kept : Visited h vs → Visited h us

  look_step :
      (b : Bool) (c : Commit) (vs us : List Commit)
      → text_eq c.hash h ≡ false
      → Looked b (c ∷ vs) us
      → Looked b vs us
  look_step b c vs us e l = record {
    found = l.found;
    seen = λ a. ground (arith, l.seen a, Any-cons (λ v. v.hash ≡ h) c vs, text_eq_iff c.hash h);
    kept = λ a. l.kept (later a);
  }

  look_stop :
      (b : Bool) (c : Commit) (vs us : List Commit)
      → text_eq c.hash h ≡ true
      → Looked b (c ∷ vs) us
      → Looked true vs us
  look_stop b c vs us e l = record {
    found = λ _. l.kept (now ((text_eq_iff c.hash h).0 e));
    seen = λ _. inl refl;
    kept = λ a. l.kept (later a);
  }

  abbrev Looks : ℕ → List Commit → List Commit → S → Type 0
  Looks f vs us s =
      for_each next visit f vs s ≡ some (ok us)
      → (b : Bool) × (for_each next (look_for h) f false s ≡ some (ok b)) × Looked b vs us

  look_result :
      (f : ℕ) (vs us : List Commit) (s : S)
      → ((ws : List Commit) (t : S) → Looks f ws us t)
      → (r : Result WalkError (Option (Commit × S))) → next s ≡ r
      → Looks (suc f) vs us s
  unfolding for_each visit look_for
  look_result f vs us s ih (err x) e run = absurd (cc (rw (e, for_each) at run))
  look_result f vs us s ih (ok none) e run =
      let same : vs ≡ us = ground (arith, rw (e, for_each) at run) in
      (
        false,
        rw (e, for_each),
        record {
          found = λ q. cc;
          seen = λ a. inr (subst (Visited h) (sym same) a);
          kept = λ a. subst (Visited h) same a;
        },
      )
  look_result f vs us s ih (ok (some (c, t))) e run =
      let (b, looked, l) = ih (c ∷ vs) t (rw (e, for_each) at run) in
      elim (Bool-cases (text_eq c.hash h)) [
        | inl q ↦ (true, rw (e, for_each, q), look_stop b c vs us q l)
        | inr q ↦ (b, rw (e, for_each, q) looked, look_step b c vs us q l)
      ]

  pub look_walk : (f : ℕ) (vs us : List Commit) (s : S) → Looks f vs us s
  unfolding for_each
  look_walk zero vs us s = λ run. cc
  look_walk (suc f) vs us s = look_result f vs us s (λ ws t. look_walk f ws us t) (next s) refl

  -- The index holds the hashes of the commits visited.
  abbrev Indexes : List Text → List Commit → Type 0
  Indexes index vs = (g : Text) → (contains index g ≡ true) ↔ Visited g vs

  -- Either the walk came to the commit and failed, or it did not and the index is complete.
  abbrev Indexed : ℕ → List Text → List Commit → List Commit → S → Type 0
  Indexed f index vs us s =
      ((for_each next (index_until h) f index s ≡ some (err is_reachable)) × Visited h us)
      ⊎ ((index' : List Text) × (for_each next (index_until h) f index s ≡ some (ok index'))
          × Indexes index' us
          × (Visited h us → Visited h vs))

  Indexes-cons :
      (index : List Text) (vs : List Commit) (c : Commit)
      → Indexes index vs
      → Indexes (c.hash ∷ index) (c ∷ vs)
  unfolding contains
  Indexes-cons index vs c i g =
      ground (arith, i g, Any-cons (λ v. v.hash ≡ g) c vs, text_eq_iff c.hash g)

  abbrev IndexWalks : ℕ → List Commit → List Commit → S → Type 0
  IndexWalks f vs us s =
      (index : List Text)
      → Indexes index vs
      → for_each next visit f vs s ≡ some (ok us)
      → Indexed f index vs us s

  index_result :
      (f : ℕ) (vs us : List Commit) (s : S)
      → ((ws : List Commit) (t : S) → IndexWalks f ws us t)
      → ((ws : List Commit) (t : S) → Looks f ws us t)
      → (r : Result WalkError (Option (Commit × S))) → next s ≡ r
      → IndexWalks (suc f) vs us s
  unfolding for_each visit index_until
  index_result f vs us s ih look (err x) e index i run = absurd (cc (rw (e, for_each) at run))
  index_result f vs us s ih look (ok none) e index i run =
      let same : vs ≡ us = ground (arith, rw (e, for_each) at run) in
      inr
        (index, rw (e, for_each), subst (Indexes index) same i, λ a. subst (Visited h) (sym same) a)
  index_result f vs us s ih look (ok (some (c, t))) e index i run =
      let run' = rw (e, for_each) at run in
      elim (Bool-cases (text_eq c.hash h)) [
        | inl q ↦
            let (b, looked, l) = look (c ∷ vs) t run' in
            inl (rw (e, for_each, q), l.kept (now ((text_eq_iff c.hash h).0 q)))
        | inr q ↦ elim (ih (c ∷ vs) t (c.hash ∷ index) (Indexes-cons index vs c i) run') [
          | inl (failed, a) ↦ inl (rw (e, for_each, q) failed, a)
          | inr (index', done, all, unseen) ↦ inr (
            index',
            rw (e, for_each, q) done,
            all,
            λ a. ground (arith, unseen a, Any-cons (λ v. v.hash ≡ h) c vs, text_eq_iff c.hash h),
          )
        ]
      ]

  pub index_walk : (f : ℕ) (vs us : List Commit) (s : S) → IndexWalks f vs us s
  unfolding for_each
  index_walk zero vs us s = λ index i run. cc
  index_walk (suc f) vs us s =
      index_result f vs us s (λ ws t. index_walk f ws us t) (λ ws t. look_walk f ws us t) (next s)
        refl
