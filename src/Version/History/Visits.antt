-- ===== src/Version/History/Visits.antt =====
-- Words for what a walk over the history visits, for every iterator that fills the interface.
use jiaozifs.Prelude.{ℕ, suc, ◌≤◌, ◌<◌, ◌≡◌, inl, inr, ap, sym, ◌∙◌, subst, arith}
use jiaozifs.Prelude.{false, Bool-cases, List, [], ◌∷◌, some, if◌then◌else◌}
use jiaozifs.Prelude.{All, Text, length, text_eq, text_eq_iff, contains, Any, now, later}
use mathlib.Core.Option.{some-injective}
use jiaozifs.Version.History.{Commit, CommitRepo, Signal, go_on, find_commit, In}
use jiaozifs.Version.History.Walker.{skipped, Parent, Stored, IsComplete}

-- The callback that keeps every commit, the latest first.
unfoldable pub visit : List Commit → Commit → Signal (List Commit)
visit vs c = go_on (c ∷ vs)

-- Reached from the start over parents, none of them ignored or seen elsewhere.
pub data From (repo : CommitRepo) (ext ignore : List Text) (start : Commit) : Commit → Type 0 where
  root : skipped ext ignore start.hash ≡ false → From repo ext ignore start start
  step :
      {c d : Commit}
      → From repo ext ignore start c
      → Parent repo c d
      → skipped ext ignore d.hash ≡ false
      → From repo ext ignore start d

abbrev pub Visited : Text → List Commit → Type 0
Visited h = Any (λ v. v.hash ≡ h)

abbrev pub IsDistinct : List Commit → Type 0
IsDistinct [] = Unit
IsDistinct (v ∷ vs) = (¬ Visited v.hash vs) × IsDistinct vs

pub find_commit-hash :
    (repo : CommitRepo) (h : Text) (d : Commit) → find_commit repo h ≡ some d → d.hash ≡ h
unfolding find_commit
find_commit-hash [] h d e = cc
find_commit-hash (c ∷ repo) h d e = elim (Bool-cases (text_eq c.hash h)) [
  | inl q ↦
      ap (λ (x : Commit). x.hash) (sym (some-injective _ _ (rw q at e)))
      ∙ (text_eq_iff c.hash h).0 q
  | inr q ↦ find_commit-hash repo h d (rw q at e)
]

pub Parent-Stored : (repo : CommitRepo) (c d : Commit) → Parent repo c d → Stored repo d
Parent-Stored repo c d (h, i, e) = ap (find_commit repo) (find_commit-hash repo h d e) ∙ e

-- The commits of the store that are not in the set.
pub unseen : List Text → CommitRepo → ℕ
unseen seen [] = 0
unseen seen (c ∷ repo) = let n = unseen seen repo in if contains seen c.hash then n else suc n

pub unseen-le : (seen : List Text) (repo : CommitRepo) → unseen seen repo ≤ length repo
unfolding unseen
unseen-le seen [] = omega arith
unseen-le seen (c ∷ repo) = ground (arith, unseen-le seen repo)

unseen-cons-le :
    (h : Text) (seen : List Text) (repo : CommitRepo) → unseen (h ∷ seen) repo ≤ unseen seen repo
unfolding unseen contains
unseen-cons-le h seen [] = omega arith
unseen-cons-le h seen (c ∷ repo) = ground (arith, unseen-cons-le h seen repo)

pub unseen-cons-lt :
    (h : Text) (seen : List Text) (repo : CommitRepo) (d : Commit)
    → find_commit repo h ≡ some d
    → contains seen h ≡ false
    → unseen (h ∷ seen) repo < unseen seen repo
unfolding unseen contains find_commit
unseen-cons-lt h seen [] d e f = cc
unseen-cons-lt h seen (c ∷ repo) d e f = elim (Bool-cases (text_eq c.hash h)) [
  | inl q ↦
      let same = (text_eq_iff c.hash h).0 q in
      let same' = (text_eq_iff h c.hash).1 (sym same) in
      let unseen_c : contains seen c.hash ≡ false = rw same f in
      rw (unseen_c, same') (omega (arith, unseen-cons-le h seen repo))
  | inr q ↦ let less = unseen-cons-lt h seen repo d (rw q at e) f in ground (arith, less)
]

find_commit-In :
    (repo : CommitRepo) (h : Text) (d : Commit) → find_commit repo h ≡ some d → In d repo
unfolding find_commit
find_commit-In [] h d e = cc
find_commit-In (c ∷ repo) h d e = elim (Bool-cases (text_eq c.hash h)) [
  | inl q ↦ now (some-injective _ _ (rw q at e))
  | inr q ↦ later (find_commit-In repo h d (rw q at e))
]

All-Any {ℓ} :
    {A : Type ℓ} (P : A → Type 0) (x : A) (l : List A) → All P l → Any (λ y. y ≡ x) l → P x
All-Any P x (y ∷ l) h (now e) = subst P e h.0
All-Any P x (y ∷ l) h (later a) = All-Any P x l h.1 a
All-Any P x [] h a = elim a [ ]

-- A store is complete if the parents of its rows are found.
pub IsComplete-of_All :
    (repo : CommitRepo)
    → All (λ c. All (λ h. (d : Commit) × (find_commit repo h ≡ some d)) c.parent_hashes) repo
    → IsComplete repo
IsComplete-of_All repo rows c h known a =
    All-Any _ h c.parent_hashes (All-Any _ c repo rows (find_commit-In repo c.hash c known)) a
