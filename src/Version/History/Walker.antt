-- ===== src/Version/History/Walker.antt =====
-- versionmgr/commit_walker.go and commit_walker_bfs.go: what every iterator over the history does in
-- one `Next`, as an interface that the iterators fill.
use jiaozifs.Prelude.{
  ◌≡◌, ◌⊎◌, Bool, true, false, ◌||◌, List, ◌∷◌, Option, none, some, Result, ok, err, Text, contains,
  text_eq_refl, arith,
}
use jiaozifs.Version.History.{Commit, CommitRepo, WalkError, find_commit, In}

-- `w.seen[h] || w.seenExternal[h]`
unfoldable pub skipped : List Text → List Text → Text → Bool
unfolding contains
skipped ext seen h = contains seen h || contains ext h

pub skips_itself : (ext : List Text) (h : Text) (seen : List Text) → skipped ext (h ∷ seen) h ≡ true
unfolding skipped contains
skips_itself ext h seen = ground (arith, text_eq_refl h)

-- `d` is found under one of the hashes of the parents of `c`.
abbrev pub Parent : CommitRepo → Commit → Commit → Type 0
Parent repo c d = (h : Text) × In h c.parent_hashes × (find_commit repo h ≡ some d)

abbrev pub Stored : CommitRepo → Commit → Type 0
Stored repo c = find_commit repo c.hash ≡ some c

-- Every parent of a stored commit is stored.
abbrev pub IsComplete : CommitRepo → Type 0
IsComplete repo =
    (c : Commit) (h : Text)
    → Stored repo c
    → In h c.parent_hashes
    → (d : Commit) × (find_commit repo h ≡ some d)

module _ (repo : CommitRepo) (ext : List Text) {S : Type 0} (seen : S → List Text)
    (pending : S → List Commit) where
  -- One commit is taken from those pending, and its parents become pending.
  pub record Step (s : S) (c : Commit) (s' : S) : Type 0 where
    pub popped : In c (pending s)
    pub fresh : skipped ext (seen s) c.hash ≡ false
    pub marked : seen s' ≡ c.hash ∷ seen s
    pub kept :
        (p : Commit) → In p (pending s) → (skipped ext (seen s') p.hash ≡ true) ⊎ In p (pending s')
    pub parents :
        (p : Commit) → Parent repo c p → (skipped ext (seen s') p.hash ≡ true) ⊎ In p (pending s')
    pub only : (p : Commit) → In p (pending s') → In p (pending s) ⊎ Parent repo c p

  -- The walk ends when nothing pending is left to visit, and fails only if a parent is missing.
  pub data Outcome (s : S) : Result WalkError (Option (Commit × S)) → Type 0 where
    ended :
        ((p : Commit) → In p (pending s) → skipped ext (seen s) p.hash ≡ true) → Outcome s (ok none)
    moved : {c : Commit} {s' : S} → Step s c s' → Outcome s (ok (some (c, s')))
    failed :
        {e : WalkError} (c : Commit) (h : Text)
        → In c (pending s)
        → In h c.parent_hashes
        → find_commit repo h ≡ none
        → Outcome s (err e)

pub record Walker (repo : CommitRepo) (ext : List Text) (S : Type 0) : Type 0 where
  pub seen : S → List Text
  pub pending : S → List Commit
  pub next : S → Result WalkError (Option (Commit × S))
  pub outcome : (s : S) → Outcome repo ext seen pending s (next s)
