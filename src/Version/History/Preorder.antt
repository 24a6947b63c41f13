-- ===== src/Version/History/Preorder.antt =====
-- versionmgr/commit_walker.go: the walk over the history with a stack of iterators, one for the
-- parents of each commit on the way. `seenExternal` never changes, so it is a parameter.
pub mod Total
use jiaozifs.Prelude.{
  ℕ, ◌<◌, ◌≡◌, ◌⊎◌, ◌↔◌, inl, inr, refl, ap, sym, subst, arith, true, false, Bool-cases, List, [],
  ◌∷◌, ◌++◌,
}
use jiaozifs.Prelude.{
  Option, none, some, Option-cases, Result, ok, ◌>>=◌, Text, contains, if◌then◌else◌, is_empty,
  length,
}
use jiaozifs.Prelude.{now, later, Any-cons, Any-append_left, Any-append_right, Any-append_cases}
use mathlib.Core.Option.{some-injective}
use jiaozifs.Version.History.{Commit, CommitRepo, WalkError, get_commits, In, for_each}
use jiaozifs.Version.History.Visits.{visit, From, IsDistinct, unseen-le, find_commit-hash}
use jiaozifs.Version.History.Invariant.{walk_total}
use jiaozifs.Version.History.Fetch.{
  keep_hashes, Fetched, missing, fetched, get_commits-Fetched, Outcome_skip,
}
use jiaozifs.Version.History.Walker.{
  skipped, skips_itself, Stored, IsComplete, Outcome, ended, moved, failed, Walker,
}

-- The top of the stack comes first; an array iterator is the list of what it has left.
pub record PreIter : Type 0 where
  pub seen : List Text
  pub start : Option Commit
  pub stack : List (List Commit)

-- `NewCommitPreorderIter`
unfoldable pub new_preorder : Commit → List Text → PreIter
new_preorder c ignore = record { seen = ignore; start = some c; stack = [] }

module _ (repo : CommitRepo) (ext : List Text) where
  -- The end of a round of `Next`, with `filteredParentIter`, which looks at `seen` alone.
  unfoldable pub visit_preorder :
      List Text → Commit → List (List Commit) → Result WalkError (Option (Commit × PreIter))
  unfolding get_commits keep_hashes contains
  visit_preorder seen c stack =
      let seen' : List Text = c.hash ∷ seen in
      let parents = get_commits repo (keep_hashes (contains seen') c.parent_hashes) >>= λ ps.
      ok (some (c, record { seen = seen'; start = none; stack = ps ∷ stack })) in
      if is_empty c.parent_hashes
      then ok (some (c, record { seen = seen'; start = none; stack = stack }))
      else parents

  -- The rounds that stay at the top of the stack: the next commit that is not skipped.
  unfoldable pub scan_top : List Text → List Commit → Option (Commit × List Commit)
  unfolding skipped
  scan_top seen [] = none
  scan_top seen (c ∷ cs) =
      let rest = scan_top seen cs in if skipped ext seen c.hash then rest else some (c, cs)

  unfoldable pub next_in_stack :
      List Text → List (List Commit) → Result WalkError (Option (Commit × PreIter))
  unfolding visit_preorder scan_top
  next_in_stack seen [] = ok none
  next_in_stack seen (top ∷ stack) = elim (scan_top seen top) [
    | none ↦ next_in_stack seen stack
    | some (c, cs) ↦ visit_preorder seen c (cs ∷ stack)
  ]

  next_from_start :
      List Text → Option Commit → List (List Commit) → Result WalkError (Option (Commit × PreIter))
  unfolding next_in_stack visit_preorder skipped
  next_from_start seen none stack = next_in_stack seen stack
  next_from_start seen (some c) stack =
      if skipped ext seen c.hash then next_in_stack seen stack else visit_preorder seen c stack

  unfoldable pub preorder_next : PreIter → Result WalkError (Option (Commit × PreIter))
  unfolding next_from_start
  preorder_next w = next_from_start w.seen w.start w.stack
