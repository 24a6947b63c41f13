-- ===== src/Version/History.antt =====
-- versionmgr/commit_node.go: commits, the store that finds them, and what the walkers share.
pub mod Walker
pub mod Visits
pub mod Invariant
pub mod Fetch
pub mod Bfs
pub mod Preorder
pub mod Postorder
pub mod Callback
pub mod Ancestor
pub mod MergeBase
pub mod Bases
mod Tests
use jiaozifs.Prelude.{ℕ, zero, suc, Bool, true, false, ◌||◌, List, [], ◌∷◌, Option, none, some, ◌≡◌}
use jiaozifs.Prelude.{Result, ok, err, ◌>>=◌, if◌then◌else◌, Text, text_eq, contains, Any}

-- The fields of `models.Commit` that the walkers read. A time is a number of ticks.
pub record Commit : Type 0 where
  pub hash : Text
  pub tree_hash : Text
  pub parent_hashes : List Text
  pub when : ℕ

-- The commits of one repository, which `ICommitRepo.Commit` finds by their hash.
abbrev pub CommitRepo : Type 0
CommitRepo = List Commit

-- `not_found` is the error of a missing commit; `is_reachable` is `errIsReachable`.
pub data WalkError : Type 0 where
  not_found is_reachable : WalkError

unfoldable pub find_commit : CommitRepo → Text → Option Commit
unfolding text_eq
find_commit [] h = none
find_commit (c ∷ repo) h = if text_eq c.hash h then some c else find_commit repo h

-- `GetCommit`
unfoldable pub get_commit : CommitRepo → Text → Result WalkError Commit
get_commit repo h = elim (find_commit repo h) [ none ↦ err not_found | some c ↦ ok c ]

-- `GetCommits`, and `Parents` on the hashes of the parents.
unfoldable pub get_commits : CommitRepo → List Text → Result WalkError (List Commit)
unfolding get_commit
get_commits repo [] = ok []
get_commits repo (h ∷ hs) =
    let rest = get_commits repo hs in get_commit repo h >>= λ c. rest >>= λ cs. ok (c ∷ cs)

abbrev pub In {ℓ} : {A : Type ℓ} → A → List A → Type ℓ
In x = Any (λ y. y ≡ x)

-- The outcome of a callback: go on, `ErrStop`, or another error.
pub data Signal (A : Type 0) : Type 0 where
  go_on stop : A → Signal A
  fail : WalkError → Signal A

-- `ForEach`, the same loop for every iterator, with fuel for its rounds. `next` is the iterator's
-- `Next`, with `ok none` for `io.EOF`; the callback's variables are threaded through.
module _ {S : Type 0} {A : Type 0} (next : S → Result WalkError (Option (Commit × S)))
    (cb : A → Commit → Signal A) where
  unfoldable pub for_each : ℕ → A → S → Option (Result WalkError A)
  for_each zero a s = none
  for_each (suc f) a s = elim (next s) [
    | err e ↦ some (err e)
    | ok none ↦ some (ok a)
    | ok (some (c, s')) ↦ elim (cb a c) [
      | go_on a' ↦ for_each f a' s'
      | stop a' ↦ some (ok a')
      | fail e ↦ some (err e)
    ]
  ]
