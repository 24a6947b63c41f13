-- ===== src/Version/Repo/State.antt =====
-- versionmgr/work_repo.go: what a `WorkRepository` caches, and its functions as actions on the cache
-- and the database.
use jiaozifs.Prelude.{Option, none, some, Result, ok, err, Text}
use jiaozifs.Version.Repo.{RepoError, nil_pointer, Branch, Tag, Wip, CommitRow, RepoDb}

-- `WorkRepoState`; `no_state` is the empty string.
pub data RepoState : Type 0 where
  no_state in_wip in_branch in_commit in_tag : RepoState

-- `headTree`: a hash of its own, or a pointer to `CurrentTree` of the cached wip.
pub data Head : Type 0 where
  own : Text → Head
  of_wip : Head

-- The fields that change; `none` is nil.
pub record Working : Type 0 where
  pub state : RepoState
  pub head_tree : Option Head
  pub wip : Option Wip
  pub branch : Option Branch
  pub tag : Option Tag
  pub commit : Option CommitRow

-- `Reset`
abbrev pub fresh : Working
fresh = record {
  state = no_state;
  head_tree = none;
  wip = none;
  branch = none;
  tag = none;
  commit = none;
}

-- `setCurState`
unfoldable pub set_cur_state :
    RepoState → Option Wip → Option Branch → Option Tag → Option CommitRow → Working → Working
set_cur_state s wip branch tag commit w = record w {
  state = s;
  wip = wip;
  branch = branch;
  tag = tag;
  commit = commit;
}

abbrev pub Act : Type 0 → Type 0
Act A = Working × RepoDb → Result RepoError A × (Working × RepoDb)

abbrev pub give : {A : Type 0} → A → Act A
give a s = (ok a, s)

abbrev pub fail : {A : Type 0} → RepoError → Act A
fail e s = (err e, s)

unfoldable pub and_then :
    {A B : Type 0}
    → (A → Act B)
    → Result RepoError A × (Working × RepoDb)
    → Result RepoError B × (Working × RepoDb)
and_then f (ok a, s) = f a s
and_then f (err e, s) = (err e, s)

infixl 5 ◌>>=◌ ◌>>◌
unfoldable pub ◌>>=◌ : {A B : Type 0} → Act A → (A → Act B) → Act B
unfolding and_then
(m >>= f) s = and_then f (m s)

abbrev pub ◌>>◌ : {A B : Type 0} → Act A → Act B → Act B
m >> k = m >>= λ _. k

-- The cache, and a change of it.
abbrev pub working : Act Working
working (w, db) = (ok w, (w, db))

abbrev pub update : (Working → Working) → Act (Unit {0})
update f (w, db) = (ok tt, (f w, db))

-- A query, and a statement that changes the database if it is accepted.
abbrev pub query : {A : Type 0} → (RepoDb → Result RepoError A) → Act A
query q (w, db) = (q db, (w, db))

unfoldable pub executed :
    {A : Type 0}
    → Working
    → RepoDb
    → Result RepoError (A × RepoDb)
    → Result RepoError A × (Working × RepoDb)
executed w db (ok (a, db')) = (ok a, (w, db'))
executed w db (err e) = (err e, (w, db))

unfoldable pub execute : {A : Type 0} → (RepoDb → Result RepoError (A × RepoDb)) → Act A
unfolding executed
execute q (w, db) = executed w db (q db)

-- The end of a transaction: an error takes the database back, and leaves the cache.
unfoldable pub ended :
    {A : Type 0}
    → RepoDb
    → Result RepoError A × (Working × RepoDb)
    → Result RepoError A × (Working × RepoDb)
ended db (ok a, s) = (ok a, s)
ended db (err e, (w, db')) = (err e, (w, db))

unfoldable pub transaction : {A : Type 0} → Act A → Act A
unfolding ended
transaction m (w, db) = ended db (m (w, db))

-- A pointer that is read.
unfoldable pub deref : {A : Type 0} → Option A → Act A
deref none = fail nil_pointer
deref (some a) = give a
