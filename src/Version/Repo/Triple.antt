-- ===== src/Version/Repo/Triple.antt =====
-- versionmgr/work_repo.go: what an action leaves of the cache, where it ends well and where it fails.
use jiaozifs.Prelude.{
  ◌≡◌, Bool, true, Bool-cases, inl, inr, subst, sym, Option, none, some, Result, ok, err,
  if◌then◌else◌, if-true, if-false,
}
use jiaozifs.Version.Repo.{RepoError, RepoDb}
use jiaozifs.Version.Repo.State.{
  Working, Act, give, fail, ◌>>=◌, and_then, working, update, query, execute, executed, transaction,
  ended, deref,
}

abbrev pub Cached : Type 1
Cached = Working → Type 0

-- `failed` holds of the cache after an error.
module _ (failed : Cached) where
  unfoldable pub Ends : {A : Type 0} → Cached → Result RepoError A × (Working × RepoDb) → Type 0
  Ends after (ok a, (w, db)) = after w
  Ends after (err e, (w, db)) = failed w

  -- From a cache with the first property the action leaves one with the second.
  unfoldable pub Triple : {A : Type 0} → Cached → Act A → Cached → Type 0
  unfolding Ends
  Triple before m after = (w : Working) (db : RepoDb) → before w → Ends after (m (w, db))

  Ends-and_then :
      {A B : Type 0} (between after : Cached) (f : A → Act B)
      (r : Result RepoError A × (Working × RepoDb))
      → Ends between r
      → ((a : A) → Triple between (f a) after)
      → Ends after (and_then f r)
  unfolding Triple Ends and_then
  Ends-and_then between after f (ok a, (w, db)) x k = k a w db x
  Ends-and_then between after f (err e, (w, db)) x k = x

  pub Triple->>= :
      {A B : Type 0} (before between after : Cached) (m : Act A) (f : A → Act B)
      → Triple before m between
      → ((a : A) → Triple between (f a) after)
      → Triple before (m >>= f) after
  unfolding Triple ◌>>=◌
  Triple->>= before between after m f x k =
      λ w db b. Ends-and_then between after f (m (w, db)) (x w db b) k

  pub Triple-give : {A : Type 0} (after : Cached) (a : A) → Triple after (give a) after
  unfolding Triple Ends
  Triple-give after a = λ w db x. x

  pub Triple-fail :
      (A : Type 0) (after : Cached) (e : RepoError) → Triple failed (fail {A = A} e) after
  unfolding Triple Ends
  Triple-fail A after e = λ w db x. x

  pub Triple-update :
      (before after : Cached) (f : Working → Working)
      → ((w : Working) → before w → after (f w))
      → Triple before (update f) after
  unfolding Triple Ends
  Triple-update before after f k = λ w db x. k w x

  -- A query, a statement and a read of a pointer leave the cache alone.
  module _ (same : Cached) (of_same : (w : Working) → same w → failed w) where
    Ends-query :
        {A : Type 0} (w : Working) (db : RepoDb) (r : Result RepoError A)
        → same w
        → Ends same (r, (w, db))
    unfolding Ends
    Ends-query w db (ok a) x = x
    Ends-query w db (err e) x = of_same w x

    pub Triple-query : {A : Type 0} (q : RepoDb → Result RepoError A) → Triple same (query q) same
    unfolding Triple
    Triple-query q = λ w db x. Ends-query w db (q db) x

    Ends-executed :
        {A : Type 0} (w : Working) (db : RepoDb) (r : Result RepoError (A × RepoDb))
        → same w
        → Ends same (executed w db r)
    unfolding Ends executed
    Ends-executed w db (ok (a, db')) x = x
    Ends-executed w db (err e) x = of_same w x

    pub Triple-execute :
        {A : Type 0} (q : RepoDb → Result RepoError (A × RepoDb)) → Triple same (execute q) same
    unfolding Triple execute
    Triple-execute q = λ w db x. Ends-executed w db (q db) x

    pub Triple-deref : {A : Type 0} (o : Option A) → Triple same (deref o) same
    unfolding Triple deref Ends
    Triple-deref none = λ w db x. of_same w x
    Triple-deref (some a) = λ w db x. x

    pub Triple-working : Triple same working same
    unfolding Triple Ends
    Triple-working = λ w db x. x

  Ends-ended :
      {A : Type 0} (after : Cached) (db : RepoDb) (r : Result RepoError A × (Working × RepoDb))
      → Ends after r
      → Ends after (ended db r)
  unfolding Ends ended
  Ends-ended after db (ok a, s) x = x
  Ends-ended after db (err e, (w, db')) x = x

  pub Triple-transaction :
      {A : Type 0} (before after : Cached) (m : Act A)
      → Triple before m after
      → Triple before (transaction m) after
  unfolding Triple transaction
  Triple-transaction before after m x = λ w db b. Ends-ended after db (m (w, db)) (x w db b)

  pub Triple-if :
      {A : Type 0} (before after : Cached) (b : Bool) (m k : Act A)
      → (b ≡ true → Triple before m after)
      → Triple before k after
      → Triple before (if b then m else k) after
  Triple-if before after b m k x y = elim (Bool-cases b) [
    | inl e ↦ subst (λ a. Triple before a after) (sym (if-true b m k e)) (x e)
    | inr e ↦ subst (λ a. Triple before a after) (sym (if-false b m k e)) y
  ]
