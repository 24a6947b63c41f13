-- ===== src/Version/Repo/Kept.antt =====
-- versionmgr/work_repo.go: what keeps the cache well formed, whatever the operation.
use jiaozifs.Prelude.{if◌then◌else◌, ◌≡◌, refl, Bool, Option, none, some, Result, ok, err, Text}
use jiaozifs.Version.Objects.{Table}
use jiaozifs.Version.Objects.Program.{TreeError}
use jiaozifs.Version.Repo.{RepoError, nil_pointer, RepoDb, Branch, Tag, Wip, CommitRow}
use jiaozifs.Version.Repo.State.{
  and_then, RepoState, no_state, in_wip, in_branch, in_commit, in_tag, Head, own, of_wip, Working,
  Act, give, ◌>>=◌, working, update, query, execute, transaction, deref,
}
use jiaozifs.Version.Repo.Write.{
  of_run, set_base, set_commit, set_tree, rebased, retreed, head_hash,
}
use jiaozifs.Version.Repo.Triple.{
  Cached, Ends, Triple, Triple->>=, Triple-give, Triple-fail, Triple-update, Triple-query,
  Triple-if, Triple-execute, Triple-deref, Triple-working, Triple-transaction,
}
use jiaozifs.Version.Repo.Invariant.{IsCached, HasShape, HasHead, IsWellFormed, Keeps}

-- Two actions that keep it, one behind the other.
pub Keeps->>= :
    {A B : Type 0} (m : Act A) (f : A → Act B) → Keeps m → ((a : A) → Keeps (f a)) → Keeps (m >>= f)
Keeps->>= m f x k = Triple->>= IsWellFormed IsWellFormed IsWellFormed IsWellFormed m f x k

pub Keeps-give : {A : Type 0} (a : A) → Keeps (give a)
Keeps-give a = Triple-give IsWellFormed IsWellFormed a

pub Keeps-update :
    (f : Working → Working)
    → ((w : Working) → IsWellFormed w → IsWellFormed (f w))
    → Keeps (update f)
Keeps-update f k = Triple-update IsWellFormed IsWellFormed IsWellFormed f k

pub Keeps-if :
    {A : Type 0} (b : Bool) (m k : Act A) → Keeps m → Keeps k → Keeps (if b then m else k)
Keeps-if b m k x y = Triple-if IsWellFormed IsWellFormed IsWellFormed b m k (λ e. x) y

IsCached-set_base : (h : Text) (o : Option Wip) → IsCached o → IsCached (set_base h o)
unfolding set_base
IsCached-set_base h none (p, e) = absurd (cc e)
IsCached-set_base h (some q) x = (_, refl)

IsCached-set_tree : (h : Text) (o : Option Wip) → IsCached o → IsCached (set_tree h o)
unfolding set_tree
IsCached-set_tree h none (p, e) = absurd (cc e)
IsCached-set_tree h (some q) x = (_, refl)

IsCached-set_commit : (h : Text) (o : Option Branch) → IsCached o → IsCached (set_commit h o)
unfolding set_commit
IsCached-set_commit h none (p, e) = absurd (cc e)
IsCached-set_commit h (some q) x = (_, refl)

pub HasShape-map :
    (s : RepoState) (p p' : Option Wip) (b b' : Option Branch) (t : Option Tag)
    (c : Option CommitRow)
    → (IsCached p → IsCached p')
    → (IsCached b → IsCached b')
    → HasShape s p b t c
    → HasShape s p' b' t c
unfolding HasShape
HasShape-map no_state p p' b b' t c f g x = tt
HasShape-map in_wip p p' b b' t c f g (x, y) = (f x, g y)
HasShape-map in_branch p p' b b' t c f g x = g x
HasShape-map in_commit p p' b b' t c f g x = x
HasShape-map in_tag p p' b b' t c f g x = x

HasHead-map :
    (h : Option Head) (p p' : Option Wip) → (IsCached p → IsCached p') → HasHead h p → HasHead h p'
unfolding HasHead
HasHead-map none p p' f x = tt
HasHead-map (some (own h)) p p' f x = tt
HasHead-map (some of_wip) p p' f x = f x

pub IsWellFormed-rebased : (h : Text) (w : Working) → IsWellFormed w → IsWellFormed (rebased h w)
unfolding rebased
IsWellFormed-rebased h w (x, y) = (
  HasShape-map w.state w.wip _ w.branch _ w.tag w.commit (IsCached-set_base h w.wip)
      (IsCached-set_commit h w.branch) x,
  HasHead-map w.head_tree w.wip _ (IsCached-set_base h w.wip) y,
)

-- The cache is well formed, and there is a wip.
abbrev pub HasWip : Cached
HasWip w = IsWellFormed w × IsCached w.wip

HasWip-IsWellFormed : (w : Working) → HasWip w → IsWellFormed w
HasWip-IsWellFormed w x = x.0

Ends-own_wip :
    {B : Type 0} (after : Cached) (f : Wip → Act B) (w : Working) (db : RepoDb) (o : Option Wip)
    → w.wip ≡ o
    → IsWellFormed w
    → ((p : Wip) → Triple IsWellFormed HasWip (f p) after)
    → Ends IsWellFormed after ((deref o >>= f) (w, db))
unfolding Ends ◌>>=◌ and_then deref Triple
Ends-own_wip after f w db none e x k = x
Ends-own_wip after f w db (some p) e x k = k p w db (x, (p, e))

-- Behind a read of the wip there is one.
pub Triple-own_wip :
    {B : Type 0} (after : Cached) (f : Wip → Act B)
    → ((p : Wip) → Triple IsWellFormed HasWip (f p) after)
    → Triple IsWellFormed IsWellFormed (working >>= λ w. deref w.wip >>= f) after
unfolding ◌>>=◌ and_then Triple
Triple-own_wip after f k = λ w db x. Ends-own_wip after f w db w.wip refl x k

pub HasWip-retreed : (h : Text) (w : Working) → HasWip w → HasWip (retreed h w)
unfolding retreed HasHead
HasWip-retreed h w ((x, y), p) =
    let p' = IsCached-set_tree h w.wip p in
    (
      (
        HasShape-map w.state w.wip _ w.branch w.branch w.tag w.commit (IsCached-set_tree h w.wip)
            (λ b. b) x,
        p',
      ),
      p',
    )

pub IsWellFormed-committed :
    (h : Text) (w : Working)
    → HasWip w
    → IsWellFormed (record (rebased h w) { head_tree = some of_wip })
unfolding rebased HasHead
IsWellFormed-committed h w ((x, y), p) = (
  HasShape-map w.state w.wip _ w.branch _ w.tag w.commit (IsCached-set_base h w.wip)
      (IsCached-set_commit h w.branch) x,
  IsCached-set_base h w.wip p,
)

pub Keeps-query : {A : Type 0} (q : RepoDb → Result RepoError A) → Keeps (query q)
Keeps-query q = Triple-query IsWellFormed IsWellFormed (λ w x. x) q

pub Keeps-execute : {A : Type 0} (q : RepoDb → Result RepoError (A × RepoDb)) → Keeps (execute q)
Keeps-execute q = Triple-execute IsWellFormed IsWellFormed (λ w x. x) q

pub Keeps-deref : {A : Type 0} (o : Option A) → Keeps (deref o)
Keeps-deref o = Triple-deref IsWellFormed IsWellFormed (λ w x. x) o

pub Keeps-working : Keeps working
Keeps-working = Triple-working IsWellFormed IsWellFormed (λ w x. x)

pub Keeps-transaction : {A : Type 0} (m : Act A) → Keeps m → Keeps (transaction m)
Keeps-transaction m x = Triple-transaction IsWellFormed IsWellFormed IsWellFormed m x

pub Ends-of_run :
    {A : Type 0} (w : Working) (db : RepoDb) (r : Result TreeError A × Table)
    → IsWellFormed w
    → Ends IsWellFormed IsWellFormed (of_run w db r)
unfolding Ends of_run
Ends-of_run w db (ok a, t) x = x
Ends-of_run w db (err e, t) x = x

pub Keeps-head_hash : (h : Option Head) (p : Option Wip) → Keeps (head_hash h p)
unfolding head_hash
Keeps-head_hash none p = Triple-fail IsWellFormed Text IsWellFormed nil_pointer
Keeps-head_hash (some (own h)) p = Keeps-give h
Keeps-head_hash (some of_wip) p =
    Keeps->>= (deref p) _ (Keeps-deref p) (λ q. Keeps-give q.current_tree)
