-- ===== src/Auth/Rbac/Stranger.antt =====
-- auth/rbac/rbac.go: what `InitRbac` lets a stranger do, whatever calls have filled the cache before.
use jiaozifs.Prelude.{
  ℕ, ◌≡◌, ◌≢◌, inl, inr, refl, sym, ap, ◌∙◌, true, false, Bool, Bool-cases, List, [], ◌∷◌, arith,
  All, ok, err, Result, ◌>>=◌, is_empty, contains, text_eq_refl, if◌then◌else◌, text_eq,
}
use jiaozifs.Auth.Model.{
  Uuid, Policy, Group, User, effect_allow, repo_u_r_arn, user_id_capture, repo_id_capture,
}
use jiaozifs.Auth.Statements.{repo_read_actions}
use jiaozifs.Auth.Check.{Node, Permission, node}
use jiaozifs.Auth.Db.{
  Db, RbacError, not_found, Repository, get_repository, get_member, get_group_by_name,
  list_policies,
}
use jiaozifs.Auth.Rbac.{
  RbacAuth, Response, allowed, init_rbac, authorize_member, get_viewer_policy, get_member_policy,
  member_policies, or_none, repo_viewer,
}
use jiaozifs.Auth.Rbac.Super.{empty_db, differ, installed, init_rbac-installed}
use jiaozifs.Auth.Rbac.Viewer.{IsReading, OnlyReads, stranger_reads}

-- The cache of a new `RbacAuth`.
abbrev pub cold_cache : RbacAuth
cold_cache = record { viewer_policies = [] }

-- A call of `AuthorizeMember`, with the tables that it finds.
pub record Call : Type 0 where
  pub db : Db
  pub repo_id : Uuid
  pub operator_id : Uuid
  pub required : Node

kept : RbacAuth → Result RbacError (Response × RbacAuth) → RbacAuth
kept s (ok (r, s')) = s'
kept s (err e) = s

-- The cache after calls one after the other.
unfoldable pub cache_after : List Call → RbacAuth → RbacAuth
unfolding kept authorize_member
cache_after [] s = s
cache_after (c ∷ cs) s =
    cache_after cs (kept s (authorize_member c.db s c.repo_id c.operator_id c.required))

-- A call that ends well leaves a cache of policies that only read.
Leaves : {A : Type 0} → Result RbacError (A × RbacAuth) → Type 0
Leaves (ok (a, s)) = OnlyReads s.viewer_policies
Leaves (err e) = Unit

Leaves->>= :
    {A B : Type 0} (r : Result RbacError (A × RbacAuth))
    (f : A × RbacAuth → Result RbacError (B × RbacAuth))
    → Leaves r
    → ((a : A) (s : RbacAuth) → OnlyReads s.viewer_policies → Leaves (f (a, s)))
    → Leaves (r >>= f)
unfolding Leaves
Leaves->>= (ok (a, s)) f x k = k a s x
Leaves->>= (err e) f x k = tt

Leaves-after :
    {A B : Type 0} (r : Result RbacError A) (f : A → Result RbacError (B × RbacAuth))
    → ((a : A) → Leaves (f a))
    → Leaves (r >>= f)
unfolding Leaves
Leaves-after (ok a) f k = k a
Leaves-after (err e) f k = tt

Leaves-if :
    {A : Type 0} (b : Bool) (x y : Result RbacError (A × RbacAuth))
    → Leaves x
    → Leaves y
    → Leaves (if b then x else y)
unfolding Leaves
Leaves-if true x y h k = h
Leaves-if false x y h k = k

module _ (uuid_generate : ℕ → Uuid) (admin_user : User)
    (distinct : (i j : ℕ) → uuid_generate i ≡ uuid_generate j → i ≡ j) where
  -- The policies and the groups are those that `InitRbac` made in empty tables; the users, the
  -- repositories and their members are any.
  pub record IsSetUp (db : Db) : Type 0 where
    pub admin : Uuid
    pub first : Db
    pub made : init_rbac uuid_generate admin_user empty_db ≡ ok (admin, first)
    pub policies : db.policies ≡ first.policies
    pub groups : db.groups ≡ first.groups

  abbrev viewer_group : Group
  viewer_group = record {
    id = uuid_generate 9;
    name = repo_viewer;
    policies = uuid_generate 8 ∷ [];
  }

  abbrev viewer_policy : Policy
  unfolding repo_u_r_arn
  viewer_policy = record {
    id = uuid_generate 8;
    name = repo_viewer;
    statements =
        record {
          effect = effect_allow;
          actions = repo_read_actions;
          resource = repo_u_r_arn user_id_capture repo_id_capture;
        }
        ∷ [];
  }

  first-installed :
      (db : Db) (u : IsSetUp db) → u.first ≡ (installed uuid_generate admin_user distinct).1
  first-installed db u =
      let tables_of : Result RbacError (Uuid × Db) → Db =
        λ r. elim r [ ok p ↦ p.1 | err e ↦ empty_db ] in
      ap tables_of (sym u.made ∙ init_rbac-installed uuid_generate admin_user distinct)

  viewers_of_installed : (db : Db) → IsSetUp db → get_group_by_name db repo_viewer ≡ ok viewer_group
  unfolding installed get_group_by_name
  viewers_of_installed db u = rw (get_group_by_name, u.groups, first-installed db u) refl

  policies_of_installed :
      (db : Db) → IsSetUp db → list_policies db (uuid_generate 8 ∷ []) ≡ viewer_policy ∷ []
  unfolding installed list_policies contains
  policies_of_installed db u =
      rw (list_policies, u.policies, first-installed db u)
        (ground (
          arith,
          text_eq_refl (uuid_generate 8),
          differ uuid_generate admin_user distinct 8 10 (omega arith),
          differ uuid_generate admin_user distinct 8 6 (omega arith),
          differ uuid_generate admin_user distinct 8 4 (omega arith),
          differ uuid_generate admin_user distinct 8 2 (omega arith),
          differ uuid_generate admin_user distinct 8 0 (omega arith),
        ))

  -- What the viewers' policies are, from the cache or from the tables.
  view :
      (db : Db) (s : RbacAuth)
      → IsSetUp db
      → OnlyReads s.viewer_policies
      → (viewer : List Policy) × (s' : RbacAuth) × (get_viewer_policy db s ≡ ok (viewer, s'))
        × OnlyReads viewer
        × OnlyReads s'.viewer_policies
  unfolding get_viewer_policy viewer_policy
  view db s u x = elim (Bool-cases (is_empty s.viewer_policies)) [
    | inl e ↦ (
      viewer_policy ∷ [],
      record { viewer_policies = viewer_policy ∷ [] },
      rw (get_viewer_policy, e, viewers_of_installed db u, policies_of_installed db u) refl,
      ((refl, tt), tt),
      ((refl, tt), tt),
    )
    | inr e ↦ (s.viewer_policies, s, rw (get_viewer_policy, e) refl, x, x)
  ]

  Leaves-view :
      (db : Db) (s : RbacAuth)
      → IsSetUp db
      → OnlyReads s.viewer_policies
      → Leaves (get_viewer_policy db s)
  unfolding Leaves
  Leaves-view db s u x = let (viewer, s', e, reads, y) = view db s u x in rw e y

  Leaves-member_policies :
      (db : Db) (s : RbacAuth) (repo : Repository) (repo_id operator_id : Uuid)
      → IsSetUp db
      → OnlyReads s.viewer_policies
      → Leaves (member_policies db s repo repo_id operator_id)
  unfolding member_policies Leaves
  Leaves-member_policies db s repo repo_id operator_id u x =
      Leaves->>= (if repo.visible then get_viewer_policy db s else ok ([], s)) _
        (Leaves-if repo.visible (get_viewer_policy db s) (ok ([], s)) (Leaves-view db s u x) x)
        (λ viewer s' y.
          Leaves-after (or_none (get_member_policy db operator_id repo_id)) _ (λ member. y))

  Leaves-authorize_member :
      (db : Db) (s : RbacAuth) (repo_id operator_id : Uuid) (required : Node)
      → IsSetUp db
      → OnlyReads s.viewer_policies
      → Leaves (authorize_member db s repo_id operator_id required)
  unfolding authorize_member Leaves
  Leaves-authorize_member db s repo_id operator_id required u x =
      Leaves-after (get_repository db repo_id) _ (λ repo.
        Leaves-if (text_eq repo.owner_id operator_id) (ok (allowed, s)) _ x (
          Leaves->>= (member_policies db s repo repo_id operator_id) _
            (Leaves-member_policies db s repo repo_id operator_id u x)
            (λ policies s' y. Leaves-if (is_empty policies) _ _ y y)))

  OnlyReads-kept :
      (s : RbacAuth) (r : Result RbacError (Response × RbacAuth))
      → OnlyReads s.viewer_policies
      → Leaves r
      → OnlyReads (kept s r).viewer_policies
  unfolding Leaves kept
  OnlyReads-kept s (ok (r, s')) x y = y
  OnlyReads-kept s (err e) x y = x

  OnlyReads-cache_after :
      (cs : List Call) (s : RbacAuth)
      → All (λ c. IsSetUp c.db) cs
      → OnlyReads s.viewer_policies
      → OnlyReads (cache_after cs s).viewer_policies
  unfolding cache_after
  OnlyReads-cache_after [] s us x = x
  OnlyReads-cache_after (c ∷ cs) s us x =
      let r = authorize_member c.db s c.repo_id c.operator_id c.required in
      OnlyReads-cache_after cs (kept s r) us.1 (
        OnlyReads-kept s r x
          (Leaves-authorize_member c.db s c.repo_id c.operator_id c.required us.0 x))

  -- With identifiers that differ, in tables whose policies and groups are those that `InitRbac` made
  -- in empty tables, and after any calls of `AuthorizeMember` on such tables, someone who is neither
  -- the owner of a repository nor a member is allowed a permission only if the repository is visible
  -- and the action is one of reading or listing.
  pub stranger_reads-init_rbac :
      (calls : List Call) (db : Db) (repo_id operator_id : Uuid) (perm : Permission)
      (repo : Repository) (s : RbacAuth)
      → All (λ c. IsSetUp c.db) calls
      → IsSetUp db
      → get_repository db repo_id ≡ ok repo
      → repo.owner_id ≢ operator_id
      → get_member db operator_id repo_id ≡ err not_found
      → authorize_member db (cache_after calls cold_cache) repo_id operator_id (node perm)
        ≡ ok (allowed, s)
      → (repo.visible ≡ true) × IsReading perm.action
  stranger_reads-init_rbac calls db repo_id operator_id perm repo s us u found stranger no_member
        answer =
      let cache = cache_after calls cold_cache in
      let (viewer, s', e, reads, y) =
        view db cache u (OnlyReads-cache_after calls cold_cache us tt) in
      stranger_reads db cache s' s repo_id operator_id perm repo viewer found stranger no_member e
        reads answer
