-- ===== src/Auth/Rbac/Viewer.antt =====
-- What a stranger may do: nothing in a private repository, and read in a visible one.
use jiaozifs.Prelude.{
  ◌≡◌, ◌≢◌, ◌⊎◌, inl, inr, refl, true, false, List, [], ◌∷◌, ◌++◌, arith, Any, now, later,
}
use jiaozifs.Prelude.{
  Bool-cases, Text, codes, text_eq, text_eq_iff, ok, err, All, subst, append-nil, is_empty,
}
use jiaozifs.Auth.Model.{Uuid, Policy, Statement}
use jiaozifs.Auth.Statements.{repo_read_actions}
use jiaozifs.Auth.Wildcard
use jiaozifs.Auth.Wildcard.Prefix.{match-prefix}
use jiaozifs.Auth.Check.{
  CheckResult, allow, Permission, ResourceParams, node, check_permissions, neutral, deny,
}
use jiaozifs.Auth.Check.Leaf.{Applies, Some, check_policies_iff}
use jiaozifs.Auth.Db.{Db, not_found, Repository, get_repository, get_member}
use jiaozifs.Auth.Rbac.{
  RbacAuth, allowed, authorize_member, respond, get_viewer_policy, member_policies, or_none,
  get_member_policy,
}

-- The action is one of reading or listing.
abbrev pub IsReading : Text → Type 0
IsReading action =
    ((t : Text) × (action ≡ codes "repo:Read" ++ t))
    ⊎ ((t : Text) × (action ≡ codes "repo:List" ++ t))

IsReading-action :
    (action : Text) → Any (λ a. Wildcard.match a action ≡ true) repo_read_actions → IsReading action
IsReading-action action (now e) = inl (match-prefix (codes "repo:Read") action (omega arith) e)
IsReading-action action (later (now e)) =
    inr (match-prefix (codes "repo:List") action (omega arith) e)
IsReading-action action (later (later a)) = elim a [ ]

-- Every statement has the actions of `RepoRead`.
abbrev pub OnlyReads : List Policy → Type 0
OnlyReads = All (λ p. All (λ st. st.actions ≡ repo_read_actions) p.statements)

module _ (perm : Permission) (params : ResourceParams) where
  statement_reads :
      (sts : List Statement)
      → All (λ st. st.actions ≡ repo_read_actions) sts
      → Any (Applies perm params) sts
      → IsReading perm.action
  statement_reads [] h a = elim a [ ]
  statement_reads (st ∷ sts) h (now a) =
      IsReading-action perm.action
        (subst (Any (λ b. Wildcard.match b perm.action ≡ true)) h.0 a.action)
  statement_reads (st ∷ sts) h (later a) = statement_reads sts h.1 a

  Some-reads :
      (ps : List Policy)
      → OnlyReads ps
      → Some perm params (Applies perm params) ps
      → IsReading perm.action
  Some-reads [] h a = elim a [ ]
  Some-reads (p ∷ ps) h (now a) = statement_reads p.statements h.0 a
  Some-reads (p ∷ ps) h (later a) = Some-reads ps h.1 a

  -- Policies that only read allow only reading.
  pub IsReading-of_allowed :
      (ps : List Policy)
      → OnlyReads ps
      → check_permissions (node perm) params ps ≡ allow
      → IsReading perm.action
  unfolding check_permissions
  IsReading-of_allowed ps h e = Some-reads ps h ((check_policies_iff perm params ps).1.0 e).1

respond-allowed : (r : CheckResult) → respond r ≡ allowed → r ≡ allow
unfolding respond
respond-allowed allow e = refl
respond-allowed neutral e = cc
respond-allowed deny e = cc

module _ (db : Db) (s s1 s2 : RbacAuth) (repo_id operator_id : Uuid) (perm : Permission)
    (repo : Repository) (viewer : List Policy) (found : get_repository db repo_id ≡ ok repo)
    (stranger : repo.owner_id ≢ operator_id)
    (no_member : get_member db operator_id repo_id ≡ err not_found)
    (view : get_viewer_policy db s ≡ ok (viewer, s1)) (reads : OnlyReads viewer)
    (answer : authorize_member db s repo_id operator_id (node perm) ≡ ok (allowed, s2)) where
  not_owner : text_eq repo.owner_id operator_id ≡ false
  not_owner = elim (Bool-cases (text_eq repo.owner_id operator_id)) [
    | inl e ↦ absurd (stranger ((text_eq_iff repo.owner_id operator_id).0 e))
    | inr e ↦ e
  ]

  member_none : or_none (get_member_policy db operator_id repo_id) ≡ ok []
  unfolding get_member_policy or_none
  member_none = rw no_member

  stranger_private : repo.visible ≡ false → ⊥
  unfolding authorize_member member_policies
  stranger_private v =
      cc (rw (found, authorize_member, not_owner, member_policies, v, member_none) at answer)

  stranger_visible : repo.visible ≡ true → IsReading perm.action
  unfolding authorize_member member_policies
  stranger_visible v =
      let e =
        rw
          (
            found,
            authorize_member,
            not_owner,
            member_policies,
            v,
            view,
            member_none,
            append-nil viewer,
          )
          at answer in
      elim (Bool-cases (is_empty viewer)) [
        | inl none_left ↦ absurd (cc (rw none_left at e))
        | inr some_left ↦
            let params : ResourceParams = record { user_id = repo.owner_id; repo_id = repo_id } in
            let e' = rw some_left at e in
            IsReading-of_allowed perm params viewer reads (respond-allowed _ (ground arith))
      ]

  -- Someone who is neither the owner nor a member is allowed a permission only if the repository is
  -- visible and the action is one of reading or listing, if the viewers' policies have the actions
  -- of `RepoRead`.
  pub stranger_reads : (repo.visible ≡ true) × IsReading perm.action
  stranger_reads = elim (Bool-cases repo.visible) [
    | inl v ↦ (v, stranger_visible v)
    | inr v ↦ absurd (stranger_private v)
  ]
