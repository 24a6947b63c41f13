-- ===== src/Version/Repo/Invariant.antt =====
-- versionmgr/work_repo.go: what the cache holds in each state.
use jiaozifs.Prelude.{◌≡◌, refl, [], Option, none, some, Result, Text, is_empty}
use jiaozifs.Auth.Model.{Uuid}
use jiaozifs.Version.Repo.{
  RepoError, RepoDb, bad_hex, bad_ref_type, Branch, Tag, Wip, CommitRow, User, get_commit_row,
}
use jiaozifs.Version.Repo.State.{
  RepoState, no_state, in_wip, in_branch, in_commit, in_tag, Head, own, of_wip, set_cur_state, Act,
  give, ◌>>=◌, ◌>>◌, update, query,
}
use jiaozifs.Version.Repo.Operations.{
  Ref, wip_ref, branch_ref, commit_ref, tag_ref, other_ref, commit_at, tree_of, set_head,
  check_out_wip, check_out_branch, check_out_commit, check_out_tag, check_out_tree, check_out,
  from_hex, decoded,
}
use jiaozifs.Version.Repo.Triple.{
  Cached, Ends, Triple, Triple->>=, Triple-give, Triple-fail, Triple-update, Triple-query,
  Triple-if,
}

abbrev pub IsCached : {A : Type 0} → Option A → Type 0
IsCached {A = A} o = (a : A) × (o ≡ some a)

-- The pointers that each state uses are not nil.
unfoldable pub HasShape :
    RepoState → Option Wip → Option Branch → Option Tag → Option CommitRow → Type 0
HasShape no_state wip branch tag commit = Unit
HasShape in_wip wip branch tag commit = IsCached wip × IsCached branch
HasShape in_branch wip branch tag commit = IsCached branch
HasShape in_commit wip branch tag commit = IsCached commit
HasShape in_tag wip branch tag commit = IsCached tag × IsCached commit

-- A head that points to the wip has one.
unfoldable pub HasHead : Option Head → Option Wip → Type 0
HasHead none wip = Unit
HasHead (some (own h)) wip = Unit
HasHead (some of_wip) wip = IsCached wip

abbrev pub Shaped : Cached
Shaped w = HasShape w.state w.wip w.branch w.tag w.commit

abbrev pub IsWellFormed : Cached
IsWellFormed w = Shaped w × HasHead w.head_tree w.wip

abbrev pub Keeps : {A : Type 0} → Act A → Type 0
Keeps m = Triple IsWellFormed IsWellFormed m IsWellFormed

pub Triple-set_head : (h : Text) → Triple IsWellFormed Shaped (set_head (own h)) IsWellFormed
unfolding HasHead
Triple-set_head h = Triple-update IsWellFormed Shaped IsWellFormed _ (λ w x. (x, tt))

-- An update to a state whose pointers are there.
Triple-set_cur_state :
    {A : Type 0} (s : RepoState) (p : Option Wip) (b : Option Branch) (t : Option Tag)
    (c : Option CommitRow) (a : A)
    → HasShape s p b t c
    → Triple IsWellFormed IsWellFormed (update (set_cur_state s p b t c) >> give a) Shaped
unfolding set_cur_state
Triple-set_cur_state s p b t c a h =
    Triple->>= IsWellFormed IsWellFormed Shaped Shaped (update (set_cur_state s p b t c))
      (λ z. give a)
      (Triple-update IsWellFormed IsWellFormed Shaped (set_cur_state s p b t c) (λ w x. h))
      (λ z. Triple-give IsWellFormed Shaped a)

-- A query before another action.
pub Triple-query_then :
    {A B : Type 0} (after : Cached) (q : RepoDb → Result RepoError A) (f : A → Act B)
    → ((a : A) → Triple IsWellFormed IsWellFormed (f a) after)
    → Triple IsWellFormed IsWellFormed (query q >>= f) after
Triple-query_then after q f k =
    Triple->>= IsWellFormed IsWellFormed IsWellFormed after (query q) f
      (Triple-query IsWellFormed IsWellFormed (λ w x. x) q) k

pub Keeps-commit_at : (repo_id : Uuid) (h : Text) → Keeps (commit_at repo_id h)
unfolding commit_at
Keeps-commit_at repo_id h =
    Triple-if IsWellFormed IsWellFormed IsWellFormed (is_empty h) _ _
      (λ e. Triple-give IsWellFormed IsWellFormed none)
      (Triple-query_then IsWellFormed (get_commit_row repo_id h) (λ c. give (some c))
        (λ c. Triple-give IsWellFormed IsWellFormed (some c)))

Keeps-decoded : (o : Option Text) → Keeps (decoded o)
unfolding decoded
Keeps-decoded none = Triple-fail IsWellFormed Text IsWellFormed bad_hex
Keeps-decoded (some h) = Triple-give IsWellFormed IsWellFormed h

module _ (operator : User) (repo_id : Uuid) (decode_hex : Text → Option Text) where
  shaped_of : {A : Type 0} (a : A) → Triple IsWellFormed IsWellFormed (give a) Shaped
  unfolding Ends Triple
  shaped_of a = λ w db x. x.0

  Triple-from_hex : (name : Text) → Keeps (from_hex operator repo_id decode_hex name)
  unfolding from_hex
  Triple-from_hex name =
      Triple-if IsWellFormed IsWellFormed IsWellFormed (is_empty name) _ _
        (λ e. Triple-give IsWellFormed IsWellFormed []) (Keeps-decoded (decode_hex name))

  Triple-check_out_tree :
      (ref : Ref)
      → Triple IsWellFormed IsWellFormed (check_out_tree operator repo_id decode_hex ref) Shaped
  unfolding check_out_tree check_out_wip check_out_branch check_out_commit check_out_tag HasShape
  Triple-check_out_tree (wip_ref name) = Triple-query_then Shaped _ _ λ ref.
      Triple-query_then Shaped _ _ λ wip.
        Triple-set_cur_state in_wip (some wip) (some ref) none none wip.current_tree
          ((wip, refl), (ref, refl))
  Triple-check_out_tree (branch_ref name) = Triple-query_then Shaped _ _ λ b.
      Triple->>= IsWellFormed IsWellFormed IsWellFormed Shaped (commit_at repo_id b.commit_hash) _
        (Keeps-commit_at repo_id b.commit_hash)
        λ c. Triple-set_cur_state in_branch none (some b) none c (tree_of c) (b, refl)
  Triple-check_out_tree (commit_ref name) =
      Triple->>= IsWellFormed IsWellFormed IsWellFormed Shaped
        (from_hex operator repo_id decode_hex name) _ (Triple-from_hex name)
        λ h.
          Triple-if IsWellFormed IsWellFormed Shaped (is_empty h) _ _ (λ e. shaped_of [])
            (Triple-query_then Shaped _ _
              λ c. Triple-set_cur_state in_commit none none none (some c) c.tree_hash (c, refl))
  Triple-check_out_tree (tag_ref name) = Triple-query_then Shaped _ _ λ t.
      Triple-query_then Shaped _ _ λ c.
        Triple-set_cur_state in_tag none none (some t) (some c) c.tree_hash ((t, refl), (c, refl))
  Triple-check_out_tree (other_ref name) = Triple-fail IsWellFormed Text Shaped bad_ref_type

  pub Keeps-check_out : (ref : Ref) → Keeps (check_out operator repo_id decode_hex ref)
  unfolding check_out
  Keeps-check_out ref =
      Triple->>= IsWellFormed IsWellFormed Shaped IsWellFormed
        (check_out_tree operator repo_id decode_hex ref) _ (Triple-check_out_tree ref)
        Triple-set_head
