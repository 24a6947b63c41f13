-- ===== src/Version/Repo/Operations.antt =====
-- versionmgr/work_repo.go: the operations of a work repository.
use jiaozifs.Prelude.{Bool, true, false, [], Option, none, some, Text, is_empty, if◌then◌else◌}
use jiaozifs.Auth.Model.{Uuid}
use jiaozifs.Version.Repo.{
  bad_hex, bad_ref_type, CommitRow, User, get_branch, get_wip, get_tag, get_commit_row,
}
use jiaozifs.Version.Repo.State.{
  RepoState, no_state, in_wip, in_branch, in_commit, in_tag, Head, own, set_cur_state, Act, give,
  fail, ◌>>=◌, ◌>>◌, update, query,
}

-- What `CheckOut` is given: the type with the name.
pub data Ref : Type 0 where
  wip_ref branch_ref commit_ref tag_ref other_ref : Text → Ref

unfoldable pub is_state : RepoState → RepoState → Bool
is_state in_wip in_wip = true
is_state in_branch in_branch = true
is_state in_commit in_commit = true
is_state in_tag in_tag = true
is_state no_state no_state = true
is_state _ _ = false

-- A commit where the hash is not empty.
unfoldable pub commit_at : Uuid → Text → Act (Option CommitRow)
unfolding get_commit_row
commit_at repo_id h =
    let found = query (get_commit_row repo_id h) >>= λ c. give (some c) in
    if is_empty h then give none else found

unfoldable pub tree_of : Option CommitRow → Text
tree_of none = []
tree_of (some c) = c.tree_hash

abbrev pub set_head : Head → Act (Unit {0})
set_head h = update (λ w. record w { head_tree = some h })

unfoldable pub decoded : Option Text → Act Text
decoded none = fail bad_hex
decoded (some h) = give h

-- The operator and the repository are those of the `WorkRepository`; `decode_hex` is `DecodeString`
-- of the package of hexadecimal digits.
module _ (operator : User) (repo_id : Uuid) (decode_hex : Text → Option Text) where
  unfoldable pub check_out_wip : Text → Act Text
  unfolding get_branch get_wip set_cur_state
  check_out_wip name = query (get_branch repo_id name) >>= λ ref.
      query (get_wip operator.id repo_id ref.id) >>= λ wip.
      update (set_cur_state in_wip (some wip) (some ref) none none) >> give wip.current_tree

  unfoldable pub check_out_branch : Text → Act Text
  unfolding get_branch commit_at tree_of set_cur_state
  check_out_branch name = query (get_branch repo_id name) >>= λ b.
      commit_at repo_id b.commit_hash >>= λ c.
      update (set_cur_state in_branch none (some b) none c) >> give (tree_of c)

  -- `hash.FromHex`
  unfoldable pub from_hex : Text → Act Text
  unfolding decoded
  from_hex name = if is_empty name then give [] else decoded (decode_hex name)

  -- The state stays as it is for an empty hash.
  unfoldable pub check_out_commit : Text → Act Text
  unfolding from_hex get_commit_row set_cur_state
  check_out_commit name = from_hex name >>= λ h.
      let at_commit = query (get_commit_row repo_id h) >>= λ c.
      update (set_cur_state in_commit none none none (some c)) >> give c.tree_hash in
      if is_empty h then give [] else at_commit

  unfoldable pub check_out_tag : Text → Act Text
  unfolding get_tag get_commit_row set_cur_state
  check_out_tag name = query (get_tag repo_id name) >>= λ t.
      query (get_commit_row repo_id t.target) >>= λ c.
      update (set_cur_state in_tag none none (some t) (some c)) >> give c.tree_hash

  -- The branches of `CheckOut` up to the assignment of `headTree`.
  unfoldable pub check_out_tree : Ref → Act Text
  unfolding check_out_wip check_out_branch check_out_commit check_out_tag
  check_out_tree (wip_ref name) = check_out_wip name
  check_out_tree (branch_ref name) = check_out_branch name
  check_out_tree (commit_ref name) = check_out_commit name
  check_out_tree (tag_ref name) = check_out_tag name
  check_out_tree (other_ref name) = fail bad_ref_type

  unfoldable pub check_out : Ref → Act (Unit {0})
  unfolding check_out_tree
  check_out ref = check_out_tree ref >>= λ h. set_head (own h)
