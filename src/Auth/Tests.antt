-- ===== src/Auth/Tests.antt =====
-- Runs of the permission checks on small inputs.
use jiaozifs.Prelude.{
  ℕ, ◌≡◌, ◌↔◌, ◌⊎◌, inl, inr, refl, ap, true, false, List, [], ◌∷◌, ◌++◌, arith, Any, ◌≤◌, ◌>>=◌,
}
use jiaozifs.Prelude.{Option, some, Bool, Text, codes, Result, ok, err, length, now, later}
use jiaozifs.Auth.Model.{Uuid, nil_uuid, User, Policy, effect_allow, effect_deny, all_resources}
use jiaozifs.Auth.Wildcard
use jiaozifs.Auth.Wildcard.Language.{Matches}
use jiaozifs.Auth.Wildcard.Correct.{match_iff, match_sound, match_loop_total}
use jiaozifs.Auth.Arn.{Arn, parse_arn, arn_match}
use jiaozifs.Auth.Arn.Parse.{IsArn, print_arn, parse_arn_iff}
use jiaozifs.Auth.Arn.Compare.{Covers, arn_match_iff}
use jiaozifs.Auth.Statements.{repo_read_actions}
use jiaozifs.Auth.Check.{
  Permission, ResourceParams, Nodes, node, and_node, nil, cons, allow, neutral, deny,
  check_policies, check_permissions,
}
use jiaozifs.Auth.Check.Leaf.{Some, Applies, Denying, check_policies_iff, rank}
use jiaozifs.Auth.Check.Tree.{
  Answers, AnyNode, DeniedFirst, or_node_iff, and_node_iff, rank-check_permissions-append,
}
use jiaozifs.Auth.Db.{Db, list_policies, get_repository, get_member}
use jiaozifs.Auth.Rbac.{
  RbacAuth, allowed, init_rbac, authorize, authorize_member, repo_viewer, get_viewer_policy,
}
use jiaozifs.Auth.Rbac.Policies.{Row, list_policies_iff}
use jiaozifs.Auth.Rbac.Viewer.{IsReading}
use jiaozifs.Auth.Rbac.Stranger.{IsSetUp, Call, cache_after, cold_cache, stranger_reads-init_rbac}
use jiaozifs.Auth.Db.{get_group_by_name, list_policies}
use jiaozifs.Auth.Rbac.Super.{empty_db, installed, init_rbac-installed, init_rbac-authorize}

star_inside : Wildcard.match (codes "a*c") (codes "abbc") ≡ true
unfolding Wildcard.match
star_inside = refl

star_too_short : Wildcard.match (codes "a*c") (codes "abb") ≡ false
unfolding Wildcard.match
star_too_short = refl

match_iff_example :
    (Wildcard.match (codes "repo:*") (codes "repo:Get") ≡ true)
    ↔ Matches (codes "repo:*") (codes "repo:Get")
match_iff_example = match_iff (codes "repo:*") (codes "repo:Get") (omega arith)

match_sound_example : Matches (codes "re?o:*G") (codes "repo:GG")
unfolding Wildcard.match
match_sound_example = match_sound (codes "re?o:*G") (codes "repo:GG") refl

match_loop_total_example : (b : Bool) × (Wildcard.match_loop 3 (codes "a*c") (codes "abb") ≡ some b)
match_loop_total_example = match_loop_total 3 (codes "a*c") (codes "abb") (omega arith)

abbrev sample_arn : Arn
sample_arn = record {
  partition = codes "gitdata";
  service = codes "jiaozifs";
  region = [];
  account_id = [];
  resource_id = codes "user/7:8";
}

parse_arn_iff_example :
    (parse_arn (codes "arn:gitdata:jiaozifs:::user/7:8") ≡ ok sample_arn)
    ↔ ((codes "arn:gitdata:jiaozifs:::user/7:8" ≡ print_arn sample_arn) × IsArn sample_arn)
parse_arn_iff_example = parse_arn_iff (codes "arn:gitdata:jiaozifs:::user/7:8") sample_arn

arn_match_iff_example :
    (arn_match (codes "arn:gitdata:jiaozifs:::user/*") (codes "arn:gitdata:jiaozifs:::user/7")
      ≡ true)
    ↔ ((codes "arn:gitdata:jiaozifs:::user/*" ≡ all_resources)
        ⊎ Covers (codes "arn:gitdata:jiaozifs:::user/*") (codes "arn:gitdata:jiaozifs:::user/7"))
arn_match_iff_example =
    arn_match_iff (codes "arn:gitdata:jiaozifs:::user/*") (codes "arn:gitdata:jiaozifs:::user/7")
      (omega arith)

abbrev read_perm : Permission
read_perm = record {
  action = codes "repo:ReadRepo";
  resource = codes "arn:gitdata:jiaozifs:::repository/u/r";
}

abbrev write_perm : Permission
write_perm = record {
  action = codes "repo:Write";
  resource = codes "arn:gitdata:jiaozifs:::repository/u/r";
}

abbrev owner_params : ResourceParams
owner_params = record { user_id = codes "u"; repo_id = codes "r" }

abbrev reader_policy : Policy
reader_policy = record {
  id = codes "p";
  name = codes "Reader";
  statements =
      record {
        effect = effect_allow;
        actions = repo_read_actions;
        resource = codes "arn:gitdata:jiaozifs:::repository/{user_id}/{repo_id}";
      }
      ∷ [];
}

abbrev write_denied : Policy
write_denied = record {
  id = codes "q";
  name = codes "NoWrite";
  statements =
      record { effect = effect_deny; actions = codes "repo:W*" ∷ []; resource = all_resources }
      ∷ [];
}

read_is_allowed :
    check_permissions (node read_perm) owner_params (reader_policy ∷ write_denied ∷ []) ≡ allow
unfolding check_permissions
read_is_allowed = refl

write_is_denied :
    check_permissions (node write_perm) owner_params (reader_policy ∷ write_denied ∷ []) ≡ deny
unfolding check_permissions
write_is_denied = refl

check_policies_iff_example :
    ((check_policies write_perm owner_params (reader_policy ∷ write_denied ∷ []) neutral ≡ deny)
      ↔ Some write_perm owner_params
          (Denying write_perm owner_params)
          (reader_policy ∷ write_denied ∷ []))
    × ((check_policies write_perm owner_params (reader_policy ∷ write_denied ∷ []) neutral ≡ allow)
        ↔ ((¬ Some write_perm owner_params
              (Denying write_perm owner_params)
              (reader_policy ∷ write_denied ∷ []))
            × Some write_perm owner_params
                (Applies write_perm owner_params)
                (reader_policy ∷ write_denied ∷ [])))
check_policies_iff_example =
    check_policies_iff write_perm owner_params (reader_policy ∷ write_denied ∷ [])

abbrev both_perms : Nodes
both_perms = cons (node read_perm) (cons (node write_perm) nil)

or_node_iff_example :
    AnyNode (Answers owner_params (reader_policy ∷ write_denied ∷ []) deny) both_perms
unfolding check_permissions
or_node_iff_example =
    (or_node_iff owner_params (reader_policy ∷ write_denied ∷ []) both_perms).0.0 refl

and_node_iff_example : DeniedFirst owner_params (reader_policy ∷ write_denied ∷ []) both_perms
unfolding check_permissions
and_node_iff_example =
    (and_node_iff owner_params (reader_policy ∷ write_denied ∷ []) both_perms).1.0 refl

rank-check_permissions-append_example :
    rank (check_permissions (and_node both_perms) owner_params (reader_policy ∷ []))
    ≤ rank
        (check_permissions (and_node both_perms) owner_params (reader_policy ∷ write_denied ∷ []))
rank-check_permissions-append_example =
    rank-check_permissions-append owner_params (reader_policy ∷ []) (write_denied ∷ [])
      (and_node both_perms)

abbrev sample_db : Db
sample_db = record {
  policies = reader_policy ∷ write_denied ∷ [];
  groups = record { id = codes "g"; name = repo_viewer; policies = codes "p" ∷ [] } ∷ [];
  user_groups = [];
  users = [];
  members = [];
  repositories = record { id = codes "r"; owner_id = codes "u"; visible = true } ∷ [];
  issued = 0;
}

list_policies_iff_example : Row write_denied (list_policies sample_db (codes "q" ∷ [])) ↔ (
    Row write_denied sample_db.policies
    × (◌≡◌ {A = List Uuid} (codes "q" ∷ []) []
        ⊎ (jiaozifs.Prelude.contains (codes "q" ∷ []) (codes "q") ≡ true)))
list_policies_iff_example = list_policies_iff sample_db (codes "q" ∷ []) write_denied

abbrev no_cache : RbacAuth
no_cache = record { viewer_policies = [] }

abbrev warm_cache : RbacAuth
warm_cache = record { viewer_policies = reader_policy ∷ [] }

abbrev counted : ℕ → Uuid
counted i = i ∷ []

abbrev admin : User
admin = record { id = nil_uuid; name = codes "ann"; email = codes "a@b" }

init_rbac-authorize_example :
    (init_rbac counted admin empty_db >>= λ (admin, db). authorize db admin (node write_perm))
    ≡ ok allowed
init_rbac-authorize_example =
    init_rbac-authorize counted admin (λ i j e. ground (arith, e)) write_perm
      (inl (codes "Write", refl))

counted-distinct : (i j : ℕ) → counted i ≡ counted j → i ≡ j
counted-distinct i j e = ground (arith, e)

-- The tables that `InitRbac` leaves, with a visible repository.
abbrev set_up : Db
set_up = record (installed counted admin counted-distinct).1 {
  repositories = record { id = codes "r"; owner_id = codes "u"; visible = true } ∷ [];
}

set_up-IsSetUp : IsSetUp counted admin counted-distinct set_up
set_up-IsSetUp = record {
  admin = (installed counted admin counted-distinct).0;
  first = (installed counted admin counted-distinct).1;
  made = init_rbac-installed counted admin counted-distinct;
  policies = refl;
  groups = refl;
}

abbrev first_call : Call
first_call = record {
  db = set_up;
  repo_id = codes "r";
  operator_id = codes "v";
  required = node read_perm;
}

stranger_reads-init_rbac_example : (true ≡ true) × IsReading (codes "repo:ReadRepo")
unfolding get_repository get_member get_viewer_policy authorize_member check_permissions cache_after
    installed init_rbac get_group_by_name list_policies
stranger_reads-init_rbac_example =
    stranger_reads-init_rbac counted admin counted-distinct (first_call ∷ []) set_up (codes "r")
      (codes "o") read_perm (record { id = codes "r"; owner_id = codes "u"; visible = true })
      (cache_after (first_call ∷ []) cold_cache) (set_up-IsSetUp, tt) set_up-IsSetUp refl
      (λ e. ground (arith, e)) refl refl
