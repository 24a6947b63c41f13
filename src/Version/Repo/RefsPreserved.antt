-- ===== src/Version/Repo/RefsPreserved.antt =====
-- versionmgr/work_repo.go: the operations on wips, branches and tags keep the cache well formed.
use jiaozifs.Prelude.{ℕ, refl, Bool, Option, none, some, Result, ok, err, Text, is_empty}
use jiaozifs.Auth.Model.{Uuid, nil_uuid}
use jiaozifs.Version.Repo.{
  RepoError, not_in_branch, already_exists, no_commit, empty_commit, RepoDb, Branch, Tag, Wip,
  CommitRow, User, get_branch, get_wip, get_tag, delete_branches, delete_wips, delete_tags,
  insert_branch, insert_tag, insert_wip,
}
use jiaozifs.Version.Repo.State.{
  in_branch, Working, set_cur_state, Act, ◌>>=◌, ◌>>◌, and_then, working, query, execute, deref,
}
use jiaozifs.Version.Repo.Operations.{is_state, commit_at, tree_of}
use jiaozifs.Version.Repo.Refs.{
  look_up, looked_up, start_wip, reuse_wip, use_wip, new_branch, new_tag, commit_hash_of, new_wip,
  create_wip, get_or_create_wip, delete_wip, create_branch, delete_branch, tag_at, create_tag,
  delete_tag,
}
use jiaozifs.Version.Repo.Triple.{Ends, Triple, Triple-fail}
use jiaozifs.Version.Repo.Invariant.{HasShape, HasHead, IsWellFormed, Keeps, Keeps-commit_at}
use jiaozifs.Version.Repo.Kept.{
  Keeps->>=, Keeps-if, Keeps-query, Keeps-execute, Keeps-deref, Keeps-working, Keeps-transaction,
}

Ends-looked_up :
    {A : Type 0} (r : Result RepoError A) (w : Working) (db : RepoDb)
    → IsWellFormed w
    → Ends IsWellFormed IsWellFormed (looked_up w db r)
unfolding Ends looked_up
Ends-looked_up (ok a) w db x = x
Ends-looked_up (err e) w db x = x

Keeps-look_up : {A : Type 0} (q : RepoDb → Result RepoError A) → Keeps (look_up q)
unfolding look_up Triple
Keeps-look_up q = λ w db x. Ends-looked_up (q db) w db x

Keeps-start_wip : (b : Branch) (p : Wip) → Keeps (start_wip b p)
unfolding start_wip set_cur_state HasShape HasHead Ends ◌>>=◌ and_then Triple
Keeps-start_wip b p = λ w db x. (((p, refl), (b, refl)), (p, refl))

Keeps-reuse_wip : (p : Wip) → Keeps (reuse_wip p)
unfolding reuse_wip HasHead Ends ◌>>=◌ and_then Triple
Keeps-reuse_wip p = λ w db x. (x.0, tt)

module _ (operator : User) (repo_id : Uuid) (uuid_generate : ℕ → Uuid) where
  Keeps-use_wip :
      (now : ℕ) (b : Branch) (o : Option Wip)
      → Keeps (use_wip operator repo_id uuid_generate now b o)
  unfolding use_wip create_wip
  Keeps-use_wip now b none =
      Keeps->>= (commit_at repo_id b.commit_hash) _ (Keeps-commit_at repo_id b.commit_hash) λ c.
        let inserted =
          insert_wip uuid_generate (new_wip operator repo_id uuid_generate now b (tree_of c)) in
        Keeps->>= (execute inserted) (start_wip b) (Keeps-execute inserted) (Keeps-start_wip b)
  Keeps-use_wip now b (some p) = Keeps-reuse_wip p

  pub Keeps-get_or_create_wip :
      (now : ℕ) → Keeps (get_or_create_wip operator repo_id uuid_generate now)
  unfolding get_or_create_wip
  Keeps-get_or_create_wip now = Keeps->>= working _ Keeps-working λ w.
      Keeps-if (is_state w.state in_branch) _ _
        (Keeps->>= working _ Keeps-working λ v.
          Keeps->>= (deref v.branch) _ (Keeps-deref v.branch) λ b.
            Keeps->>= (look_up (get_wip operator.id repo_id b.id))
              (use_wip operator repo_id uuid_generate now b)
              (Keeps-look_up (get_wip operator.id repo_id b.id)) (Keeps-use_wip now b))
        (Triple-fail IsWellFormed (Wip × Bool) IsWellFormed not_in_branch)

  pub Keeps-delete_wip : Keeps (delete_wip operator repo_id uuid_generate)
  unfolding delete_wip
  Keeps-delete_wip = Keeps->>= working _ Keeps-working λ w.
      Keeps-if (is_state w.state in_branch) _ _
        (Keeps->>= working _ Keeps-working λ v.
          Keeps->>= (deref v.branch) _ (Keeps-deref v.branch) λ b.
            Keeps->>= (query (get_wip operator.id repo_id b.id)) _
              (Keeps-query (get_wip operator.id repo_id b.id))
              λ p. Keeps-execute (λ db. ok (tt, delete_wips operator.id repo_id b.id db)))
        (Triple-fail IsWellFormed (Unit {0}) IsWellFormed not_in_branch)

  Keeps-new_branch :
      (name h : Text) (o : Option Branch)
      → Keeps (new_branch operator repo_id uuid_generate name h o)
  unfolding new_branch
  Keeps-new_branch name h none = Keeps-execute (λ db. ok (
      insert_branch uuid_generate
        (record {
          id = nil_uuid;
          repository_id = repo_id;
          commit_hash = h;
          name = name;
          creator_id = operator.id;
        })
        db))
  Keeps-new_branch name h (some old) = Triple-fail IsWellFormed Branch IsWellFormed already_exists

  pub Keeps-create_branch :
      (name : Text) → Keeps (create_branch operator repo_id uuid_generate name)
  unfolding create_branch
  Keeps-create_branch name =
      Keeps->>= (look_up (get_branch repo_id name)) _ (Keeps-look_up (get_branch repo_id name))
        λ old.
          Keeps->>= working _ Keeps-working λ w. Keeps-new_branch name (commit_hash_of w.commit) old

  pub Keeps-delete_branch : Keeps (delete_branch operator repo_id uuid_generate)
  unfolding delete_branch
  Keeps-delete_branch =
      let deleted : Branch → Act (Unit {0}) = λ b.
        execute (λ db. ok (tt {0}, delete_branches repo_id b.name db))
        >> execute (λ db. ok (tt {0}, delete_wips nil_uuid repo_id b.id db)) in
      Keeps-transaction (working >>= λ w. deref w.branch >>= deleted) (
        Keeps->>= working (λ w. deref w.branch >>= deleted) Keeps-working
          λ w. Keeps->>= (deref w.branch) deleted (Keeps-deref w.branch) λ b.
            Keeps->>= (execute (λ db. ok (tt {0}, delete_branches repo_id b.name db)))
              (λ z. execute (λ db. ok (tt {0}, delete_wips nil_uuid repo_id b.id db)))
              (Keeps-execute (λ db. ok (tt, delete_branches repo_id b.name db)))
              (λ z. Keeps-execute (λ db. ok (tt, delete_wips nil_uuid repo_id b.id db))))

  Keeps-new_tag :
      (name : Text) (msg : Option Text) (c : Option CommitRow) (o : Option Tag)
      → Keeps (new_tag operator repo_id uuid_generate name msg c o)
  unfolding new_tag tag_at
  Keeps-new_tag name msg c (some old) = Triple-fail IsWellFormed Tag IsWellFormed already_exists
  Keeps-new_tag name msg none none = Triple-fail IsWellFormed Tag IsWellFormed no_commit
  Keeps-new_tag name msg (some c) none =
      let row : Tag = record {
        id = nil_uuid;
        repository_id = repo_id;
        name = name;
        creator_id = operator.id;
        target = c.hash;
        message = msg;
      } in
      Keeps-if (is_empty c.hash) _ _ (Triple-fail IsWellFormed Tag IsWellFormed empty_commit)
        (Keeps-execute (insert_tag uuid_generate row))

  pub Keeps-create_tag :
      (name : Text) (msg : Option Text) → Keeps (create_tag operator repo_id uuid_generate name msg)
  unfolding create_tag
  Keeps-create_tag name msg =
      Keeps->>= (look_up (get_tag repo_id name)) _ (Keeps-look_up (get_tag repo_id name))
        λ old. Keeps->>= working _ Keeps-working λ w. Keeps-new_tag name msg w.commit old

  pub Keeps-delete_tag : Keeps (delete_tag operator repo_id uuid_generate)
  unfolding delete_tag
  Keeps-delete_tag =
      let deleted : Tag → Act (Unit {0}) =
        λ t. execute (λ db. ok (tt {0}, delete_tags repo_id t.id db)) in
      Keeps-transaction (working >>= λ w. deref w.tag >>= deleted) (
        Keeps->>= working (λ w. deref w.tag >>= deleted) Keeps-working
          λ w.
            Keeps->>= (deref w.tag) deleted (Keeps-deref w.tag)
              λ t. Keeps-execute (λ db. ok (tt, delete_tags repo_id t.id db)))
