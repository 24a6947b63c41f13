-- ===== src/Version/Repo/Rows.antt =====
-- models/branch.go, wip.go and commit.go: what the queries give after an update or an insert.
use jiaozifs.Prelude.{
  ℕ, ◌≡◌, refl, ap, ◌∙◌, inl, inr, Bool, Bool-cases, List, [], ◌∷◌, Option, none, some, ok, ◌>>=◌,
  Text, text_eq, text_eq_refl, if◌then◌else◌, ◌&&◌,
}
use jiaozifs.Auth.Model.{Uuid}
use jiaozifs.Auth.Db.{find_first, where_id}
use jiaozifs.Version.Repo.{
  RepoDb, Branch, Wip, CommitRow, get_branch, update_branch, set_commit_hash, get_wip, update_wip,
  update_wips, or_not_found, get_commit_row, new_or_old,
}

map_found : {A B : Type 0} → (A → B) → Option A → Option B
map_found f none = none
map_found f (some x) = some (f x)

or_not_found-map_found :
    {A B : Type 0} (f : A → B) (o : Option A)
    → or_not_found (map_found f o) ≡ (or_not_found o >>= λ x. ok (f x))
unfolding or_not_found map_found
or_not_found-map_found f none = refl
or_not_found-map_found f (some x) = refl

-- The rows of a table are changed one by one, by a change that a condition does not see.
find_first-changed :
    {A : Type 0} (test : A → Bool) (f : A → A) (change : List A → List A)
    → (change [] ≡ [])
    → ((x : A) (xs : List A) → change (x ∷ xs) ≡ f x ∷ change xs)
    → ((x : A) → test (f x) ≡ test x)
    → (xs : List A) → find_first test (change xs) ≡ map_found f (find_first test xs)
unfolding find_first map_found
find_first-changed test f change n c t [] = rw n refl
find_first-changed test f change n c t (x ∷ xs) = elim (Bool-cases (test x)) [
  | inl e ↦ rw (c x xs, find_first, t x, e) refl
  | inr e ↦ rw (c x xs, find_first, t x, e) (find_first-changed test f change n c t xs)
]

-- A branch that the update moves, and one that it leaves.
abbrev pub moved : Uuid → Text → Branch → Branch
moved id h x = if text_eq x.id id then record x { commit_hash = h } else x

moved-cons :
    (id : Uuid) (h : Text) (x : Branch) (xs : List Branch)
    → set_commit_hash id h (x ∷ xs) ≡ moved id h x ∷ set_commit_hash id h xs
unfolding set_commit_hash
moved-cons id h x xs = elim (Bool-cases (text_eq x.id id)) [ inl e ↦ rw e refl | inr e ↦ rw e refl ]

moved-unseen :
    (repo_id : Uuid) (name : Text) (id : Uuid) (h : Text) (x : Branch)
    → (where_id repo_id (moved id h x).repository_id && text_eq (moved id h x).name name)
      ≡ (where_id repo_id x.repository_id && text_eq x.name name)
moved-unseen repo_id name id h x = elim (Bool-cases (text_eq x.id id)) [
  | inl e ↦ rw e refl
  | inr e ↦ rw e refl
]

pub get_branch-update_branch :
    (repo_id : Uuid) (name : Text) (id : Uuid) (h : Text) (db : RepoDb)
    → get_branch repo_id name (update_branch id h db)
      ≡ (get_branch repo_id name db >>= λ x. ok (moved id h x))
unfolding get_branch update_branch set_commit_hash
get_branch-update_branch repo_id name id h db =
    ap or_not_found (
      find_first-changed _ (moved id h) (set_commit_hash id h) refl (moved-cons id h)
        (moved-unseen repo_id name id h) db.branches)
    ∙ or_not_found-map_found (moved id h) _

-- A wip that the update changes, and one that it leaves.
abbrev pub rebased_row : Uuid → Text → ℕ → Wip → Wip
rebased_row id h now x =
    if text_eq x.id id then record x { base_commit = h; updated_at = now } else x

rebased_row-cons :
    (id : Uuid) (h : Text) (now : ℕ) (x : Wip) (xs : List Wip)
    → update_wips id none (some h) now (x ∷ xs)
      ≡ rebased_row id h now x ∷ update_wips id none (some h) now xs
unfolding update_wips new_or_old
rebased_row-cons id h now x xs = elim (Bool-cases (text_eq x.id id)) [
  | inl e ↦ rw e refl
  | inr e ↦ rw e refl
]

rebased_row-unseen :
    (creator repo_id ref : Uuid) (id : Uuid) (h : Text) (now : ℕ) (x : Wip)
    → (let y = rebased_row id h now x in
        where_id creator y.creator_id && where_id repo_id y.repository_id && where_id ref y.ref_id)
      ≡ (where_id creator x.creator_id && where_id repo_id x.repository_id && where_id ref x.ref_id)
rebased_row-unseen creator repo_id ref id h now x = elim (Bool-cases (text_eq x.id id)) [
  | inl e ↦ rw e refl
  | inr e ↦ rw e refl
]

pub get_wip-update_wip :
    (creator repo_id ref id : Uuid) (h : Text) (now : ℕ) (db : RepoDb)
    → get_wip creator repo_id ref (update_wip id none (some h) now db)
      ≡ (get_wip creator repo_id ref db >>= λ x. ok (rebased_row id h now x))
unfolding get_wip update_wip update_wips
get_wip-update_wip creator repo_id ref id h now db =
    ap or_not_found (
      find_first-changed _ (rebased_row id h now) (update_wips id none (some h) now) refl
        (rebased_row-cons id h now) (rebased_row-unseen creator repo_id ref id h now) db.wips)
    ∙ or_not_found-map_found (rebased_row id h now) _

-- The commits after an insert of one of the repository.
pub get_commit_row-insert :
    (repo_id : Uuid) (c : CommitRow) (h : Text) (db : RepoDb)
    → c.repository_id ≡ repo_id
    → get_commit_row repo_id h (record db { commits = c ∷ db.commits })
      ≡ (if text_eq c.hash h then ok c else get_commit_row repo_id h db)
unfolding get_commit_row find_first or_not_found
get_commit_row-insert repo_id c h db e = elim (Bool-cases (text_eq c.hash h)) [
  | inl f ↦ rw (e, text_eq_refl repo_id, f) refl
  | inr f ↦ rw (e, text_eq_refl repo_id, f) refl
]
