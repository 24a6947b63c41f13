-- ===== src/Version/History/Ancestor.antt =====
-- versionmgr/merge_base.go: `IsAncestor` and `ancestorsIndex`, two walks that stop at a commit.
use jiaozifs.Prelude.{
  ℕ, ◌<◌, ◌≡◌, ◌⊎◌, ◌↔◌, inl, inr, refl, ap, sym, ◌∙◌, subst, Bool, true, false, Bool-cases,
}
use jiaozifs.Prelude.{
  List, [], ◌∷◌, Option, some, Result, ok, err, Text, text_eq, text_eq_iff, contains, if◌then◌else◌,
  now, later, length,
}
use mathlib.Core.Option.{some-injective}
use jiaozifs.Version.History.{
  Commit, CommitRepo, WalkError, is_reachable, find_commit, In, for_each,
}
use jiaozifs.Version.History.Callback.{look_for, index_until, look_walk, index_walk}
use jiaozifs.Version.History.Walker.{skipped, Stored, IsComplete}
use jiaozifs.Version.History.Visits.{From, root, step, Visited, Parent-Stored}
use jiaozifs.Version.History.Bfs.{bfs_next, new_bfs, bfs_walk_total}
use jiaozifs.Version.History.Preorder.Total.{preorder_walk_total}
use jiaozifs.Version.History.Preorder.{preorder_next, new_preorder}

-- `IsAncestor`, with fuel for the walk.
unfoldable pub is_ancestor : ℕ → CommitRepo → Commit → Commit → Option (Result WalkError Bool)
unfolding look_for preorder_next new_preorder for_each
is_ancestor f repo c other =
    for_each (preorder_next repo []) (look_for c.hash) f false (new_preorder other [])

-- `ancestorsIndex`; the index is the list of the keys of the map.
unfoldable pub ancestors_index :
    ℕ → CommitRepo → Commit → Commit → Option (Result WalkError (List Text))
unfolding index_until bfs_next new_bfs for_each text_eq
ancestors_index f repo excluded starting =
    if text_eq excluded.hash starting.hash
    then some (err is_reachable)
    else for_each (bfs_next repo []) (index_until excluded.hash) f [] (new_bfs starting [])

Visited-In : (h : Text) (us : List Commit) → Visited h us → (v : Commit) × In v us × (v.hash ≡ h)
Visited-In h [] a = elim a [ ]
Visited-In h (u ∷ us) (now e) = (u, now refl, e)
Visited-In h (u ∷ us) (later a) = let (v, b, e) = Visited-In h us a in (v, later b, e)

In-Visited : (v : Commit) (us : List Commit) → In v us → Visited v.hash us
In-Visited v [] a = elim a [ ]
In-Visited v (u ∷ us) (now e) = now (ap (λ (x : Commit). x.hash) e)
In-Visited v (u ∷ us) (later a) = later (In-Visited v us a)

From-Stored :
    (repo : CommitRepo) (ext ignore : List Text) (start c : Commit)
    → Stored repo start
    → From repo ext ignore start c
    → Stored repo c
From-Stored repo ext ignore start c known (root free) = known
From-Stored repo ext ignore start c known (step {c = b} reached parent free) =
    Parent-Stored repo b c parent

-- The commits with a hash among those reached.
reached_iff :
    (repo : CommitRepo) (start c : Commit) (us : List Commit)
    → Stored repo start
    → Stored repo c
    → ((d : Commit) → In d us ↔ From repo [] [] start d)
    → Visited c.hash us ↔ From repo [] [] start c
reached_iff repo start c us known known_c exact = (
  λ a.
      let (v, b, e) = Visited-In c.hash us a in
      let from_v = (exact v).0 b in
      let same : v ≡ c =
        some-injective _ _ (
          sym (From-Stored repo [] [] start v known from_v)
          ∙ (ap (find_commit repo) e ∙ known_c)) in
      subst (From repo [] [] start) same from_v,
  λ from_c. In-Visited c us ((exact c).1 from_c),
)

-- In a complete store, with fuel for more commits than the store has, `IsAncestor` answers, and says
-- yes exactly if the first commit can be reached from the second over parents; both are stored.
pub is_ancestor_total :
    (repo : CommitRepo) (c other : Commit) (f : ℕ)
    → IsComplete repo
    → Stored repo c
    → Stored repo other
    → length repo < f
    → (b : Bool) × (is_ancestor f repo c other ≡ some (ok b))
      × ((b ≡ true) ↔ From repo [] [] other c)
unfolding is_ancestor
is_ancestor_total repo c other f whole known_c known h =
    let (us, run, exact, _) = preorder_walk_total repo [] [] other f whole known h in
    let (b, looked, l) =
      look_walk (preorder_next repo []) c.hash f [] us (new_preorder other []) run in
    let reached = reached_iff repo other c us known known_c exact in
    (
      b,
      looked,
      (
        λ e. reached.0 (l.found e),
        λ from_c. elim (l.seen (reached.1 from_c)) [ inl e ↦ e | inr a ↦ absurd (elim a [ ]) ],
      ),
    )

-- In a complete store, with fuel for more commits than the store has, `ancestorsIndex` of two stored
-- commits fails with `errIsReachable` if the excluded one can be reached from the starting one, and
-- otherwise gives an index, whose keys are the hashes of the commits that can be reached.
pub ancestors_index_total :
    (repo : CommitRepo) (excluded starting : Commit) (f : ℕ)
    → IsComplete repo
    → Stored repo excluded
    → Stored repo starting
    → length repo < f
    → (From repo [] [] starting excluded
        × (ancestors_index f repo excluded starting ≡ some (err is_reachable)))
      ⊎ ((¬ From repo [] [] starting excluded)
          × (index : List Text) × (ancestors_index f repo excluded starting ≡ some (ok index))
          × ((c : Commit)
              → Stored repo c
              → (contains index c.hash ≡ true) ↔ From repo [] [] starting c))
unfolding ancestors_index contains skipped
ancestors_index_total repo excluded starting f whole known_e known h =
    let (us, run, exact, _) = bfs_walk_total repo [] [] starting f whole known h in
    let walk =
      index_walk (bfs_next repo []) excluded.hash f [] us (new_bfs starting []) []
        (λ g. (λ e. cc, λ a. absurd (elim a [ ]))) run in
    let reached = reached_iff repo starting excluded us known known_e exact in
    elim (Bool-cases (text_eq excluded.hash starting.hash)) [
      | inl q ↦
          let same : starting ≡ excluded = some-injective _ _ (
            sym known
            ∙ (ap (find_commit repo) (sym ((text_eq_iff excluded.hash starting.hash).0 q))
                ∙ known_e)) in
          inl (subst (From repo [] [] starting) same (root refl), rw q)
      | inr q ↦ elim walk [
        | inl (failed, a) ↦ inl (reached.0 a, rw q failed)
        | inr (index, done, all, unseen) ↦ inr (
          λ from_e. absurd (elim (unseen (reached.1 from_e)) [ ]),
          index,
          rw q done,
          λ c known_c.
              let r = reached_iff repo starting c us known known_c exact in
              (λ e. r.0 ((all c.hash).0 e), λ e. (all c.hash).1 (r.1 e)),
        )
      ]
    ]
