-- ===== src/Version/History/MergeBase.antt =====
-- versionmgr/merge_base.go and commit_walker_bfs_filtered.go: the filtered walk, the commits
-- independent of each other, and the search for merge bases.
use jiaozifs.Prelude.{ℕ, zero, suc, Bool, true}
use jiaozifs.Prelude.{
  List, [], ◌∷◌, ◌++◌, Option, none, some, Result, ok, err, ◌>>=◌, Text, text_eq, contains, ltb,
  leb, ◌==◌, if◌then◌else◌, get_elem?, length,
}
use jiaozifs.Version.History.{
  Commit, CommitRepo, WalkError, is_reachable, Signal, go_on, stop, fail, get_commit,
}
use jiaozifs.Version.History.Ancestor.{ancestors_index}

pub record FilterIter : Type 0 where
  pub visited : List Text
  pub queue : List Commit

-- `NewFilterCommitIter`; the filters are arguments of the loop.
unfoldable pub new_filter : Commit → FilterIter
new_filter from = record { visited = []; queue = from ∷ [] }

-- `popNewFromQueue`; `none` is `io.EOF`.
unfoldable pub pop_new : List Text → List Commit → Option (Commit × List Commit)
unfolding contains
pop_new visited [] = none
pop_new visited (c ∷ queue) =
    let rest = pop_new visited queue in if contains visited c.hash then rest else some (c, queue)

-- `addToQueue`
unfoldable pub add_to_queue :
    CommitRepo → List Text → List Commit → List Text → Result WalkError (List Commit)
unfolding contains get_commit
add_to_queue repo visited queue [] = ok queue
add_to_queue repo visited queue (h ∷ hs) =
    let rest = add_to_queue repo visited queue hs in
    let added = get_commit repo h >>= λ c. add_to_queue repo visited (queue ++ c ∷ []) hs in
    if contains visited h then rest else added

-- One round of the loop of `Next`, up to the test of validity.
unfoldable pub filter_round :
    CommitRepo → (Commit → Bool) → FilterIter → Result WalkError (Option (Commit × FilterIter))
unfolding pop_new add_to_queue
filter_round repo is_limit w = elim (pop_new w.visited w.queue) [
  | none ↦ ok none
  | some (c, queue) ↦
      let visited' : List Text = c.hash ∷ w.visited in
      let open_end = add_to_queue repo visited' queue c.parent_hashes in
      let queue' : Result WalkError (List Commit) = if is_limit c then ok queue else open_end in
      queue' >>= λ q. ok (some (c, record { visited = visited'; queue = q }))
]

-- `ForEach` of the filtered walk, with fuel for its rounds. The filters may read the callback's
-- variables, which are threaded through; an error leaves them as they are.
module _ {A : Type 0} (repo : CommitRepo) (is_valid is_limit : A → Commit → Bool)
    (cb : A → Commit → Signal A) where
  unfoldable pub filter_each : ℕ → A → FilterIter → Option (A × Option WalkError)
  unfolding filter_round
  filter_each zero a w = none
  filter_each (suc f) a w = elim (filter_round repo (is_limit a) w) [
    | err e ↦ some (a, some e)
    | ok none ↦ some (a, none)
    | ok (some (c, w')) ↦
        let called : Option (A × Option WalkError) = elim (cb a c) [
          | go_on a' ↦ filter_each f a' w'
          | stop a' ↦ some (a', none)
          | fail e ↦ some (a, some e)
        ] in
        let passed = filter_each f a w' in if is_valid a c then called else passed
  ]

unfoldable pub insert_by_date : Commit → List Commit → List Commit
insert_by_date c [] = c ∷ []
insert_by_date c (d ∷ ds) =
    let later_on = insert_by_date c ds in if ltb c.when d.when then d ∷ later_on else c ∷ (d ∷ ds)

-- `sortByCommitDateDesc`. The library leaves the order of equal times open; here the earlier in the
-- slice is first.
unfoldable pub sort_by_commit_date_desc : List Commit → List Commit
unfolding insert_by_date
sort_by_commit_date_desc [] = []
sort_by_commit_date_desc (c ∷ cs) = insert_by_date c (sort_by_commit_date_desc cs)

-- `indexOf` plus one, which is 0 for a commit that is not there.
unfoldable pub position_after : List Commit → Commit → ℕ
unfolding text_eq
position_after [] target = 0
position_after (c ∷ cs) target =
    let rest = position_after cs target in
    if text_eq target.hash c.hash then 1 else if rest == 0 then 0 else suc rest

unfoldable pub remove : List Commit → Commit → List Commit
unfolding text_eq
remove [] to_delete = []
remove (c ∷ cs) to_delete =
    let rest = remove cs to_delete in if text_eq c.hash to_delete.hash then rest else c ∷ rest

-- `removeDuplicated`, with the set of the hashes seen.
unfoldable pub remove_duplicated : List Text → List Commit → List Commit
unfolding contains
remove_duplicated seen [] = []
remove_duplicated seen (c ∷ cs) =
    if contains seen c.hash
    then remove_duplicated seen cs
    else c ∷ remove_duplicated (c.hash ∷ seen) cs

-- The variables of `Independents`.
pub record Candidates : Type 0 where
  pub candidates : List Commit
  pub others : List Commit
  pub seen : List Text

-- The loop of the callback over the others.
unfoldable pub drop_reached : Commit → List Commit → Candidates → Candidates
unfolding text_eq remove
drop_reached ancestor [] s = s
drop_reached ancestor (other ∷ snapshot) s =
    let s' =
      if text_eq ancestor.hash other.hash
      then record s { candidates = remove s.candidates other; others = remove s.others other }
      else s in
    drop_reached ancestor snapshot s'

unfoldable pub independents_callback : Candidates → Commit → Signal Candidates
unfolding drop_reached
independents_callback s ancestor =
    let s' = drop_reached ancestor s.others s in
    if length s'.candidates == 1
    then stop s'
    else go_on (record s' { seen = ancestor.hash ∷ s'.seen })

-- The loop over the positions, with fuel for its rounds and `f` for each walk. The position always
-- is one of a candidate.
unfoldable pub independents_loop :
    ℕ → CommitRepo → ℕ → ℕ → List Commit → List Text → Option (Result WalkError (List Commit))
unfolding filter_each new_filter independents_callback remove position_after contains
independents_loop f repo zero pos candidates seen = none
independents_loop f repo (suc g) pos candidates seen = elim (get_elem? candidates pos) [
  | none ↦ some (ok candidates)
  | some from ↦
      elim (filter_each repo (λ s c. true) (λ (s : Candidates) c. contains s.seen c.hash)
        independents_callback f
        (record { candidates = candidates; others = remove candidates from; seen = seen })
        (new_filter from)) [
          | none ↦ none
          | some (s, some e) ↦ some (err e)
          | some (s, none) ↦
              let next =
                independents_loop f repo g (position_after s.candidates from) s.candidates s.seen in
              if leb (length s.candidates) (position_after s.candidates from)
              then some (ok s.candidates)
              else next
        ]
]

-- `Independents`
unfoldable pub independents : ℕ → CommitRepo → List Commit → Option (Result WalkError (List Commit))
unfolding sort_by_commit_date_desc remove_duplicated independents_loop
independents f repo commits =
    let candidates = remove_duplicated [] (sort_by_commit_date_desc commits) in
    if ltb (length candidates) 2
    then some (ok candidates)
    else independents_loop f repo f 0 candidates []

-- The end of `MergeBase`, on the index of the newer history; an error of the walk is dropped.
unfoldable pub bases_in :
    ℕ → CommitRepo → Commit → List Text → Option (Result WalkError (List Commit))
unfolding filter_each new_filter independents contains
bases_in f repo older index =
    elim (filter_each repo (λ (s : List Commit) c. contains index c.hash)
      (λ s c. contains index c.hash) (λ s c. go_on (s ++ c ∷ [])) f [] (new_filter older)) [
        | none ↦ none
        | some (res, e) ↦ independents f repo res
      ]

-- The rest of `MergeBase`, on the two sorted commits; a list of another length never comes.
unfoldable pub merge_base_of :
    ℕ → CommitRepo → List Commit → Option (Result WalkError (List Commit))
unfolding ancestors_index bases_in
merge_base_of f repo (newer ∷ older ∷ _) = elim (ancestors_index f repo older newer) [
  | none ↦ none
  | some (err is_reachable) ↦ some (ok (older ∷ []))
  | some (err e) ↦ some (err e)
  | some (ok index) ↦ bases_in f repo older index
]
merge_base_of f repo _ = none

-- `MergeBase`, with fuel for every walk and for the loop over positions.
unfoldable pub merge_base :
    ℕ → CommitRepo → Commit → Commit → Option (Result WalkError (List Commit))
unfolding merge_base_of sort_by_commit_date_desc
merge_base f repo c other = merge_base_of f repo (sort_by_commit_date_desc (c ∷ other ∷ []))
