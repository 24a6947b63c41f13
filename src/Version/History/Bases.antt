-- ===== src/Version/History/Bases.antt =====
-- versionmgr/merge_base.go: what is left without duplicates, and the merge base
-- where one commit can be reached from the other.
use jiaozifs.Prelude.{ℕ, ◌<◌, ◌≡◌, ◌↔◌, inl, inr, arith, true, false, Bool-cases}
use jiaozifs.Prelude.{List, [], ◌∷◌, some, ok, Text, text_eq_iff, contains, length, Any-cons}
use jiaozifs.Version.History.{Commit, CommitRepo}
use jiaozifs.Version.History.Walker.{Stored, IsComplete}
use jiaozifs.Version.History.Visits.{From, Visited, IsDistinct}
use jiaozifs.Version.History.Ancestor.{ancestors_index_total}
use jiaozifs.Version.History.MergeBase.{
  remove_duplicated, sort_by_commit_date_desc, merge_base, merge_base_of,
}

remove_duplicated-Visited :
    (cs : List Commit) (seen : List Text) (h : Text)
    → Visited h (remove_duplicated seen cs) ↔ (Visited h cs × (contains seen h ≡ false))
unfolding remove_duplicated contains
remove_duplicated-Visited [] seen h = (λ a. absurd (elim a [ ]), λ a. absurd (elim a.0 [ ]))
remove_duplicated-Visited (c ∷ cs) seen h = elim (Bool-cases (contains seen c.hash)) [
  | inl e ↦
      rw e (ground (arith, remove_duplicated-Visited cs seen h, Any-cons (λ v. v.hash ≡ h) c cs))
  | inr e ↦ rw e (
      ground (
        arith,
        remove_duplicated-Visited cs (c.hash ∷ seen) h,
        Any-cons (λ v. v.hash ≡ h) c cs,
        Any-cons (λ v. v.hash ≡ h) c (remove_duplicated (c.hash ∷ seen) cs),
        text_eq_iff c.hash h,
      ))
]

contains_itself : (h : Text) (seen : List Text) → contains (h ∷ seen) h ≡ true
unfolding contains
contains_itself h seen = ground (arith, text_eq_iff h h)

remove_duplicated-IsDistinct :
    (cs : List Commit) (seen : List Text) → IsDistinct (remove_duplicated seen cs)
unfolding remove_duplicated
remove_duplicated-IsDistinct [] seen = tt
remove_duplicated-IsDistinct (c ∷ cs) seen = elim (Bool-cases (contains seen c.hash)) [
  | inl e ↦ rw e (remove_duplicated-IsDistinct cs seen)
  | inr e ↦ rw e (
    λ a.
        let h = (remove_duplicated-Visited cs (c.hash ∷ seen) c.hash).0 a in
        absurd (ground (arith, h.1, contains_itself c.hash seen)),
    remove_duplicated-IsDistinct cs (c.hash ∷ seen),
  )
]

-- Without duplicates no two commits have one hash, and no hash is lost or new.
pub remove_duplicated_iff :
    (cs : List Commit)
    → IsDistinct (remove_duplicated [] cs)
      × ((h : Text) → Visited h (remove_duplicated [] cs) ↔ Visited h cs)
unfolding contains
remove_duplicated_iff cs =
    (remove_duplicated-IsDistinct cs [], λ h. ground (arith, remove_duplicated-Visited cs [] h))

-- In a complete store, with fuel for more commits than the store has: if sorting by date puts two
-- stored commits as newer and older, and the older can be reached from the newer, then the older is
-- their only merge base.
pub merge_base_reachable :
    (repo : CommitRepo) (c other newer older : Commit) (f : ℕ)
    → IsComplete repo
    → Stored repo newer
    → Stored repo older
    → sort_by_commit_date_desc (c ∷ other ∷ []) ≡ newer ∷ older ∷ []
    → From repo [] [] newer older
    → length repo < f
    → merge_base f repo c other ≡ some (ok (older ∷ []))
unfolding merge_base merge_base_of
merge_base_reachable repo c other newer older f whole known_n known_o sorted reached h =
    elim (ancestors_index_total repo older newer f whole known_o known_n h) [
      | inl (_, failed) ↦ rw (sorted, failed, merge_base_of)
      | inr apart ↦ absurd (apart.0 reached)
    ]
