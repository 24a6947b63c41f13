-- ===== src/Version/Changes/Conflict.antt =====
-- When two changes of one path are in conflict, and what a merge takes for them.
use jiaozifs.Prelude.{
  ◌≡◌, ◌≢◌, ◌↔◌, ◌⊎◌, inl, inr, refl, arith, Bool, true, false, not, [], ◌∷◌, Option, none, some,
}
use jiaozifs.Prelude.{Result, ok, err, Text, text_eq, text_eq_iff, if◌then◌else◌, is_empty}
use mathlib.Core.Option
use jiaozifs.Merkletrie.Noder.{Noder, NoderPath, node_hash, path_last}
use jiaozifs.Merkletrie.Change.{Change}
use jiaozifs.Version.Changes.{ChangeError, action_not_match, conflicts, path_hash, differ}

abbrev change : NoderPath → NoderPath → Change
change f t = record { from = f; to = t }

-- What a change leaves at its path: the hash of the new node, or nothing.
abbrev pub outcome : Change → Option Text
outcome c = Option.map node_hash (path_last c.to)

-- One of the two is no change at all.
abbrev pub IsProper : Change → Type 0
IsProper c = (c.from ≢ []) ⊎ (c.to ≢ [])

-- Both changes start from a path that was there, or both from one that was not.
abbrev pub SameBase : Change → Change → Type 0
SameBase l r = (is_empty l.from ≡ is_empty r.from)

last-cons : (n : Noder) (p : NoderPath) → (m : Noder) × (path_last (n ∷ p) ≡ some m)
unfolding path_last
last-cons n [] = (n, refl)
last-cons n (m ∷ p) = last-cons m p

abbrev outcome_eq : Option Text → Option Text → Bool
outcome_eq none none = true
outcome_eq none (some b) = false
outcome_eq (some a) none = false
outcome_eq (some a) (some b) = text_eq a b

outcome_eq_iff : (a b : Option Text) → (outcome_eq a b ≡ true) ↔ (a ≡ b)
outcome_eq_iff none none = ground arith
outcome_eq_iff none (some b) = ground arith
outcome_eq_iff (some a) none = ground arith
outcome_eq_iff (some a) (some b) = ground (arith, text_eq_iff a b)

-- The hashes are compared only where both changes leave a node.
differ-outcome :
    (f g : NoderPath) (n m : Noder) (p q : NoderPath)
    → differ (change f (n ∷ p)) (change g (m ∷ q))
      ≡ ok (not (outcome_eq (outcome (change f (n ∷ p))) (outcome (change g (m ∷ q)))))
unfolding differ path_hash
differ-outcome f g n m p q = let (a, e) = last-cons n p in let (b, e') = last-cons m q in rw (e, e')

kept :
    (f : NoderPath) (n : Noder) (p : NoderPath) → (h : Text) × (outcome (change f (n ∷ p)) ≡ some h)
kept f n p = let (a, e) = last-cons n p in (node_hash a, rw e)

abbrev expected : Change → Change → Result ChangeError Bool
expected l r =
    if is_empty l.from
    then (if is_empty r.from
        then ok (not (outcome_eq (outcome l) (outcome r)))
        else err action_not_match)
    else if is_empty r.from
    then err action_not_match
    else ok (not (outcome_eq (outcome l) (outcome r)))

conflicts_fields :
    (f t g u : NoderPath)
    → IsProper (change f t)
    → IsProper (change g u)
    → conflicts (change f t) (change g u) ≡ expected (change f t) (change g u)
unfolding conflicts path_last
conflicts_fields [] [] g u h k = absurd (elim h [ inl e ↦ e refl | inr e ↦ e refl ])
conflicts_fields (a ∷ f) [] [] [] h k = absurd (elim k [ inl e ↦ e refl | inr e ↦ e refl ])
conflicts_fields (a ∷ f) (b ∷ t) [] [] h k = absurd (elim k [ inl e ↦ e refl | inr e ↦ e refl ])
conflicts_fields [] (b ∷ t) [] [] h k = absurd (elim k [ inl e ↦ e refl | inr e ↦ e refl ])
conflicts_fields [] (b ∷ t) [] (d ∷ u) h k = differ-outcome [] [] b d t u
conflicts_fields [] (b ∷ t) (c ∷ g) [] h k = refl
conflicts_fields [] (b ∷ t) (c ∷ g) (d ∷ u) h k = refl
conflicts_fields (a ∷ f) [] [] (d ∷ u) h k = refl
conflicts_fields (a ∷ f) [] (c ∷ g) [] h k = refl
conflicts_fields (a ∷ f) [] (c ∷ g) (d ∷ u) h k = let (x, e) = kept (c ∷ g) d u in rw e
conflicts_fields (a ∷ f) (b ∷ t) [] (d ∷ u) h k = refl
conflicts_fields (a ∷ f) (b ∷ t) (c ∷ g) [] h k = let (x, e) = kept (a ∷ f) b t in rw e
conflicts_fields (a ∷ f) (b ∷ t) (c ∷ g) (d ∷ u) h k = differ-outcome (a ∷ f) (c ∷ g) b d t u

conflicts-expected : (l r : Change) → IsProper l → IsProper r → conflicts l r ≡ expected l r
conflicts-expected l r h k = conflicts_fields l.from l.to r.from r.to h k

-- Two changes of one path, neither of them empty, are in conflict exactly if they leave different
-- things there, and that is decided exactly if both found a node there or both found none; if only
-- one did, the test fails with `action_not_match`.
pub conflicts_iff :
    (l r : Change)
    → IsProper l
    → IsProper r
    → ((conflicts l r ≡ ok true) ↔ (SameBase l r × (outcome l ≢ outcome r)))
      × ((conflicts l r ≡ ok false) ↔ (SameBase l r × (outcome l ≡ outcome r)))
      × ((conflicts l r ≡ err action_not_match) ↔ (¬ SameBase l r))
conflicts_iff l r h k =
    let e = conflicts-expected l r h k in
    let same = outcome_eq_iff (outcome l) (outcome r) in (ground arith, ground arith, ground arith)
