-- ===== src/Prelude/Lists.antt =====
-- Lists measured and cut by native numbers, and predicates on their elements.
use Prim.Native.Nat.{ℕ, zero, suc, ◌+◌, ◌-◌}
use mathlib.Core.Path.{◌≡◌, refl, ap, ◌∙◌}
use mathlib.Core.Bool.{Bool, true, false}
use mathlib.Core.List.{List, [], ◌∷◌, ◌++◌, map, map-append, reverse, reverse-cons, reverse-append}
use mathlib.Core.Option.{Option, none, some}
use mathlib.Core.Logic.{◌⊎◌, inl, inr, ◌↔◌}
use native.Mathlib.Omega.{arith}

module _ {ℓ} {A : Type ℓ} where
  abbrev pub length : List A → ℕ
  length [] = 0
  length (x ∷ xs) = suc (length xs)

  abbrev pub is_empty : List A → Bool
  is_empty [] = true
  is_empty (x ∷ xs) = false

  abbrev pub get_elem? : List A → ℕ → Option A
  get_elem? [] i = none
  get_elem? (x ∷ xs) zero = some x
  get_elem? (x ∷ xs) (suc i) = get_elem? xs i

  abbrev pub drop : ℕ → List A → List A
  drop zero xs = xs
  drop (suc n) [] = []
  drop (suc n) (x ∷ xs) = drop n xs

  pub length-append : (xs ys : List A) → length (xs ++ ys) ≡ length xs + length ys
  length-append [] ys = omega arith
  length-append (x ∷ xs) ys = omega (arith, length-append xs ys)

  pub length-drop : (n : ℕ) (xs : List A) → length (drop n xs) ≡ length xs - n
  length-drop zero xs = omega arith
  length-drop (suc n) [] = omega arith
  length-drop (suc n) (x ∷ xs) = omega (arith, length-drop n xs)

  pub drop-nil : (n : ℕ) → drop n [] ≡ []
  drop-nil zero = refl
  drop-nil (suc n) = refl

  pub List-cases : (xs : List A) → (xs ≡ []) ⊎ ((x : A) × (rest : List A) × (xs ≡ x ∷ rest))
  List-cases [] = inl refl
  List-cases (x ∷ xs) = inr (x, xs, refl)

module _ {ℓ κ} {A : Type ℓ} where
  -- A predicate by recursion computes to tuples, which the tactics read and build.
  abbrev pub All : (A → Type κ) → List A → Type κ
  All P [] = Unit
  All P (x ∷ xs) = P x × All P xs

  -- Some element has the property, with its place.
  pub data Any (P : A → Type κ) : List A → Type (ℓ ⊔ κ) where
    now : {x : A} {xs : List A} → P x → Any P (x ∷ xs)
    later : {x : A} {xs : List A} → Any P xs → Any P (x ∷ xs)

  pub Any-cons : (P : A → Type κ) (x : A) (xs : List A) → Any P (x ∷ xs) ↔ (P x ⊎ Any P xs)
  Any-cons P x xs = (λ a. Any-uncons a, λ s. elim s [ inl p ↦ now p | inr a ↦ later a ])
    where
      Any-uncons : Any P (x ∷ xs) → P x ⊎ Any P xs
      Any-uncons (now p) = inl p
      Any-uncons (later a) = inr a

  pub not-Any-nil : (P : A → Type κ) → ¬ Any P []
  not-Any-nil P a = elim a [ ]

  pub Any-append_left : (P : A → Type κ) {xs : List A} (ys : List A) → Any P xs → Any P (xs ++ ys)
  Any-append_left P ys (now p) = now p
  Any-append_left P ys (later a) = later (Any-append_left P ys a)

  pub Any-append_right : (P : A → Type κ) (xs : List A) {ys : List A} → Any P ys → Any P (xs ++ ys)
  Any-append_right P [] a = a
  Any-append_right P (x ∷ xs) a = later (Any-append_right P xs a)

  pub Any-append_cases : (P : A → Type κ) (xs ys : List A) → Any P (xs ++ ys) → Any P xs ⊎ Any P ys
  Any-append_cases P [] ys a = inr a
  Any-append_cases P (x ∷ xs) ys (now p) = inl (now p)
  Any-append_cases P (x ∷ xs) ys (later a) = elim (Any-append_cases P xs ys a) [
    | inl l ↦ inl (later l)
    | inr r ↦ inr r
  ]

  pub All-drop : (P : A → Type κ) (n : ℕ) (xs : List A) → All P xs → All P (drop n xs)
  All-drop P zero xs h = h
  All-drop P (suc n) [] h = h
  All-drop P (suc n) (x ∷ xs) h = All-drop P n xs h.1

  pub All-append_right : (P : A → Type κ) (xs ys : List A) → All P (xs ++ ys) → All P ys
  All-append_right P [] ys h = h
  All-append_right P (x ∷ xs) ys h = All-append_right P xs ys h.1

module _ {ℓ} {A : Type ℓ} where
  pub is_empty-true : (xs : List A) → is_empty xs ≡ true → xs ≡ []
  is_empty-true [] e = refl
  is_empty-true (x ∷ xs) e = cc

  pub reverse-snoc : (xs : List A) (x : A) → reverse (xs ++ x ∷ []) ≡ x ∷ reverse xs
  reverse-snoc xs x = reverse-append xs (x ∷ [])

pub reverse-map-reverse {ℓ κ} :
    {A : Type ℓ} {B : Type κ} (f : A → B) (xs : List A) → reverse (map f (reverse xs)) ≡ map f xs
reverse-map-reverse f [] = refl
reverse-map-reverse f (x ∷ xs) =
    ap (λ l. reverse (map f l)) (reverse-cons x xs)
    ∙ ap reverse (map-append f (reverse xs) (x ∷ []))
    ∙ reverse-snoc (map f (reverse xs)) (f x)
    ∙ ap (λ l. f x ∷ l) (reverse-map-reverse f xs)
