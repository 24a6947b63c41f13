-- ===== src/Version/Changes/Order.antt =====
-- `strings.Compare` is a strict total order.
use Prim.Native.Nat.{Ordering}
use jiaozifs.Prelude.{◌≡◌, refl, arith, [], ◌∷◌, Text, text_compare, text_compare_self}

abbrev pub Lt : Text → Text → Type 0
Lt s t = text_compare s t ≡ Ordering.lt

pub text_compare-eq : (s t : Text) → text_compare s t ≡ Ordering.eq → s ≡ t
unfolding text_compare
text_compare-eq [] [] e = refl
text_compare-eq [] (b ∷ t) e = cc
text_compare-eq (a ∷ s) [] e = cc
text_compare-eq (a ∷ s) (b ∷ t) e = ground (arith, text_compare-eq s t)

pub text_compare-gt : (s t : Text) → text_compare s t ≡ Ordering.gt → Lt t s
unfolding text_compare
text_compare-gt [] [] e = cc
text_compare-gt [] (b ∷ t) e = cc
text_compare-gt (a ∷ s) [] e = refl
text_compare-gt (a ∷ s) (b ∷ t) e = ground (arith, text_compare-gt s t)

pub Lt-trans : (s t u : Text) → Lt s t → Lt t u → Lt s u
unfolding text_compare
Lt-trans [] [] u h k = cc
Lt-trans [] (b ∷ t) [] h k = cc
Lt-trans [] (b ∷ t) (c ∷ u) h k = refl
Lt-trans (a ∷ s) [] u h k = cc
Lt-trans (a ∷ s) (b ∷ t) [] h k = cc
Lt-trans (a ∷ s) (b ∷ t) (c ∷ u) h k = ground (arith, Lt-trans s t u)

pub not-Lt_self : (s : Text) → ¬ Lt s s
not-Lt_self s h = cc (text_compare_self s)
