-- ===== src/Base/Order/TextOrder.antt =====
-- `<` on texts is a strict order, and texts of which neither is less are equal.
use Prim.Native.Nat.{Ordering}
use Prim.Native.String.{String, [], ◌∷◌, compare as compare_text}
use Prim.Native.String.compare
use mathlib.Core.Path.{◌≡◌}
use mathlib.Core.Bool.{true, false}
use native.Mathlib.Omega.{arith}
use text.Mathlib.TextEquality.{path_by_compare}
use omni_cluster_operator.Base.Order.{text_lt, IsStrictOrder}

flip : Ordering → Ordering
flip Ordering.lt = Ordering.gt
flip Ordering.eq = Ordering.eq
flip Ordering.gt = Ordering.lt

compare-flip : (s t : String) → compare_text t s ≡ flip (compare_text s t)
unfolding flip
compare-flip [] [] = ground (arith, compare.nil-nil)
compare-flip [] (d ∷ t) = ground (arith, compare.nil-cons d t, compare.cons-nil d t)
compare-flip (c ∷ s) [] = ground (arith, compare.nil-cons c s, compare.cons-nil c s)
compare-flip (c ∷ s) (d ∷ t) =
    ground (arith, compare.cons-cons c d s t, compare.cons-cons d c t s, compare-flip s t)

pub text_lt_asym : (s t : String) → text_lt s t ≡ true → text_lt t s ≡ false
unfolding flip
text_lt_asym s t h = ground (arith, compare-flip s t)

pub eq_of_not-text_lt : (s t : String) → text_lt s t ≡ false → text_lt t s ≡ false → s ≡ t
unfolding flip
eq_of_not-text_lt s t h k = path_by_compare s t (ground (arith, compare-flip s t))

pub not-text_lt_trans :
    (s t u : String) → text_lt t s ≡ false → text_lt u t ≡ false → text_lt u s ≡ false
not-text_lt_trans [] [] u h k = k
not-text_lt_trans [] (d ∷ t) [] h k = ground (arith, compare.nil-nil)
not-text_lt_trans [] (d ∷ t) (e ∷ u) h k = ground (arith, compare.cons-nil e u)
not-text_lt_trans (c ∷ s) [] u h k = ground (arith, compare.nil-cons c s)
not-text_lt_trans (c ∷ s) (d ∷ t) [] h k = ground (arith, compare.nil-cons d t)
not-text_lt_trans (c ∷ s) (d ∷ t) (e ∷ u) h k = ground (
  arith,
  compare.cons-cons d c t s,
  compare.cons-cons e d u t,
  compare.cons-cons e c u s,
  not-text_lt_trans s t u,
)

-- A comparison of keys is a strict order.
pub key_order-IsStrictOrder {ℓ} :
    {A : Type ℓ} (key : A → String) → IsStrictOrder (λ x y. text_lt (key x) (key y))
key_order-IsStrictOrder key = record {
  asym = λ x y. text_lt_asym (key x) (key y);
  not_less_trans = λ x y z. not-text_lt_trans (key x) (key y) (key z);
}
