-- ===== src/Base/Order.antt =====
-- `sort.Slice`: the result is an ordered rearrangement; which one, where the order leaves a choice,
-- the documentation does not say. The order of texts is that of `<` on Go strings.
pub mod TextOrder
pub mod Unique
pub mod Insertion
use Prim.Native.String.{String, compare}
use mathlib.Core.Path.{◌≡◌}
use mathlib.Core.Bool.{Bool, true, false}
use mathlib.Core.List.{List, Perm, Pairwise}
use text.Mathlib.Text.{is_lt}

abbrev pub text_lt : String → String → Bool
text_lt s t = is_lt (compare s t)

-- What `sort.Slice` asks of `less`: a strict order whose ties are transitive.
pub record IsStrictOrder {ℓ} {A : Type ℓ} (less : A → A → Bool) : Type ℓ where
  pub asym : (x y : A) → less x y ≡ true → less y x ≡ false
  pub not_less_trans : (x y z : A) → less y x ≡ false → less z y ≡ false → less z x ≡ false

-- No later element is less than an earlier one.
abbrev pub IsOrdered {ℓ} : {A : Type ℓ} → (A → A → Bool) → List A → Type ℓ
IsOrdered less = Pairwise (λ x y. less y x ≡ false)

pub record Sorter : Type 1 where
  pub sort : (A : Type 0) → (A → A → Bool) → List A → List A
  pub sort-perm : (A : Type 0) (less : A → A → Bool) (l : List A) → Perm (sort A less l) l
  pub sort-IsOrdered :
      (A : Type 0) (less : A → A → Bool) (l : List A)
      → IsStrictOrder less
      → IsOrdered less (sort A less l)
