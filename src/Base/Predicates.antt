-- ===== src/Base/Predicates.antt =====
-- Predicates on lists by recursion: they compute to products, which the tactics take apart.
use mathlib.Core.Path.{◌≡◌, refl, sym, subst}
use mathlib.Core.Logic.{◌≢◌}
use mathlib.Core.Logic.Or
use mathlib.Core.List.{
  List, [], ◌∷◌, ◌++◌, Mem, Perm, mem-cons, mem-cons_self, mem-cons_of_mem, not-mem-nil,
}
use mathlib.Core.List.Perm

abbrev pub All {ℓ} : {A : Type ℓ} → (A → Type 0) → List A → Type 0
All P [] = Unit
All P (a ∷ l) = P a × All P l

abbrev pub NotIn {ℓ} : {A : Type ℓ} → A → List A → Type ℓ
NotIn a [] = Unit
NotIn a (b ∷ l) = (a ≢ b) × NotIn a l

-- No element stands twice.
abbrev pub Distinct {ℓ} : {A : Type ℓ} → List A → Type ℓ
Distinct [] = Unit
Distinct (a ∷ l) = NotIn a l × Distinct l

pub All-of_mem {ℓ} :
    {A : Type ℓ} (P : A → Type 0) (l : List A) → ((a : A) → Mem a l → P a) → All P l
All-of_mem P [] h = tt
All-of_mem P (a ∷ l) h = (h a mem-cons_self, All-of_mem P l (λ b m. h b (mem-cons_of_mem a m)))

pub append-eq-nil {ℓ} : {A : Type ℓ} (l m : List A) → l ++ m ≡ [] → (l ≡ []) × (m ≡ [])
append-eq-nil [] m h = (refl, h)
append-eq-nil (a ∷ l) m h = absurd (cc h)

pub mem-All {ℓ} :
    {A : Type ℓ} (P : A → Type 0) (prop : (a : A) → IsProp (P a)) (l : List A) (b : A)
    → All P l
    → Mem b l
    → P b
mem-All P prop [] b h m = absurd (not-mem-nil m)
mem-All P prop (a ∷ l) b h m =
    Or.elim (prop b) (mem-cons.0 m) (λ e. subst P (sym e) h.0) (mem-All P prop l b h.1)

pub All-perm {ℓ} :
    {A : Type ℓ} (P : A → Type 0) (prop : (a : A) → IsProp (P a)) (l m : List A)
    → Perm l m
    → All P l
    → All P m
All-perm P prop l m p h = All-of_mem P m (λ a a_in. mem-All P prop l a h ((Perm.mem_iff p).1 a_in))
