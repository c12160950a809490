-- ===== src/Base/Order/Unique.antt =====
-- Two ordered rearrangements of one list are equal where no two elements have one key.
use Prim.Native.String.{String}
use mathlib.Core.Path.{◌≡◌, sym, ◌∙◌, ap, ap₂}
use mathlib.Core.Bool.{false, Bool-set}
use native.Mathlib.Omega.{arith}
use mathlib.Core.HLevel.{¬_prop}
use mathlib.Core.Logic.{◌≢◌}
use mathlib.Core.Logic.Or
use mathlib.Core.List.{
  List, [], ◌∷◌, Mem, Perm, Pairwise, map, mem-cons, mem-cons_self, mem-cons_of_mem, not-mem-nil,
}
use mathlib.Core.List.Pairwise
use mathlib.Core.List.Perm
use omni_cluster_operator.Base.Predicates.{NotIn, Distinct}
use omni_cluster_operator.Base.Order.{text_lt, IsOrdered}
use omni_cluster_operator.Base.Order.TextOrder.{eq_of_not-text_lt, text_lt_asym}

module _ {A : Type 0} (key : A → String) where
  abbrev pub HasDistinctKeys : List A → Type 0
  HasDistinctKeys l = (a b : A) → Mem a l → Mem b l → key a ≡ key b → a ≡ b

  abbrev pub InKeyOrder : List A → Type 0
  InKeyOrder = IsOrdered (λ x y. text_lt (key x) (key y))

  head_not_less :
      (a : A) (l : List A) (b : A)
      → InKeyOrder (a ∷ l)
      → Mem b (a ∷ l)
      → text_lt (key b) (key a) ≡ false
  head_not_less a l b (Pairwise.cons below _) m =
      Or.elim (Bool-set _ _) (mem-cons.0 m)
        (λ e. rw e (ground (arith, text_lt_asym (key a) (key a)))) (λ later. below b later)

  heads_eq :
      (a b : A) (l r : List A)
      → InKeyOrder (a ∷ l)
      → InKeyOrder (b ∷ r)
      → Perm (a ∷ l) (b ∷ r)
      → HasDistinctKeys (a ∷ l)
      → a ≡ b
  heads_eq a b l r ol or p d =
      let b_in : Mem b (a ∷ l) = (Perm.mem_iff p).1 mem-cons_self in
      let a_in : Mem a (b ∷ r) = (Perm.mem_iff p).0 mem-cons_self in
      d a b mem-cons_self b_in (
        eq_of_not-text_lt (key a) (key b) (head_not_less b r a or a_in)
          (head_not_less a l b ol b_in))

  -- The order leaves no choice.
  pub InKeyOrder-unique :
      (l r : List A) → InKeyOrder l → InKeyOrder r → Perm l r → HasDistinctKeys l → l ≡ r
  InKeyOrder-unique [] r ol or p d = Perm.nil-eq p
  InKeyOrder-unique (a ∷ l) [] ol or p d = Perm.eq-nil p
  InKeyOrder-unique (a ∷ l) (b ∷ r) ol or p d =
      let heads = heads_eq a b l r ol or p d in
      let tails = Perm.cons_inv (Perm.trans p (Perm.symm (Perm.cons' heads Perm.rfl))) in
      ap₂ ◌∷◌ heads (
        InKeyOrder-unique l r (Pairwise.of_cons ol) (Pairwise.of_cons or) tails
          (λ u v mu mv. d u v (mem-cons_of_mem a mu) (mem-cons_of_mem a mv)))

  NotIn-mem : (s : String) (l : List A) (b : A) → NotIn s (map key l) → Mem b l → s ≢ key b
  NotIn-mem s [] b n m = absurd (not-mem-nil m)
  NotIn-mem s (a ∷ l) b n m = Or.elim ¬_prop (mem-cons.0 m) (λ e. rw e n.0) (NotIn-mem s l b n.1)

  -- Keys that are pairwise different tell the elements apart.
  pub Distinct-keys : IsSet A → (l : List A) → Distinct (map key l) → HasDistinctKeys l
  Distinct-keys is_set [] d a b ma mb e = absurd (not-mem-nil ma)
  Distinct-keys is_set (c ∷ l) d a b ma mb e =
      Or.elim (is_set a b) (mem-cons.0 ma)
        (λ ac.
          Or.elim (is_set a b) (mem-cons.0 mb) (λ bc. ac ∙ sym bc)
            (λ later. absurd (NotIn-mem (key c) l b d.0 later (ap key (sym ac) ∙ e))))
        (λ a_later.
          Or.elim (is_set a b) (mem-cons.0 mb)
            (λ bc. absurd (NotIn-mem (key c) l a d.0 a_later (ap key (sym bc) ∙ sym e)))
            (λ b_later. Distinct-keys is_set l d.1 a b a_later b_later e))
