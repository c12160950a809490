-- ===== src/Base/Order/Insertion.antt =====
-- Insertion sort: a function that keeps the documented promise of `sort.Slice`.
use mathlib.Core.Path.{◌≡◌}
use mathlib.Core.Logic.{inl, inr}
use mathlib.Core.Logic.Or
use mathlib.Core.Bool.{Bool, false, Bool-set}
use mathlib.Core.List.{List, [], ◌∷◌, Mem, Perm, Pairwise, Pairwise-singleton, mem-cons}
use mathlib.Core.List.Perm
use omni_cluster_operator.Base.Tests.{Bool-cases, if◌then◌else◌}
use omni_cluster_operator.Base.Order.{IsStrictOrder, IsOrdered, Sorter}

module _ (A : Type 0) (less : A → A → Bool) where
  insert : A → List A → List A
  insert a [] = a ∷ []
  insert a (b ∷ l) = if less b a then b ∷ insert a l else a ∷ b ∷ l

  unfoldable pub insertion_sort : List A → List A
  unfolding insert
  insertion_sort [] = []
  insertion_sort (a ∷ l) = insert a (insertion_sort l)

  insert-perm : (a : A) (l : List A) → Perm (insert a l) (a ∷ l)
  unfolding insert
  insert-perm a [] = Perm.refl _
  insert-perm a (b ∷ l) = elim (Bool-cases (less b a)) [
    | inl h ↦ rw h (Perm.trans (Perm.cons b (insert-perm a l)) (Perm.swap a b l))
    | inr h ↦ rw h (Perm.refl _)
  ]

  pub insertion_sort-perm : (l : List A) → Perm (insertion_sort l) l
  unfolding insertion_sort
  insertion_sort-perm [] = Perm.refl []
  insertion_sort-perm (a ∷ l) =
      Perm.trans (insert-perm a (insertion_sort l)) (Perm.cons a (insertion_sort-perm l))

  module _ (o : IsStrictOrder less) where
    not_less_all :
        (a b : A) (l : List A)
        → less b a ≡ false
        → IsOrdered less (b ∷ l)
        → (x : A) → Mem x (b ∷ l)
        → less x a ≡ false
    not_less_all a b l h (Pairwise.cons below _) x m =
        Or.elim (Bool-set _ _) (mem-cons.0 m) (λ e. rw e h)
          (λ later. o.not_less_trans a b x h (below x later))

    insert-IsOrdered : (a : A) (l : List A) → IsOrdered less l → IsOrdered less (insert a l)
    unfolding insert
    insert-IsOrdered a [] s = Pairwise-singleton _ a
    insert-IsOrdered a (b ∷ l) (Pairwise.cons below s) = elim (Bool-cases (less b a)) [
      | inl h ↦ rw h (
          Pairwise.cons
            (λ x m.
              Or.elim (Bool-set _ _) (mem-cons.0 ((Perm.mem_iff (insert-perm a l)).0 m))
                (λ e. rw e (o.asym b a h)) (below x))
            (insert-IsOrdered a l s))
      | inr h ↦
          rw h
            (Pairwise.cons (not_less_all a b l h (Pairwise.cons below s)) (Pairwise.cons below s))
    ]

    pub insertion_sort-IsOrdered : (l : List A) → IsOrdered less (insertion_sort l)
    unfolding insertion_sort
    insertion_sort-IsOrdered [] = Pairwise.nil
    insertion_sort-IsOrdered (a ∷ l) =
        insert-IsOrdered a (insertion_sort l) (insertion_sort-IsOrdered l)

instance abbrev pub insertion_sorter : Sorter
insertion_sorter = record {
  sort = insertion_sort;
  sort-perm = insertion_sort-perm;
  sort-IsOrdered = λ A less l o. insertion_sort-IsOrdered A less o l;
}
