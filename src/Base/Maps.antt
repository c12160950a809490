-- ===== src/Base/Maps.antt =====
-- Go maps with text keys. A map is nil (`none`) or holds entries; which entry a key has is all that
-- the sources ask of a map, besides its being empty and `reflect.DeepEqual`.
use Prim.Native.String.{String}
use mathlib.Core.Path.{◌≡◌, refl}
use mathlib.Core.Bool.{Bool, true, false, ◌&&◌}
use mathlib.Core.Option.{Option, none, some}
use mathlib.Core.List.{List, [], ◌∷◌}
use native.Mathlib.Omega.{arith}
use text.Mathlib.Text.{◌==◌}
use text.Mathlib.TextEquality.{eq_iff}
use omni_cluster_operator.Base.Tests.{if◌then◌else◌}

abbrev pub Entries {ℓ} : Type ℓ → Type ℓ
Entries V = List (String × V)

abbrev pub Map {ℓ} : Type ℓ → Type ℓ
Map V = Option (Entries V)

module _ {ℓ} {V : Type ℓ} where
  unfoldable pub find : String → Entries V → Option V
  find k [] = none
  find k ((j, v) ∷ m) = if j == k then some v else find k m

  -- `m[k] = v`
  unfoldable pub put : String → V → Entries V → Entries V
  put k v [] = (k, v) ∷ []
  put k v ((j, w) ∷ m) = if j == k then (k, v) ∷ m else (j, w) ∷ put k v m

  -- `delete(m, k)`
  unfoldable pub remove : String → Entries V → Entries V
  remove k [] = []
  remove k ((j, w) ∷ m) = let rest = remove k m in if j == k then rest else (j, w) ∷ rest

  -- `maps.Copy(m, n)`: each entry of `n` is written to `m`.
  unfoldable pub copy_into : Entries V → Entries V → Entries V
  unfolding put
  copy_into m [] = m
  copy_into m ((k, v) ∷ n) = put k v (copy_into m n)

  abbrev pub entries : Map V → Entries V
  entries none = []
  entries (some m) = m

  -- `m[k]` with its second result
  abbrev pub get : String → Map V → Option V
  get k m = find k (entries m)

  pub find-put :
      (k j : String) (v : V) (m : Entries V)
      → find j (put k v m) ≡ (if k == j then some v else find j m)
  unfolding find put
  find-put k j v [] = refl
  find-put k j v ((i, w) ∷ m) = ground (arith, eq_iff k j, eq_iff i k, eq_iff i j, find-put k j v m)

  pub find-remove :
      (k j : String) (m : Entries V) → find j (remove k m) ≡ (if k == j then none else find j m)
  unfolding find remove
  find-remove k j [] = ground arith
  find-remove k j ((i, w) ∷ m) =
      ground (arith, eq_iff k j, eq_iff i k, eq_iff i j, find-remove k j m)

  abbrev pub or_else : Option V → Option V → Option V
  or_else none o = o
  or_else (some v) o = some v

  -- Go's `maps.Copy` leaves the entries of the source in place of the old ones.
  pub find-copy_into :
      (j : String) (m n : Entries V) → find j (copy_into m n) ≡ or_else (find j n) (find j m)
  unfolding find copy_into
  find-copy_into j m [] = refl
  find-copy_into j m ((k, v) ∷ n) =
      ground (arith, find-put k j v (copy_into m n), find-copy_into j m n, eq_iff k j)

-- `m[k]` of a map to texts: a missing key reads as the empty text.
unfoldable pub get_text : String → Map String → String
unfolding find
get_text k m = elim (find k (entries m)) [ none ↦ "" | some v ↦ v ]

module _ {ℓ} {V : Type ℓ} (same : V → V → Bool) where
  abbrev same_option : Option V → Option V → Bool
  same_option none none = true
  same_option (some v) (some w) = same v w
  same_option _ _ = false

  agrees : Entries V → Entries V → Entries V → Bool
  agrees [] m n = true
  agrees ((k, _) ∷ l) m n = same_option (find k m) (find k n) && agrees l m n

  -- `reflect.DeepEqual` on maps: both nil, or both not nil with the same keys and equal values.
  unfoldable pub deep_equal : Map V → Map V → Bool
  unfolding agrees find
  deep_equal none none = true
  deep_equal (some m) (some n) = agrees m m n && agrees n m n
  deep_equal _ _ = false

  module _ (same_refl : (v : V) → same v v ≡ true) where
    same_option_refl : (o : Option V) → same_option o o ≡ true
    same_option_refl none = refl
    same_option_refl (some v) = same_refl v

    agrees_refl : (l m : Entries V) → agrees l m m ≡ true
    unfolding agrees
    agrees_refl [] m = refl
    agrees_refl ((k, _) ∷ l) m = rw (same_option_refl (find k m), agrees_refl l m)

    pub deep_equal_refl : (m : Map V) → deep_equal m m ≡ true
    unfolding deep_equal
    deep_equal_refl none = refl
    deep_equal_refl (some m) = rw (agrees_refl m m)
