-- ===== src/Webhook/Sources.antt =====
-- `validatePatches`, `validateManifests`, `validateMachineIDs` and the machine sets of validation.go.
use omni_cluster_operator.Base.{
  ℕ, zero, suc, String, List, [], ◌∷◌, ◌++◌, Bool, true, false, Option, none, some, not, ◌&&◌, ◌==◌,
  is_nil, is_some, contains,
}
use omni_cluster_operator.Base.Int.{pos, leb_ℤ}
use omni_cluster_operator.Base.Maps.{Entries, find, put}
use omni_cluster_operator.Api.Meta.{Json, int, string}
use omni_cluster_operator.Api.Common.{Patch, KubernetesManifest, MachineClass, MachineSetSpecFields}
use omni_cluster_operator.External.{External}
use omni_cluster_operator.Webhook.Field.{
  FieldPath, FieldError, ErrorList, required, invalid, duplicate, not_supported, text, texts,
  number, patch, manifest, child, at, check, concat,
}

-- `patch.Inline != nil && len(patch.Inline.Raw) > 0`
abbrev pub has_inline : Option Json → Bool
has_inline none = false
has_inline (some value) = not (is_nil value.raw)

-- `sourceCount` after the two tests
abbrev pub source_count : Bool → Bool → ℕ
source_count false false = 0
source_count true true = 2
source_count _ _ = 1

abbrev pub patch_sources : Patch → ℕ
patch_sources p = source_count (not (p.file == "")) (has_inline p.inline)

abbrev pub manifest_sources : KubernetesManifest → ℕ
manifest_sources m = source_count (not (m.file == "")) (not (is_nil m.inline))

-- The `switch` on `sourceCount`.
abbrev pub source_errors : ℕ → FieldError → FieldError → ErrorList
source_errors zero missing both = missing ∷ []
source_errors (suc zero) missing both = []
source_errors (suc (suc n)) missing both = both ∷ []

unfoldable pub validate_patches_from : FieldPath → ℕ → List Patch → ErrorList
validate_patches_from path i [] = []
validate_patches_from path i (p ∷ rest) =
    source_errors (patch_sources p)
      (required (at path i) "patch requires exactly one of file or inline")
      (invalid (at path i) (patch p) "patch must not set both file and inline")
    ++ validate_patches_from path (suc i) rest

unfoldable pub validate_patches : FieldPath → List Patch → ErrorList
unfolding validate_patches_from
validate_patches path = validate_patches_from path 0

unfoldable pub validate_manifests_from : FieldPath → ℕ → List KubernetesManifest → ErrorList
validate_manifests_from path i [] = []
validate_manifests_from path i (m ∷ rest) =
    source_errors (manifest_sources m)
      (required (at path i) "manifest requires exactly one of file or inline")
      (invalid (at path i) (manifest m) "manifest must not set both file and inline")
    ++ validate_manifests_from path (suc i) rest

unfoldable pub validate_manifests : FieldPath → List KubernetesManifest → ErrorList
unfolding validate_manifests_from
validate_manifests path = validate_manifests_from path 0

-- The two errors of an element that stands at an earlier index too.
abbrev pub duplicate_errors : FieldPath → ℕ → Option ℕ → String → ErrorList
duplicate_errors path i none value = []
duplicate_errors path i (some previous) value =
    duplicate (at path i) value ∷ duplicate (at path previous) value ∷ []

module _ ⦃x : External⦄ where
  -- The loop of `validateMachineIDs`; `seen` has the last index of each id.
  unfoldable pub validate_machine_ids_from : FieldPath → ℕ → Entries ℕ → List String → ErrorList
  validate_machine_ids_from path i seen [] = []
  validate_machine_ids_from path i seen (id ∷ ids) =
      check (not (x.is_uuid id)) (invalid (at path i) (text id) "machine ID must be a UUID")
      ++ (duplicate_errors path i (find id seen) id
          ++ validate_machine_ids_from path (suc i) (put id i seen) ids)

  unfoldable pub validate_machine_ids : FieldPath → List String → ErrorList
  unfolding validate_machine_ids_from
  validate_machine_ids path = validate_machine_ids_from path 0 []

abbrev pub allowed_sizes : List String
allowed_sizes = "unlimited" ∷ "infinity" ∷ "∞" ∷ []

unfoldable pub validate_machine_class : FieldPath → Option MachineClass → ErrorList
validate_machine_class path none = []
validate_machine_class path (some c) = elim c.size.type [
  | int ↦ check (leb_ℤ c.size.int_val (pos 0)) (
      invalid (child path "size") (number c.size.int_val)
        "machineClass size must be greater than zero")
  | string ↦
      check (not (contains allowed_sizes c.size.str_val))
        (not_supported (child path "size") c.size.str_val allowed_sizes)
]

module _ ⦃x : External⦄ where
  unfoldable pub validate_machine_set : FieldPath → MachineSetSpecFields → ErrorList
  unfolding validate_machine_class validate_machine_ids validate_patches
  validate_machine_set path spec = concat (
      validate_machine_class (child path "machineClass") spec.machine_class
      ∷ validate_machine_ids (child path "machines") spec.machines
      ∷ validate_patches (child path "patches") spec.patches
      ∷ check (is_some spec.machine_class && not (is_nil spec.kernel_args)) (
          invalid (child path "kernelArgs") (texts spec.kernel_args)
            "kernelArgs are supported only for static machine sets")
      ∷ [])
