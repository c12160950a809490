-- ===== src/Webhook/SourceLaws.antt =====
-- A patch or a manifest is accepted exactly when it has one source, and is rendered with that one.
use omni_cluster_operator.Base.{
  ℕ, suc, List, [], ◌∷◌, Bool, true, false, Option, none, some, not, ◌≡◌, ◌≢◌, ◌↔◌, ◌⊎◌, inl, inr,
  refl, arith, eq_iff, ◌==◌, Bool-cases, is_nil,
}
use omni_cluster_operator.Base.Predicates.{All, append-eq-nil}
use omni_cluster_operator.Api.Meta.{Json}
use omni_cluster_operator.Api.Common.{Patch, KubernetesManifest}
use omni_cluster_operator.External.{External, Any}
use omni_cluster_operator.Template.Docs.{ManifestDoc}
use omni_cluster_operator.Template.Parts.{
  render_json_list, render_manifest_inline, render_manifests,
}
use omni_cluster_operator.Webhook.Field.{FieldPath, FieldError}
use omni_cluster_operator.Webhook.Sources.{
  validate_patches_from, validate_patches, validate_manifests_from, validate_manifests, has_inline,
  source_count, source_errors,
}

-- An inline source that is there and is not empty.
abbrev pub HasInline : Option Json → Type 0
HasInline none = ⊥
HasInline (some value) = value.raw ≢ []

-- A file or an inline source, and not both.
abbrev pub HasOneSource : Patch → Type 0
HasOneSource p = ((p.file ≢ "") × (¬ HasInline p.inline)) ⊎ ((p.file ≡ "") × HasInline p.inline)

abbrev pub HasOneManifestSource : KubernetesManifest → Type 0
HasOneManifestSource m = ((m.file ≢ "") × (m.inline ≡ [])) ⊎ ((m.file ≡ "") × (m.inline ≢ []))

is_nil_iff {ℓ} : {A : Type ℓ} (l : List A) → (is_nil l ≡ true) ↔ (l ≡ [])
is_nil_iff [] = (λ _. refl, λ _. refl)
is_nil_iff (a ∷ l) = (λ h. absurd (cc h), λ h. absurd (cc h))

has_inline_iff : (inline : Option Json) → (has_inline inline ≡ true) ↔ HasInline inline
has_inline_iff none = (λ h. absurd (cc h), λ h. absurd h)
has_inline_iff (some value) = (
  λ h e. ground (arith, (is_nil_iff value.raw).1 e),
  λ h. elim (Bool-cases (is_nil value.raw)) [
    | inl n ↦ absurd (h ((is_nil_iff value.raw).0 n))
    | inr n ↦ rw n
  ],
)

false_of_not : {P : Type 0} (b : Bool) → (b ≡ true → P) → ¬ P → b ≡ false
false_of_not true h n = absurd (n (h refl))
false_of_not false h n = refl

one_source : (a b : Bool) (e f : FieldError) → source_errors (source_count a b) e f ≡ [] → b ≡ not a
one_source true true e f h = absurd (cc h)
one_source true false e f h = refl
one_source false true e f h = refl
one_source false false e f h = absurd (cc h)

one_source_back :
    (a b : Bool) (e f : FieldError) → b ≡ not a → source_errors (source_count a b) e f ≡ []
one_source_back true b e f h = rw h
one_source_back false b e f h = rw h

patch_sound :
    (p : Patch) (e f : FieldError)
    → source_errors (source_count (not (p.file == "")) (has_inline p.inline)) e f ≡ []
    → HasOneSource p
patch_sound p e f h =
    let one = one_source (not (p.file == "")) (has_inline p.inline) e f h in
    elim (Bool-cases (p.file == "")) [
      | inl no_file ↦ inr ((eq_iff p.file "").0 no_file, (has_inline_iff p.inline).0 (ground arith))
      | inr file ↦ inl (
        λ q. ground (arith, (eq_iff p.file "").1 q),
        λ i. ground (arith, (has_inline_iff p.inline).1 i),
      )
    ]

patch_complete :
    (p : Patch) (e f : FieldError)
    → HasOneSource p
    → source_errors (source_count (not (p.file == "")) (has_inline p.inline)) e f ≡ []
patch_complete p e f (inl (file, no_inline)) =
    let none_inline = false_of_not (has_inline p.inline) (has_inline_iff p.inline).0 no_inline in
    one_source_back _ _ e f (ground (arith, (eq_iff p.file "").0))
patch_complete p e f (inr (no_file, inline)) =
    one_source_back _ _ e f (ground (arith, eq_iff p.file "", (has_inline_iff p.inline).1 inline))

patches_sound :
    (path : FieldPath) (i : ℕ) (patches : List Patch)
    → validate_patches_from path i patches ≡ []
    → All HasOneSource patches
unfolding validate_patches_from
patches_sound path i [] h = tt
patches_sound path i (p ∷ rest) h =
    let parts = append-eq-nil _ (validate_patches_from path (suc i) rest) h in
    (patch_sound p _ _ parts.0, patches_sound path (suc i) rest parts.1)

patches_complete :
    (path : FieldPath) (i : ℕ) (patches : List Patch)
    → All HasOneSource patches
    → validate_patches_from path i patches ≡ []
unfolding validate_patches_from
patches_complete path i [] h = refl
patches_complete path i (p ∷ rest) h =
    rw (patch_complete p _ _ h.0) (patches_complete path (suc i) rest h.1)

-- The patches are accepted exactly when each has a file or an inline source, and not both.
pub validate_patches_iff :
    (path : FieldPath) (patches : List Patch)
    → (validate_patches path patches ≡ []) ↔ All HasOneSource patches
unfolding validate_patches
validate_patches_iff path patches = (patches_sound path 0 patches, patches_complete path 0 patches)

manifest_sound :
    (m : KubernetesManifest) (e f : FieldError)
    → source_errors (source_count (not (m.file == "")) (not (is_nil m.inline))) e f ≡ []
    → HasOneManifestSource m
manifest_sound m e f h =
    let one = one_source (not (m.file == "")) (not (is_nil m.inline)) e f h in
    elim (Bool-cases (m.file == "")) [
      | inl no_file ↦
          inr ((eq_iff m.file "").0 no_file, λ n. ground (arith, (is_nil_iff m.inline).1 n))
      | inr file ↦
          inl (λ q. ground (arith, (eq_iff m.file "").1 q), (is_nil_iff m.inline).0 (ground arith))
    ]

manifests_sound :
    (path : FieldPath) (i : ℕ) (manifests : List KubernetesManifest)
    → validate_manifests_from path i manifests ≡ []
    → All HasOneManifestSource manifests
unfolding validate_manifests_from
manifests_sound path i [] h = tt
manifests_sound path i (m ∷ rest) h =
    let parts = append-eq-nil _ (validate_manifests_from path (suc i) rest) h in
    (manifest_sound m _ _ parts.0, manifests_sound path (suc i) rest parts.1)

-- A rendered manifest names a file, or lists objects, and not both.
abbrev pub RendersOneSource : ManifestDoc → Type 0
RendersOneSource d =
    ((d.file ≢ "") × (d.inline ≡ none))
    ⊎ ((d.file ≡ "") × (l : List Any) × (d.inline ≡ some l) × (l ≢ []))

module _ ⦃x : External⦄ where
  render_json_list_not_nil : (l : List Json) → l ≢ [] → render_json_list l ≢ []
  unfolding render_json_list
  render_json_list_not_nil [] n = λ _. n refl
  render_json_list_not_nil (v ∷ l) n = λ e. cc e

  render_one_source :
      (manifests : List KubernetesManifest)
      → All HasOneManifestSource manifests
      → All RendersOneSource (render_manifests manifests)
  unfolding render_manifests render_manifest_inline
  render_one_source [] h = tt
  render_one_source (m ∷ rest) (inl (file, no_inline), h) =
      (inl (file, ground (arith, eq_iff m.file "")), render_one_source rest h)
  render_one_source (m ∷ rest) (inr (no_file, inline), h) = (
    inr (
      no_file,
      render_json_list m.inline,
      ground (arith, eq_iff m.file ""),
      render_json_list_not_nil m.inline inline,
    ),
    render_one_source rest h,
  )

  -- The manifests that the webhook accepts are rendered with one source each: a file and no objects,
  -- or at least one object and no file.
  pub accepted_manifests_render :
      (path : FieldPath) (manifests : List KubernetesManifest)
      → validate_manifests path manifests ≡ []
      → All RendersOneSource (render_manifests manifests)
  unfolding validate_manifests
  accepted_manifests_render path manifests h =
      render_one_source manifests (manifests_sound path 0 manifests h)
