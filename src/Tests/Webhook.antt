-- ===== src/Tests/Webhook.antt =====
-- Resources that the webhooks accept.
use omni_cluster_operator.Base.{[], ◌∷◌, none, false, ◌≡◌, ◌↔◌, refl, is_blank}
use omni_cluster_operator.Base.Maps.{find, put}
use omni_cluster_operator.Release
use omni_cluster_operator.Base.Predicates.{Distinct, All}
use omni_cluster_operator.Webhook.Field.{child, spec_path, concat}
use omni_cluster_operator.Webhook.Sources.{
  validate_machine_ids, validate_patches, validate_manifests,
}
use omni_cluster_operator.Webhook.Validation.{
  is_absolute_url, validate_groups_from, validate_kubeconfig_export, validate_helm_release,
  validate_secret_sync,
}
use omni_cluster_operator.Api.Workload.{OmniSecretSync}
use omni_cluster_operator.Webhook.Hooks.{rejection, secret_sync_create, secret_sync_hook}
use omni_cluster_operator.Webhook.Immutable.{secret_sync_update_iff}
use omni_cluster_operator.Webhook.Laws.{validate_machine_ids_iff, AreUuids}
use omni_cluster_operator.Webhook.SourceLaws.{
  validate_patches_iff, HasOneSource, accepted_manifests_render, RendersOneSource,
}
use omni_cluster_operator.Template.Parts.{render_manifests}
use omni_cluster_operator.Controller.SpecErrors.{
  kubeconfig_export_spec_error, helm_release_spec_error, secret_sync_spec_error,
}
use omni_cluster_operator.Controller.Admission.{
  kubeconfig_export_accepted, helm_release_accepted, secret_sync_accepted_iff,
}
use omni_cluster_operator.Tests.Samples.{
  sample_external, sample_export, sample_release, sample_sync, file_patch, file_manifest,
  inline_manifest, uuid_a, uuid_b,
}

export_is_accepted : validate_kubeconfig_export ⦃x = sample_external⦄ sample_export ≡ []
unfolding validate_kubeconfig_export concat is_blank validate_groups_from find put
export_is_accepted = refl

kubeconfig_export_accepted_example : kubeconfig_export_spec_error sample_export ≡ none
kubeconfig_export_accepted_example =
    kubeconfig_export_accepted ⦃x = sample_external⦄ sample_export export_is_accepted

release_is_named : is_blank sample_release.meta.name ≡ false
unfolding is_blank
release_is_named = refl

release_is_accepted : validate_helm_release ⦃x = sample_external⦄ sample_release ≡ []
unfolding validate_helm_release concat is_blank is_absolute_url Release.deletion_policy
    Release.values
release_is_accepted = refl

helm_release_accepted_example : helm_release_spec_error ⦃x = sample_external⦄ sample_release ≡ none
helm_release_accepted_example =
    helm_release_accepted ⦃x = sample_external⦄ sample_release release_is_named release_is_accepted

secret_sync_accepted_iff_example :
    (validate_secret_sync sample_sync ≡ []) ↔ (secret_sync_spec_error sample_sync ≡ none)
secret_sync_accepted_iff_example = secret_sync_accepted_iff sample_sync

validate_machine_ids_iff_example :
    (validate_machine_ids ⦃x = sample_external⦄ (child spec_path "machines") (uuid_a ∷ uuid_b ∷ [])
      ≡ [])
    ↔ (AreUuids ⦃x = sample_external⦄ (uuid_a ∷ uuid_b ∷ []) × Distinct (uuid_a ∷ uuid_b ∷ []))
validate_machine_ids_iff_example =
    validate_machine_ids_iff ⦃x = sample_external⦄ (child spec_path "machines")
      (uuid_a ∷ uuid_b ∷ [])

validate_patches_iff_example :
    (validate_patches (child spec_path "patches") (file_patch ∷ []) ≡ [])
    ↔ All HasOneSource (file_patch ∷ [])
validate_patches_iff_example = validate_patches_iff (child spec_path "patches") (file_patch ∷ [])

manifests_are_accepted :
    validate_manifests (child spec_path "manifests") (file_manifest ∷ inline_manifest ∷ []) ≡ []
unfolding validate_manifests
manifests_are_accepted = refl

accepted_manifests_render_example :
    All RendersOneSource
      (render_manifests ⦃x = sample_external⦄ (file_manifest ∷ inline_manifest ∷ []))
accepted_manifests_render_example =
    accepted_manifests_render ⦃x = sample_external⦄ (child spec_path "manifests")
      (file_manifest ∷ inline_manifest ∷ []) manifests_are_accepted

-- The same sync with a kubeconfig from another Secret.
abbrev redirected_sync : OmniSecretSync
redirected_sync = record sample_sync {
  spec = record (sample_sync.spec) {
    kubeconfig_secret_ref = record (sample_sync.spec.kubeconfig_secret_ref) { name = "elsewhere" };
  };
}

redirected_is_created : (secret_sync_hook.create redirected_sync).error ≡ none
unfolding secret_sync_hook secret_sync_create rejection validate_secret_sync concat is_blank
redirected_is_created = refl

secret_sync_update_iff_example :
    ((secret_sync_hook.update sample_sync redirected_sync).error ≡ none) ↔ (
      ((secret_sync_hook.create redirected_sync).error ≡ none)
      × ((sample_sync.spec.kubeconfig_secret_ref.name ≡ "elsewhere")
          × (sample_sync.spec.kubeconfig_secret_ref.key
              ≡ redirected_sync.spec.kubeconfig_secret_ref.key)))
secret_sync_update_iff_example = secret_sync_update_iff sample_sync redirected_sync
