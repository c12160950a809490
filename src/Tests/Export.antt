-- ===== src/Tests/Export.antt =====
-- A kubeconfig that has just been exported.
use omni_cluster_operator.Base.{
  [], ◌∷◌, none, some, ◌≡◌, ◌≢◌, ◌↔◌, subst, refl, arith, eq_iff, is_blank,
}
use omni_cluster_operator.Base.Maps.{get_text}
use omni_cluster_operator.Base.Int.{pos, ◌+ℤ◌}
use omni_cluster_operator.Export
use omni_cluster_operator.Controller.SpecErrors.{groups_error, kubeconfig_export_spec_error}
use omni_cluster_operator.Controller.KubeconfigExport.State.{
  CurrentKubeconfigState, bytes_at, current_kubeconfig_secret_state,
  reusable_current_kubeconfig_secret_state,
}
use omni_cluster_operator.Controller.KubeconfigExport.Validator.{
  Discovery, validate, IsRejected, reusable-IsRejected,
}
use omni_cluster_operator.Controller.KubeconfigExport.Written.{exported_secret, expiration_of}
use omni_cluster_operator.Controller.KubeconfigExport.Reuse.{
  IsPrinted, IsFresh, current_kubeconfig_secret_state-IsFresh,
}
use omni_cluster_operator.Controller.KubeconfigExport.Cycle.{not_due_yet, served_secret-current}
use omni_cluster_operator.Api.Meta.{Bytes, Secret}
use omni_cluster_operator.Api.Workload.{OmniKubeconfigExport}
use omni_cluster_operator.External.{ok, unauthorized, not_usable}
use omni_cluster_operator.Controller.KubeconfigExport.Previous.{
  keeps_previous, Deletes, delete_previous_target_secret,
  delete_previous_target_secret-IsLeftBehind,
}
use omni_cluster_operator.Tests.Server.{Server, sample_api, empty}
use omni_cluster_operator.Tests.Samples.{sample_external, sample_export}

abbrev sample_state : CurrentKubeconfigState
sample_state = record {
  hash = Export.hash ⦃x = sample_external⦄ (9 ∷ []);
  expiration_time = expiration_of sample_export (pos 0);
  last_rotation_time = some (pos 0);
  next_rotation_time =
      Export.next_rotation_time (expiration_of sample_export (pos 0))
        sample_export.spec.renew_before;
}

export_is_accepted : kubeconfig_export_spec_error sample_export ≡ none
unfolding kubeconfig_export_spec_error is_blank Export.target_secret_key groups_error
export_is_accepted = refl

pub export-IsPrinted :
    IsPrinted ⦃x = sample_external⦄
      (expiration_of sample_export (pos 0))
      (expiration_of sample_export (pos 0))
unfolding expiration_of ◌+ℤ◌
export-IsPrinted = record {
  printed = λ e. ground (arith, (eq_iff "2026-01-01T01:00:00Z" "").1 e);
  parsed = refl;
}

pub now-IsPrinted : IsPrinted ⦃x = sample_external⦄ (pos 0) (pos 0)
now-IsPrinted = record {
  printed = λ e. ground (arith, (eq_iff "2026-01-01T00:00:00Z" "").1 e);
  parsed = refl;
}

kept_state :
    current_kubeconfig_secret_state ⦃x = sample_external⦄
      (exported_secret ⦃x = sample_external⦄ sample_export "edge" "spec" (9 ∷ []) (pos 0) none)
      (Export.target_secret_key sample_export)
      "spec"
      (pos 0)
      sample_export.spec.renew_before
    ≡ some sample_state
kept_state =
    served_secret-current ⦃x = sample_external⦄ sample_export "edge" "spec" (9 ∷ []) (pos 0) none
      (exported_secret ⦃x = sample_external⦄ sample_export "edge" "spec" (9 ∷ []) (pos 0) none)
      (pos 0) (expiration_of sample_export (pos 0)) (pos 0)
      (record { contents = refl; annotations = refl }) refl export-IsPrinted now-IsPrinted
      (not_due_yet sample_export (pos 0) export_is_accepted)

current_kubeconfig_secret_state-IsFresh_example :
    IsFresh ⦃x = sample_external⦄
      (exported_secret ⦃x = sample_external⦄ sample_export "edge" "spec" (9 ∷ []) (pos 0) none)
      (Export.target_secret_key sample_export)
      "spec"
      (pos 0)
      sample_export.spec.renew_before
      sample_state
current_kubeconfig_secret_state-IsFresh_example =
    current_kubeconfig_secret_state-IsFresh ⦃x = sample_external⦄
      (exported_secret ⦃x = sample_external⦄ sample_export "edge" "spec" (9 ∷ []) (pos 0) none)
      (Export.target_secret_key sample_export) "spec" (pos 0) sample_export.spec.renew_before
      sample_state kept_state

-- An export whose target was renamed, and the Secret that it wrote before.
abbrev moved_export : OmniKubeconfigExport
moved_export = record sample_export {
  status = record (sample_export.status) {
    target_secret_ref = "old-kubeconfig";
    target_secret_namespace = "default";
  };
}

abbrev old_secret : Secret
old_secret = record {
  meta = record (sample_export.meta) {
    name = "old-kubeconfig";
    labels = some (("omni.texashpc.com/kubeconfig-export-uid", "u5") ∷ []);
  };
  type = "Opaque";
  contents = none;
}

abbrev with_old : Server
with_old = record empty { secrets = old_secret ∷ [] }

delete_previous_target_secret-IsLeftBehind_example :
    Deletes sample_api moved_export with_old
      (delete_previous_target_secret sample_api moved_export with_old)
delete_previous_target_secret-IsLeftBehind_example =
    delete_previous_target_secret-IsLeftBehind sample_api moved_export with_old

old_secret_is_deleted :
    delete_previous_target_secret sample_api moved_export with_old ≡ (ok tt, empty)
unfolding delete_previous_target_secret keeps_previous Export.is_owned_secret get_text
old_secret_is_deleted = refl

-- A cluster that does not know the credentials that it is given.
abbrev locked_out : Discovery
locked_out = record {
  Config = Bytes;
  Clientset = Bytes;
  rest_config = λ bytes. ok bytes;
  set_timeout = λ config _. config;
  new_for_config = λ config. ok config;
  version_error = λ _. some (record { kind = unauthorized; message = "Unauthorized" });
}

unauthorized_is_own : unauthorized ≢ not_usable
unauthorized_is_own h = absurd (cc h)

reusable-IsRejected_example :
    (reusable_current_kubeconfig_secret_state ⦃x = sample_external⦄
        (validate locked_out)
        (exported_secret ⦃x = sample_external⦄ sample_export "edge" "spec" (9 ∷ []) (pos 0) none)
        (Export.target_secret_key sample_export)
        "spec"
        (pos 0)
        sample_export.spec.renew_before
      ≡ none)
    ↔ IsRejected locked_out (
        bytes_at
          (Export.target_secret_key sample_export)
          (exported_secret ⦃x = sample_external⦄ sample_export "edge" "spec" (9 ∷ []) (pos 0) none))
reusable-IsRejected_example =
    reusable-IsRejected locked_out
      (λ client e h.
        subst (λ o. (elim o [ none ↦ unauthorized | some e ↦ e.kind ]) ≢ not_usable) h
          unauthorized_is_own)
      ⦃x = sample_external⦄
      (exported_secret ⦃x = sample_external⦄ sample_export "edge" "spec" (9 ∷ []) (pos 0) none)
      (Export.target_secret_key sample_export) "spec" (pos 0) sample_export.spec.renew_before
      sample_state kept_state
