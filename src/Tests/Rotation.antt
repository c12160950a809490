-- ===== src/Tests/Rotation.antt =====
-- A kubeconfig export that is reconciled, and one that is deleted.
use omni_cluster_operator.Base.{String, List, [], ◌∷◌, true, none, some, ◌≡◌, refl, arith, is_blank}
use omni_cluster_operator.Base.Int.{pos, ◌<ℤ◌, ◌+ℤ◌, ◌-ℤ◌}
use omni_cluster_operator.Api.Meta.{Bytes, Secret}
use omni_cluster_operator.Api.Common.{finalizer}
use omni_cluster_operator.Api.Workload.{OmniKubeconfigExport}
use omni_cluster_operator.External.{ok, err}
use omni_cluster_operator.Export
use omni_cluster_operator.Template.Parts
use omni_cluster_operator.Controller.KubeconfigExport.State.{
  kubeconfig_validation_requires_rotation,
}
use omni_cluster_operator.Controller.KubeconfigExport.Written.{exported_secret, expiration_of}
use omni_cluster_operator.Controller.KubeconfigExport.Once.{reconcile_alive-AsksOnce}
use omni_cluster_operator.Tests.Export.{export-IsPrinted, now-IsPrinted}
use omni_cluster_operator.Controller.Kube.{World}
use omni_cluster_operator.Controller.Objects.{update_changed}
use omni_cluster_operator.Controller.Stages.{ensure_finalizer}
use omni_cluster_operator.Controller.SpecErrors.{groups_error, kubeconfig_export_spec_error}
use omni_cluster_operator.Controller.KubeconfigExport.Status.{update_kubeconfig_export_status}
use omni_cluster_operator.Controller.KubeconfigExport.Previous.{
  delete_previous_target_secret, keeps_previous, target_secret, target_key_of,
}
use omni_cluster_operator.Controller.Omni.{Omni}
use omni_cluster_operator.Controller.KubeconfigExport.Generated.{Kubeconfigs}
use omni_cluster_operator.Controller.KubeconfigExport.Reconcile.{reconcile_alive, reconcile_delete}
use omni_cluster_operator.Controller.KubeconfigExport.Deletion.{
  EndsTarget, reconcile_delete-EndsTarget,
}
use omni_cluster_operator.Tests.Server.{Server, sample_api, sample_runtime, never_same, empty}
use omni_cluster_operator.Tests.Samples.{
  sample_external, sample_cluster, sample_connection, sample_export,
}

abbrev owned_export : OmniKubeconfigExport
owned_export = record sample_export {
  meta = record (sample_export.meta) { finalizers = finalizer ∷ [] };
}

abbrev server : Server
server = record empty {
  clusters = sample_cluster ∷ [];
  connections = sample_connection ∷ [];
  kubeconfig_exports = owned_export ∷ [];
}

-- An Omni that counts the kubeconfigs that it gave.
abbrev counting_omni : Omni
counting_omni = record {
  Remote = List Bytes;
  ping = λ _ _. ok "connected to omni";
  sync_template = λ _ _ _ _ w. (record { output = ""; error = none }, w);
  status_cluster = λ _ _ _. record { output = ""; error = none };
  delete_cluster = λ _ _ _ w. (record { output = ""; error = none }, w);
  kubeconfig = λ _ _ _ w. (ok (9 ∷ []), (9 ∷ []) ∷ w);
}

abbrev sample_kubeconfigs : Kubeconfigs
sample_kubeconfigs = record {
  Config = Bytes;
  load = λ bytes. ok bytes;
  current_context = λ _. "admin";
  has_context = λ _ _. true;
  set_namespace = λ config _ _. config;
  write = λ config. ok config;
  validate = λ _. none;
}

abbrev start : World sample_api.Store counting_omni.Remote
start = record { store = server; remote = [] }

reconcile_delete-EndsTarget_example :
    EndsTarget ⦃x = sample_external⦄ ⦃t = sample_runtime⦄ ⦃d = never_same⦄ sample_api counting_omni
      sample_kubeconfigs owned_export start
      (reconcile_delete ⦃x = sample_external⦄ ⦃t = sample_runtime⦄ ⦃d = never_same⦄ sample_api
        counting_omni sample_kubeconfigs owned_export start)
reconcile_delete-EndsTarget_example =
    reconcile_delete-EndsTarget ⦃x = sample_external⦄ ⦃t = sample_runtime⦄ ⦃d = never_same⦄
      sample_api counting_omni sample_kubeconfigs owned_export start

-- One reconciliation asks Omni once.
asked_once :
    (reconcile_alive ⦃x = sample_external⦄ ⦃t = sample_runtime⦄ ⦃d = never_same⦄ sample_api
      counting_omni sample_kubeconfigs owned_export start).1.remote
    ≡ (9 ∷ []) ∷ []
unfolding reconcile_alive ensure_finalizer kubeconfig_export_spec_error is_blank
    Export.target_secret_key groups_error Export.spec_hash delete_previous_target_secret
    keeps_previous target_secret update_kubeconfig_export_status update_changed
asked_once = refl

-- What was exported at the time 0, with the hash of the specification as it is.
abbrev hash_now : String
hash_now =
    elim (Export.spec_hash ⦃x = sample_external⦄ owned_export (Parts.cluster_name sample_cluster)) [
      | ok hash ↦ hash
      | err _ ↦ ""
    ]

abbrev exported : Secret
exported =
    exported_secret ⦃x = sample_external⦄ owned_export (Parts.cluster_name sample_cluster) hash_now
      (9 ∷ []) (pos 0) none

abbrev after_export : World sample_api.Store counting_omni.Remote
after_export = record { store = record server { secrets = exported ∷ [] }; remote = [] }

hashes_as_before :
    Export.spec_hash ⦃x = sample_external⦄ owned_export (Parts.cluster_name sample_cluster)
    ≡ ok hash_now
unfolding Export.spec_hash
hashes_as_before = refl

target_is_read :
    target_secret sample_api owned_export
      (delete_previous_target_secret sample_api owned_export after_export.store).1
    ≡ ok (some exported)
unfolding target_secret delete_previous_target_secret keeps_previous exported_secret
    Export.target_secret_namespace target_key_of
target_is_read = refl

rotates_later :
    pos 0
    <ℤ Export.next_rotation_time (expiration_of owned_export (pos 0)) owned_export.spec.renew_before
unfolding Export.next_rotation_time expiration_of ◌+ℤ◌ ◌-ℤ◌
rotates_later = ground arith

reconcile_alive-AsksOnce_example :
    (reconcile_alive ⦃x = sample_external⦄ ⦃t = sample_runtime⦄ ⦃d = never_same⦄ sample_api
      counting_omni sample_kubeconfigs owned_export after_export).1.remote
    ≡ []
unfolding kubeconfig_validation_requires_rotation expiration_of
reconcile_alive-AsksOnce_example =
    reconcile_alive-AsksOnce ⦃x = sample_external⦄ ⦃t = sample_runtime⦄ ⦃d = never_same⦄ sample_api
      counting_omni sample_kubeconfigs owned_export hash_now (9 ∷ []) (pos 0) none sample_cluster
      exported (record { contents = refl; annotations = refl }) refl refl
      (expiration_of owned_export (pos 0)) (pos 0) export-IsPrinted now-IsPrinted after_export
      rotates_later refl hashes_as_before target_is_read
