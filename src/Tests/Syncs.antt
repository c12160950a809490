-- ===== src/Tests/Syncs.antt =====
-- A Secret sync that is reconciled, and one that is deleted.
use omni_cluster_operator.Base.{[], ◌∷◌, some, ◌≡◌, refl, is_blank}
use omni_cluster_operator.Base.Maps.{find}
use omni_cluster_operator.Base.Int.{pos}
use omni_cluster_operator.Api.Meta.{Secret}
use omni_cluster_operator.Api.Common.{finalizer}
use omni_cluster_operator.Api.Workload.{OmniSecretSync}
use omni_cluster_operator.External.{new_error}
use omni_cluster_operator.Controller.Kube.{World, finished, key_of_meta}
use omni_cluster_operator.Controller.SecretSyncs.Status.{accepted_update, update_secret_sync_status}
use omni_cluster_operator.Controller.Objects.{update_changed}
use omni_cluster_operator.Controller.Stages.{ensure_finalizer, kubeconfig_found}
use omni_cluster_operator.Controller.SpecErrors.{secret_sync_spec_error}
use omni_cluster_operator.SecretSync.Desired.{kubeconfig_secret_key, target_for_item, hash}
use omni_cluster_operator.SecretSync.Client.{sync, clientset, ensure_namespace, sync_found}
use omni_cluster_operator.Controller.SecretSyncs.Reconcile.{
  reconcile_delete, reconcile_alive, reconcile, delete_previous_target_secret,
  keeps_previous_target,
}
use omni_cluster_operator.Controller.SecretSyncs.Deletion.{
  ClearsTarget, reconcile_delete-ClearsTarget,
}
use omni_cluster_operator.Controller.SecretSyncs.Run.{EndsSync, reconcile_alive-EndsSync}
use omni_cluster_operator.Controller.Reported.{SyncFailed, secret_sync_status-error}
use omni_cluster_operator.Tests.Cluster.{sample_workload, one_namespace}
use omni_cluster_operator.Tests.Server.{Server, sample_api, sample_runtime, never_same, empty}
use omni_cluster_operator.Tests.Samples.{
  sample_external, sample_cluster, sample_sync, sample_source, meta_of,
}

abbrev owned_sync : OmniSecretSync
owned_sync = record sample_sync { meta = record (sample_sync.meta) { finalizers = finalizer ∷ [] } }

abbrev kubeconfig_secret : Secret
kubeconfig_secret = record {
  meta = meta_of "edge-kubeconfig" "u10";
  type = "Opaque";
  contents = some (("kubeconfig", 9 ∷ []) ∷ []);
}

abbrev server : Server
server = record empty {
  clusters = sample_cluster ∷ [];
  secret_syncs = owned_sync ∷ [];
  secrets = sample_source ∷ kubeconfig_secret ∷ [];
}

abbrev start : World sample_api.Store sample_workload.World
start = record { store = server; remote = one_namespace }

reconcile_delete-ClearsTarget_example :
    ClearsTarget ⦃x = sample_external⦄ ⦃t = sample_runtime⦄ ⦃d = never_same⦄ sample_api
      sample_workload owned_sync start
      (reconcile_delete ⦃x = sample_external⦄ ⦃t = sample_runtime⦄ ⦃d = never_same⦄ sample_api
        sample_workload owned_sync start)
reconcile_delete-ClearsTarget_example =
    reconcile_delete-ClearsTarget ⦃x = sample_external⦄ ⦃t = sample_runtime⦄ ⦃d = never_same⦄
      sample_api sample_workload owned_sync start

reconcile_alive-EndsSync_example :
    EndsSync ⦃x = sample_external⦄ ⦃t = sample_runtime⦄ ⦃d = never_same⦄ sample_api sample_workload
      owned_sync start
      (reconcile_alive ⦃x = sample_external⦄ ⦃t = sample_runtime⦄ ⦃d = never_same⦄ sample_api
        sample_workload owned_sync start)
reconcile_alive-EndsSync_example =
    reconcile_alive-EndsSync ⦃x = sample_external⦄ ⦃t = sample_runtime⦄ ⦃d = never_same⦄ sample_api
      sample_workload owned_sync start

secret_sync_status-error_example :
    SyncFailed ⦃x = sample_external⦄ ⦃t = sample_runtime⦄
      (pos 0)
      (new_error "refused")
      owned_sync
      (record accepted_update { error = some (new_error "refused") })
secret_sync_status-error_example =
    secret_sync_status-error ⦃x = sample_external⦄ ⦃t = sample_runtime⦄ (pos 0)
      (new_error "refused") (record accepted_update { error = some (new_error "refused") })
      owned_sync refl

-- One reconciliation brings the Secret to the workload cluster.
reconciled_once :
    (reconcile ⦃x = sample_external⦄ ⦃t = sample_runtime⦄ ⦃d = never_same⦄ sample_api
      sample_workload
      (key_of_meta owned_sync.meta)
      start).0
    ≡ finished
unfolding reconcile ensure_finalizer secret_sync_spec_error is_blank kubeconfig_found find
    kubeconfig_secret_key delete_previous_target_secret keeps_previous_target sync clientset
    ensure_namespace target_for_item hash sync_found update_secret_sync_status update_changed
reconciled_once = refl
