-- ===== src/Tests/SecretSync.antt =====
-- Runs of the sync of a Secret against the small cluster.
use omni_cluster_operator.Base.{String, ap, [], ◌∷◌, true, some, ◌≡◌, ◌≢◌, refl, ◌⊎◌, arith, eq_iff}
use omni_cluster_operator.Base.Maps.{get_text, copy_into, get, or_else}
use omni_cluster_operator.Api.Meta.{Bytes, Secret}
use omni_cluster_operator.External.{Result, ok}
use omni_cluster_operator.SecretSync.Desired.{
  SyncResult, merge_string_maps, target_for_item, hashed_secret, is_owned_secret, secret_labels,
  secret_annotations, content_annotations, desired_secret, hash,
}
use omni_cluster_operator.SecretSync.Client.{
  sync, delete, sync_found, ensure_namespace, clientset, is_up_to_date,
}
use omni_cluster_operator.SecretSync.Ownership.{hashed_secret-is_owned, delete-touches_owned}
use omni_cluster_operator.SecretSync.Repeat.{sync-twice}
use omni_cluster_operator.Tests.Samples.{sample_external, sample_sync, sample_source}
use omni_cluster_operator.Tests.Cluster.{
  sample_workload, sample_workload-KeepsWrites, one_namespace, Cluster,
}

abbrev sample_result : SyncResult
sample_result = record {
  target = record { namespace = "flux-system"; name = "ghcr" };
  type = "Opaque";
  hash = "9f86d081";
}

hashed_secret-is_owned_example :
    (is_owned_secret sample_sync
        (some (hashed_secret ⦃x = sample_external⦄ sample_sync sample_source "edge" "9f86d081"))
      ≡ true)
    × ((k : String)
        → get k
            (hashed_secret ⦃x = sample_external⦄ sample_sync sample_source "edge" "9f86d081").labels
          ≡ or_else (get k (secret_labels sample_sync "edge")) (get k sample_sync.spec.labels))
    × ((k : String)
        → get k
            (hashed_secret ⦃x = sample_external⦄ sample_sync sample_source "edge"
              "9f86d081").annotations
          ≡ or_else (get k (content_annotations "9f86d081")) (
              or_else
                (get k (secret_annotations ⦃x = sample_external⦄ sample_sync sample_source))
                (get k sample_sync.spec.annotations)))
hashed_secret-is_owned_example =
    hashed_secret-is_owned ⦃x = sample_external⦄ sample_sync sample_source "edge" "9f86d081"

-- The cluster with the Secret that the sync writes.
abbrev synced : Cluster
synced = record {
  namespaces = "flux-system" ∷ "default" ∷ [];
  secrets = hashed_secret ⦃x = sample_external⦄ sample_sync sample_source "edge" "9f86d081" ∷ [];
}

sync_from_empty :
    sync ⦃x = sample_external⦄ sample_workload sample_sync sample_source
      (1 ∷ [])
      "edge"
      one_namespace
    ≡ (ok sample_result, synced)
unfolding sync clientset ensure_namespace target_for_item hash sync_found hashed_secret
    desired_secret
sync_from_empty = refl

delete_from_synced :
    delete ⦃x = sample_external⦄ sample_workload sample_sync (1 ∷ []) sample_result.target synced
    ≡ (ok tt, record synced { secrets = [] })
unfolding delete clientset hashed_secret desired_secret target_for_item is_owned_secret get_text
    merge_string_maps copy_into secret_labels
delete_from_synced = refl

delete-touches_owned_example :
    ((delete ⦃x = sample_external⦄ sample_workload sample_sync
        (1 ∷ [])
        sample_result.target
        synced).1
      ≡ synced)
    ⊎ ((client : Bytes) × (secret : Secret) × (clientset ⦃x = sample_external⦄ sample_workload
            (1 ∷ [])
          ≡ ok client)
        × (sample_workload.get_secret client sample_result.target synced ≡ ok secret)
        × (is_owned_secret sample_sync (some secret) ≡ true)
        × ((delete ⦃x = sample_external⦄ sample_workload sample_sync
              (1 ∷ [])
              sample_result.target
              synced).1
            ≡ (sample_workload.delete_secret client sample_result.target synced).1))
delete-touches_owned_example =
    delete-touches_owned ⦃x = sample_external⦄ sample_workload sample_sync (1 ∷ [])
      sample_result.target synced

opaque_type : (desired_secret ⦃x = sample_external⦄ sample_sync sample_source "edge").type ≢ ""
unfolding desired_secret
opaque_type = λ e. ground (arith, (eq_iff "Opaque" "").1 e)

abbrev sample_run : Cluster → Result SyncResult × Cluster
sample_run = sync ⦃x = sample_external⦄ sample_workload sample_sync sample_source (1 ∷ []) "edge"

sync-twice_example :
    ((client : Bytes) × (clientset ⦃x = sample_external⦄ sample_workload (1 ∷ []) ≡ ok client)
      × ((stored : Secret) × (sample_workload.get_secret client sample_result.target
              (sample_run one_namespace).1
            ≡ ok stored)
          × (is_up_to_date ⦃x = sample_external⦄ sample_workload stored (
                hashed_secret ⦃x = sample_external⦄ sample_sync sample_source "edge"
                  sample_result.hash)
              ≡ true)))
    × (sample_run (sample_run one_namespace).1 ≡ (ok sample_result, (sample_run one_namespace).1))
sync-twice_example =
    sync-twice ⦃x = sample_external⦄ sample_workload sample_workload-KeepsWrites sample_sync
      sample_source (1 ∷ []) "edge" opaque_type refl one_namespace sample_result
      (ap (λ p. p.0) sync_from_empty)
