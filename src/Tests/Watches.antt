-- ===== src/Tests/Watches.antt =====
-- A worker set that reports its cluster, a connection that is deleted, and the requests of a Secret.
use omni_cluster_operator.Base.{[], ◌∷◌, none, some, false, ◌≡◌, ◌↔◌, inl, refl}
use omni_cluster_operator.Base.Int.{pos}
use mathlib.Core.List.{Mem, mem-cons_self}
use omni_cluster_operator.Base.Order.Insertion.{insertion_sorter}
use omni_cluster_operator.Api.Meta.{ObjectMeta}
use omni_cluster_operator.Api.Common.{finalizer}
use omni_cluster_operator.Api.Template.{OmniConnection, OmniWorkers}
use omni_cluster_operator.External.{ok}
use omni_cluster_operator.Controller.Kube.{World, key_of_meta}
use omni_cluster_operator.Controller.Omni.{Omni}
use omni_cluster_operator.Controller.Objects.{update_changed}
use omni_cluster_operator.Controller.Children.{
  Child, workers_child, reconcile_child, cluster_exists,
}
use omni_cluster_operator.Controller.Accepted.{TellsCluster, of_workers, reconcile_child-Reports}
use omni_cluster_operator.Controller.Watches.{
  updated, spec_or_deletion_changed_predicate, secret_sync_requests_for_secret,
  helm_release_requests_for_secret,
}
use omni_cluster_operator.Controller.Wakes.{
  secret_sync_requests_for_secret-wake, helm_release_requests_for_secret-wake, IsUneventful,
  status-is_ignored,
}
use omni_cluster_operator.Controller.SecretSyncs.Status
use omni_cluster_operator.Controller.HelmReleases
use omni_cluster_operator.Controller.Connections.Reconcile.{reconcile_delete}
use omni_cluster_operator.Controller.Connections.References.{
  KeepsReferenced, reconcile_delete-KeepsReferenced,
}
use omni_cluster_operator.Tests.Server.{
  Server, sample_api, sample_retries, sample_runtime, never_same, empty,
}
use omni_cluster_operator.Tests.Samples.{
  sample_external, sample_cluster, sample_connection, sample_sync, sample_release, sample_source,
  workers_named, meta_of,
}

abbrev server : Server
server = record empty {
  clusters = sample_cluster ∷ [];
  workers = workers_named "gpu" ∷ [];
  secret_syncs = sample_sync ∷ [];
  helm_releases = sample_release ∷ [];
}

abbrev sample_child : Child Server OmniWorkers
sample_child = workers_child sample_api ⦃x = sample_external⦄ ⦃t = sample_runtime⦄ ⦃d = never_same⦄

workers_are_reconciled :
    (reconcile_child sample_api sample_child
      (record { namespace = "default"; name = "gpu" })
      server).0.error
    ≡ none
unfolding reconcile_child cluster_exists update_changed
workers_are_reconciled = refl

reconcile_child-Reports_example :
    TellsCluster ⦃x = sample_external⦄ ⦃t = sample_runtime⦄ ⦃c = never_same⦄ ⦃d = never_same⦄
      ⦃m = never_same⦄ sample_api of_workers
      (workers_named "gpu")
      server
      (reconcile_child sample_api sample_child
        (record { namespace = "default"; name = "gpu" })
        server).1
reconcile_child-Reports_example =
    reconcile_child-Reports ⦃x = sample_external⦄ ⦃t = sample_runtime⦄ ⦃c = never_same⦄
      ⦃d = never_same⦄ ⦃m = never_same⦄ sample_api sample_retries of_workers
      (record { namespace = "default"; name = "gpu" }) server (workers_named "gpu") refl
      workers_are_reconciled

abbrev owned_connection : OmniConnection
owned_connection = record sample_connection {
  meta = record (sample_connection.meta) { finalizers = finalizer ∷ [] };
}

abbrev idle_omni : Omni
idle_omni = record {
  Remote = Unit {0};
  ping = λ _ _. ok "connected to omni";
  sync_template = λ _ _ _ _ w. (record { output = ""; error = none }, w);
  status_cluster = λ _ _ _. record { output = ""; error = none };
  delete_cluster = λ _ _ _ w. (record { output = ""; error = none }, w);
  kubeconfig = λ _ _ _ w. (ok (9 ∷ []), w);
}

abbrev start : World sample_api.Store idle_omni.Remote
start = record { store = server; remote = tt }

reconcile_delete-KeepsReferenced_example :
    KeepsReferenced ⦃s = insertion_sorter⦄ ⦃t = sample_runtime⦄ sample_api idle_omni
      owned_connection start
      (reconcile_delete ⦃s = insertion_sorter⦄ ⦃t = sample_runtime⦄ sample_api idle_omni
        owned_connection start)
reconcile_delete-KeepsReferenced_example =
    reconcile_delete-KeepsReferenced ⦃s = insertion_sorter⦄ ⦃t = sample_runtime⦄ sample_api
      idle_omni owned_connection start

secret_sync_requests_for_secret-wake_example : Mem (key_of_meta sample_sync.meta) (
    secret_sync_requests_for_secret ⦃x = sample_external⦄ ⦃s = insertion_sorter⦄ sample_api
      sample_source.meta server)
secret_sync_requests_for_secret-wake_example =
    secret_sync_requests_for_secret-wake ⦃x = sample_external⦄ ⦃s = insertion_sorter⦄ sample_api
      sample_source.meta server sample_sync
      (record { items = sample_sync ∷ []; listed = refl; there = mem-cons_self }) (inl refl)

helm_release_requests_for_secret-wake_example : Mem (key_of_meta sample_release.meta) (
    helm_release_requests_for_secret ⦃x = sample_external⦄ ⦃s = insertion_sorter⦄ sample_api
      (meta_of "edge-kubeconfig" "u10")
      server)
helm_release_requests_for_secret-wake_example =
    helm_release_requests_for_secret-wake ⦃x = sample_external⦄ ⦃s = insertion_sorter⦄ sample_api
      (meta_of "edge-kubeconfig" "u10") server sample_release
      (record { items = sample_release ∷ []; listed = refl; there = mem-cons_self }) refl

-- The API server counts the versions of an object.
abbrev served : ObjectMeta → ObjectMeta
served meta = record meta { resource_version = "2" }

status-is_ignored_example :
    ((spec_or_deletion_changed_predicate
          (updated (some sample_sync.meta) (some sample_release.meta))
        ≡ false)
      ↔ IsUneventful sample_sync.meta sample_release.meta)
    × (spec_or_deletion_changed_predicate
          (updated (some sample_sync.meta) (some (served sample_sync.meta)))
        ≡ false)
    × (spec_or_deletion_changed_predicate
          (updated (some sample_release.meta) (some (served sample_release.meta)))
        ≡ false)
unfolding Status.secret_sync_status HelmReleases.Status.helm_release_status
status-is_ignored_example =
    status-is_ignored ⦃x = sample_external⦄ ⦃t = sample_runtime⦄ (pos 0) Status.accepted_update
      sample_sync HelmReleases.Status.accepted_update sample_release (served sample_sync.meta)
      (served sample_release.meta) sample_sync.meta sample_release.meta
      (record { generation = refl; deletion = refl })
      (record { generation = refl; deletion = refl })
