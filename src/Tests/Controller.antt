-- ===== src/Tests/Controller.antt =====
-- The cluster controller over an API server that holds one cluster, and an Omni that logs its calls.
use omni_cluster_operator.Base.{String, List, [], ◌∷◌, none, ◌≡◌, ◌⊎◌, refl}
use omni_cluster_operator.Base.Order.Insertion.{insertion_sorter, insertion_sort}
use omni_cluster_operator.Api.Template.{OmniCluster, OmniClusterStatus}
use omni_cluster_operator.Api.Common.{finalizer}
use omni_cluster_operator.External.{ok}
use omni_cluster_operator.Base.Maps.{put}
use omni_cluster_operator.Template.Parts.{worker_set_name, machine_id}
use omni_cluster_operator.Template.Render.{
  render, template_docs, validate_manifest_names, workers_docs, sorted_workers, encode_template,
  machines_docs, sorted_machines,
}
use omni_cluster_operator.Controller.Cluster.Inputs.{template_inputs, the_control_plane, select}
use omni_cluster_operator.Controller.Kube.{World}
use omni_cluster_operator.Controller.Omni.{Omni}
use omni_cluster_operator.Controller.Cluster.Status.{key_of, update_cluster_status}
use omni_cluster_operator.Controller.Cluster.Deletion.{reconcile_delete}
use omni_cluster_operator.Controller.Cluster.Reconcile.{reconcile}
use omni_cluster_operator.Controller.Cluster.Safety.{EndsDeletion, reconcile_delete-EndsDeletion}
use omni_cluster_operator.Controller.Cluster.Calls.{CallsFor, reconcile-calls}
use omni_cluster_operator.Controller.Cluster.Latest.{update_cluster_status-latest}
use omni_cluster_operator.Tests.Server.{Server, sample_api, sample_retries, sample_runtime, empty}
use omni_cluster_operator.Tests.Samples.{
  sample_external, sample_encoder, sample_cluster, sample_control_plane, sample_inputs,
  sample_connection,
}

abbrev sample_omni : Omni
sample_omni = record {
  Remote = List String;
  ping = λ _ _. ok "connected to omni";
  sync_template = λ _ _ _ _ log. (record { output = "synced"; error = none }, "sync" ∷ log);
  status_cluster = λ _ _ _. record { output = "ready"; error = none };
  delete_cluster = λ _ _ _ log. (record { output = "deleted"; error = none }, "delete" ∷ log);
  kubeconfig = λ _ _ _ log. (ok (9 ∷ []), "kubeconfig" ∷ log);
}

abbrev owned_cluster : OmniCluster
owned_cluster = record sample_cluster {
  meta = record (sample_cluster.meta) { finalizers = finalizer ∷ [] };
}

abbrev server : Server
server = record empty {
  clusters = owned_cluster ∷ [];
  connections = sample_connection ∷ [];
  control_planes = sample_control_plane ∷ [];
  workers = sample_inputs.workers;
  machines = sample_inputs.machines;
}

abbrev start : World sample_api.Store sample_omni.Remote
start = record { store = server; remote = [] }

reconcile-calls_example :
    ((reconcile ⦃x = sample_external⦄ ⦃s = insertion_sorter⦄ ⦃y = sample_encoder⦄
        ⦃t = sample_runtime⦄ sample_api sample_omni
        (key_of owned_cluster)
        start).1.remote
      ≡ [])
    ⊎ ((cluster : OmniCluster) × (sample_api.clusters.get (key_of owned_cluster) server
          ≡ ok cluster)
        × CallsFor ⦃x = sample_external⦄ ⦃s = insertion_sorter⦄ ⦃y = sample_encoder⦄
            ⦃t = sample_runtime⦄ sample_api sample_omni start cluster
            (reconcile ⦃x = sample_external⦄ ⦃s = insertion_sorter⦄ ⦃y = sample_encoder⦄
              ⦃t = sample_runtime⦄ sample_api sample_omni
              (key_of owned_cluster)
              start))
reconcile-calls_example =
    reconcile-calls ⦃x = sample_external⦄ ⦃s = insertion_sorter⦄ ⦃y = sample_encoder⦄
      ⦃t = sample_runtime⦄ sample_api sample_omni start (key_of owned_cluster)

-- A cluster that is synced: Omni has one more call.
reconcile_syncs :
    (reconcile ⦃x = sample_external⦄ ⦃s = insertion_sorter⦄ ⦃y = sample_encoder⦄
      ⦃t = sample_runtime⦄ sample_api sample_omni
      (key_of owned_cluster)
      start).1.remote
    ≡ "sync" ∷ []
unfolding reconcile template_inputs the_control_plane select render template_docs
    validate_manifest_names put workers_docs sorted_workers insertion_sort worker_set_name
    encode_template machines_docs sorted_machines machine_id update_cluster_status
reconcile_syncs = refl

reconcile_delete-EndsDeletion_example :
    EndsDeletion ⦃x = sample_external⦄ ⦃t = sample_runtime⦄ sample_api sample_omni owned_cluster
      start
      (reconcile_delete ⦃x = sample_external⦄ ⦃t = sample_runtime⦄ sample_api sample_omni
        owned_cluster start)
reconcile_delete-EndsDeletion_example =
    reconcile_delete-EndsDeletion ⦃x = sample_external⦄ ⦃t = sample_runtime⦄ sample_api sample_omni
      owned_cluster start

abbrev named_status : OmniClusterStatus → OmniClusterStatus
named_status status = record status { control_plane_ref = "edge-cp" }

status_is_written : (update_cluster_status sample_api owned_cluster named_status server).0 ≡ ok tt
unfolding update_cluster_status
status_is_written = refl

update_cluster_status-latest_example :
    (before : Server) × (latest : OmniCluster) × (sample_api.clusters.get
        (key_of owned_cluster)
        before
      ≡ ok latest)
    × (sample_api.clusters.update_status
          (record latest { status = named_status latest.status })
          before
        ≡ (ok tt, (update_cluster_status sample_api owned_cluster named_status server).1))
update_cluster_status-latest_example =
    update_cluster_status-latest sample_api sample_retries owned_cluster named_status server
      status_is_written
