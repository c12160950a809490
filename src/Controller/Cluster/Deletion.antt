-- ===== src/Controller/Cluster/Deletion.antt =====
-- omnicluster_controller.go: `reconcileDelete`.
use omni_cluster_operator.Base.{String, ◌<>◌, Bool, Option, none, some, not, ◌||◌, if◌then◌else◌}
use omni_cluster_operator.Api.Meta.{condition_false}
use omni_cluster_operator.Api.Common.{finalizer, legacy_finalizer}
use omni_cluster_operator.Api.Template.{OmniCluster, OmniConnection}
use omni_cluster_operator.External.{Error, Result, ok, err, External}
use omni_cluster_operator.Template.Parts.{cluster_name}
use omni_cluster_operator.Controller.Kube.{
  Api, Runtime, World, on_store, unless_failed, Outcome, finished, failed,
}
use omni_cluster_operator.Controller.Omni.{Omni, SyncOptions}
use omni_cluster_operator.Controller.Cluster.Status.{
  connection_key, update_cluster_status, failed_status, with_condition, trim_status,
}

abbrev pub delete_options : OmniCluster → SyncOptions
delete_options cluster = record { destroy_machines = cluster.spec.delete_policy.destroy_machines }

module _ ⦃t : Runtime⦄ where
  -- The cluster has the finalizer, or the legacy one.
  abbrev pub has_finalizer : OmniCluster → Bool
  has_finalizer cluster =
      t.contains_finalizer cluster.meta.finalizers finalizer
      || t.contains_finalizer cluster.meta.finalizers legacy_finalizer

  abbrev pub without_finalizers : OmniCluster → OmniCluster
  without_finalizers cluster = record cluster {
    meta = record (cluster.meta) {
      finalizers =
          t.remove_finalizer (t.remove_finalizer cluster.meta.finalizers finalizer)
            legacy_finalizer;
    };
  }

module _ ⦃t : Runtime⦄ (api : Api) (omni : Omni) where
  unfoldable pub release :
      OmniCluster → World api.Store omni.Remote → Outcome × World api.Store omni.Remote
  release cluster w =
      unless_failed finished (on_store (api.clusters.update (without_finalizers cluster)) w)

module _ ⦃x : External⦄ ⦃t : Runtime⦄ (api : Api) (omni : Omni) where
  -- `reconcileDelete` from the reply of `DeleteCluster` on.
  unfoldable pub delete_replied :
      OmniCluster
      → String
      → Option Error
      → World api.Store omni.Remote
      → Outcome × World api.Store omni.Remote
  unfolding release
  delete_replied cluster output none w = release api omni cluster w
  delete_replied cluster output (some e) w = unless_failed (failed e) (
      on_store
        (update_cluster_status api cluster (λ status.
          with_condition cluster "Ready" condition_false "DeleteFailed" e.message (record status {
            sync = record (status.sync) { last_sync_output = trim_status output };
          })))
        w)

  -- `reconcileDelete` from the answer to the reading of the connection on.
  unfoldable pub delete_with :
      OmniCluster
      → Result OmniConnection
      → World api.Store omni.Remote
      → Outcome × World api.Store omni.Remote
  unfolding delete_replied
  delete_with cluster (ok connection) w =
      let (reply, remote) =
        omni.delete_cluster connection (cluster_name cluster) (delete_options cluster) w.remote in
      delete_replied cluster reply.output reply.error (record w { remote = remote })
  delete_with cluster (err e) w = unless_failed (failed e) (
      on_store
        (update_cluster_status api cluster (
          failed_status cluster "Ready" "DeleteFailed" (
            "cannot delete remote Omni cluster without OmniConnection "
            <> x.quote cluster.spec.connection_ref.name
            <> ": "
            <> e.message)))
        w)

  -- `reconcileDelete`
  unfoldable pub reconcile_delete :
      OmniCluster → World api.Store omni.Remote → Outcome × World api.Store omni.Remote
  unfolding delete_with release
  reconcile_delete cluster w =
      if not (has_finalizer cluster)
      then (finished, w)
      else if cluster.spec.delete_policy.orphan
      then release api omni cluster w
      else delete_with cluster (api.connections.get (connection_key cluster) w.store) w
