-- ===== src/Controller/Cluster/Status.antt =====
-- omnicluster_controller.go: the status of an OmniCluster, and how it is written.
use omni_cluster_operator.Base.{String, trim_space, leb, if◌then◌else◌}
use omni_cluster_operator.Base.Int.{pos, ltb_ℤ}
use omni_cluster_operator.Api.Meta.{Duration, condition_false, ConditionStatus}
use omni_cluster_operator.Api.Common.{new_condition}
use omni_cluster_operator.Api.Template.{OmniCluster, OmniClusterStatus, OmniConnection}
use omni_cluster_operator.External.{Result, ok, err}
use omni_cluster_operator.Exec.{Exec}
use omni_cluster_operator.Template.Parts.{cluster_name}
use omni_cluster_operator.Template.Render.{Rendered}
use omni_cluster_operator.Controller.Kube.{Api, Runtime, Key}

unfoldable pub sync_interval : OmniCluster → Duration
sync_interval cluster =
    let interval = cluster.spec.sync_interval in
    if ltb_ℤ (pos 0) interval then interval else pos 300000000000

abbrev pub key_of : OmniCluster → Key
key_of cluster = record { namespace = cluster.meta.namespace; name = cluster.meta.name }

abbrev pub connection_key : OmniCluster → Key
connection_key cluster = record {
  namespace = cluster.meta.namespace;
  name = cluster.spec.connection_ref.name;
}

unfoldable pub set_rendered_status :
    OmniCluster → OmniConnection → Rendered → OmniClusterStatus → OmniClusterStatus
set_rendered_status cluster connection rendered status = record status {
  common = record (status.common) { observed_generation = cluster.meta.generation };
  connection = record {
    connection_ref = connection.meta.name;
    endpoint = connection.spec.endpoint;
  };
  sync = record (status.sync) {
    cluster_name = rendered.cluster_name;
    template_hash = rendered.template_hash;
  };
  control_plane_ref = rendered.control_plane_ref;
  workers_refs = rendered.workers_refs;
  machine_refs = rendered.machine_refs;
}

module _ ⦃t : Runtime⦄ where
  unfoldable pub trim_status : String → String
  trim_status output =
      let trimmed = trim_space output in
      if leb (t.byte_length trimmed) 4096 then trimmed else t.byte_prefix 4096 trimmed

  -- `SetCondition(&status.Conditions, NewCondition(…, cluster.Generation, …))`
  unfoldable pub with_condition :
      OmniCluster
      → String
      → ConditionStatus
      → String
      → String
      → OmniClusterStatus
      → OmniClusterStatus
  with_condition cluster type is reason message status = record status {
    common = record (status.common) {
      conditions =
          t.set_condition status.conditions
            (new_condition type is cluster.meta.generation reason message);
    };
  }

  -- The change of status that `markClusterFailed` makes.
  unfoldable pub failed_status :
      OmniCluster → String → String → String → OmniClusterStatus → OmniClusterStatus
  failed_status cluster type reason message status =
      with_condition cluster "Ready" condition_false reason message (
        with_condition cluster type condition_false reason message (record status {
          common = record (status.common) { observed_generation = cluster.meta.generation };
          sync = record (status.sync) { cluster_name = cluster_name cluster };
        }))

module _ (api : Api) where
  -- One try of `updateClusterStatus`.
  unfoldable pub update_latest :
      (OmniClusterStatus → OmniClusterStatus) → Result OmniCluster → Exec api.Store (Unit {0})
  update_latest mutate (ok latest) store =
      api.clusters.update_status (record latest { status = mutate latest.status }) store
  update_latest mutate (err e) store = (err e, store)

  unfoldable pub update_cluster_status :
      OmniCluster → (OmniClusterStatus → OmniClusterStatus) → Exec api.Store (Unit {0})
  unfolding update_latest
  update_cluster_status cluster mutate =
      api.retry_on_conflict
        λ store. update_latest mutate (api.clusters.get (key_of cluster) store) store
