-- ===== src/Controller/Cluster/Reconcile.antt =====
-- omnicluster_controller.go: `Reconcile`.
use omni_cluster_operator.Base.{
  String, ◌<>◌, true, false, Option, none, some, not, is_some, is_blank, if◌then◌else◌,
}
use omni_cluster_operator.Base.Order.{Sorter}
use omni_cluster_operator.Api.Meta.{Time, condition_true, condition_false}
use omni_cluster_operator.Api.Common.{finalizer}
use omni_cluster_operator.Api.Template.{OmniCluster, OmniClusterStatus, OmniConnection}
use omni_cluster_operator.External.{Error, Result, ok, err, External, is_not_found}
use omni_cluster_operator.Template.Render.{Inputs, Rendered, Encoder, render}
use omni_cluster_operator.Controller.Kube.{
  Api, Runtime, World, on_store, unless_failed, Key, Outcome, no_result, finished, failed, after,
}
use omni_cluster_operator.Controller.Omni.{Omni, Reply, SyncOptions}
use omni_cluster_operator.Controller.Cluster.Status.{
  connection_key, update_cluster_status, failed_status, with_condition, trim_status, sync_interval,
  set_rendered_status,
}
use omni_cluster_operator.Controller.Cluster.Inputs.{template_inputs}
use omni_cluster_operator.Controller.Cluster.Deletion.{has_finalizer, reconcile_delete}

abbrev pub sync_options : SyncOptions
sync_options = record { destroy_machines = false }

module _ ⦃t : Runtime⦄ where
  abbrev pub with_finalizer : OmniCluster → OmniCluster
  with_finalizer cluster = record cluster {
    meta = record (cluster.meta) { finalizers = t.add_finalizer cluster.meta.finalizers finalizer };
  }

  -- The status of a cluster that is suspended.
  abbrev pub suspended_status : OmniCluster → OmniClusterStatus → OmniClusterStatus
  suspended_status cluster status =
      with_condition cluster "Ready" condition_false "Suspended" "remote Omni sync is suspended"
        (record status {
          common = record (status.common) { observed_generation = cluster.meta.generation };
        })

  -- The status after the validator of templates refused.
  abbrev pub invalid_status :
      OmniCluster → OmniConnection → Rendered → Error → OmniClusterStatus → OmniClusterStatus
  invalid_status cluster connection rendered e status =
      with_condition cluster "Ready" condition_false "ValidationFailed" e.message (
        with_condition cluster "Validated" condition_false "ValidationFailed" e.message
          (set_rendered_status cluster connection rendered status))

  abbrev pub valid_status : OmniCluster → OmniClusterStatus → OmniClusterStatus
  valid_status cluster =
      with_condition cluster "Validated" condition_true "Validated"
        "rendered Omni cluster template is valid"

  abbrev pub sync_failed_message : String → Error → String
  sync_failed_message output e =
      let message = "sync failed: " <> e.message in
      if is_blank output then message else message <> "\n" <> trim_status output

  -- The status after `SyncTemplate` failed.
  abbrev pub sync_failed_status :
      OmniCluster
      → OmniConnection
      → Rendered
      → Time
      → String
      → Error
      → OmniClusterStatus
      → OmniClusterStatus
  sync_failed_status cluster connection rendered now output e status =
      let message = sync_failed_message output e in
      let shown = set_rendered_status cluster connection rendered status in
      with_condition cluster "Ready" condition_false "SyncFailed" message (
        with_condition cluster "Synced" condition_false "SyncFailed" message (
          valid_status cluster (record shown {
            sync = record (shown.sync) {
              last_attempt_time = some now;
              last_sync_output = trim_status output;
            };
          })))

  abbrev ready_status : OmniCluster → Option Error → OmniClusterStatus → OmniClusterStatus
  ready_status cluster (some e) =
      with_condition cluster "Ready" condition_false "StatusFailed" e.message
  ready_status cluster none =
      with_condition cluster "Ready" condition_true "Synced"
        "cluster template is synced and status was read from Omni"

  -- The status after a sync, with what `StatusCluster` replied.
  abbrev pub synced_status :
      OmniCluster
      → OmniConnection
      → Rendered
      → Time
      → String
      → Reply
      → OmniClusterStatus
      → OmniClusterStatus
  synced_status cluster connection rendered now output reply status =
      let shown = set_rendered_status cluster connection rendered status in
      ready_status cluster reply.error (
        with_condition cluster "Synced" condition_true "Synced" "template synced to Omni" (
          valid_status cluster (record shown {
            sync = record (shown.sync) {
              last_attempt_time = some now;
              last_sync_time = some now;
              last_sync_output = trim_status output;
              last_status_output = trim_status reply.output;
            };
          })))

module _ ⦃x : External⦄ ⦃s : Sorter⦄ ⦃y : Encoder⦄ ⦃t : Runtime⦄ (api : Api) (omni : Omni) where
  module _ (cluster : OmniCluster) where
    -- The status is written, and the controller asks to be called again after the interval.
    abbrev pub report :
        (OmniClusterStatus → OmniClusterStatus)
        → Option Error
        → World api.Store omni.Remote
        → Outcome × World api.Store omni.Remote
    report mutate error w =
        unless_failed (after (sync_interval cluster) error)
          (on_store (update_cluster_status api cluster mutate) w)

    -- `Reconcile` from the reply of `SyncTemplate` on.
    unfoldable pub replied :
        OmniConnection
        → Rendered
        → Time
        → String
        → Option Error
        → World api.Store omni.Remote
        → Outcome × World api.Store omni.Remote
    replied connection rendered now output (some e) w =
        report (sync_failed_status cluster connection rendered now output e) (some e) w
    replied connection rendered now output none w =
        let status = omni.status_cluster connection rendered.cluster_name w.remote in
        report (synced_status cluster connection rendered now output status) none w

    -- `Reconcile` from the answer of the validator on.
    unfoldable pub sync_checked :
        OmniConnection
        → Rendered
        → Option Error
        → World api.Store omni.Remote
        → Outcome × World api.Store omni.Remote
    unfolding replied
    sync_checked connection rendered (some e) w =
        report (invalid_status cluster connection rendered e) none w
    sync_checked connection rendered none w =
        let (reply, remote) =
          omni.sync_template connection rendered.template cluster.spec.template_root sync_options
            w.remote in
        replied connection rendered (api.now w.store) reply.output reply.error
          (record w { remote = remote })

    -- `Reconcile` from the rendering on.
    unfoldable pub sync_rendered :
        OmniConnection
        → Result Rendered
        → World api.Store omni.Remote
        → Outcome × World api.Store omni.Remote
    unfolding sync_checked
    sync_rendered connection (err e) w =
        report (failed_status cluster "Validated" "ValidationFailed" e.message) none w
    sync_rendered connection (ok rendered) w =
        sync_checked connection rendered
          (t.template_error rendered.template cluster.spec.template_root) w

    -- `Reconcile` from the reading of the inputs on.
    unfoldable pub sync_inputs :
        OmniConnection
        → Result Inputs
        → World api.Store omni.Remote
        → Outcome × World api.Store omni.Remote
    unfolding sync_rendered
    sync_inputs connection (err e) w =
        report (failed_status cluster "Validated" "MissingTemplate" e.message) none w
    sync_inputs connection (ok inputs) w = sync_rendered connection (render inputs) w

    -- `Reconcile` from the reading of the connection on.
    unfoldable pub sync_with :
        Result OmniConnection → World api.Store omni.Remote → Outcome × World api.Store omni.Remote
    unfolding sync_inputs
    sync_with (err e) w =
        report
          (failed_status cluster "Synced" "MissingConnection" (
            "failed to get OmniConnection "
            <> x.quote cluster.spec.connection_ref.name
            <> ": "
            <> e.message))
          none w
    sync_with (ok connection) w = sync_inputs connection (template_inputs api cluster w.store) w

  unfoldable pub suspend :
      OmniCluster → World api.Store omni.Remote → Outcome × World api.Store omni.Remote
  suspend cluster w =
      let (r, w') = on_store (update_cluster_status api cluster (suspended_status cluster)) w in
      (after (sync_interval cluster) (elim r [ ok _ ↦ none | err e ↦ some e ]), w')

  -- `Reconcile` once the cluster is read.
  unfoldable pub reconcile_cluster :
      OmniCluster → World api.Store omni.Remote → Outcome × World api.Store omni.Remote
  unfolding sync_with suspend
  reconcile_cluster cluster w =
      if is_some cluster.meta.deletion_timestamp
      then reconcile_delete api omni cluster w
      else if not (has_finalizer cluster)
      then unless_failed (record { result = record no_result { requeue = true }; error = none })
          (on_store (api.clusters.update (with_finalizer cluster)) w)
      else if cluster.spec.suspend
      then suspend cluster w
      else sync_with cluster (api.connections.get (connection_key cluster) w.store) w

  unfoldable pub reconcile_found :
      Result OmniCluster → World api.Store omni.Remote → Outcome × World api.Store omni.Remote
  unfolding reconcile_cluster
  reconcile_found (ok cluster) w = reconcile_cluster cluster w
  reconcile_found (err e) w = (if is_not_found e then finished else failed e, w)

  -- `Reconcile`
  unfoldable pub reconcile :
      Key → World api.Store omni.Remote → Outcome × World api.Store omni.Remote
  unfolding reconcile_found
  reconcile key w = reconcile_found (api.clusters.get key w.store) w
