-- ===== src/Controller/KubeconfigExport/Reconcile.antt =====
-- omnikubeconfigexport_controller.go: `Reconcile` and `reconcileDelete`. The remote is Omni.
use omni_cluster_operator.Base.{
  String, ◌<>◌, true, Option, none, some, not, ◌==◌, ◌&&◌, is_some, if◌then◌else◌,
}
use omni_cluster_operator.Api.Meta.{Bytes, Time, Secret}
use omni_cluster_operator.Api.Common.{finalizer}
use omni_cluster_operator.Api.Template.{OmniCluster, OmniConnection}
use omni_cluster_operator.Api.Workload.{
  OmniKubeconfigExport, OmniKubeconfigExportStatus, policy_delete,
}
use omni_cluster_operator.External.{Error, Result, ok, err, is_not_found, External}
use omni_cluster_operator.Exec.{Exec}
use omni_cluster_operator.Export
use omni_cluster_operator.Template.Parts
use omni_cluster_operator.Controller.Kube.{
  Api, Runtime, DeepEqual, World, Key, Outcome, Stage, proceed, done, stop, on_store, on_remote,
  unless_failed, unless_done, after_call, with_error, after, finished, failed, minute,
}
use omni_cluster_operator.Controller.Objects.{has, with_finalizer, without_finalizer}
use omni_cluster_operator.Controller.Omni.{Omni}
use omni_cluster_operator.Controller.Stages.{ensure_finalizer}
use omni_cluster_operator.Controller.SpecErrors.{kubeconfig_export_spec_error}
use omni_cluster_operator.Controller.KubeconfigExport.State.{
  CurrentKubeconfigState, reusable_current_kubeconfig_secret_state, requeue_after,
}
use omni_cluster_operator.Controller.KubeconfigExport.Written.{exported_secret, expiration_of}
use omni_cluster_operator.Controller.KubeconfigExport.Previous.{
  target_secret, delete_previous_target_secret,
}
use omni_cluster_operator.Controller.KubeconfigExport.Status.{
  KubeconfigExportStatusUpdate, no_update, cluster_update, update_kubeconfig_export_status,
}
use omni_cluster_operator.Controller.KubeconfigExport.Generated.{
  Kubeconfigs, cluster_key, connection_key, kubeconfig_options, in_context,
}

module _ ⦃x : External⦄ ⦃t : Runtime⦄ ⦃d : DeepEqual OmniKubeconfigExportStatus⦄ (api : Api)
    (omni : Omni) (k : Kubeconfigs) where
  abbrev pub Run : Type 0 → Type 0
  Run A = World api.Store omni.Remote → A × World api.Store omni.Remote

  module _ (item : OmniKubeconfigExport) where
    abbrev pub report : KubeconfigExportStatusUpdate → Run (Result (Unit {0}))
    report input = on_store (update_kubeconfig_export_status api item input)

    -- `exportCluster`, from the answer of `Get` on
    unfoldable pub cluster_found : Result OmniCluster → Run (Stage OmniCluster)
    cluster_found (ok cluster) w = (proceed cluster, w)
    cluster_found (err e) w =
        if is_not_found e
        then stop (
            after_call minute (
              report
                (record no_update {
                  accepted_known = true;
                  reason = "MissingCluster";
                  message =
                      "OmniCluster " <> x.quote item.spec.cluster_ref.name <> " does not exist";
                })
                w))
        else (done (failed e), w)

    -- `exportConnection`, from the answer of `Get` on
    unfoldable pub connection_found :
        OmniCluster → Result OmniConnection → Run (Stage OmniConnection)
    connection_found cluster (ok connection) w = (proceed connection, w)
    connection_found cluster (err e) w = stop (
        unless_failed (after minute none) (
          report
            (record (cluster_update cluster) {
              export_error = some e;
              reason = "MissingConnection";
              message =
                  "failed to get OmniConnection "
                  <> x.quote cluster.spec.connection_ref.name
                  <> ": "
                  <> e.message;
            })
            w))

    module _ (cluster : OmniCluster) (connection : OmniConnection) where
      abbrev pub connected_update : KubeconfigExportStatusUpdate
      connected_update = record (cluster_update cluster) { connection = some connection }

      -- A failure of `generateKubeconfig`.
      unfoldable pub export_failed : Error → String → Run (Stage Bytes)
      export_failed e message w = stop (
          unless_failed (after minute (some e)) (
            report
              (record connected_update {
                export_error = some e;
                reason = "ExportFailed";
                message = message;
              })
              w))

      abbrev pub prepared : Result Bytes → Run (Stage Bytes)
      prepared (ok bytes) w = (proceed bytes, w)
      prepared (err e) w = export_failed e e.message w

      -- `generateKubeconfig` from the answer of `Kubeconfig` on
      unfoldable pub generated :
          Result Bytes × World api.Store omni.Remote → Stage Bytes × World api.Store omni.Remote
      unfolding export_failed in_context
      generated (err e, w) = export_failed e ("failed to export kubeconfig: " <> e.message) w
      generated (ok bytes, w) = prepared (in_context k item bytes (k.load bytes)) w

      unfoldable pub generate_kubeconfig : Run (Stage Bytes)
      unfolding generated
      generate_kubeconfig w = generated (
          on_remote
            (omni.kubeconfig connection (Parts.cluster_name cluster) (kubeconfig_options item)) w)

      -- The status after an export, or of a Secret that is kept.
      abbrev pub exported_update : CurrentKubeconfigState → KubeconfigExportStatusUpdate
      exported_update state = record connected_update {
        exported = true;
        hash = state.hash;
        expiration_time = some state.expiration_time;
        last_rotation_time = state.last_rotation_time;
        next_rotation_time = some state.next_rotation_time;
      }

      -- The status is written, and the controller asks to be called when the rotation is due.
      unfoldable pub report_exported : Time → CurrentKubeconfigState → Run Outcome
      report_exported now state w =
          unless_failed (after (requeue_after now (some state.next_rotation_time)) none)
            (report (exported_update state) w)

      -- The state of what is exported at a time.
      abbrev pub new_state : Time → Bytes → CurrentKubeconfigState
      new_state now bytes = record {
        hash = Export.hash bytes;
        expiration_time = expiration_of item now;
        last_rotation_time = some now;
        next_rotation_time =
            Export.next_rotation_time (expiration_of item now) item.spec.renew_before;
      }

      abbrev pub write_secret : Option Secret → Secret → Exec api.Store (Unit {0})
      write_secret none secret = api.secrets.create secret
      write_secret (some _) secret = api.secrets.update secret

      -- `Reconcile` from the writing of the Secret on
      unfoldable pub secret_written :
          Time
          → Bytes
          → Result (Unit {0}) × World api.Store omni.Remote
          → Outcome × World api.Store omni.Remote
      unfolding report_exported
      secret_written now bytes (err e, w) = (failed e, w)
      secret_written now bytes (ok _, w) = report_exported now (new_state now bytes) w

      -- `Reconcile` from the kubeconfig on
      unfoldable pub export_bytes : String → Time → Option Secret → Bytes → Run Outcome
      unfolding secret_written
      export_bytes spec_hash now found bytes w = secret_written now bytes (
          on_store
            (write_secret found
              (exported_secret item (Parts.cluster_name cluster) spec_hash bytes now found))
            w)

      -- The state of the Secret that was found, if it can be kept.
      abbrev pub reusable : String → Time → Option Secret → Option CurrentKubeconfigState
      reusable spec_hash now none = none
      reusable spec_hash now (some secret) =
          reusable_current_kubeconfig_secret_state k.validate secret (Export.target_secret_key item)
            spec_hash now item.spec.renew_before

      -- `Reconcile` from the decision to keep the Secret on
      unfoldable pub keep_or_export :
          String → Time → Option Secret → Option CurrentKubeconfigState → Run Outcome
      unfolding report_exported export_bytes generate_kubeconfig
      keep_or_export spec_hash now found (some state) w = report_exported now state w
      keep_or_export spec_hash now found none w =
          unless_done (export_bytes spec_hash now found) (generate_kubeconfig w)

      -- `Reconcile` from the answer of `targetSecret` on
      unfoldable pub with_target : String → Time → Result (Option Secret) → Run Outcome
      unfolding keep_or_export
      with_target spec_hash now (err e) w = (failed e, w)
      with_target spec_hash now (ok found) w =
          keep_or_export spec_hash now found (reusable spec_hash now found) w

      -- `Reconcile` from the answer of `deletePreviousTargetSecret` on
      unfoldable pub moved :
          String
          → Time
          → Result (Unit {0}) × World api.Store omni.Remote
          → Outcome × World api.Store omni.Remote
      unfolding with_target
      moved spec_hash now (err e, w) = (failed e, w)
      moved spec_hash now (ok _, w) = with_target spec_hash now (target_secret api item w.store) w

      -- `Reconcile` from the answer of `SpecHash` on
      unfoldable pub hashed : Result String → Run Outcome
      unfolding moved
      hashed (err e) w = (failed e, w)
      hashed (ok spec_hash) w =
          moved spec_hash (api.now w.store) (on_store (delete_previous_target_secret api item) w)

      unfoldable pub reconcile_connected : Run Outcome
      unfolding hashed
      reconcile_connected = hashed (Export.spec_hash item (Parts.cluster_name cluster))

    -- `Reconcile` from the check of the specification on
    unfoldable pub reconcile_checked : Option Error → Run Outcome
    unfolding reconcile_connected cluster_found connection_found
    reconcile_checked (some e) w = with_error (
        report
          (record no_update {
            export_error = some e;
            reason = "ValidationFailed";
            message = e.message;
          })
          w)
    reconcile_checked none w =
        unless_done
          (λ cluster v. unless_done (reconcile_connected cluster) (
            connection_found cluster (api.connections.get (connection_key item cluster) v.store) v))
          (cluster_found (api.clusters.get (cluster_key item) w.store) w)

    abbrev pub owned : OmniKubeconfigExport
    owned = record item { meta = with_finalizer finalizer item.meta }

    -- `Reconcile` of an item that is not being deleted
    unfoldable pub reconcile_alive : Run Outcome
    unfolding reconcile_checked
    reconcile_alive w =
        unless_done (λ _. reconcile_checked (kubeconfig_export_spec_error item))
          (ensure_finalizer api.kubeconfig_exports (has finalizer item.meta) owned w)

    -- `reconcileDelete` once the Secret is dealt with
    unfoldable pub release : Run Outcome
    release w = with_error (
        on_store
          (api.kubeconfig_exports.update
            (record item { meta = without_finalizer finalizer item.meta }))
          w)

    -- `reconcileDelete` from the answer of `Delete` on
    unfoldable pub secret_deleted :
        Result (Unit {0}) × World api.Store omni.Remote → Outcome × World api.Store omni.Remote
    unfolding release
    secret_deleted (ok _, w) = release w
    secret_deleted (err e, w) = if is_not_found e then release w else (failed e, w)

    -- `reconcileDelete` from the answer of `targetSecret` on
    unfoldable pub delete_target : Result (Option Secret) → Run Outcome
    unfolding secret_deleted
    delete_target (err e) w = (failed e, w)
    delete_target (ok none) w = release w
    delete_target (ok (some secret)) w =
        if Export.is_owned_secret item (some secret)
        then secret_deleted (on_store (api.secrets.delete secret) w)
        else release w

    unfoldable pub reconcile_delete : Run Outcome
    unfolding delete_target release
    reconcile_delete w =
        if not (has finalizer item.meta)
        then (finished, w)
        else if item.spec.deletion_policy == policy_delete
            && not (item.spec.target_secret_ref.name == "")
        then delete_target (target_secret api item w.store) w
        else release w

    unfoldable pub reconcile_item : Run Outcome
    unfolding reconcile_delete reconcile_alive
    reconcile_item w =
        if is_some item.meta.deletion_timestamp then reconcile_delete w else reconcile_alive w

  unfoldable pub reconcile_found : Result OmniKubeconfigExport → Run Outcome
  unfolding reconcile_item
  reconcile_found (err e) w = (if is_not_found e then finished else failed e, w)
  reconcile_found (ok item) w = reconcile_item item w

  -- `Reconcile`
  unfoldable pub reconcile : Key → Run Outcome
  unfolding reconcile_found
  reconcile key w = reconcile_found (api.kubeconfig_exports.get key w.store) w
