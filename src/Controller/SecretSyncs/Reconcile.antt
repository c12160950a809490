-- ===== src/Controller/SecretSyncs/Reconcile.antt =====
-- omnisecretsync_controller.go: `Reconcile`. The remote is the workload cluster.
use omni_cluster_operator.Base.{
  ◌<>◌, Bool, true, Option, none, some, not, ◌==◌, ◌&&◌, ◌||◌, is_some, if◌then◌else◌,
}
use omni_cluster_operator.Api.Meta.{Bytes, Secret}
use omni_cluster_operator.Api.Common.{finalizer}
use omni_cluster_operator.Api.Template.{OmniCluster}
use omni_cluster_operator.Api.Workload.{
  OmniSecretSync, OmniSecretSyncStatus, policy_delete, policy_orphan,
}
use omni_cluster_operator.External.{Error, Result, ok, err, is_not_found, External}
use omni_cluster_operator.Exec.{Exec, pure}
use omni_cluster_operator.Template.Parts.{cluster_name}
use omni_cluster_operator.SecretSync.Desired.{
  Target, SyncResult, kubeconfig_secret_key, target_for_item,
}
use omni_cluster_operator.SecretSync.Client.{Workload, sync, delete}
use omni_cluster_operator.Controller.Kube.{
  Api, Runtime, DeepEqual, World, Key, key_of_meta, Outcome, Stage, proceed, done, stop, on_store,
  on_remote, unless_failed, unless_done, after_call, with_error, after, finished, failed, minute,
}
use omni_cluster_operator.Controller.Objects.{
  has, with_finalizer, without_finalizer, update_stripped,
}
use omni_cluster_operator.Controller.Stages.{Reports, ensure_finalizer, kubeconfig_found}
use omni_cluster_operator.Controller.SpecErrors.{secret_sync_spec_error}
use omni_cluster_operator.Controller.SecretSyncs.Status.{
  SecretSyncStatusUpdate, no_update, accepted_update, update_secret_sync_status,
}

abbrev pub cluster_key : OmniSecretSync → Key
cluster_key item = record { namespace = item.meta.namespace; name = item.spec.cluster_ref.name }

abbrev pub source_key : OmniSecretSync → Key
source_key item = record {
  namespace = item.meta.namespace;
  name = item.spec.source_secret_ref.name;
}

abbrev pub kubeconfig_key : OmniSecretSync → Key
kubeconfig_key item = record {
  namespace = item.meta.namespace;
  name = item.spec.kubeconfig_secret_ref.name;
}

-- The target that the status reports.
abbrev pub previous_target : OmniSecretSync → Target
previous_target item = record {
  namespace = item.status.target_namespace;
  name = item.status.target_secret_ref;
}

-- The early returns of `deletePreviousTargetSecret`.
unfoldable pub keeps_previous_target : OmniSecretSync → Bool
keeps_previous_target item =
    not (item.spec.deletion_policy == policy_delete)
    || item.status.target_secret_ref == ""
    || item.status.target_namespace == ""
    || ((previous_target item).namespace == (target_for_item item).namespace
        && (previous_target item).name == (target_for_item item).name)

-- The target that `reconcileDelete` deletes.
unfoldable pub deleted_target : OmniSecretSync → Target
deleted_target item =
    if not (item.status.target_secret_ref == "") && not (item.status.target_namespace == "")
    then previous_target item
    else target_for_item item

module _ ⦃x : External⦄ (c : Workload) where
  unfoldable pub delete_previous_target_secret : OmniSecretSync → Bytes → Exec c.World (Unit {0})
  delete_previous_target_secret item kubeconfig =
      if keeps_previous_target item
      then pure tt
      else delete c item kubeconfig (previous_target item)

module _ ⦃t : Runtime⦄ (api : Api) where
  abbrev pub strip : OmniSecretSync → OmniSecretSync
  strip latest = record latest { meta = without_finalizer finalizer latest.meta }

  unfoldable pub remove_finalizer : OmniSecretSync → Exec api.Store (Unit {0})
  remove_finalizer item = update_stripped api api.secret_syncs strip (key_of_meta item.meta)

module _ ⦃x : External⦄ ⦃t : Runtime⦄ ⦃d : DeepEqual OmniSecretSyncStatus⦄ (api : Api)
    (c : Workload) where
  abbrev pub Run : Type 0 → Type 0
  Run A = World api.Store c.World → A × World api.Store c.World

  module _ (item : OmniSecretSync) where
    abbrev pub report : SecretSyncStatusUpdate → Run (Result (Unit {0}))
    report input = on_store (update_secret_sync_status api item input)

    -- `cluster`, from the answer of `Get` on
    unfoldable pub cluster_found : Result OmniCluster → Run (Stage OmniCluster)
    cluster_found (ok cluster) w = (proceed cluster, w)
    cluster_found (err e) w =
        if is_not_found e
        then stop (
            after_call minute (
              report
                (record no_update {
                  accepted_known = true;
                  reason = "MissingCluster";
                  message =
                      "OmniCluster " <> x.quote item.spec.cluster_ref.name <> " does not exist";
                })
                w))
        else (done (failed e), w)

    -- `sourceSecret`, from the answer of `Get` on
    unfoldable pub source_found : Result Secret → Run (Stage Secret)
    source_found (ok secret) w = (proceed secret, w)
    source_found (err e) w =
        if is_not_found e
        then stop (
            after_call minute (
              report
                (record accepted_update {
                  reason = "MissingSecret";
                  message =
                      "source Secret "
                      <> x.quote
                          (x.namespaced_name (source_key item).namespace (source_key item).name)
                      <> " does not exist";
                })
                w))
        else (done (failed e), w)

    -- How `kubeconfig` reports.
    abbrev pub reports : Reports (World api.Store c.World)
    reports = record {
      missing = λ message.
          report (record accepted_update { reason = "MissingSecret"; message = message });
      lacking = λ e. report (record accepted_update { reason = "MissingSecret"; error = some e });
      invalid =
          λ e. report (record accepted_update { reason = "ValidationFailed"; error = some e });
    }

    unfoldable pub kubeconfig : Run (Stage Bytes)
    kubeconfig w =
        kubeconfig_found reports (kubeconfig_key item) (kubeconfig_secret_key item)
          (api.secrets.get (kubeconfig_key item) w.store) w

    -- `Reconcile` from the answer of `Sync` on
    unfoldable pub synced :
        Result SyncResult × World api.Store c.World → Outcome × World api.Store c.World
    synced (ok result, w) =
        unless_failed finished (report (record accepted_update { result = some result }) w)
    synced (err e, w) =
        unless_failed (after minute (some e)) (report (record accepted_update { error = some e }) w)

    -- `Reconcile` from the answer of `deletePreviousTargetSecret` on
    unfoldable pub moved :
        OmniCluster
        → Secret
        → Bytes
        → Result (Unit {0}) × World api.Store c.World
        → Outcome × World api.Store c.World
    unfolding synced
    moved cluster source bytes (err e, w) =
        unless_failed (after minute (some e))
          (report (record accepted_update { reason = "DeleteFailed"; error = some e }) w)
    moved cluster source bytes (ok _, w) =
        synced (on_remote (sync c item source bytes (cluster_name cluster)) w)

    -- `Reconcile` once it has the cluster, the source and the kubeconfig
    unfoldable pub reconcile_ready : OmniCluster → Secret → Bytes → Run Outcome
    unfolding moved
    reconcile_ready cluster source bytes w =
        moved cluster source bytes (on_remote (delete_previous_target_secret c item bytes) w)

    -- `Reconcile` from the check of the specification on
    unfoldable pub reconcile_checked : Option Error → Run Outcome
    unfolding reconcile_ready cluster_found source_found kubeconfig
    reconcile_checked (some e) w =
        with_error (report (record no_update { reason = "ValidationFailed"; error = some e }) w)
    reconcile_checked none w =
        unless_done
          (λ cluster v.
            unless_done (λ source u. unless_done (reconcile_ready cluster source) (kubeconfig u))
              (source_found (api.secrets.get (source_key item) v.store) v))
          (cluster_found (api.clusters.get (cluster_key item) w.store) w)

    abbrev pub owned : OmniSecretSync
    owned = record item { meta = with_finalizer finalizer item.meta }

    -- `Reconcile` of an item that is not being deleted
    unfoldable pub reconcile_alive : Run Outcome
    unfolding reconcile_checked
    reconcile_alive w =
        unless_done (λ _. reconcile_checked (secret_sync_spec_error item))
          (ensure_finalizer api.secret_syncs (has finalizer item.meta) owned w)

    -- `reconcileDelete` from the answer of `Delete` on
    unfoldable pub deleted :
        Result (Unit {0}) × World api.Store c.World → Outcome × World api.Store c.World
    unfolding remove_finalizer
    deleted (err e, w) =
        unless_failed (after minute (some e))
          (report (record accepted_update { reason = "DeleteFailed"; error = some e }) w)
    deleted (ok _, w) = with_error (on_store (remove_finalizer api item) w)

    -- `reconcileDelete` once it has the kubeconfig
    unfoldable pub delete_with : Bytes → Run Outcome
    unfolding deleted deleted_target
    delete_with bytes w = deleted (on_remote (delete c item bytes (deleted_target item)) w)

    unfoldable pub reconcile_delete : Run Outcome
    unfolding delete_with kubeconfig remove_finalizer
    reconcile_delete w =
        if not (has finalizer item.meta)
        then (finished, w)
        else if item.spec.deletion_policy == policy_orphan
        then with_error (on_store (remove_finalizer api item) w)
        else unless_done delete_with (kubeconfig w)

    unfoldable pub reconcile_item : Run Outcome
    unfolding reconcile_delete reconcile_alive
    reconcile_item w =
        if is_some item.meta.deletion_timestamp then reconcile_delete w else reconcile_alive w

  unfoldable pub reconcile_found : Result OmniSecretSync → Run Outcome
  unfolding reconcile_item
  reconcile_found (err e) w = (if is_not_found e then finished else failed e, w)
  reconcile_found (ok item) w = reconcile_item item w

  -- `Reconcile`
  unfoldable pub reconcile : Key → Run Outcome
  unfolding reconcile_found
  reconcile key w = reconcile_found (api.secret_syncs.get key w.store) w
