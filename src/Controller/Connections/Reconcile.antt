-- ===== src/Controller/Connections/Reconcile.antt =====
-- omniconnection_controller.go: `Reconcile` and `reconcileDelete`.
use omni_cluster_operator.Base.{
  String, ◌<>◌, List, [], ◌∷◌, Bool, none, some, not, ◌||◌, is_some, if◌then◌else◌,
}
use omni_cluster_operator.Base.Int.{pos}
use omni_cluster_operator.Base.Order.{Sorter, text_lt}
use omni_cluster_operator.Api.Meta.{
  Time, Duration, ConditionStatus, condition_true, condition_false,
}
use omni_cluster_operator.Api.Common.{finalizer, legacy_finalizer, new_condition}
use omni_cluster_operator.Api.Template.{OmniCluster, OmniConnection, OmniConnectionStatus}
use omni_cluster_operator.External.{Result, ok, err, is_not_found}
use omni_cluster_operator.Exec.{Exec}
use omni_cluster_operator.Controller.Kube.{
  Api, Runtime, World, Key, key_of_meta, Outcome, on_store, unless_failed, after_call, with_error,
  after, finished, failed, requeued, minute,
}
use omni_cluster_operator.Controller.Objects.{
  has, with_finalizer, without_finalizer, update_stripped,
}
use omni_cluster_operator.Controller.Omni.{Omni}
use omni_cluster_operator.Controller.Watches.{names_connected}

-- `5 * time.Minute`
abbrev pub check_interval : Duration
check_interval = pos 300_000_000_000

-- The fields that both changes of the status set.
abbrev pub shown_status : OmniConnection → OmniConnectionStatus → OmniConnectionStatus
shown_status connection status = record status {
  common = record (status.common) { observed_generation = connection.meta.generation };
  connection = record {
    connection_ref = connection.meta.name;
    endpoint = connection.spec.endpoint;
  };
}

module _ ⦃t : Runtime⦄ where
  abbrev pub set :
      OmniConnection
      → String
      → ConditionStatus
      → String
      → String
      → OmniConnectionStatus
      → OmniConnectionStatus
  set connection type is reason message status = record status {
    common = record (status.common) {
      conditions =
          t.set_condition status.conditions
            (new_condition type is connection.meta.generation reason message);
    };
  }

  -- The conditions that the answer of `Ping` gives.
  unfoldable pub pinged_status :
      OmniConnection → Result String → OmniConnectionStatus → OmniConnectionStatus
  pinged_status connection (err e) status =
      let message = "failed to connect to Omni: " <> e.message in
      set connection "Stalled" condition_true "ConnectionFailed" message (
        set connection "Ready" condition_false "ConnectionFailed" message
          (set connection "Reachable" condition_false "ConnectionFailed" message status))
  pinged_status connection (ok output) status =
      set connection "Stalled" condition_false "ConnectionReady" output (
        set connection "Ready" condition_true "ConnectionReady" output
          (set connection "Reachable" condition_true "ConnectionReady" output status))

  unfoldable pub checked_status :
      OmniConnection → Time → Result String → OmniConnectionStatus → OmniConnectionStatus
  unfolding pinged_status
  checked_status connection now answer status =
      pinged_status connection answer
        (record (shown_status connection status) { last_check_time = some now })

  -- The status of a connection that waits for clusters to be deleted.
  unfoldable pub waiting_status :
      OmniConnection → List String → OmniConnectionStatus → OmniConnectionStatus
  waiting_status connection references status =
      let message =
        "waiting for OmniCluster references to be deleted: " <> t.join references ", " in
      set connection "Stalled" condition_true "Deleting" message
        (set connection "Ready" condition_false "Deleting" message (shown_status connection status))

  abbrev pub has_finalizer : OmniConnection → Bool
  has_finalizer connection = has finalizer connection.meta || has legacy_finalizer connection.meta

  abbrev pub strip : OmniConnection → OmniConnection
  strip latest = record latest {
    meta = without_finalizer legacy_finalizer (without_finalizer finalizer latest.meta);
  }

module _ (api : Api) where
  -- One try of `updateConnectionStatus`.
  unfoldable pub update_latest :
      (OmniConnectionStatus → OmniConnectionStatus)
      → Result OmniConnection
      → Exec api.Store (Unit {0})
  update_latest mutate (ok latest) store =
      api.connections.update_status (record latest { status = mutate latest.status }) store
  update_latest mutate (err e) store = (err e, store)

  unfoldable pub update_connection_status :
      OmniConnection → (OmniConnectionStatus → OmniConnectionStatus) → Exec api.Store (Unit {0})
  unfolding update_latest
  update_connection_status connection mutate =
      api.retry_on_conflict λ store.
        update_latest mutate (api.connections.get (key_of_meta connection.meta) store) store

  unfoldable pub remove_finalizers : ⦃t : Runtime⦄ → OmniConnection → Exec api.Store (Unit {0})
  remove_finalizers connection =
      update_stripped api api.connections strip (key_of_meta connection.meta)

-- `referencingClusterNames`, from the answer of `List` on
unfoldable pub references_among :
    ⦃s : Sorter⦄ → OmniConnection → Result (List OmniCluster) → Result (List String)
references_among connection (err e) = err e
references_among ⦃s = s⦄ connection (ok clusters) =
    ok (s.sort String text_lt (names_connected connection.meta.name clusters))

module _ ⦃s : Sorter⦄ ⦃t : Runtime⦄ (api : Api) (omni : Omni) where
  abbrev pub Run : Type 0
  Run = World api.Store omni.Remote → Outcome × World api.Store omni.Remote

  unfoldable pub referencing_cluster_names : OmniConnection → api.Store → Result (List String)
  unfolding references_among
  referencing_cluster_names connection store =
      references_among connection (api.clusters.list connection.meta.namespace store)

  module _ (connection : OmniConnection) where
    -- `reconcileDelete` from the references on
    unfoldable pub delete_unless : Result (List String) → Run
    unfolding remove_finalizers update_connection_status
    delete_unless (err e) w = (failed e, w)
    delete_unless (ok []) w = with_error (on_store (remove_finalizers api connection) w)
    delete_unless (ok (name ∷ names)) w = after_call minute (
        on_store
          (update_connection_status api connection (waiting_status connection (name ∷ names))) w)

    unfoldable pub reconcile_delete : Run
    unfolding delete_unless referencing_cluster_names
    reconcile_delete w =
        if not (has_finalizer connection)
        then (finished, w)
        else delete_unless (referencing_cluster_names connection w.store) w

    abbrev pub pinged_outcome : Result String → Outcome
    pinged_outcome (err e) = after minute (some e)
    pinged_outcome (ok output) = after check_interval none

    -- `Reconcile` from the answer of `Ping` on
    unfoldable pub pinged : Time → Result String → Run
    unfolding checked_status update_connection_status
    pinged now answer w = unless_failed (pinged_outcome answer) (
        on_store (update_connection_status api connection (checked_status connection now answer)) w)

    abbrev pub owned : OmniConnection
    owned = record connection { meta = with_finalizer finalizer connection.meta }

    unfoldable pub reconcile_connection : Run
    unfolding reconcile_delete pinged
    reconcile_connection w =
        if is_some connection.meta.deletion_timestamp
        then reconcile_delete w
        else if not (has_finalizer connection)
        then unless_failed requeued (on_store (api.connections.update owned) w)
        else pinged (api.now w.store) (omni.ping connection w.remote) w

  unfoldable pub reconcile_found : Result OmniConnection → Run
  unfolding reconcile_connection
  reconcile_found (err e) w = (if is_not_found e then finished else failed e, w)
  reconcile_found (ok connection) w = reconcile_connection connection w

  -- `Reconcile`
  unfoldable pub reconcile : Key → Run
  unfolding reconcile_found
  reconcile key w = reconcile_found (api.connections.get key w.store) w
