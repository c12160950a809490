-- ===== src/Controller/SecretSyncs/Status.antt =====
-- omnisecretsync_controller.go: the status of an OmniSecretSync.
use omni_cluster_operator.Base.{
  String, ◌<>◌, Bool, true, false, Option, none, some, not, ◌==◌, ◌&&◌, ◌||◌, is_some,
  if◌then◌else◌,
}
use omni_cluster_operator.Api.Meta.{Time, ConditionStatus, condition_true, condition_false}
use omni_cluster_operator.Api.Common.{new_condition}
use omni_cluster_operator.Api.Workload.{OmniSecretSync, OmniSecretSyncStatus}
use omni_cluster_operator.External.{Error, External}
use omni_cluster_operator.Exec.{Exec}
use omni_cluster_operator.SecretSync.Desired.{SyncResult, kubeconfig_secret_key}
use omni_cluster_operator.Controller.Kube.{Api, Runtime, DeepEqual, key_of_meta, message_of}
use omni_cluster_operator.Controller.Objects.{update_changed}
use omni_cluster_operator.Controller.Children.{accepted_condition}

pub record SecretSyncStatusUpdate : Type 0 where
  pub accepted_known : Bool
  pub cluster_exists : Bool
  pub result : Option SyncResult
  pub error : Option Error
  pub reason : String
  pub message : String

-- A literal that names no field, and one that names the first two.
abbrev pub no_update : SecretSyncStatusUpdate
no_update = record {
  accepted_known = false;
  cluster_exists = false;
  result = none;
  error = none;
  reason = "";
  message = "";
}

abbrev pub accepted_update : SecretSyncStatusUpdate
accepted_update = record no_update { accepted_known = true; cluster_exists = true }

abbrev pub is_success : SecretSyncStatusUpdate → Bool
is_success input = not (is_some input.error) && is_some input.result

-- The fields that repeat the specification.
abbrev pub spec_status : OmniSecretSync → OmniSecretSyncStatus
spec_status latest =
    let spec = latest.spec in
    let status = latest.status in
    record status {
      common = record (status.common) { observed_generation = latest.meta.generation };
      cluster_ref = spec.cluster_ref.name;
      kubeconfig_secret_ref = spec.kubeconfig_secret_ref.name;
      kubeconfig_secret_key = kubeconfig_secret_key latest;
      source_secret_ref = spec.source_secret_ref.name;
      target_secret_ref = spec.target_secret_ref.name;
      target_namespace = spec.target_secret_ref.namespace;
      secret_type = if spec.type == "" then status.secret_type else spec.type;
    }

abbrev pub result_status : Option SyncResult → OmniSecretSyncStatus → OmniSecretSyncStatus
result_status none status = status
result_status (some result) status = record status {
  target_secret_ref = result.target.name;
  target_namespace = result.target.namespace;
  secret_type = result.type;
  secret_hash = result.hash;
}

-- `LastAttemptTime`, `LastSyncTime` and `LastError`
abbrev pub attempt_status :
    SecretSyncStatusUpdate → Time → OmniSecretSyncStatus → OmniSecretSyncStatus
attempt_status input now status = record status {
  last_attempt_time =
      if is_some input.result || is_some input.error || not (input.reason == "")
      then some now
      else status.last_attempt_time;
  last_sync_time = if is_success input then some now else status.last_sync_time;
  last_error =
      if is_success input
      then ""
      else if is_some input.error
      then message_of input.error
      else if input.message == ""
      then status.last_error
      else input.message;
}

module _ ⦃x : External⦄ where
  abbrev pub reason_of_result : OmniSecretSync → Option Error → Option SyncResult → String × String
  reason_of_result item (some e) result = ("SyncFailed", e.message)
  reason_of_result item none none = ("SyncFailed", "Secret has not been synced")
  reason_of_result item none (some result) = (
    "Synced",
    "synced Secret "
        <> x.quote item.spec.source_secret_ref.name
        <> " to workload Secret "
        <> x.quote (x.namespaced_name result.target.namespace result.target.name),
  )

  unfoldable pub secret_sync_condition_reason_message :
      OmniSecretSync → SecretSyncStatusUpdate → String × String
  secret_sync_condition_reason_message item input =
      if not (input.reason == "")
      then (input.reason, if input.message == "" then message_of input.error else input.message)
      else reason_of_result item input.error input.result

  module _ ⦃t : Runtime⦄ where
    -- `SetCondition(&latest.Status.Conditions, NewCondition(…, latest.Generation, …))`
    abbrev pub set :
        OmniSecretSync
        → String
        → ConditionStatus
        → String × String
        → OmniSecretSyncStatus
        → OmniSecretSyncStatus
    set latest type is reason_message status = record status {
      common = record (status.common) {
        conditions =
            t.set_condition status.conditions
              (new_condition type is latest.meta.generation reason_message.0 reason_message.1);
      };
    }

    abbrev pub accepted_status :
        OmniSecretSync → SecretSyncStatusUpdate → OmniSecretSyncStatus → OmniSecretSyncStatus
    accepted_status latest input status =
        if input.accepted_known
        then record status {
          common = record (status.common) {
            conditions = t.set_condition status.conditions (
                accepted_condition latest.meta.generation latest.spec.cluster_ref.name
                  input.cluster_exists);
          };
        }
        else status

    -- The change of `latest` that `updateSecretSyncStatus` makes.
    unfoldable pub secret_sync_status :
        SecretSyncStatusUpdate → Time → OmniSecretSync → OmniSecretSync
    unfolding secret_sync_condition_reason_message
    secret_sync_status input now latest =
        let shown =
          accepted_status latest input
            (attempt_status input now (result_status input.result (spec_status latest))) in
        let why = secret_sync_condition_reason_message (record latest { status = shown }) input in
        let is = if is_success input then condition_true else condition_false in
        record latest { status = set latest "Ready" is why (set latest "Synced" is why shown) }

    module _ ⦃d : DeepEqual OmniSecretSyncStatus⦄ (api : Api) where
      unfoldable pub update_secret_sync_status :
          OmniSecretSync → SecretSyncStatusUpdate → Exec api.Store (Unit {0})
      unfolding secret_sync_status
      update_secret_sync_status item input =
          update_changed api api.secret_syncs (λ a b. d.same a.status b.status)
            (secret_sync_status input) (key_of_meta item.meta)
