-- ===== src/Controller/HelmReleases/Status.antt =====
-- omnihelmrelease_controller.go: the status of an OmniHelmRelease.
use omni_cluster_operator.Base.{
  String, ◌<>◌, Bool, true, false, Option, none, some, not, ◌==◌, ◌&&◌, ◌||◌, is_some,
  if◌then◌else◌,
}
use omni_cluster_operator.Api.Meta.{Time, ConditionStatus, condition_true, condition_false}
use omni_cluster_operator.Api.Common.{new_condition}
use omni_cluster_operator.Api.Workload.{OmniHelmRelease, OmniHelmReleaseStatus}
use omni_cluster_operator.External.{Error, External}
use omni_cluster_operator.Exec.{Exec}
use omni_cluster_operator.Release
use omni_cluster_operator.Controller.Kube.{Api, Runtime, DeepEqual, key_of_meta, message_of}
use omni_cluster_operator.Controller.Objects.{update_changed}
use omni_cluster_operator.Controller.Children.{accepted_condition}

pub record HelmReleaseStatusUpdate : Type 0 where
  pub accepted_known : Bool
  pub cluster_exists : Bool
  pub result : Option Release.ReleaseResult
  pub error : Option Error
  pub reason : String
  pub message : String

-- A literal that names no field, and one that names the first two.
abbrev pub no_update : HelmReleaseStatusUpdate
no_update = record {
  accepted_known = false;
  cluster_exists = false;
  result = none;
  error = none;
  reason = "";
  message = "";
}

abbrev pub accepted_update : HelmReleaseStatusUpdate
accepted_update = record no_update { accepted_known = true; cluster_exists = true }

abbrev pub is_success : HelmReleaseStatusUpdate → Bool
is_success input = not (is_some input.error) && is_some input.result

-- The fields that repeat the specification.
abbrev pub spec_status : OmniHelmRelease → OmniHelmReleaseStatus
spec_status latest =
    let spec = latest.spec in
    let status = latest.status in
    record status {
      common = record (status.common) { observed_generation = latest.meta.generation };
      cluster_ref = spec.cluster_ref.name;
      kubeconfig_secret_ref = spec.kubeconfig_secret_ref.name;
      kubeconfig_secret_key = Release.kubeconfig_secret_key latest;
      release_name = Release.release_name latest;
      namespace = Release.namespace latest;
      chart = spec.chart.chart;
      chart_version = spec.chart.version;
    }

abbrev pub result_status :
    Option Release.ReleaseResult → OmniHelmReleaseStatus → OmniHelmReleaseStatus
result_status none status = status
result_status (some result) status = record status {
  last_action = result.action;
  release_name = result.release_name;
  namespace = result.namespace;
  chart = result.chart;
  chart_version = result.chart_version;
  release_revision = result.revision;
  release_status = result.status;
}

-- `LastAttemptTime`, `LastSuccessTime` and `LastError`
abbrev pub attempt_status :
    HelmReleaseStatusUpdate → Time → OmniHelmReleaseStatus → OmniHelmReleaseStatus
attempt_status input now status = record status {
  last_attempt_time =
      if is_some input.result || is_some input.error || not (input.reason == "")
      then some now
      else status.last_attempt_time;
  last_success_time = if is_success input then some now else status.last_success_time;
  last_error =
      if is_success input
      then ""
      else if is_some input.error
      then message_of input.error
      else if input.message == ""
      then status.last_error
      else input.message;
}

-- The release is there and deployed, and was not uninstalled just now.
abbrev pub is_deployed : Option Error → Option Release.ReleaseResult → Bool
is_deployed none (some result) =
    not (result.action == Release.action_uninstall) && result.status == Release.status_deployed
is_deployed _ _ = false

module _ ⦃x : External⦄ ⦃t : Runtime⦄ where
  abbrev pub failure_message : OmniHelmRelease → Error → Option Release.ReleaseResult → String
  failure_message item e none = e.message
  failure_message item e (some result) =
      if result.action == ""
      then e.message
      else "Helm "
        <> t.lower result.action
        <> " failed for release "
        <> x.quote (Release.release_name item)
        <> ": "
        <> e.message

  abbrev pub reason_of_action : Release.ReleaseResult → String × String
  reason_of_action result =
      let name = x.quote result.release_name in
      let revision = t.integer_text result.revision in
      if result.action == Release.action_install
      then ("HelmInstalled", "installed Helm release " <> name <> " revision " <> revision)
      else if result.action == Release.action_upgrade
      then ("HelmUpgraded", "upgraded Helm release " <> name <> " to revision " <> revision)
      else if result.action == Release.action_uninstall
      then ("HelmUninstalled", "uninstalled Helm release " <> name)
      else ("ReconcileFailed", "reconciled Helm release " <> name)

  abbrev pub reason_of_result :
      OmniHelmRelease → Option Error → Option Release.ReleaseResult → String × String
  reason_of_result item (some e) result = ("ReconcileFailed", failure_message item e result)
  reason_of_result item none none = ("ReconcileFailed", "Helm release has not been reconciled")
  reason_of_result item none (some result) = reason_of_action result

  unfoldable pub helm_release_condition_reason_message :
      OmniHelmRelease → HelmReleaseStatusUpdate → String × String
  helm_release_condition_reason_message item input =
      if not (input.reason == "")
      then (input.reason, input.message)
      else reason_of_result item input.error input.result

  -- `SetCondition(&latest.Status.Conditions, NewCondition(…, latest.Generation, …))`
  abbrev pub set :
      OmniHelmRelease
      → String
      → ConditionStatus
      → String × String
      → OmniHelmReleaseStatus
      → OmniHelmReleaseStatus
  set latest type is reason_message status = record status {
    common = record (status.common) {
      conditions =
          t.set_condition status.conditions
            (new_condition type is latest.meta.generation reason_message.0 reason_message.1);
    };
  }

  abbrev pub accepted_status :
      OmniHelmRelease → HelmReleaseStatusUpdate → OmniHelmReleaseStatus → OmniHelmReleaseStatus
  accepted_status latest input status =
      if input.accepted_known
      then record status {
        common = record (status.common) {
          conditions = t.set_condition status.conditions (
              accepted_condition latest.meta.generation latest.spec.cluster_ref.name
                input.cluster_exists);
        };
      }
      else status

  -- The change of `latest` that `updateHelmReleaseStatus` makes.
  unfoldable pub helm_release_status :
      HelmReleaseStatusUpdate → Time → OmniHelmRelease → OmniHelmRelease
  unfolding helm_release_condition_reason_message
  helm_release_status input now latest =
      let shown =
        accepted_status latest input
          (attempt_status input now (result_status input.result (spec_status latest))) in
      let why = helm_release_condition_reason_message (record latest { status = shown }) input in
      let is = if is_deployed input.error input.result then condition_true else condition_false in
      record latest { status = set latest "Ready" is why (set latest "Released" is why shown) }

  module _ ⦃d : DeepEqual OmniHelmReleaseStatus⦄ (api : Api) where
    unfoldable pub update_helm_release_status :
        OmniHelmRelease → HelmReleaseStatusUpdate → Exec api.Store (Unit {0})
    unfolding helm_release_status
    update_helm_release_status item input =
        update_changed api api.helm_releases (λ a b. d.same a.status b.status)
          (helm_release_status input) (key_of_meta item.meta)
