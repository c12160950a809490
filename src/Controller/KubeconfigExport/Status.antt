-- ===== src/Controller/KubeconfigExport/Status.antt =====
-- omnikubeconfigexport_controller.go: the status of an OmniKubeconfigExport.
use omni_cluster_operator.Base.{
  String, ◌<>◌, Bool, true, false, Option, none, some, not, ◌==◌, ◌&&◌, if◌then◌else◌,
}
use omni_cluster_operator.Api.Meta.{Time, ConditionStatus, condition_true, condition_false}
use omni_cluster_operator.Api.Common.{ConnectionStatusFields, new_condition}
use omni_cluster_operator.Api.Template.{OmniCluster, OmniConnection}
use omni_cluster_operator.Api.Workload.{OmniKubeconfigExport, OmniKubeconfigExportStatus}
use omni_cluster_operator.External.{Error, External}
use omni_cluster_operator.Exec.{Exec}
use omni_cluster_operator.Export
use omni_cluster_operator.Template.Parts
use omni_cluster_operator.Controller.Kube.{Api, Runtime, DeepEqual, key_of_meta, message_of}
use omni_cluster_operator.Controller.Objects.{update_changed}
use omni_cluster_operator.Controller.Children.{accepted_condition}

pub record KubeconfigExportStatusUpdate : Type 0 where
  pub cluster : Option OmniCluster
  pub connection : Option OmniConnection
  pub cluster_exists : Bool
  pub accepted_known : Bool
  pub exported : Bool
  pub hash : String
  pub expiration_time : Option Time
  pub last_rotation_time : Option Time
  pub next_rotation_time : Option Time
  pub export_error : Option Error
  pub reason : String
  pub message : String

-- A literal that names no field.
abbrev pub no_update : KubeconfigExportStatusUpdate
no_update = record {
  cluster = none;
  connection = none;
  cluster_exists = false;
  accepted_known = false;
  exported = false;
  hash = "";
  expiration_time = none;
  last_rotation_time = none;
  next_rotation_time = none;
  export_error = none;
  reason = "";
  message = "";
}

-- A literal that names the cluster, which exists.
abbrev pub cluster_update : OmniCluster → KubeconfigExportStatusUpdate
cluster_update cluster = record no_update {
  cluster = some cluster;
  cluster_exists = true;
  accepted_known = true;
}

abbrev pub name_or : Option OmniCluster → String → String
name_or none name = name
name_or (some cluster) _ = Parts.cluster_name cluster

abbrev pub connection_or : Option OmniConnection → ConnectionStatusFields → ConnectionStatusFields
connection_or none fields = fields
connection_or (some connection) _ = record {
  connection_ref = connection.meta.name;
  endpoint = connection.spec.endpoint;
}

-- The fields of the status without the conditions.
abbrev pub shown_status :
    KubeconfigExportStatusUpdate → OmniKubeconfigExport → OmniKubeconfigExportStatus
shown_status input latest =
    let spec = latest.spec in
    let status = latest.status in
    record {
      common = record (status.common) { observed_generation = latest.meta.generation };
      connection = connection_or input.connection status.connection;
      cluster_ref = spec.cluster_ref.name;
      cluster_name = name_or input.cluster status.cluster_name;
      target_secret_ref = spec.target_secret_ref.name;
      target_secret_namespace = Export.target_secret_namespace latest;
      target_secret_key = Export.target_secret_key latest;
      service_account_user = spec.service_account.user;
      service_account_groups = spec.service_account.groups;
      kubeconfig_hash = input.hash;
      expiration_time = input.expiration_time;
      next_rotation_time = input.next_rotation_time;
      last_rotation_time = input.last_rotation_time;
    }

abbrev pub or_text : String → String → String
or_text value fallback = if value == "" then fallback else value

module _ ⦃x : External⦄ where
  -- The status, the reason and the message that the `switch` gives both conditions.
  unfoldable pub export_condition :
      KubeconfigExportStatusUpdate → OmniKubeconfigExport → ConditionStatus × String × String
  export_condition input latest =
      let name = latest.spec.cluster_ref.name in
      if input.exported
      then (
        condition_true,
        "Exported",
        "exported kubeconfig to Secret "
            <> x.quote (
                x.namespaced_name (Export.target_secret_namespace latest)
                  latest.spec.target_secret_ref.name)
            <> " key "
            <> x.quote (Export.target_secret_key latest),
      )
      else if input.accepted_known && not input.cluster_exists
      then (
        condition_false,
        "MissingCluster",
        or_text input.message ("OmniCluster " <> x.quote name <> " does not exist"),
      )
      else (
        condition_false,
        or_text input.reason "ExportFailed",
        or_text (or_text input.message (message_of input.export_error)) "kubeconfig export failed",
      )

  module _ ⦃t : Runtime⦄ where
    abbrev pub set :
        OmniKubeconfigExport
        → String
        → ConditionStatus × String × String
        → OmniKubeconfigExportStatus
        → OmniKubeconfigExportStatus
    set latest type (is, reason, message) status = record status {
      common = record (status.common) {
        conditions =
            t.set_condition status.conditions
              (new_condition type is latest.meta.generation reason message);
      };
    }

    abbrev pub accepted_status :
        OmniKubeconfigExport
        → KubeconfigExportStatusUpdate
        → OmniKubeconfigExportStatus
        → OmniKubeconfigExportStatus
    accepted_status latest input status =
        if input.accepted_known
        then record status {
          common = record (status.common) {
            conditions = t.set_condition status.conditions (
                accepted_condition latest.meta.generation latest.spec.cluster_ref.name
                  input.cluster_exists);
          };
        }
        else status

    -- The change of `latest` that `updateKubeconfigExportStatus` makes.
    unfoldable pub kubeconfig_export_status :
        KubeconfigExportStatusUpdate → OmniKubeconfigExport → OmniKubeconfigExport
    unfolding export_condition
    kubeconfig_export_status input latest =
        let condition = export_condition input latest in
        record latest {
          status = set latest "Ready" condition (
              set latest "Exported" condition
                (accepted_status latest input (shown_status input latest)));
        }

    module _ ⦃d : DeepEqual OmniKubeconfigExportStatus⦄ (api : Api) where
      unfoldable pub update_kubeconfig_export_status :
          OmniKubeconfigExport → KubeconfigExportStatusUpdate → Exec api.Store (Unit {0})
      unfolding kubeconfig_export_status
      update_kubeconfig_export_status item input =
          update_changed api api.kubeconfig_exports (λ a b. d.same a.status b.status)
            (λ _. kubeconfig_export_status input) (key_of_meta item.meta)
