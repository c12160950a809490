-- ===== src/Api/Workload.antt =====
-- The resources that act on a workload cluster: api/v1alpha1's omnihelmrelease, omnisecretsync and
-- omnikubeconfigexport _types.go. Deletion policies are texts there, and stay texts.
use omni_cluster_operator.Base.{String, List, Option, Bool}
use omni_cluster_operator.Base.Int.{ℤ}
use omni_cluster_operator.Base.Maps.{Map}
use omni_cluster_operator.Api.Meta.{Time, Duration, ObjectMeta, Json}
use omni_cluster_operator.Api.Common.{
  LocalObjectReference, CommonStatusFields, ConnectionStatusFields,
}

abbrev pub policy_delete : String
policy_delete = "Delete"

abbrev pub policy_orphan : String
policy_orphan = "Orphan"

abbrev pub policy_uninstall : String
policy_uninstall = "Uninstall"

abbrev pub cluster_admin_group : String
cluster_admin_group = "system:masters"

pub record KubeconfigSecretRef : Type 0 where
  pub name : String
  pub key : String

pub record OmniHelmChartSpec : Type 0 where
  pub repository : String
  pub chart : String
  pub version : String
  pub values : Option Json

pub record OmniHelmReleaseSpec : Type 0 where
  pub cluster_ref : LocalObjectReference
  pub kubeconfig_secret_ref : KubeconfigSecretRef
  pub release_name : String
  pub namespace : String
  pub chart : OmniHelmChartSpec
  pub create_namespace : Bool
  pub wait : Bool
  pub wait_for_jobs : Bool
  pub timeout : Option Duration
  pub atomic : Bool
  pub disable_hooks : Bool
  pub skip_crds : Bool
  pub max_history : ℤ
  pub deletion_policy : String

pub record OmniHelmReleaseStatus : Type 0 where
  pub common : CommonStatusFields
  pub open common use *
  pub cluster_ref : String
  pub kubeconfig_secret_ref : String
  pub kubeconfig_secret_key : String
  pub release_name : String
  pub namespace : String
  pub chart : String
  pub chart_version : String
  pub release_revision : ℤ
  pub release_status : String
  pub last_action : String
  pub last_attempt_time : Option Time
  pub last_success_time : Option Time
  pub last_error : String

pub record OmniHelmRelease : Type 0 where
  pub meta : ObjectMeta
  pub spec : OmniHelmReleaseSpec
  pub status : OmniHelmReleaseStatus

pub record SourceSecretRef : Type 0 where
  pub name : String

pub record TargetSecretRef : Type 0 where
  pub name : String
  pub namespace : String

pub record OmniSecretSyncSpec : Type 0 where
  pub cluster_ref : LocalObjectReference
  pub kubeconfig_secret_ref : KubeconfigSecretRef
  pub source_secret_ref : SourceSecretRef
  pub target_secret_ref : TargetSecretRef
  pub type : String
  pub labels : Map String
  pub annotations : Map String
  pub create_namespace : Bool
  pub deletion_policy : String

pub record OmniSecretSyncStatus : Type 0 where
  pub common : CommonStatusFields
  pub open common use *
  pub cluster_ref : String
  pub kubeconfig_secret_ref : String
  pub kubeconfig_secret_key : String
  pub source_secret_ref : String
  pub target_secret_ref : String
  pub target_namespace : String
  pub secret_type : String
  pub secret_hash : String
  pub last_attempt_time : Option Time
  pub last_sync_time : Option Time
  pub last_error : String

pub record OmniSecretSync : Type 0 where
  pub meta : ObjectMeta
  pub spec : OmniSecretSyncSpec
  pub status : OmniSecretSyncStatus

pub record KubeconfigTargetSecretRef : Type 0 where
  pub name : String
  pub namespace : String
  pub key : String

pub record KubeconfigServiceAccountSpec : Type 0 where
  pub user : String
  pub groups : List String
  pub allow_cluster_admin : Bool

pub record OmniKubeconfigExportSpec : Type 0 where
  pub cluster_ref : LocalObjectReference
  pub target_secret_ref : KubeconfigTargetSecretRef
  pub service_account : KubeconfigServiceAccountSpec
  pub context_namespace : String
  pub ttl : Duration
  pub renew_before : Option Duration
  pub deletion_policy : String

pub record OmniKubeconfigExportStatus : Type 0 where
  pub common : CommonStatusFields
  pub open common use *
  pub connection : ConnectionStatusFields
  pub open connection use *
  pub cluster_ref : String
  pub cluster_name : String
  pub target_secret_ref : String
  pub target_secret_namespace : String
  pub target_secret_key : String
  pub service_account_user : String
  pub service_account_groups : List String
  pub kubeconfig_hash : String
  pub expiration_time : Option Time
  pub next_rotation_time : Option Time
  pub last_rotation_time : Option Time

pub record OmniKubeconfigExport : Type 0 where
  pub meta : ObjectMeta
  pub spec : OmniKubeconfigExportSpec
  pub status : OmniKubeconfigExportStatus
