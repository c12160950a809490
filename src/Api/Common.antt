-- ===== src/Api/Common.antt =====
-- api/v1alpha1/common_types.go: the constants and the specification types that resources share.
use omni_cluster_operator.Base.{String, List, Option, Bool}
use omni_cluster_operator.Base.Int.{ℤ}
use omni_cluster_operator.Base.Maps.{Map}
use omni_cluster_operator.Api.Meta.{Time, Condition, ConditionStatus, Json, IntOrString}

abbrev pub finalizer : String
finalizer = "omni.texashpc.com/finalizer"

abbrev pub legacy_finalizer : String
legacy_finalizer = "omni.texas-hpc.org/finalizer"

pub record LocalObjectReference : Type 0 where
  pub name : String

pub record SecretKeySelector : Type 0 where
  pub name : String
  pub key : String

pub record OmniAuthSpec : Type 0 where
  pub service_account_secret_ref : SecretKeySelector

pub record ClusterDeletePolicy : Type 0 where
  pub orphan : Bool
  pub destroy_machines : Bool

pub record Descriptors : Type 0 where
  pub labels : Map String
  pub annotations : Map String

pub record Patch : Type 0 where
  pub file : String
  pub name : String
  pub id_override : String
  pub labels : Map String
  pub annotations : Map String
  pub inline : Option Json

pub record KubernetesManifest : Type 0 where
  pub name : String
  pub mode : String
  pub inline : List Json
  pub file : String

pub record KubernetesSpec : Type 0 where
  pub version : String
  pub manifests : List KubernetesManifest

pub record TalosSpec : Type 0 where
  pub version : String

pub record BackupConfiguration : Type 0 where
  pub interval : String

pub record ClusterFeatures : Type 0 where
  pub enable_workload_proxy : Bool
  pub use_embedded_discovery_service : Bool
  pub disk_encryption : Bool
  pub backup_configuration : Option BackupConfiguration

pub record MachineClass : Type 0 where
  pub name : String
  pub size : IntOrString

pub record BootstrapSpec : Type 0 where
  pub cluster_uuid : String
  pub snapshot : String

pub record RollingStrategy : Type 0 where
  pub max_parallelism : Option ℤ

pub record UpdateStrategy : Type 0 where
  pub type : String
  pub rolling : Option RollingStrategy

pub record MachineSetSpecFields : Type 0 where
  pub descriptors : Descriptors
  pub open descriptors use *
  pub machines : List String
  pub machine_class : Option MachineClass
  pub patches : List Patch
  pub system_extensions : List String
  pub kernel_args : List String

pub record MachineInstallSpec : Type 0 where
  pub disk : String

pub record CommonStatusFields : Type 0 where
  pub observed_generation : ℤ
  pub conditions : List Condition

pub record ConnectionStatusFields : Type 0 where
  pub connection_ref : String
  pub endpoint : String

pub record SyncStatusFields : Type 0 where
  pub cluster_name : String
  pub template_hash : String
  pub last_attempt_time : Option Time
  pub last_sync_time : Option Time
  pub last_sync_output : String
  pub last_status_output : String

-- `NewCondition`
unfoldable pub new_condition : String → ConditionStatus → ℤ → String → String → Condition
new_condition condition_type status generation reason message = record {
  type = condition_type;
  status = status;
  observed_generation = generation;
  reason = reason;
  message = message;
}
