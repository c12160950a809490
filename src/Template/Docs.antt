-- ===== src/Template/Docs.antt =====
-- internal/omnitemplate/builder.go: the documents of a template, as handed to the YAML encoder.
use omni_cluster_operator.Base.{String, List, Option, Bool}
use omni_cluster_operator.Base.Int.{ℤ}
use omni_cluster_operator.Base.Maps.{Map}
use omni_cluster_operator.External.{Any}

pub record TalosDoc : Type 0 where
  pub version : String

pub record BackupConfigDoc : Type 0 where
  pub interval : String

pub record FeaturesDoc : Type 0 where
  pub enable_workload_proxy : Bool
  pub use_embedded_discovery_service : Bool
  pub disk_encryption : Bool
  pub backup_configuration : Option BackupConfigDoc

pub record ManifestDoc : Type 0 where
  pub name : String
  pub mode : String
  pub inline : Option (List Any)
  pub file : String

pub record KubernetesDoc : Type 0 where
  pub version : String
  pub manifest : List ManifestDoc

pub record PatchDoc : Type 0 where
  pub file : String
  pub name : String
  pub id_override : String
  pub labels : Map String
  pub annotations : Map String
  pub inline : Option Any

pub record MachineClassDoc : Type 0 where
  pub name : String
  pub size : Any

pub record BootstrapDoc : Type 0 where
  pub cluster_uuid : String
  pub snapshot : String

pub record RollingDoc : Type 0 where
  pub max_parallelism : Option ℤ

pub record UpdateStrategyDoc : Type 0 where
  pub type : String
  pub rolling : Option RollingDoc

pub record InstallDoc : Type 0 where
  pub disk : String

pub record ClusterDoc : Type 0 where
  pub kind : String
  pub name : String
  pub labels : Map String
  pub annotations : Map String
  pub kubernetes : KubernetesDoc
  pub talos : TalosDoc
  pub features : Option FeaturesDoc
  pub patches : List PatchDoc
  pub system_extensions : List String
  pub kernel_args : List String

pub record ControlPlaneDoc : Type 0 where
  pub kind : String
  pub labels : Map String
  pub annotations : Map String
  pub machines : List String
  pub machine_class : Option MachineClassDoc
  pub bootstrap_spec : Option BootstrapDoc
  pub patches : List PatchDoc
  pub system_extensions : List String
  pub kernel_args : List String

pub record WorkersDoc : Type 0 where
  pub kind : String
  pub name : String
  pub labels : Map String
  pub annotations : Map String
  pub machines : List String
  pub machine_class : Option MachineClassDoc
  pub update_strategy : Option UpdateStrategyDoc
  pub upgrade_strategy : Option UpdateStrategyDoc
  pub delete_strategy : Option UpdateStrategyDoc
  pub patches : List PatchDoc
  pub system_extensions : List String
  pub kernel_args : List String

pub record MachineDoc : Type 0 where
  pub kind : String
  pub name : String
  pub labels : Map String
  pub annotations : Map String
  pub locked : Bool
  pub install : Option InstallDoc
  pub patches : List PatchDoc
  pub system_extensions : List String
  pub kernel_args : List String

-- An element of `docs`.
pub data Doc : Type 0 where
  cluster_doc : ClusterDoc → Doc
  control_plane_doc : ControlPlaneDoc → Doc
  workers_doc : WorkersDoc → Doc
  machine_doc : MachineDoc → Doc
