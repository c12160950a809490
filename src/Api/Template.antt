-- ===== src/Api/Template.antt =====
-- The resources that make up one Omni cluster template, and the connection: api/v1alpha1's
-- omnicluster, omnicontrolplane, omniworkers, omnimachine and omniconnection _types.go.
use omni_cluster_operator.Base.{String, List, Option, Bool}
use omni_cluster_operator.Api.Meta.{Time, Duration, ObjectMeta}
use omni_cluster_operator.Api.Common.{
  LocalObjectReference, OmniAuthSpec, ClusterDeletePolicy, Descriptors, Patch, KubernetesSpec,
  TalosSpec, ClusterFeatures, BootstrapSpec, UpdateStrategy, MachineSetSpecFields,
  MachineInstallSpec, CommonStatusFields, ConnectionStatusFields, SyncStatusFields,
}

pub record OmniClusterSpec : Type 0 where
  pub descriptors : Descriptors
  pub open descriptors use *
  pub connection_ref : LocalObjectReference
  pub cluster_name : String
  pub kubernetes : KubernetesSpec
  pub talos : TalosSpec
  pub features : Option ClusterFeatures
  pub patches : List Patch
  pub system_extensions : List String
  pub kernel_args : List String
  pub template_root : String
  pub delete_policy : ClusterDeletePolicy
  pub sync_interval : Duration
  pub suspend : Bool

pub record OmniClusterStatus : Type 0 where
  pub common : CommonStatusFields
  pub open common use *
  pub connection : ConnectionStatusFields
  pub open connection use *
  pub sync : SyncStatusFields
  pub open sync use *
  pub control_plane_ref : String
  pub workers_refs : List String
  pub machine_refs : List String

pub record OmniCluster : Type 0 where
  pub meta : ObjectMeta
  pub spec : OmniClusterSpec
  pub status : OmniClusterStatus

pub record OmniControlPlaneSpec : Type 0 where
  pub machine_set : MachineSetSpecFields
  pub open machine_set use *
  pub cluster_ref : LocalObjectReference
  pub bootstrap_spec : Option BootstrapSpec

pub record OmniControlPlaneStatus : Type 0 where
  pub common : CommonStatusFields
  pub open common use *
  pub cluster_ref : String

pub record OmniControlPlane : Type 0 where
  pub meta : ObjectMeta
  pub spec : OmniControlPlaneSpec
  pub status : OmniControlPlaneStatus

pub record OmniWorkersSpec : Type 0 where
  pub machine_set : MachineSetSpecFields
  pub open machine_set use *
  pub cluster_ref : LocalObjectReference
  pub worker_set_name : String
  pub update_strategy : Option UpdateStrategy
  pub upgrade_strategy : Option UpdateStrategy
  pub delete_strategy : Option UpdateStrategy

pub record OmniWorkersStatus : Type 0 where
  pub common : CommonStatusFields
  pub open common use *
  pub cluster_ref : String
  pub worker_set_name : String

pub record OmniWorkers : Type 0 where
  pub meta : ObjectMeta
  pub spec : OmniWorkersSpec
  pub status : OmniWorkersStatus

pub record OmniMachineSpec : Type 0 where
  pub descriptors : Descriptors
  pub open descriptors use *
  pub cluster_ref : LocalObjectReference
  pub machine_id : String
  pub locked : Bool
  pub install : Option MachineInstallSpec
  pub patches : List Patch
  pub system_extensions : List String
  pub kernel_args : List String

pub record OmniMachineStatus : Type 0 where
  pub common : CommonStatusFields
  pub open common use *
  pub cluster_ref : String
  pub machine_id : String

pub record OmniMachine : Type 0 where
  pub meta : ObjectMeta
  pub spec : OmniMachineSpec
  pub status : OmniMachineStatus

pub record OmniConnectionSpec : Type 0 where
  pub endpoint : String
  pub auth : OmniAuthSpec
  pub insecure_skip_tls_verify : Bool

pub record OmniConnectionStatus : Type 0 where
  pub common : CommonStatusFields
  pub open common use *
  pub connection : ConnectionStatusFields
  pub open connection use *
  pub last_check_time : Option Time

pub record OmniConnection : Type 0 where
  pub meta : ObjectMeta
  pub spec : OmniConnectionSpec
  pub status : OmniConnectionStatus
