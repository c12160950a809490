-- ===== src/Template/Parts.antt =====
-- internal/omnitemplate/builder.go: the functions that turn one part of a resource into a document.
use mathlib.Core.Option
use omni_cluster_operator.Base.{String, List, [], ◌∷◌, map, Option, none, some, ◌==◌, if◌then◌else◌}
use omni_cluster_operator.Api.Meta.{Json, IntOrString, int, string}
use omni_cluster_operator.Api.Common.{
  Patch, KubernetesManifest, BackupConfiguration, ClusterFeatures, MachineClass, BootstrapSpec,
  RollingStrategy, UpdateStrategy, MachineInstallSpec,
}
use omni_cluster_operator.Api.Template.{OmniCluster, OmniControlPlane, OmniWorkers, OmniMachine}
use omni_cluster_operator.External.{ok, err, Any, text, integer, object, end, External}
use omni_cluster_operator.Template.Docs.{
  BackupConfigDoc, FeaturesDoc, ManifestDoc, PatchDoc, MachineClassDoc, BootstrapDoc, RollingDoc,
  UpdateStrategyDoc, InstallDoc, ClusterDoc, ControlPlaneDoc, WorkersDoc, MachineDoc,
}

module _ ⦃x : External⦄ where
  unfoldable pub render_json : Json → Any
  render_json value = elim value.raw [
    | [] ↦ object end
    | _ ∷ _ ↦ elim (x.unmarshal value.raw) [
      | ok decoded ↦ decoded
      | err _ ↦ text (x.text_of_bytes value.raw)
    ]
  ]

  unfoldable pub render_json_list : List Json → List Any
  render_json_list = map render_json

  unfoldable pub render_manifest_inline : KubernetesManifest → Option (List Any)
  render_manifest_inline manifest =
      if manifest.file == "" then some (render_json_list manifest.inline) else none

  unfoldable pub render_manifests : List KubernetesManifest → List ManifestDoc
  render_manifests = map λ manifest. record {
    name = manifest.name;
    mode = manifest.mode;
    inline = render_manifest_inline manifest;
    file = manifest.file;
  }

  unfoldable pub render_patches : List Patch → List PatchDoc
  render_patches = map λ patch. record {
    file = patch.file;
    name = patch.name;
    id_override = patch.id_override;
    labels = patch.labels;
    annotations = patch.annotations;
    inline = Option.map render_json patch.inline;
  }

unfoldable pub render_backup : BackupConfiguration → BackupConfigDoc
render_backup backup = record { interval = backup.interval }

unfoldable pub render_features : Option ClusterFeatures → Option FeaturesDoc
unfolding render_backup
render_features = Option.map λ features. record {
  enable_workload_proxy = features.enable_workload_proxy;
  use_embedded_discovery_service = features.use_embedded_discovery_service;
  disk_encryption = features.disk_encryption;
  backup_configuration = Option.map render_backup features.backup_configuration;
}

unfoldable pub int_or_string_value : IntOrString → Any
int_or_string_value value = elim value.type [
  | string ↦ text value.str_val
  | int ↦ integer value.int_val
]

unfoldable pub render_machine_class : Option MachineClass → Option MachineClassDoc
unfolding int_or_string_value
render_machine_class = Option.map λ machine_class. record {
  name = machine_class.name;
  size = int_or_string_value machine_class.size;
}

unfoldable pub render_bootstrap : Option BootstrapSpec → Option BootstrapDoc
render_bootstrap =
    Option.map
      λ bootstrap. record { cluster_uuid = bootstrap.cluster_uuid; snapshot = bootstrap.snapshot }

unfoldable pub render_rolling : RollingStrategy → RollingDoc
render_rolling rolling = record { max_parallelism = rolling.max_parallelism }

unfoldable pub render_update_strategy : Option UpdateStrategy → Option UpdateStrategyDoc
unfolding render_rolling
render_update_strategy = Option.map λ strategy. record {
  type = strategy.type;
  rolling = Option.map render_rolling strategy.rolling;
}

unfoldable pub render_install : Option MachineInstallSpec → Option InstallDoc
render_install = Option.map λ install. record { disk = install.disk }

-- `ClusterName`
unfoldable pub cluster_name : OmniCluster → String
cluster_name cluster =
    if cluster.spec.cluster_name == "" then cluster.meta.name else cluster.spec.cluster_name

unfoldable pub worker_set_name : OmniWorkers → String
worker_set_name workers =
    if workers.spec.worker_set_name == "" then workers.meta.name else workers.spec.worker_set_name

unfoldable pub machine_id : OmniMachine → String
machine_id machine =
    if machine.spec.machine_id == "" then machine.meta.name else machine.spec.machine_id

module _ ⦃x : External⦄ where
  unfoldable pub render_cluster : OmniCluster → String → ClusterDoc
  unfolding render_manifests render_manifest_inline render_json_list render_json render_patches
      render_features
  render_cluster cluster name =
      let spec = cluster.spec in
      record {
        kind = "Cluster";
        name = name;
        labels = spec.labels;
        annotations = spec.annotations;
        kubernetes = record {
          version = spec.kubernetes.version;
          manifest = render_manifests spec.kubernetes.manifests;
        };
        talos = record { version = spec.talos.version };
        features = render_features spec.features;
        patches = render_patches spec.patches;
        system_extensions = spec.system_extensions;
        kernel_args = spec.kernel_args;
      }

  unfoldable pub render_control_plane : OmniControlPlane → ControlPlaneDoc
  unfolding render_machine_class render_bootstrap render_patches render_json
  render_control_plane control_plane =
      let spec = control_plane.spec in
      record {
        kind = "ControlPlane";
        labels = spec.labels;
        annotations = spec.annotations;
        machines = spec.machines;
        machine_class = render_machine_class spec.machine_class;
        bootstrap_spec = render_bootstrap spec.bootstrap_spec;
        patches = render_patches spec.patches;
        system_extensions = spec.system_extensions;
        kernel_args = spec.kernel_args;
      }

  unfoldable pub render_workers : OmniWorkers → String → WorkersDoc
  unfolding render_machine_class render_update_strategy render_patches render_json
  render_workers workers name =
      let spec = workers.spec in
      record {
        kind = "Workers";
        name = name;
        labels = spec.labels;
        annotations = spec.annotations;
        machines = spec.machines;
        machine_class = render_machine_class spec.machine_class;
        update_strategy = render_update_strategy spec.update_strategy;
        upgrade_strategy = render_update_strategy spec.upgrade_strategy;
        delete_strategy = render_update_strategy spec.delete_strategy;
        patches = render_patches spec.patches;
        system_extensions = spec.system_extensions;
        kernel_args = spec.kernel_args;
      }

  unfoldable pub render_machine : OmniMachine → String → MachineDoc
  unfolding render_install render_patches render_json
  render_machine machine id =
      let spec = machine.spec in
      record {
        kind = "Machine";
        name = id;
        labels = spec.labels;
        annotations = spec.annotations;
        locked = spec.locked;
        install = render_install spec.install;
        patches = render_patches spec.patches;
        system_extensions = spec.system_extensions;
        kernel_args = spec.kernel_args;
      }
