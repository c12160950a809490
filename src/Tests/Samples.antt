-- ===== src/Tests/Samples.antt =====
-- Sample values: the external functions, metadata and one resource of each kind.
use omni_cluster_operator.Base.{
  String, ◌<>◌, List, [], ◌∷◌, ◌++◌, true, false, none, some, ◌==◌, ◌||◌, if◌then◌else◌,
}
use omni_cluster_operator.Base.Int.{pos, ltb_ℤ}
use omni_cluster_operator.Api.Meta.{ObjectMeta, Secret}
use omni_cluster_operator.Api.Common.{
  Descriptors, KubernetesManifest, CommonStatusFields, ConnectionStatusFields, SyncStatusFields,
  MachineSetSpecFields, Patch,
}
use omni_cluster_operator.Api.Template.{
  OmniConnection, OmniCluster, OmniControlPlane, OmniWorkers, OmniMachine,
}
use omni_cluster_operator.Api.Workload.{OmniHelmRelease, OmniSecretSync, OmniKubeconfigExport}
use omni_cluster_operator.External.{External, null, ok}
use omni_cluster_operator.Template.Docs.{Doc}
use omni_cluster_operator.Template.Render.{Encoder, Inputs}

abbrev pub uuid_a : String
uuid_a = "5b6c1a9e-0000-4000-8000-00000000000a"

abbrev pub uuid_b : String
uuid_b = "5b6c1a9e-0000-4000-8000-00000000000b"

abbrev pub sample_external : External
sample_external = record {
  quote = λ s. "\"" <> s <> "\"";
  is_uuid = λ s. s == uuid_a || s == uuid_b;
  parse_url =
      λ s. if s == "oci://charts" then some (record { scheme = "oci"; host = "charts" }) else none;
  unmarshal = λ _. ok null;
  text_of_bytes = λ _. "null";
  trim_bytes = λ b. b;
  duration_text = λ _. "1h0m0s";
  namespaced_name = λ namespace name. namespace <> "/" <> name;
  marshal_secret = λ _ _ _. ok (1 ∷ 2 ∷ []);
  marshal_export = λ _. ok (3 ∷ []);
  sha256_hex = λ _. "9f86d081";
  format_time =
      λ time. if ltb_ℤ (pos 0) time then "2026-01-01T01:00:00Z" else "2026-01-01T00:00:00Z";
  parse_time = λ s.
      if s == "2026-01-01T01:00:00Z"
      then some (pos 3600)
      else if s == "2026-01-01T00:00:00Z"
      then some (pos 0)
      else none;
}

-- The documents themselves, kept in order.
abbrev pub sample_encoder : Encoder
sample_encoder = record {
  Buffer = List Doc;
  start = [];
  encode = λ doc buffer. ok (buffer ++ (doc ∷ []));
  close = λ buffer. ok (7 ∷ []);
}

abbrev pub meta_of : String → String → ObjectMeta
meta_of name uid = record {
  name = name;
  namespace = "default";
  uid = uid;
  generation = pos 1;
  resource_version = "1";
  deletion_timestamp = none;
  finalizers = [];
  labels = none;
  annotations = none;
}

abbrev pub no_descriptors : Descriptors
no_descriptors = record { labels = none; annotations = none }

abbrev pub no_status : CommonStatusFields
no_status = record { observed_generation = pos 0; conditions = [] }

abbrev pub no_connection : ConnectionStatusFields
no_connection = record { connection_ref = ""; endpoint = "" }

abbrev pub no_sync : SyncStatusFields
no_sync = record {
  cluster_name = "";
  template_hash = "";
  last_attempt_time = none;
  last_sync_time = none;
  last_sync_output = "";
  last_status_output = "";
}

abbrev pub file_manifest : KubernetesManifest
file_manifest = record { name = "cni"; mode = ""; inline = []; file = "cni.yaml" }

abbrev pub inline_manifest : KubernetesManifest
inline_manifest = record {
  name = "rbac";
  mode = "full";
  inline = record { raw = 1 ∷ [] } ∷ [];
  file = "";
}

abbrev pub file_patch : Patch
file_patch = record {
  file = "patch.yaml";
  name = "";
  id_override = "";
  labels = none;
  annotations = none;
  inline = none;
}

abbrev pub sample_cluster : OmniCluster
sample_cluster = record {
  meta = meta_of "edge" "u1";
  spec = record {
    descriptors = no_descriptors;
    connection_ref = record { name = "omni" };
    cluster_name = "";
    kubernetes = record { version = "v1.34.1"; manifests = file_manifest ∷ inline_manifest ∷ [] };
    talos = record { version = "v1.11.2" };
    features = none;
    patches = file_patch ∷ [];
    system_extensions = [];
    kernel_args = [];
    template_root = "";
    delete_policy = record { orphan = false; destroy_machines = false };
    sync_interval = pos 0;
    suspend = false;
  };
  status = record {
    common = no_status;
    connection = no_connection;
    sync = no_sync;
    control_plane_ref = "";
    workers_refs = [];
    machine_refs = [];
  };
}

abbrev pub no_machine_set : MachineSetSpecFields
no_machine_set = record {
  descriptors = no_descriptors;
  machines = [];
  machine_class = none;
  patches = [];
  system_extensions = [];
  kernel_args = [];
}

abbrev pub sample_control_plane : OmniControlPlane
sample_control_plane = record {
  meta = meta_of "edge-cp" "u2";
  spec = record {
    machine_set = record no_machine_set { machines = uuid_a ∷ [] };
    cluster_ref = record { name = "edge" };
    bootstrap_spec = none;
  };
  status = record { common = no_status; cluster_ref = "" };
}

abbrev pub workers_named : String → OmniWorkers
workers_named name = record {
  meta = meta_of name "u3";
  spec = record {
    machine_set = no_machine_set;
    cluster_ref = record { name = "edge" };
    worker_set_name = name;
    update_strategy = none;
    upgrade_strategy = none;
    delete_strategy = none;
  };
  status = record { common = no_status; cluster_ref = ""; worker_set_name = "" };
}

abbrev pub machine_named : String → OmniMachine
machine_named id = record {
  meta = meta_of id "u4";
  spec = record {
    descriptors = no_descriptors;
    cluster_ref = record { name = "edge" };
    machine_id = id;
    locked = false;
    install = none;
    patches = [];
    system_extensions = [];
    kernel_args = [];
  };
  status = record { common = no_status; cluster_ref = ""; machine_id = "" };
}

-- Two worker sets and two machines, listed against their order.
abbrev pub sample_inputs : Inputs
sample_inputs = record {
  cluster = some sample_cluster;
  control_plane = some sample_control_plane;
  workers = workers_named "gpu" ∷ workers_named "cpu" ∷ [];
  machines = machine_named uuid_b ∷ machine_named uuid_a ∷ [];
}

abbrev pub sample_export : OmniKubeconfigExport
sample_export = record {
  meta = meta_of "edge-kubeconfig" "u5";
  spec = record {
    cluster_ref = record { name = "edge" };
    target_secret_ref = record { name = "edge-kubeconfig"; namespace = ""; key = "" };
    service_account = record {
      user = "flux";
      groups = "deployers" ∷ "viewers" ∷ [];
      allow_cluster_admin = false;
    };
    context_namespace = "";
    ttl = pos 3600;
    renew_before = some (pos 600);
    deletion_policy = "Delete";
  };
  status = record {
    common = no_status;
    connection = no_connection;
    cluster_ref = "";
    cluster_name = "";
    target_secret_ref = "";
    target_secret_namespace = "";
    target_secret_key = "";
    service_account_user = "";
    service_account_groups = [];
    kubeconfig_hash = "";
    expiration_time = none;
    next_rotation_time = none;
    last_rotation_time = none;
  };
}

abbrev pub sample_release : OmniHelmRelease
sample_release = record {
  meta = meta_of "cilium" "u6";
  spec = record {
    cluster_ref = record { name = "edge" };
    kubeconfig_secret_ref = record { name = "edge-kubeconfig"; key = "" };
    release_name = "";
    namespace = "kube-system";
    chart = record {
      repository = "oci://charts";
      chart = "cilium";
      version = "1.18.2";
      values = none;
    };
    create_namespace = false;
    wait = true;
    wait_for_jobs = false;
    timeout = some (pos 300);
    atomic = false;
    disable_hooks = false;
    skip_crds = false;
    max_history = pos 10;
    deletion_policy = "Uninstall";
  };
  status = record {
    common = no_status;
    cluster_ref = "";
    kubeconfig_secret_ref = "";
    kubeconfig_secret_key = "";
    release_name = "";
    namespace = "";
    chart = "";
    chart_version = "";
    release_revision = pos 0;
    release_status = "";
    last_action = "";
    last_attempt_time = none;
    last_success_time = none;
    last_error = "";
  };
}

abbrev pub sample_sync : OmniSecretSync
sample_sync = record {
  meta = meta_of "edge-ghcr" "u7";
  spec = record {
    cluster_ref = record { name = "edge" };
    kubeconfig_secret_ref = record { name = "edge-kubeconfig"; key = "" };
    source_secret_ref = record { name = "ghcr" };
    target_secret_ref = record { name = "ghcr"; namespace = "flux-system" };
    type = "";
    labels = some (("team", "edge") ∷ ("app.kubernetes.io/managed-by", "somebody") ∷ []);
    annotations = none;
    create_namespace = true;
    deletion_policy = "Delete";
  };
  status = record {
    common = no_status;
    cluster_ref = "";
    kubeconfig_secret_ref = "";
    kubeconfig_secret_key = "";
    source_secret_ref = "";
    target_secret_ref = "";
    target_namespace = "";
    secret_type = "";
    secret_hash = "";
    last_attempt_time = none;
    last_sync_time = none;
    last_error = "";
  };
}

abbrev pub sample_source : Secret
sample_source = record {
  meta = meta_of "ghcr" "u8";
  type = "Opaque";
  contents = some (("token", 1 ∷ 2 ∷ []) ∷ []);
}

abbrev pub sample_connection : OmniConnection
sample_connection = record {
  meta = meta_of "omni" "u9";
  spec = record {
    endpoint = "https://omni.example";
    auth = record { service_account_secret_ref = record { name = "omni-key"; key = "key" } };
    insecure_skip_tls_verify = false;
  };
  status = record { common = no_status; connection = no_connection; last_check_time = none };
}
