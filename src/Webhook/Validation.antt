-- ===== src/Webhook/Validation.antt =====
-- validation.go: one function for each kind of resource, with its warnings.
use omni_cluster_operator.Base.{
  ℕ, suc, String, List, [], ◌∷◌, ◌++◌, Bool, false, Option, none, some, not, ◌&&◌, ◌||◌, ◌==◌,
  is_blank, trim_space, is_nil, if◌then◌else◌,
}
use omni_cluster_operator.Base.Int.{pos, leb_ℤ, ltb_ℤ}
use omni_cluster_operator.Base.Maps.{Entries, find, put}
use omni_cluster_operator.Api.Meta.{Duration}
use omni_cluster_operator.Api.Template.{
  OmniCluster, OmniControlPlane, OmniWorkers, OmniMachine, OmniConnection,
}
use omni_cluster_operator.Api.Workload.{
  OmniKubeconfigExport, OmniHelmRelease, OmniSecretSync, cluster_admin_group, policy_delete,
  policy_orphan, policy_uninstall,
}
use omni_cluster_operator.External.{Result, ok, err, Fields, External}
use omni_cluster_operator.Release
use omni_cluster_operator.Template.Parts.{machine_id}
use omni_cluster_operator.Webhook.Field.{
  FieldPath, ErrorList, required, invalid, forbidden, not_supported, text, number, delete_policy,
  values, spec_path, child, at, check, concat,
}
use omni_cluster_operator.Webhook.Sources.{
  validate_patches, validate_manifests, validate_machine_set, duplicate_errors,
}

abbrev pub path_of : String → String → FieldPath
path_of outer inner = child (child spec_path outer) inner

-- `value != "" && strings.TrimSpace(value) == ""`
abbrev pub set_but_blank : String → Bool
set_but_blank value = not (value == "") && is_blank value

-- One round of the loop over the groups, with the group trimmed.
abbrev pub group_errors : FieldPath → ℕ → Option ℕ → Bool → String → ErrorList
group_errors path i previous allow_cluster_admin group =
    if group == ""
    then required (at path i) "service account group must not be blank" ∷ []
    else duplicate_errors path i previous group
      ++ check (group == cluster_admin_group && not allow_cluster_admin)
          (forbidden (at path i) "system:masters requires serviceAccount.allowClusterAdmin: true")

unfoldable pub validate_groups_from : FieldPath → Bool → ℕ → Entries ℕ → List String → ErrorList
validate_groups_from path allow_cluster_admin i seen [] = []
validate_groups_from path allow_cluster_admin i seen (item ∷ rest) =
    let group = trim_space item in
    group_errors path i (find group seen) allow_cluster_admin group
    ++ validate_groups_from path allow_cluster_admin (suc i)
        (if group == "" then seen else put group i seen) rest

module _ ⦃x : External⦄ where
  unfoldable pub validate_cluster : OmniCluster → ErrorList
  validate_cluster cluster =
      let spec = cluster.spec in
      concat (
        check (spec.delete_policy.orphan && spec.delete_policy.destroy_machines) (
          invalid (child spec_path "deletePolicy") (delete_policy spec.delete_policy)
            "orphan and destroyMachines cannot both be true")
        ∷ check (ltb_ℤ spec.sync_interval (pos 0)) (
            invalid (child spec_path "syncInterval") (text (x.duration_text spec.sync_interval))
              "syncInterval must not be negative")
        ∷ validate_patches (child spec_path "patches") spec.patches
        ∷ validate_manifests (path_of "kubernetes" "manifests") spec.kubernetes.manifests
        ∷ [])

  unfoldable pub validate_control_plane : OmniControlPlane → ErrorList
  validate_control_plane control_plane =
      validate_machine_set spec_path control_plane.spec.machine_set

  unfoldable pub validate_workers : OmniWorkers → ErrorList
  validate_workers workers =
      validate_machine_set spec_path workers.spec.machine_set
      ++ check (workers.spec.worker_set_name == "control-planes") (
          invalid (child spec_path "workerSetName") (text workers.spec.worker_set_name)
            "workerSetName is reserved by Omni")

  unfoldable pub validate_machine : OmniMachine → ErrorList
  validate_machine machine =
      check (not (x.is_uuid (machine_id machine))) (
        invalid (child spec_path "machineID") (text (machine_id machine))
          "machineID must be a UUID; set spec.machineID when metadata.name is not the Omni machine ID")
      ++ validate_patches (child spec_path "patches") machine.spec.patches

  abbrev pub renew_errors : Duration → Option Duration → ErrorList
  renew_errors ttl none = []
  renew_errors ttl (some renew_before) =
      let path = child spec_path "renewBefore" in
      let value = text (x.duration_text renew_before) in
      if leb_ℤ renew_before (pos 0)
      then invalid path value "renewBefore must be greater than zero" ∷ []
      else check (ltb_ℤ (pos 0) ttl && leb_ℤ ttl renew_before)
          (invalid path value "renewBefore must be less than ttl")

-- The `switch` on a policy that is `Delete` or `Orphan`.
abbrev pub policy_errors : String → ErrorList
policy_errors policy =
    let path = child spec_path "deletionPolicy" in
    if policy == policy_delete || policy == policy_orphan
    then []
    else if policy == ""
    then required path "deletionPolicy is required" ∷ []
    else not_supported path policy (policy_delete ∷ policy_orphan ∷ []) ∷ []

module _ ⦃x : External⦄ where
  unfoldable pub validate_kubeconfig_export : OmniKubeconfigExport → ErrorList
  validate_kubeconfig_export item =
      let spec = item.spec in
      let target = spec.target_secret_ref in
      let account = spec.service_account in
      concat (
        check (is_blank spec.cluster_ref.name)
          (required (path_of "clusterRef" "name") "clusterRef.name is required")
        ∷ check (is_blank target.name)
            (required (path_of "targetSecretRef" "name") "target Secret name is required")
        ∷ check (set_but_blank target.namespace) (
            required (path_of "targetSecretRef" "namespace")
              "target Secret namespace must not be blank")
        ∷ check (set_but_blank spec.context_namespace)
            (required (child spec_path "contextNamespace") "context namespace must not be blank")
        ∷ check (set_but_blank target.key)
            (required (path_of "targetSecretRef" "key") "target Secret key must not be blank")
        ∷ check (is_blank account.user)
            (required (path_of "serviceAccount" "user") "service account user is required")
        ∷ check (is_nil account.groups) (
            required (path_of "serviceAccount" "groups")
              "at least one service account group is required")
        ∷ validate_groups_from (path_of "serviceAccount" "groups") account.allow_cluster_admin 0 []
            account.groups
        ∷ check (leb_ℤ spec.ttl (pos 0)) (
            invalid (child spec_path "ttl") (text (x.duration_text spec.ttl))
              "ttl must be greater than zero")
        ∷ renew_errors spec.ttl spec.renew_before
        ∷ policy_errors spec.deletion_policy
        ∷ [])

  -- `isAbsoluteURL`
  unfoldable pub is_absolute_url : String → Bool
  is_absolute_url value = elim (x.parse_url value) [
    | none ↦ false
    | some parsed ↦ not (parsed.scheme == "") && not (parsed.host == "")
  ]

  abbrev pub repository_errors : String → ErrorList
  repository_errors repository =
      let path = path_of "chart" "repository" in
      if is_blank repository
      then required path "chart.repository is required" ∷ []
      else check (not (is_absolute_url repository))
          (invalid path (text repository) "chart.repository must be an absolute URL")

  abbrev pub timeout_errors : Option Duration → ErrorList
  timeout_errors none = []
  timeout_errors (some d) = check (leb_ℤ d (pos 0)) (
      invalid (child spec_path "timeout") (text (x.duration_text d))
        "timeout must be greater than zero")

  abbrev pub values_errors : OmniHelmRelease → Result Fields → ErrorList
  values_errors item (ok _) = []
  values_errors item (err e) =
      invalid (path_of "chart" "values") (values item.spec.chart.values) e.message ∷ []

  unfoldable pub validate_helm_release : OmniHelmRelease → ErrorList
  validate_helm_release item =
      let spec = item.spec in
      let policy = Release.deletion_policy item in
      concat (
        check (is_blank spec.cluster_ref.name)
          (required (path_of "clusterRef" "name") "clusterRef.name is required")
        ∷ check (is_blank spec.kubeconfig_secret_ref.name)
            (required (path_of "kubeconfigSecretRef" "name") "kubeconfig Secret name is required")
        ∷ check (set_but_blank spec.kubeconfig_secret_ref.key) (
            required (path_of "kubeconfigSecretRef" "key")
              "kubeconfig Secret key must not be blank")
        ∷ check (not (trim_space spec.release_name == spec.release_name)) (
            invalid (child spec_path "releaseName") (text spec.release_name)
              "releaseName must not include leading or trailing whitespace")
        ∷ check (not (trim_space spec.namespace == spec.namespace)) (
            invalid (child spec_path "namespace") (text spec.namespace)
              "namespace must not include leading or trailing whitespace")
        ∷ repository_errors spec.chart.repository
        ∷ check (is_blank spec.chart.chart)
            (required (path_of "chart" "chart") "chart.chart is required")
        ∷ check (is_blank spec.chart.version)
            (required (path_of "chart" "version") "chart.version is required")
        ∷ timeout_errors spec.timeout
        ∷ check (ltb_ℤ spec.max_history (pos 0)) (
            invalid (child spec_path "maxHistory") (number spec.max_history)
              "maxHistory must not be negative")
        ∷ check (not (policy == policy_uninstall || policy == policy_orphan)) (
            not_supported (child spec_path "deletionPolicy") spec.deletion_policy
              (policy_uninstall ∷ policy_orphan ∷ []))
        ∷ values_errors item (Release.values item)
        ∷ [])

unfoldable pub validate_secret_sync : OmniSecretSync → ErrorList
validate_secret_sync item =
    let spec = item.spec in
    concat (
      check (is_blank spec.cluster_ref.name)
        (required (path_of "clusterRef" "name") "clusterRef.name is required")
      ∷ check (is_blank spec.kubeconfig_secret_ref.name)
          (required (path_of "kubeconfigSecretRef" "name") "kubeconfig Secret name is required")
      ∷ check (set_but_blank spec.kubeconfig_secret_ref.key)
          (required (path_of "kubeconfigSecretRef" "key") "kubeconfig Secret key must not be blank")
      ∷ check (is_blank spec.source_secret_ref.name)
          (required (path_of "sourceSecretRef" "name") "source Secret name is required")
      ∷ check (is_blank spec.target_secret_ref.name)
          (required (path_of "targetSecretRef" "name") "target Secret name is required")
      ∷ check (is_blank spec.target_secret_ref.namespace)
          (required (path_of "targetSecretRef" "namespace") "target Secret namespace is required")
      ∷ check (set_but_blank spec.type)
          (invalid (child spec_path "type") (text spec.type) "type must not be blank")
      ∷ policy_errors spec.deletion_policy
      ∷ [])

unfoldable pub validate_connection : OmniConnection → ErrorList
validate_connection connection =
    let ref = connection.spec.auth.service_account_secret_ref in
    let path = path_of "auth" "serviceAccountSecretRef" in
    check (is_blank ref.name)
      (required (child path "name") "service account Secret name is required")
    ++ check (is_blank ref.key)
        (required (child path "key") "service account Secret key is required")

abbrev warn : Bool → String → List String
warn test message = if test then message ∷ [] else []

unfoldable pub cluster_warnings : OmniCluster → List String
cluster_warnings cluster =
    warn (not (is_nil cluster.spec.kernel_args))
      "cluster-level kernelArgs are valid only when every machine set uses static machines instead of machineClass"

unfoldable pub helm_release_warnings : OmniHelmRelease → List String
helm_release_warnings item =
    warn (not (item.spec.kubeconfig_secret_ref.name == ""))
      "OmniHelmRelease uses a workload-cluster kubeconfig Secret and writes directly to that cluster"

unfoldable pub secret_sync_warnings : OmniSecretSync → List String
secret_sync_warnings item =
    warn (not (item.spec.kubeconfig_secret_ref.name == ""))
      "OmniSecretSync uses a workload-cluster kubeconfig Secret and writes Secret data directly to that cluster"

unfoldable pub has_admin_group : List String → Bool
has_admin_group [] = false
has_admin_group (group ∷ rest) = trim_space group == cluster_admin_group || has_admin_group rest

unfoldable pub kubeconfig_export_warnings : OmniKubeconfigExport → List String
kubeconfig_export_warnings item =
    let account = item.spec.service_account in
    warn (account.allow_cluster_admin && has_admin_group account.groups)
      "system:masters exports a cluster-admin kubeconfig into the management cluster"

unfoldable pub connection_warnings : OmniConnection → List String
connection_warnings connection =
    warn connection.spec.insecure_skip_tls_verify
      "insecureSkipTLSVerify disables Omni endpoint TLS certificate verification"
