-- ===== src/Controller/SpecErrors.antt =====
-- internal/controller: the checks that a reconciler makes of a specification before it acts on it,
-- `kubeconfigExportSpecError`, `secretSyncSpecError` and `helmReleaseSpecError`.
use omni_cluster_operator.Base.{
  String, List, [], ◌∷◌, Bool, Option, none, some, not, ◌&&◌, ◌||◌, ◌==◌, is_blank, trim_space,
  is_nil, if◌then◌else◌,
}
use omni_cluster_operator.Base.Int.{pos, leb_ℤ, ltb_ℤ}
use omni_cluster_operator.Api.Meta.{Duration}
use omni_cluster_operator.Api.Workload.{
  OmniKubeconfigExport, OmniHelmRelease, OmniSecretSync, cluster_admin_group, policy_delete,
  policy_orphan, policy_uninstall,
}
use omni_cluster_operator.External.{Error, Result, ok, err, new_error, Fields, External}
use omni_cluster_operator.Export
use omni_cluster_operator.Release

-- `if test { return fmt.Errorf(message) }`, and what follows.
abbrev pub fail_if : Bool → String → Option Error → Option Error
fail_if test message rest = if test then some (new_error message) else rest

-- The loop over the groups.
unfoldable pub groups_error : Bool → List String → Option Error
unfolding new_error
groups_error allow_cluster_admin [] = none
groups_error allow_cluster_admin (item ∷ rest) =
    let group = trim_space item in
    fail_if (group == "") "serviceAccount.groups must not contain blank values" (
      fail_if (group == cluster_admin_group && not allow_cluster_admin)
        "system:masters requires serviceAccount.allowClusterAdmin: true"
        (groups_error allow_cluster_admin rest))

abbrev pub renew_error : Duration → Option Duration → Option Error → Option Error
renew_error ttl none rest = rest
renew_error ttl (some renew_before) rest =
    fail_if (leb_ℤ renew_before (pos 0)) "renewBefore must be greater than zero"
      (fail_if (leb_ℤ ttl renew_before) "renewBefore must be less than ttl" rest)

abbrev pub or_error : Option Error → Option Error → Option Error
or_error none rest = rest
or_error (some e) rest = some e

unfoldable pub kubeconfig_export_spec_error : OmniKubeconfigExport → Option Error
unfolding new_error
kubeconfig_export_spec_error item =
    let spec = item.spec in
    let target = spec.target_secret_ref in
    let account = spec.service_account in
    fail_if (is_blank spec.cluster_ref.name) "clusterRef.name is required" (
      fail_if (is_blank target.name) "targetSecretRef.name is required" (
        fail_if (not (target.namespace == "") && is_blank target.namespace)
          "targetSecretRef.namespace is required when set"
          (fail_if (is_blank (Export.target_secret_key item)) "targetSecretRef.key is required" (
            fail_if (is_blank account.user) "serviceAccount.user is required" (
              fail_if (is_nil account.groups) "serviceAccount.groups requires at least one group" (
                or_error (groups_error account.allow_cluster_admin account.groups) (
                  fail_if (leb_ℤ spec.ttl (pos 0)) "ttl must be greater than zero" (
                    renew_error spec.ttl spec.renew_before (
                      fail_if
                        (not (spec.deletion_policy == policy_delete)
                          && not (spec.deletion_policy == policy_orphan))
                        "deletionPolicy must be Delete or Orphan" none)))))))))

unfoldable pub secret_sync_spec_error : OmniSecretSync → Option Error
unfolding new_error
secret_sync_spec_error item =
    let spec = item.spec in
    let key = spec.kubeconfig_secret_ref.key in
    fail_if (is_blank spec.cluster_ref.name) "clusterRef.name is required" (
      fail_if (is_blank spec.kubeconfig_secret_ref.name) "kubeconfigSecretRef.name is required" (
        fail_if (not (key == "") && is_blank key) "kubeconfigSecretRef.key must not be blank" (
          fail_if (is_blank spec.source_secret_ref.name) "sourceSecretRef.name is required" (
            fail_if (is_blank spec.target_secret_ref.name) "targetSecretRef.name is required" (
              fail_if (is_blank spec.target_secret_ref.namespace)
                "targetSecretRef.namespace is required"
                (fail_if (not (spec.type == "") && is_blank spec.type) "type must not be blank" (
                  fail_if
                    (not (
                      spec.deletion_policy == policy_delete
                      || spec.deletion_policy == policy_orphan))
                    "deletionPolicy must be Delete or Orphan" none)))))))

abbrev pub timeout_error : Option Duration → Option Error → Option Error
timeout_error none rest = rest
timeout_error (some d) rest = fail_if (leb_ℤ d (pos 0)) "timeout must be greater than zero" rest

abbrev pub values_error : Result Fields → Option Error
values_error (ok _) = none
values_error (err e) = some e

module _ ⦃x : External⦄ where
  unfoldable pub helm_release_spec_error : OmniHelmRelease → Option Error
  unfolding new_error
  helm_release_spec_error item =
      let spec = item.spec in
      let key = spec.kubeconfig_secret_ref.key in
      let policy = Release.deletion_policy item in
      fail_if (is_blank spec.cluster_ref.name) "clusterRef.name is required" (
        fail_if (is_blank spec.kubeconfig_secret_ref.name) "kubeconfigSecretRef.name is required" (
          fail_if (not (key == "") && is_blank key) "kubeconfigSecretRef.key must not be blank" (
            fail_if (is_blank (Release.release_name item)) "releaseName is required" (
              fail_if (is_blank (Release.namespace item)) "namespace is required" (
                fail_if (is_blank spec.chart.repository) "chart.repository is required" (
                  fail_if (is_blank spec.chart.chart) "chart.chart is required" (
                    fail_if (is_blank spec.chart.version) "chart.version is required" (
                      timeout_error spec.timeout (
                        fail_if (ltb_ℤ spec.max_history (pos 0)) "maxHistory must not be negative" (
                          fail_if (not (policy == policy_uninstall || policy == policy_orphan))
                            "deletionPolicy must be Uninstall or Orphan"
                            (values_error (Release.values item))))))))))))
