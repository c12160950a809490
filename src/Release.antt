-- ===== src/Release.antt =====
-- internal/helmrelease/helmrelease.go: the defaults of a Helm release.
use omni_cluster_operator.Base.{
  String, ◌<>◌, Bool, Option, none, some, ◌==◌, starts_with, trim_space, is_nil, if◌then◌else◌,
}
use omni_cluster_operator.Base.Int.{ℤ, pos, ltb_ℤ}
use omni_cluster_operator.Api.Meta.{Duration, Json}
use omni_cluster_operator.Api.Workload.{OmniHelmRelease, policy_uninstall}
use omni_cluster_operator.External.{Result, ok, err, new_error, Any, object, Fields, end, External}

abbrev pub default_namespace : String
default_namespace = "default"

abbrev pub default_kubeconfig_key : String
default_kubeconfig_key = "kubeconfig"

-- `5 * time.Minute`
abbrev pub default_timeout : Duration
default_timeout = pos 300_000_000_000

abbrev pub action_install : String
action_install = "Install"

abbrev pub action_upgrade : String
action_upgrade = "Upgrade"

abbrev pub action_uninstall : String
action_uninstall = "Uninstall"

abbrev pub status_deployed : String
status_deployed = "deployed"

-- `Result` of the source.
pub record ReleaseResult : Type 0 where
  pub action : String
  pub release_name : String
  pub namespace : String
  pub chart : String
  pub chart_version : String
  pub revision : ℤ
  pub status : String

unfoldable pub is_oci_chart_reference : String → Bool
is_oci_chart_reference chart = starts_with (trim_space chart) "oci://"

-- The chart reference and the repository that Helm is given.
unfoldable pub chart_locator : OmniHelmRelease → String × String
unfolding is_oci_chart_reference
chart_locator item =
    let chart = item.spec.chart.chart in
    if is_oci_chart_reference chart then (chart, "") else (chart, item.spec.chart.repository)

-- `if value != "" { return value }; return fallback`
abbrev pub or_default : String → String → String
or_default value fallback = if value == "" then fallback else value

unfoldable pub release_name : OmniHelmRelease → String
release_name item = or_default item.spec.release_name item.meta.name

unfoldable pub namespace : OmniHelmRelease → String
namespace item = or_default item.spec.namespace default_namespace

unfoldable pub kubeconfig_secret_key : OmniHelmRelease → String
kubeconfig_secret_key item = or_default item.spec.kubeconfig_secret_ref.key default_kubeconfig_key

unfoldable pub timeout : OmniHelmRelease → Duration
timeout item = elim item.spec.timeout [
  | none ↦ default_timeout
  | some d ↦ if ltb_ℤ (pos 0) d then d else default_timeout
]

unfoldable pub deletion_policy : OmniHelmRelease → String
deletion_policy item = or_default item.spec.deletion_policy policy_uninstall

-- The type assertion of `Values` on what was decoded.
abbrev pub as_object : Result Any → Result Fields
as_object (err e) = err (record e { message = "decode Helm release values: " <> e.message })
as_object (ok (object fields)) = ok fields
as_object (ok _) = err (new_error "helm release values must be a JSON object")

module _ ⦃x : External⦄ where
  values_of : Option Json → Result Fields
  values_of none = ok end
  values_of (some value) =
      if is_nil (x.trim_bytes value.raw) then ok end else as_object (x.unmarshal value.raw)

  unfoldable pub values : OmniHelmRelease → Result Fields
  unfolding values_of
  values item = values_of item.spec.chart.values
