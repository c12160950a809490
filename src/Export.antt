-- ===== src/Export.antt =====
-- internal/kubeconfigexport/kubeconfigexport.go: names, labels and rotation of exported kubeconfigs.
use omni_cluster_operator.Base.{
  String, [], ◌∷◌, Bool, false, Option, none, some, not, ◌==◌, if◌then◌else◌,
}
use omni_cluster_operator.Base.Int.{pos, leb_ℤ, ltb_ℤ, ◌-ℤ◌}
use omni_cluster_operator.Base.Maps.{Map, get_text}
use omni_cluster_operator.Api.Meta.{Bytes, Time, Duration, Secret}
use omni_cluster_operator.Api.Workload.{OmniKubeconfigExport}
use omni_cluster_operator.External.{Result, ok, err, new_error, External}
use omni_cluster_operator.Exec.{wrapped}

abbrev spec_hash_version : String
spec_hash_version = "v1"

abbrev pub default_secret_key : String
default_secret_key = "kubeconfig"

abbrev pub managed_by_label : String
managed_by_label = "app.kubernetes.io/managed-by"

abbrev pub owner_uid_label : String
owner_uid_label = "omni.texashpc.com/kubeconfig-export-uid"

abbrev pub cluster_label : String
cluster_label = "omni.texashpc.com/cluster"

abbrev pub managed_by_value : String
managed_by_value = "omni-cluster-operator"

abbrev pub owner_annotation : String
owner_annotation = "omni.texashpc.com/kubeconfig-export-name"

abbrev pub owner_namespace_annotation : String
owner_namespace_annotation = "omni.texashpc.com/kubeconfig-export-namespace"

abbrev pub hash_annotation : String
hash_annotation = "omni.texashpc.com/kubeconfig-hash"

abbrev pub spec_hash_annotation : String
spec_hash_annotation = "omni.texashpc.com/kubeconfig-export-spec-hash"

abbrev pub expiration_annotation : String
expiration_annotation = "omni.texashpc.com/kubeconfig-expiration-time"

abbrev pub last_rotation_annotation : String
last_rotation_annotation = "omni.texashpc.com/kubeconfig-last-rotation-time"

unfoldable pub target_secret_key : OmniKubeconfigExport → String
target_secret_key item =
    let key = item.spec.target_secret_ref.key in if key == "" then default_secret_key else key

unfoldable pub target_secret_namespace : OmniKubeconfigExport → String
target_secret_namespace item =
    let namespace = item.spec.target_secret_ref.namespace in
    if namespace == "" then item.meta.namespace else namespace

unfoldable pub secret_labels : OmniKubeconfigExport → String → Map String
secret_labels item cluster_name = some (
    (managed_by_label, managed_by_value)
    ∷ (owner_uid_label, item.meta.uid)
    ∷ (cluster_label, cluster_name)
    ∷ [])

unfoldable pub is_owned_secret : OmniKubeconfigExport → Option Secret → Bool
is_owned_secret item none = false
is_owned_secret item (some secret) =
    if not (item.meta.uid == "")
    then get_text owner_uid_label secret.labels == item.meta.uid
    else get_text owner_annotation secret.annotations == item.meta.name

unfoldable pub next_rotation_time : Time → Option Duration → Time
next_rotation_time expiration none = expiration
next_rotation_time expiration (some renew_before) =
    if leb_ℤ renew_before (pos 0) then expiration else expiration -ℤ renew_before

-- `!now.Before(nextRotation.Time)`
unfoldable pub rotation_due : Time → Time → Option Duration → Bool
rotation_due now expiration renew_before =
    not (ltb_ℤ now (next_rotation_time expiration renew_before))

module _ ⦃x : External⦄ where
  unfoldable pub hash : Bytes → String
  hash bytes = x.sha256_hex bytes

  unfoldable pub secret_annotations :
      OmniKubeconfigExport → String → String → Time → Time → Map String
  secret_annotations item spec_hash kubeconfig_hash expiration_time last_rotation_time = some (
      (owner_annotation, item.meta.name)
      ∷ (owner_namespace_annotation, item.meta.namespace)
      ∷ (spec_hash_annotation, spec_hash)
      ∷ (hash_annotation, kubeconfig_hash)
      ∷ (expiration_annotation, x.format_time expiration_time)
      ∷ (last_rotation_annotation, x.format_time last_rotation_time)
      ∷ [])

  abbrev parsed : Option Time → Result (Option Time)
  parsed none = err (new_error "parsing time")
  parsed (some t) = ok (some t)

  unfoldable pub annotation_time : Option Secret → String → Result (Option Time)
  annotation_time none key = ok none
  annotation_time (some secret) key =
      let value = get_text key secret.annotations in
      if value == "" then ok none else parsed (x.parse_time value)

  unfoldable pub spec_hash : OmniKubeconfigExport → String → Result String
  spec_hash item cluster_name =
      let account = item.spec.service_account in
      elim (x.marshal_export (record {
        version = spec_hash_version;
        cluster_name = cluster_name;
        target_secret_key = target_secret_key item;
        context_namespace = item.spec.context_namespace;
        service_account_user = account.user;
        service_account_groups = account.groups;
        ttl = x.duration_text item.spec.ttl;
      })) [
        | ok payload ↦ ok (hash payload)
        | err e ↦ err (wrapped "marshal kubeconfig export spec hash payload: " e)
      ]
