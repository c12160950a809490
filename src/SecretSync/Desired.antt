-- ===== src/SecretSync/Desired.antt =====
-- secretsync.go: the Secret that a sync wants, its hash, and who owns a Secret.
use omni_cluster_operator.Base.{
  String, [], ◌∷◌, Bool, false, Option, none, some, not, ◌&&◌, ◌==◌, is_nil, if◌then◌else◌,
}
use omni_cluster_operator.Base.Int.{pos}
use omni_cluster_operator.Base.Maps.{Map, entries, copy_into, get_text}
use omni_cluster_operator.Api.Meta.{Bytes, Secret}
use omni_cluster_operator.Api.Workload.{OmniSecretSync}
use omni_cluster_operator.External.{Result, ok, err, External}
use omni_cluster_operator.Exec.{wrapped}

abbrev pub default_kubeconfig_key : String
default_kubeconfig_key = "kubeconfig"

abbrev pub managed_by_label : String
managed_by_label = "app.kubernetes.io/managed-by"

abbrev pub owner_uid_label : String
owner_uid_label = "omni.texashpc.com/secret-sync-uid"

abbrev pub cluster_label : String
cluster_label = "omni.texashpc.com/cluster"

abbrev pub managed_by_value : String
managed_by_value = "omni-cluster-operator"

abbrev pub owner_annotation : String
owner_annotation = "omni.texashpc.com/secret-sync-name"

abbrev pub hash_annotation : String
hash_annotation = "omni.texashpc.com/secret-sync-hash"

abbrev pub source_annotation : String
source_annotation = "omni.texashpc.com/secret-sync-source"

abbrev pub content_annotation : String
content_annotation = "omni.texashpc.com/secret-sync-content"

abbrev pub content_hash_version : String
content_hash_version = "v1"

pub record Target : Type 0 where
  pub namespace : String
  pub name : String

-- `Result` of the source.
pub record SyncResult : Type 0 where
  pub target : Target
  pub type : String
  pub hash : String

unfoldable pub kubeconfig_secret_key : OmniSecretSync → String
kubeconfig_secret_key item =
    let key = item.spec.kubeconfig_secret_ref.key in
    if key == "" then default_kubeconfig_key else key

unfoldable pub target_for_item : OmniSecretSync → Target
target_for_item item = record {
  namespace = item.spec.target_secret_ref.namespace;
  name = item.spec.target_secret_ref.name;
}

unfoldable pub copy_byte_map : Map Bytes → Map Bytes
copy_byte_map input = if is_nil (entries input) then none else some (entries input)

-- `mergeStringMaps`, which internal/controller/map_utils.go repeats.
unfoldable pub merge_string_maps : Map String → Map String → Map String
merge_string_maps base overrides =
    if is_nil (entries base) && is_nil (entries overrides)
    then none
    else some (copy_into (copy_into [] (entries base)) (entries overrides))

unfoldable pub secret_labels : OmniSecretSync → String → Map String
secret_labels item cluster_name = some (
    (managed_by_label, managed_by_value)
    ∷ (owner_uid_label, item.meta.uid)
    ∷ (cluster_label, cluster_name)
    ∷ [])

unfoldable pub is_owned_secret : OmniSecretSync → Option Secret → Bool
is_owned_secret item none = false
is_owned_secret item (some secret) =
    if not (item.meta.uid == "")
    then get_text owner_uid_label secret.labels == item.meta.uid
    else get_text owner_annotation secret.annotations == item.meta.name

-- The annotations that record what was written.
abbrev pub content_annotations : String → Map String
content_annotations h =
    some ((hash_annotation, h) ∷ (content_annotation, content_hash_version) ∷ [])

module _ ⦃x : External⦄ where
  unfoldable pub secret_annotations : OmniSecretSync → Secret → Map String
  secret_annotations item source = some (
      (owner_annotation, item.meta.name)
      ∷ (source_annotation, x.namespaced_name source.namespace source.name)
      ∷ [])

  unfoldable pub desired_secret : OmniSecretSync → Secret → String → Secret
  desired_secret item source cluster_name = record {
    meta = record {
      name = (target_for_item item).name;
      namespace = (target_for_item item).namespace;
      uid = "";
      generation = pos 0;
      resource_version = "";
      deletion_timestamp = none;
      finalizers = [];
      labels = merge_string_maps item.spec.labels (secret_labels item cluster_name);
      annotations = merge_string_maps item.spec.annotations (secret_annotations item source);
    };
    type = if item.spec.type == "" then source.type else item.spec.type;
    contents = copy_byte_map source.contents;
  }

  unfoldable pub hash : String → Map Bytes → Result String
  hash secret_type contents =
      elim (x.marshal_secret content_hash_version secret_type (copy_byte_map contents)) [
        | ok encoded ↦ ok (x.sha256_hex encoded)
        | err e ↦ err (wrapped "marshal Secret hash payload: " e)
      ]

  -- `desired` as `Sync` sends it.
  unfoldable pub hashed_secret : OmniSecretSync → Secret → String → String → Secret
  hashed_secret item source cluster_name h =
      let desired = desired_secret item source cluster_name in
      record desired {
        meta = record (desired.meta) {
          annotations = merge_string_maps desired.annotations (content_annotations h);
        };
      }
