-- ===== src/Controller/KubeconfigExport/Written.antt =====
-- omnikubeconfigexport_controller.go: the Secret that `Reconcile` writes once it has a kubeconfig.
use omni_cluster_operator.Base.{
  String, [], Bool, Option, none, some, not, ◌==◌, ◌&&◌, if◌then◌else◌,
}
use omni_cluster_operator.Base.Int.{pos, ◌+ℤ◌}
use omni_cluster_operator.Base.Maps.{Entries, entries, put, remove}
use omni_cluster_operator.Api.Meta.{Bytes, Time, Secret}
use omni_cluster_operator.Api.Workload.{OmniKubeconfigExport}
use omni_cluster_operator.External.{External}
use omni_cluster_operator.Export
use omni_cluster_operator.SecretSync.Desired.{merge_string_maps}

abbrev pub new_secret : OmniKubeconfigExport → Secret
new_secret item = record {
  meta = record {
    name = item.spec.target_secret_ref.name;
    namespace = Export.target_secret_namespace item;
    uid = "";
    generation = pos 0;
    resource_version = "";
    deletion_timestamp = none;
    finalizers = [];
    labels = none;
    annotations = none;
  };
  type = "Opaque";
  contents = none;
}

-- The Secret that was found, or a new one.
abbrev pub found_or_new : OmniKubeconfigExport → Option Secret → Secret
found_or_new item none = new_secret item
found_or_new item (some secret) = secret

unfoldable pub expiration_of : OmniKubeconfigExport → Time → Time
expiration_of item now = now +ℤ item.spec.ttl

module _ ⦃x : External⦄ (item : OmniKubeconfigExport) (cluster_name spec_hash : String)
    (kubeconfig : Bytes) (now : Time) where
  -- The Secret with the labels and the annotations of this export.
  unfoldable pub annotated_secret : Secret → Secret
  annotated_secret secret = record secret {
    meta = record (secret.meta) {
      labels = merge_string_maps secret.labels (Export.secret_labels item cluster_name);
      annotations = merge_string_maps secret.annotations (
          Export.secret_annotations item spec_hash (Export.hash kubeconfig) (expiration_of item now)
            now);
    };
  }

  -- Whether the key that an earlier export wrote is to be dropped.
  unfoldable pub drops_old_key : Secret → Bool
  drops_old_key secret =
      let old_key = item.status.target_secret_key in
      Export.is_owned_secret item (some secret)
      && item.status.target_secret_ref == item.spec.target_secret_ref.name
      && not (old_key == "")
      && not (old_key == Export.target_secret_key item)

  abbrev pub kept_contents : Secret → Entries Bytes
  kept_contents secret =
      let all = entries secret.contents in
      if drops_old_key secret then remove item.status.target_secret_key all else all

  -- The Secret that `Reconcile` creates or updates.
  unfoldable pub exported_secret : Option Secret → Secret
  unfolding annotated_secret drops_old_key
  exported_secret found =
      let secret = annotated_secret (found_or_new item found) in
      record secret {
        contents = some (put (Export.target_secret_key item) kubeconfig (kept_contents secret));
      }
