-- ===== src/Controller/KubeconfigExport/Cycle.antt =====
-- omnikubeconfigexport_controller.go: an export that has just been written is not made again.
use omni_cluster_operator.Base.{
  String, [], false, Option, none, some, ◌≡◌, refl, ap, ◌∙◌, arith, eq_iff, is_nil, if◌then◌else◌,
}
use omni_cluster_operator.Base.Int.{ℤ, pos, leb_ℤ, ◌+ℤ◌, +ℤ_parts, -ℤ_parts}
use omni_cluster_operator.Base.Maps.{Map, find, get, find-put}
use omni_cluster_operator.Api.Meta.{Bytes, Time, Duration, Secret}
use omni_cluster_operator.Api.Workload.{OmniKubeconfigExport}
use omni_cluster_operator.External.{External}
use omni_cluster_operator.Export
use omni_cluster_operator.SecretSync.Desired.{merge_string_maps}
use omni_cluster_operator.Controller.SpecErrors.{kubeconfig_export_spec_error}
use omni_cluster_operator.Controller.KubeconfigExport.State.{
  bytes_at, current_kubeconfig_secret_state,
}
use omni_cluster_operator.Controller.KubeconfigExport.Written.{
  expiration_of, found_or_new, annotated_secret, kept_contents, exported_secret,
}
use omni_cluster_operator.Controller.KubeconfigExport.Reuse.{
  IsPrinted, current_kubeconfig_secret_state-written,
}

renew_before_ttl :
    (now ttl : ℤ) (renew_before : Option Duration)
    → leb_ℤ ttl (pos 0) ≡ false
    → ((d : Duration) → renew_before ≡ some d → leb_ℤ ttl d ≡ false)
    → Export.rotation_due now (now +ℤ ttl) renew_before ≡ false
unfolding Export.rotation_due Export.next_rotation_time
renew_before_ttl now ttl none h _ = let sum = +ℤ_parts now ttl in ground arith
renew_before_ttl now ttl (some d) h k =
    let less = k d refl in
    let sum = +ℤ_parts now ttl in let difference = -ℤ_parts (now +ℤ ttl) d in ground arith

-- A specification that the reconciler accepts has its rotation after the export.
pub not_due_yet :
    (item : OmniKubeconfigExport) (now : Time)
    → kubeconfig_export_spec_error item ≡ none
    → Export.rotation_due now (expiration_of item now) item.spec.renew_before ≡ false
unfolding kubeconfig_export_spec_error expiration_of
not_due_yet item now h =
    renew_before_ttl now item.spec.ttl item.spec.renew_before (ground arith) (λ d e. ground arith)

module _ ⦃x : External⦄ (item : OmniKubeconfigExport) (cluster_name spec_hash : String)
    (kubeconfig : Bytes) (now : Time) (found : Option Secret) where
  abbrev key : String
  key = Export.target_secret_key item

  abbrev sent : Secret
  sent = exported_secret item cluster_name spec_hash kubeconfig now found

  bytes_of_sent : bytes_at key sent ≡ kubeconfig
  unfolding exported_secret
  bytes_of_sent =
      let secret =
        annotated_secret item cluster_name spec_hash kubeconfig now (found_or_new item found) in
      let all = kept_contents item cluster_name spec_hash kubeconfig now secret in
      let there =
        find-put key key kubeconfig all
        ∙ ap (λ b. if b then some kubeconfig else find key all) ((eq_iff key key).1 refl) in
      ap (λ o. elim o [ none ↦ [] | some bytes ↦ bytes ]) there

  annotations_of_sent :
      sent.annotations
      ≡ merge_string_maps (found_or_new item found).annotations (
          Export.secret_annotations item spec_hash
            (Export.hash kubeconfig)
            (expiration_of item now)
            now)
  unfolding exported_secret annotated_secret
  annotations_of_sent = refl

  -- A Secret as the API server has it once it accepted what the export sent, with any metadata else.
  pub record IsServed (secret : Secret) : Type 0 where
    pub contents : secret.contents ≡ sent.contents
    pub annotations : secret.annotations ≡ sent.annotations

  pub bytes_of_served : (secret : Secret) → IsServed secret → bytes_at key secret ≡ kubeconfig
  bytes_of_served secret served =
      ap (λ (contents : Map Bytes). elim (get key contents) [ none ↦ [] | some bytes ↦ bytes ])
        served.contents
      ∙ bytes_of_sent

  -- The Secret that an export wrote is current at every later time before its rotation is due, with the
  -- times as they are read back from the annotations, if the kubeconfig is not empty.
  pub served_secret-current :
      (secret : Secret) (later expires rotated : Time)
      → IsServed secret
      → is_nil kubeconfig ≡ false
      → IsPrinted (expiration_of item now) expires
      → IsPrinted now rotated
      → Export.rotation_due later expires item.spec.renew_before ≡ false
      → current_kubeconfig_secret_state secret key spec_hash later item.spec.renew_before
        ≡ some (record {
          hash = Export.hash kubeconfig;
          expiration_time = expires;
          last_rotation_time = some rotated;
          next_rotation_time = Export.next_rotation_time expires item.spec.renew_before;
        })
  served_secret-current secret later expires rotated served filled e l not_due =
      let bytes = bytes_of_served secret served in
      let kept =
        current_kubeconfig_secret_state-written item secret spec_hash (expiration_of item now) now
          (found_or_new item found).annotations later expires rotated item.spec.renew_before
          (record {
            filled = rw bytes filled;
            annotated = rw bytes (served.annotations ∙ annotations_of_sent);
          })
          e l not_due in
      rw bytes at kept
