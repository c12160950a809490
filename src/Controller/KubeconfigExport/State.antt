-- ===== src/Controller/KubeconfigExport/State.antt =====
-- omnikubeconfigexport_controller.go: whether the kubeconfig in a Secret is still good, and when to
-- look again.
use omni_cluster_operator.Base.{
  String, [], Bool, true, false, Option, none, some, not, ◌==◌, ◌||◌, is_nil, if◌then◌else◌,
}
use omni_cluster_operator.Base.Int.{pos, negsuc, leb_ℤ, ltb_ℤ, ◌-ℤ◌}
use omni_cluster_operator.Base.Maps.{get, get_text}
use omni_cluster_operator.Api.Meta.{Bytes, Time, Duration, Secret}
use omni_cluster_operator.External.{
  Error, not_usable, forbidden, unauthorized, Result, ok, err, External,
}
use omni_cluster_operator.Export

-- `currentKubeconfigState`
pub record CurrentKubeconfigState : Type 0 where
  pub hash : String
  pub expiration_time : Time
  pub last_rotation_time : Option Time
  pub next_rotation_time : Time

-- `secret.Data[key]`: a missing key reads as no bytes.
abbrev pub bytes_at : String → Secret → Bytes
bytes_at key secret = elim (get key secret.contents) [ none ↦ [] | some bytes ↦ bytes ]

-- `errors.Is(err, errKubeconfigNotUsable) || apierrors.IsForbidden(err) || apierrors.IsUnauthorized(err)`
unfoldable pub kubeconfig_validation_requires_rotation : Option Error → Bool
kubeconfig_validation_requires_rotation none = false
kubeconfig_validation_requires_rotation (some e) = elim e.kind [
  | not_usable ↦ true
  | forbidden ↦ true
  | unauthorized ↦ true
  | _ ↦ false
]

-- The bounds of `time.Duration`, an int64 of nanoseconds.
abbrev pub max_duration : Duration
max_duration = pos 9_223_372_036_854_775_807

abbrev pub min_duration : Duration
min_duration = negsuc 9_223_372_036_854_775_807

-- `Time.Sub`
unfoldable pub time_between : Time → Time → Duration
time_between later earlier =
    let d = later -ℤ earlier in
    if ltb_ℤ max_duration d then max_duration else if ltb_ℤ d min_duration then min_duration else d

unfoldable pub requeue_after : Time → Option Time → Duration
unfolding time_between
requeue_after now none = pos 0
requeue_after now (some next_rotation_time) =
    let delay = time_between next_rotation_time now in if leb_ℤ delay (pos 0) then pos 0 else delay

-- The part of `currentKubeconfigSecretState` after the last rotation time is read.
unfoldable pub state_since :
    String → Time → Option Duration → Result (Option Time) → Option CurrentKubeconfigState
state_since hash expiration renew_before (err e) = none
state_since hash expiration renew_before (ok last) = some (record {
  hash = hash;
  expiration_time = expiration;
  last_rotation_time = last;
  next_rotation_time = Export.next_rotation_time expiration renew_before;
})

module _ ⦃x : External⦄ where
  -- The part of `currentKubeconfigSecretState` after the expiration time is read.
  unfoldable pub state_until :
      Secret
      → String
      → Time
      → Option Duration
      → Result (Option Time)
      → Option CurrentKubeconfigState
  unfolding state_since
  state_until secret hash now renew_before (ok (some expiration)) =
      if Export.rotation_due now expiration renew_before
      then none
      else state_since hash expiration renew_before
          (Export.annotation_time (some secret) Export.last_rotation_annotation)
  state_until secret hash now renew_before (ok none) = none
  state_until secret hash now renew_before (err e) = none

  unfoldable pub current_kubeconfig_secret_state :
      Secret → String → String → Time → Option Duration → Option CurrentKubeconfigState
  unfolding state_until
  current_kubeconfig_secret_state secret target_key spec_hash now renew_before =
      let bytes = bytes_at target_key secret in
      let hash = Export.hash bytes in
      if is_nil bytes || not (get_text Export.spec_hash_annotation secret.annotations == spec_hash)
      then none
      else if not (get_text Export.hash_annotation secret.annotations == hash)
      then none
      else state_until secret hash now renew_before
          (Export.annotation_time (some secret) Export.expiration_annotation)

  -- `validate` is `KubeconfigValidator.Validate`.
  unfoldable pub reusable_current_kubeconfig_secret_state :
      (Bytes → Option Error)
      → Secret
      → String
      → String
      → Time
      → Option Duration
      → Option CurrentKubeconfigState
  reusable_current_kubeconfig_secret_state validate secret target_key spec_hash now renew_before =
      elim (current_kubeconfig_secret_state secret target_key spec_hash now renew_before) [
        | none ↦ none
        | some state ↦
            if kubeconfig_validation_requires_rotation (validate (bytes_at target_key secret))
            then none
            else some state
      ]
