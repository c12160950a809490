-- ===== src/Controller/KubeconfigExport/Later.antt =====
-- omnikubeconfigexport_controller.go: `requeueAfter` on a rotation that is later, and the states that are
-- reused.
use omni_cluster_operator.Base.{
  String, false, Option, none, some, ◌≡◌, ◌⊎◌, inl, inr, refl, arith, if_cases, if◌then◌else◌,
}
use omni_cluster_operator.Base.Int.{pos, ◌<ℤ◌, ◌-ℤ◌, leb_ℤ, ltb_ℤ, ltb→lt_ℤ, -ℤ_parts}
use omni_cluster_operator.Api.Meta.{Bytes, Time, Duration, Secret}
use omni_cluster_operator.External.{Error, External}
use omni_cluster_operator.Export
use omni_cluster_operator.Controller.KubeconfigExport.State.{
  CurrentKubeconfigState, current_kubeconfig_secret_state, reusable_current_kubeconfig_secret_state,
  max_duration, min_duration, time_between, requeue_after, bytes_at,
  kubeconfig_validation_requires_rotation,
}

-- The delay is the time from now to the next rotation, which is later; or the longest that there is, if
-- the rotation is further away than that.
pub record WaitsUntil (now next : Time) (delay : Duration) : Type 0 where
  pub positive : pos 0 <ℤ delay
  pub until : (delay ≡ next -ℤ now) ⊎ ((delay ≡ max_duration) × (max_duration <ℤ (next -ℤ now)))

-- A rotation that is not due is later.
pub not_due-lt :
    (now expiration : Time) (renew_before : Option Duration)
    → Export.rotation_due now expiration renew_before ≡ false
    → now <ℤ Export.next_rotation_time expiration renew_before
unfolding Export.rotation_due
not_due-lt now expiration renew_before h =
    ltb→lt_ℤ now (Export.next_rotation_time expiration renew_before) (ground arith)

positive_difference : (now next : Time) → now <ℤ next → pos 0 <ℤ (next -ℤ now)
positive_difference now next h = let parts = -ℤ_parts next now in ground arith

clipped-WaitsUntil :
    (now next : Time) (delay : Duration)
    → WaitsUntil now next delay
    → WaitsUntil now next (if leb_ℤ delay (pos 0) then pos 0 else delay)
clipped-WaitsUntil now next delay waits =
    let later = waits.positive in
    if_cases (WaitsUntil now next) (leb_ℤ delay (pos 0)) (λ h. absurd (ground arith)) (λ _. waits)

-- The controller waits for a rotation that is later.
pub requeue_after-WaitsUntil :
    (now next : Time) → now <ℤ next → WaitsUntil now next (requeue_after now (some next))
unfolding requeue_after time_between
requeue_after-WaitsUntil now next h =
    let later = positive_difference now next h in
    clipped-WaitsUntil now next (time_between next now) (
      if_cases (WaitsUntil now next) (ltb_ℤ max_duration (next -ℤ now))
        (λ far. record {
          positive = ground arith;
          until = inr (refl, ltb→lt_ℤ max_duration (next -ℤ now) far);
        })
        (λ _.
          if_cases (WaitsUntil now next) (ltb_ℤ (next -ℤ now) min_duration)
            (λ below. absurd (ground arith)) (λ _. record { positive = later; until = inl refl })))

module _ ⦃x : External⦄ where
  -- A state that is reused is that of a kubeconfig that is current.
  pub reusable_is_current :
      (validate : Bytes → Option Error) (secret : Secret) (target_key spec_hash : String)
      (now : Time) (renew_before : Option Duration) (state : CurrentKubeconfigState)
      → reusable_current_kubeconfig_secret_state validate secret target_key spec_hash now
          renew_before
        ≡ some state
      → current_kubeconfig_secret_state secret target_key spec_hash now renew_before ≡ some state
  unfolding reusable_current_kubeconfig_secret_state
  reusable_is_current validate secret target_key spec_hash now renew_before state =
      go (current_kubeconfig_secret_state secret target_key spec_hash now renew_before)
    where
      go :
          (o : Option CurrentKubeconfigState)
          → (elim o [
            | none ↦ none
            | some s ↦
                if kubeconfig_validation_requires_rotation (validate (bytes_at target_key secret))
                then none
                else some s
          ])
            ≡ some state
          → o ≡ some state
      go none = λ h. absurd (cc h)
      go (some s) =
          if_cases (λ o. o ≡ some state → some s ≡ some state)
            (kubeconfig_validation_requires_rotation (validate (bytes_at target_key secret)))
            (λ _ h. absurd (cc h)) (λ _ h. h)
