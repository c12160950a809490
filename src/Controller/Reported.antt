-- ===== src/Controller/Reported.antt =====
-- omnisecretsync_controller.go and omnihelmrelease_controller.go: what the status says of an error.
use omni_cluster_operator.Base.{String, List, arith, some, ◌≡◌, refl, sym, subst}
use omni_cluster_operator.Base.Int.{ℤ}
use omni_cluster_operator.Api.Meta.{Time, Condition, condition_false}
use omni_cluster_operator.Api.Common.{new_condition}
use omni_cluster_operator.Api.Workload.{OmniHelmRelease, OmniSecretSync}
use omni_cluster_operator.External.{Error, External}
use omni_cluster_operator.Controller.Kube.{Runtime}
use omni_cluster_operator.Controller.SecretSyncs.Status.{SecretSyncStatusUpdate, secret_sync_status}
use omni_cluster_operator.Controller.HelmReleases.Status.{
  HelmReleaseStatusUpdate, helm_release_status,
}

module _ ⦃x : External⦄ ⦃t : Runtime⦄ (now : Time) (e : Error) where
  -- The condition that was set last says that the object is not ready.
  abbrev pub SaysNotReady : ℤ → List Condition → Type 0
  SaysNotReady generation conditions =
      (before : List Condition) × (why : String × String) × (conditions
        ≡ t.set_condition before (new_condition "Ready" condition_false generation why.0 why.1))

  abbrev pub SyncFailed : OmniSecretSync → SecretSyncStatusUpdate → Type 0
  SyncFailed latest input =
      let status = (secret_sync_status input now latest).status in
      (status.last_error ≡ e.message)
      × (status.last_attempt_time ≡ some now)
      × (status.last_sync_time ≡ latest.status.last_sync_time)
      × SaysNotReady latest.meta.generation status.conditions

  sync_error :
      (input : SecretSyncStatusUpdate) (latest : OmniSecretSync)
      → SyncFailed latest (record input { error = some e })
  unfolding secret_sync_status
  sync_error input latest = (ground arith, ground arith, ground arith, (_, _, refl))

  -- After an error the status of a Secret sync has the error's text and the time of the attempt, the
  -- time of the last success is as it was, and the condition that is set last says that the item is not
  -- ready, for the generation that was read.
  pub secret_sync_status-error :
      (input : SecretSyncStatusUpdate) (latest : OmniSecretSync)
      → input.error ≡ some e
      → SyncFailed latest input
  secret_sync_status-error input latest h =
      subst (λ o. SyncFailed latest (record input { error = o })) (sym h) (sync_error input latest)

  abbrev pub ReleaseFailed : OmniHelmRelease → HelmReleaseStatusUpdate → Type 0
  ReleaseFailed latest input =
      let status = (helm_release_status input now latest).status in
      (status.last_error ≡ e.message)
      × (status.last_attempt_time ≡ some now)
      × (status.last_success_time ≡ latest.status.last_success_time)
      × SaysNotReady latest.meta.generation status.conditions

  release_error :
      (input : HelmReleaseStatusUpdate) (latest : OmniHelmRelease)
      → ReleaseFailed latest (record input { error = some e })
  unfolding helm_release_status
  release_error input latest = (ground arith, ground arith, ground arith, (_, _, refl))

  -- After an error the status of a Helm release has the error's text and the time of the attempt, the
  -- time of the last success is as it was, and the condition that is set last says that the release is
  -- not ready, for the generation that was read.
  pub helm_release_status-error :
      (input : HelmReleaseStatusUpdate) (latest : OmniHelmRelease)
      → input.error ≡ some e
      → ReleaseFailed latest input
  helm_release_status-error input latest h =
      subst (λ o. ReleaseFailed latest (record input { error = o })) (sym h)
        (release_error input latest)
