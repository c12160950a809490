-- ===== src/Controller/KubeconfigExport/Looks.antt =====
-- omnikubeconfigexport_controller.go: once it is decided whether a Secret is kept, the reconciliation ends
-- with an error, or looks at the export again when the rotation is due.
use omni_cluster_operator.Base.{String, Option, none, some, ◌≡◌, ◌≢◌, ◌⊎◌, inl, inr, refl}
use omni_cluster_operator.Base.Int.{◌<ℤ◌}
use omni_cluster_operator.Api.Meta.{Bytes, Time, Secret}
use omni_cluster_operator.Api.Template.{OmniCluster, OmniConnection}
use omni_cluster_operator.Api.Workload.{OmniKubeconfigExport, OmniKubeconfigExportStatus}
use omni_cluster_operator.External.{Error, Result, ok, err, External}
use omni_cluster_operator.Export
use omni_cluster_operator.Controller.Kube.{
  Api, Runtime, DeepEqual, World, Outcome, after, minute, unless_failed, unless_done,
}
use omni_cluster_operator.Controller.Omni.{Omni}
use omni_cluster_operator.Controller.SpecErrors.{kubeconfig_export_spec_error}
use omni_cluster_operator.Controller.KubeconfigExport.State.{CurrentKubeconfigState}
use omni_cluster_operator.Controller.KubeconfigExport.Written.{expiration_of}
use omni_cluster_operator.Controller.KubeconfigExport.Cycle.{not_due_yet}
use omni_cluster_operator.Controller.KubeconfigExport.Later.{
  WaitsUntil, not_due-lt, requeue_after-WaitsUntil,
}
use omni_cluster_operator.Controller.KubeconfigExport.Generated.{Kubeconfigs}
use omni_cluster_operator.Controller.KubeconfigExport.Reconcile.{
  export_failed, prepared, generated, report_exported, new_state, secret_written, export_bytes,
}

-- An error, or a wait for the next rotation: the delay is the time until then.
abbrev pub LooksAgain : Time → Time → Outcome → Type 0
LooksAgain now next o = (o.error ≢ none) ⊎ WaitsUntil now next o.result.requeue_after

module _ {Store Remote : Type 0} (now next : Time) (remote : Remote) where
  abbrev pub Looks : Outcome × World Store Remote → Type 0
  Looks p = (p.1.remote ≡ remote) × LooksAgain now next p.0

  unless_failed-Looks :
      (o : Outcome) (p : Result (Unit {0}) × World Store Remote)
      → p.1.remote ≡ remote
      → LooksAgain now next o
      → Looks (unless_failed o p)
  unless_failed-Looks o (ok _, v) same looks = (same, looks)
  unless_failed-Looks o (err e, v) same looks = (same, inl (λ h. absurd (cc h)))

module _ ⦃x : External⦄ ⦃t : Runtime⦄ ⦃d : DeepEqual OmniKubeconfigExportStatus⦄ (api : Api)
    (omni : Omni) (k : Kubeconfigs) (item : OmniKubeconfigExport) (cluster : OmniCluster)
    (connection : OmniConnection) (now : Time) where
  pub report_exported-Looks :
      (state : CurrentKubeconfigState) (v : World api.Store omni.Remote)
      → now <ℤ state.next_rotation_time
      → Looks now state.next_rotation_time v.remote
          (report_exported api omni k item cluster connection now state v)
  unfolding report_exported
  report_exported-Looks state v later =
      unless_failed-Looks now state.next_rotation_time v.remote _ (_, record v { store = _ }) refl
        (inr (requeue_after-WaitsUntil now state.next_rotation_time later))

  -- When the rotation of what is exported now is due.
  abbrev pub rotation : Time
  rotation = Export.next_rotation_time (expiration_of item now) item.spec.renew_before

  secret_written-Looks :
      kubeconfig_export_spec_error item ≡ none
      → (bytes : Bytes) (r : Result (Unit {0})) (v : World api.Store omni.Remote)
      → Looks now rotation v.remote
          (secret_written api omni k item cluster connection now bytes (r, v))
  unfolding secret_written
  secret_written-Looks valid bytes (err e) v = (refl, inl (λ h. absurd (cc h)))
  secret_written-Looks valid bytes (ok _) v =
      report_exported-Looks (new_state api omni k item cluster connection now bytes) v (
        not_due-lt now (expiration_of item now) item.spec.renew_before (not_due_yet item now valid))

  module _ (valid : kubeconfig_export_spec_error item ≡ none) (spec_hash : String)
      (found : Option Secret) where
    abbrev exports : Bytes → World api.Store omni.Remote → Outcome × World api.Store omni.Remote
    exports = export_bytes api omni k item cluster connection spec_hash now found

    export_failed-Looks :
        (e : Error) (message : String) (v : World api.Store omni.Remote)
        → Looks now rotation v.remote
            (unless_done exports (export_failed api omni k item cluster connection e message v))
    unfolding export_failed
    export_failed-Looks e message v =
        unless_failed-Looks now rotation v.remote (after minute (some e))
          (_, record v { store = _ }) refl (inl (λ h. absurd (cc h)))

    prepared-Looks :
        (r : Result Bytes) (v : World api.Store omni.Remote)
        → Looks now rotation v.remote
            (unless_done exports (prepared api omni k item cluster connection r v))
    unfolding export_bytes
    prepared-Looks (ok bytes) v = secret_written-Looks valid bytes _ _
    prepared-Looks (err e) v = export_failed-Looks e e.message v

    -- What follows Omni's answer ends with an error, or waits for the rotation of the export.
    pub generated-Looks :
        (r : Result Bytes) (v : World api.Store omni.Remote)
        → Looks now rotation v.remote
            (unless_done exports (generated api omni k item cluster connection (r, v)))
    unfolding generated
    generated-Looks (err e) v = export_failed-Looks e _ v
    generated-Looks (ok bytes) v = prepared-Looks _ v
