-- ===== src/Controller/KubeconfigExport/Once.antt =====
-- omnikubeconfigexport_controller.go: after an export, the reconciliations until its rotation do not ask
-- Omni again.
use omni_cluster_operator.Base.{
  String, false, Option, none, some, ◌≡◌, refl, sym, ap, ◌∙◌, inl, inr, is_nil, arith,
}
use omni_cluster_operator.Base.Int.{◌<ℤ◌, lt→ltb_ℤ}
use omni_cluster_operator.Api.Meta.{Bytes, Time, Duration, Secret}
use omni_cluster_operator.Api.Template.{OmniCluster, OmniConnection}
use omni_cluster_operator.Api.Workload.{OmniKubeconfigExport, OmniKubeconfigExportStatus}
use omni_cluster_operator.External.{Result, ok, err, External}
use omni_cluster_operator.Export
use omni_cluster_operator.Template.Parts
use omni_cluster_operator.Controller.Kube.{Api, Runtime, DeepEqual, World}
use omni_cluster_operator.Controller.Omni.{Omni}
use omni_cluster_operator.Controller.KubeconfigExport.State.{
  CurrentKubeconfigState, kubeconfig_validation_requires_rotation,
  reusable_current_kubeconfig_secret_state,
}
use omni_cluster_operator.Controller.KubeconfigExport.Written.{expiration_of}
use omni_cluster_operator.Controller.KubeconfigExport.Reuse.{IsPrinted}
use omni_cluster_operator.Controller.KubeconfigExport.Cycle.{
  IsServed, bytes_of_served, served_secret-current,
}
use omni_cluster_operator.Controller.KubeconfigExport.Previous.{
  target_secret, delete_previous_target_secret,
}
use omni_cluster_operator.Controller.KubeconfigExport.Generated.{Kubeconfigs, cluster_key}
use omni_cluster_operator.Controller.KubeconfigExport.Reconcile.{reusable, reconcile_alive}
use omni_cluster_operator.Controller.KubeconfigExport.Rotation.{
  IsTargeted, reconcile_alive-EndsExport,
}

before_rotation :
    (now expires : Time) (renew_before : Option Duration)
    → now <ℤ Export.next_rotation_time expires renew_before
    → Export.rotation_due now expires renew_before ≡ false
unfolding Export.rotation_due
before_rotation now expires renew_before h =
    let earlier = lt→ltb_ℤ now (Export.next_rotation_time expires renew_before) h in ground arith

value_or : {A : Type 0} → A → Result A → A
value_or a (ok b) = b
value_or a (err e) = a

module _ ⦃x : External⦄ ⦃t : Runtime⦄ ⦃d : DeepEqual OmniKubeconfigExportStatus⦄ (api : Api)
    (omni : Omni) (k : Kubeconfigs) (item : OmniKubeconfigExport) (spec_hash : String)
    (kubeconfig : Bytes) (exported : Time) (found : Option Secret) (cluster : OmniCluster)
    (secret : Secret)
    (served : IsServed item (Parts.cluster_name cluster) spec_hash kubeconfig exported found secret)
    (usable : kubeconfig_validation_requires_rotation (k.validate kubeconfig) ≡ false)
    (filled : is_nil kubeconfig ≡ false) (expires rotated : Time)
    (expires_printed : IsPrinted (expiration_of item exported) expires)
    (rotated_printed : IsPrinted exported rotated) where
  -- The state of the Secret that the export wrote.
  abbrev written_state : CurrentKubeconfigState
  written_state = record {
    hash = Export.hash kubeconfig;
    expiration_time = expires;
    last_rotation_time = some rotated;
    next_rotation_time = Export.next_rotation_time expires item.spec.renew_before;
  }

  written_is_reusable :
      (now : Time)
      → now <ℤ Export.next_rotation_time expires item.spec.renew_before
      → reusable_current_kubeconfig_secret_state k.validate secret
          (Export.target_secret_key item)
          spec_hash
          now
          item.spec.renew_before
        ≡ some written_state
  unfolding reusable_current_kubeconfig_secret_state
  written_is_reusable now early =
      let name = Parts.cluster_name cluster in
      let bytes = bytes_of_served item name spec_hash kubeconfig exported found secret served in
      let current =
        served_secret-current item name spec_hash kubeconfig exported found secret now expires
          rotated served filled expires_printed rotated_printed
          (before_rotation now expires item.spec.renew_before early) in
      rw (reusable_current_kubeconfig_secret_state, current, bytes, usable) refl

  module _ (w : World api.Store omni.Remote)
      (early : api.now w.store <ℤ Export.next_rotation_time expires item.spec.renew_before)
      (has_cluster : api.clusters.get (cluster_key item) w.store ≡ ok cluster)
      (hashes : Export.spec_hash item (Parts.cluster_name cluster) ≡ ok spec_hash)
      (read : target_secret api item (delete_previous_target_secret api item w.store).1
        ≡ ok (some secret)) where
    not_stale :
        (other : OmniCluster) (connection : OmniConnection)
        (target : IsTargeted api omni k item w other connection)
        → reusable api omni k item other connection target.spec_hash (api.now w.store) target.found
          ≡ none
        → ⊥
    unfolding value_or
    not_stale other connection target stale =
        let same_cluster : other ≡ cluster =
          ap (value_or cluster) (sym target.has_cluster ∙ has_cluster) in
        let same_hash : target.spec_hash ≡ spec_hash = ap (value_or spec_hash) (
          sym target.hashes
          ∙ ap (λ c. Export.spec_hash item (Parts.cluster_name c)) same_cluster
          ∙ hashes) in
        let same_secret : target.found ≡ some secret =
          ap (value_or none) (sym target.read ∙ read) in
        let state =
          ap (reusable api omni k item other connection target.spec_hash (api.now w.store))
            (sym same_secret)
          ∙ stale in
        let kept = written_is_reusable (api.now w.store) early in
        absurd (cc (state, same_hash, kept))

    -- After an export, a reconciliation before its rotation leaves Omni as it is: no kubeconfig is
    -- asked for again. This holds while the specification hashes as it did, the cluster is the same,
    -- the lookup of the target gives the Secret with what the export wrote, the kubeconfig is not
    -- empty and its check does not ask for a rotation. The two times that the export wrote can be read
    -- back from the annotations, in whole seconds, and the rotation is that which follows from the
    -- expiration as it is read back.
    pub reconcile_alive-AsksOnce : (reconcile_alive api omni k item w).1.remote ≡ w.remote
    reconcile_alive-AsksOnce = elim (reconcile_alive-EndsExport api omni k item w) [
      | inl (same, _) ↦ same
      | inr (inl (same, _)) ↦ same
      | inr (inr (inl (_, _, _, _, _, looks))) ↦ looks.0
      | inr (inr (inr (other, connection, target, stale, _))) ↦
          absurd (not_stale other connection target stale)
    ]
