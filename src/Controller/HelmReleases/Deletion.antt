-- ===== src/Controller/HelmReleases/Deletion.antt =====
-- omnihelmrelease_controller.go: when an OmniHelmRelease that is deleted loses its finalizer.
use omni_cluster_operator.Base.{
  String, false, Option, none, some, not, ◌≡◌, ◌⊎◌, inl, inr, refl, sym, ap, arith, ◌==◌, eq_iff,
  if_cases,
}
use omni_cluster_operator.Api.Meta.{Bytes}
use omni_cluster_operator.Api.Common.{finalizer}
use omni_cluster_operator.Api.Workload.{OmniHelmRelease, OmniHelmReleaseStatus, policy_orphan}
use omni_cluster_operator.External.{Error, Result, ok, err, External}
use omni_cluster_operator.Release
use omni_cluster_operator.HelmClient.Library.{Helm}
use omni_cluster_operator.HelmClient.Client
use omni_cluster_operator.Controller.Kube.{Api, Runtime, DeepEqual, World, Outcome}
use omni_cluster_operator.Controller.Objects.{has}
use omni_cluster_operator.Controller.Stages.{
  IsRetried, IsKubeconfig, Passes, unless_done-cases, kubeconfig_found-Passes,
}
use omni_cluster_operator.Controller.HelmReleases.Status.{
  HelmReleaseStatusUpdate, update_helm_release_status,
}
use omni_cluster_operator.Controller.HelmReleases.Reconcile.{
  kubeconfig_key, remove_finalizer, report, reports, kubeconfig, ran_update, uninstall_reported,
  uninstalled, uninstall_with, reconcile_delete,
}

module _ ⦃x : External⦄ ⦃t : Runtime⦄ ⦃d : DeepEqual OmniHelmReleaseStatus⦄ (api : Api) (h : Helm)
    (cache_dir : String) (item : OmniHelmRelease) (w : World api.Store h.World) where
  -- Of the API server's objects, only the status of the item may have been written.
  abbrev pub StatusOnly : World api.Store h.World → Type 0
  StatusOnly v =
      (v.store ≡ w.store)
      ⊎ ((input : HelmReleaseStatusUpdate) × (v.store
            ≡ (update_helm_release_status api item input w.store).1))

  abbrev pub Spared : World api.Store h.World → Type 0
  Spared v = (v.remote ≡ w.remote) × StatusOnly v

  -- The kubeconfig that the item names.
  abbrev pub HasKubeconfig : Bytes → Type 0
  HasKubeconfig =
      IsKubeconfig (api.secrets.get (kubeconfig_key item) w.store)
        (Release.kubeconfig_secret_key item)

  report-Spared : (input : HelmReleaseStatusUpdate) → Spared (report api h cache_dir item input w).1
  report-Spared input = (refl, inr (input, refl))

  pub kubeconfig-Passes : Passes HasKubeconfig Spared w (kubeconfig api h cache_dir item w)
  unfolding kubeconfig
  kubeconfig-Passes =
      kubeconfig_found-Passes (reports api h cache_dir item) (kubeconfig_key item)
        (Release.kubeconfig_secret_key item) w Spared (refl, inl refl) (λ _. report-Spared _)
        (λ _. report-Spared _) (λ _. report-Spared _)
        (api.secrets.get (kubeconfig_key item) w.store)

  -- There was no finalizer, and nothing happens.
  abbrev Untouched : Outcome × World api.Store h.World → Type 0
  Untouched p = (has finalizer item.meta ≡ false) × (p.1 ≡ w)

  -- The policy keeps the release, and the finalizer is taken off.
  abbrev Orphans : Outcome × World api.Store h.World → Type 0
  Orphans p =
      (Release.deletion_policy item ≡ policy_orphan)
      × (p.1.remote ≡ w.remote)
      × (p.1.store ≡ (remove_finalizer api item w.store).1)

  -- Helm was asked to uninstall the release under the kubeconfig that the item names, and answered so.
  abbrev Uninstalls : Bytes → Client.Ran → World api.Store h.World → Type 0
  Uninstalls bytes ran v =
      HasKubeconfig bytes × (Client.uninstall h cache_dir item bytes w.remote ≡ (ran, v.remote))

  -- Helm uninstalled the release without an error, the status was written, and the finalizer is taken
  -- off.
  abbrev Released : Outcome × World api.Store h.World → Type 0
  Released p =
      (bytes : Bytes) × (ran : Client.Ran) × Uninstalls bytes ran p.1
      × (ran.error ≡ none)
      × ((update_helm_release_status api item (ran_update api h cache_dir item ran) w.store).0
          ≡ ok tt)
      × (p.1.store
          ≡ (remove_finalizer api item
              (update_helm_release_status api item (ran_update api h cache_dir item ran)
                w.store).1).1)

  -- At most the status is written, and the deletion is tried again.
  abbrev Kept : Outcome × World api.Store h.World → Type 0
  Kept p = IsRetried p.0 × StatusOnly p.1

  abbrev pub EndsUninstall : Outcome × World api.Store h.World → Type 0
  EndsUninstall p = Untouched p ⊎ Orphans p ⊎ Released p ⊎ Kept p

  reported-EndsUninstall :
      (bytes : Bytes) (ran : Client.Ran) (remote : h.World)
      → HasKubeconfig bytes
      → Client.uninstall h cache_dir item bytes w.remote ≡ (ran, remote)
      → (e : Option Error) → ran.error ≡ e
      → (r : Result (Unit {0})) (store : api.Store)
      → update_helm_release_status api item (ran_update api h cache_dir item ran) w.store
        ≡ (r, store)
      → EndsUninstall
          (uninstall_reported api h cache_dir item e (r, record { store = store; remote = remote }))
  unfolding uninstall_reported
  reported-EndsUninstall bytes ran remote good run e h (err f) store wrote =
      inr (inr (inr (inl (λ same. absurd (cc same)), inr (_, sym (ap (λ p. p.1) wrote)))))
  reported-EndsUninstall bytes ran remote good run (some e) h (ok _) store wrote =
      inr (inr (inr (inl (λ same. absurd (cc same)), inr (_, sym (ap (λ p. p.1) wrote)))))
  reported-EndsUninstall bytes ran remote good run none h (ok _) store wrote = inr (
      inr (
        inl (
          bytes,
          ran,
          (good, run),
          h,
          ap (λ p. p.0) wrote,
          ap (λ p. (remove_finalizer api item p.1).1) (sym wrote),
        )))

  uninstalled-EndsUninstall :
      (bytes : Bytes) (ran : Client.Ran) (remote : h.World)
      → HasKubeconfig bytes
      → Client.uninstall h cache_dir item bytes w.remote ≡ (ran, remote)
      → EndsUninstall (uninstalled api h cache_dir item (ran, record w { remote = remote }))
  unfolding uninstalled
  uninstalled-EndsUninstall bytes ran remote good run =
      reported-EndsUninstall bytes ran remote good run _ refl _ _ refl

  -- A deletion ends in one of four ways: there was no finalizer and nothing happens; the policy is
  -- Orphan, and the finalizer is taken off with no run of Helm; Helm uninstalled the release without
  -- an error, under the kubeconfig that the item names, the status was written, and the finalizer is
  -- taken off; or at most the status is written, and controller-runtime calls again.
  pub reconcile_delete-EndsUninstall : EndsUninstall (reconcile_delete api h cache_dir item w)
  unfolding reconcile_delete uninstall_with
  reconcile_delete-EndsUninstall =
      if_cases EndsUninstall (not (has finalizer item.meta)) (λ f. inl (ground arith, refl))
        (λ _.
          if_cases EndsUninstall (Release.deletion_policy item == policy_orphan)
            (λ orphan.
              inr
                (inl ((eq_iff (Release.deletion_policy item) policy_orphan).0 orphan, refl, refl)))
            (λ _.
              unless_done-cases HasKubeconfig Spared w EndsUninstall
                (uninstall_with api h cache_dir item) (kubeconfig api h cache_dir item w)
                kubeconfig-Passes (λ bytes good. uninstalled-EndsUninstall bytes _ _ good refl)
                (λ o v kept again. inr (inr (inr (again, kept.1))))))
