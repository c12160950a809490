-- ===== src/Controller/HelmReleases/Run.antt =====
-- omnihelmrelease_controller.go with helmrelease/client.go: what a reconciliation makes Helm do, and
-- when it comes to rest.
use omni_cluster_operator.Base.{
  String, Bool, true, Option, none, some, ◌≡◌, ◌≢◌, ◌⊎◌, inl, inr, refl, sym, ap, subst, ◌∙◌,
  if_cases,
}
use omni_cluster_operator.Api.Meta.{Bytes}
use omni_cluster_operator.Api.Common.{finalizer}
use omni_cluster_operator.Api.Workload.{OmniHelmRelease, OmniHelmReleaseStatus}
use omni_cluster_operator.External.{Error, Result, ok, err, External}
use omni_cluster_operator.HelmClient.Library.{Helm}
use omni_cluster_operator.HelmClient.Client
use omni_cluster_operator.HelmClient.Choice.{Chooses, reconcile-Chooses}
use omni_cluster_operator.Controller.Kube.{
  Api, Runtime, DeepEqual, World, Outcome, finished, unless_failed,
}
use omni_cluster_operator.Controller.Objects.{has, unless_failed-world}
use omni_cluster_operator.Controller.Children.{cluster_exists}
use omni_cluster_operator.Controller.Stages.{
  IsRetried, unless_failed-IsRetried, Passes, unless_done-cases, after_call-Passes, failed-Passes,
  ensure_finalizer-Passes,
}
use omni_cluster_operator.Controller.SpecErrors.{helm_release_spec_error}
use omni_cluster_operator.Controller.HelmReleases.Reconcile.{
  cluster_known, released, release_with, reconcile_checked, owned, reconcile_alive,
}
use omni_cluster_operator.Controller.HelmReleases.Deletion.{
  HasKubeconfig, Spared, kubeconfig-Passes,
}

module _ ⦃x : External⦄ ⦃t : Runtime⦄ ⦃d : DeepEqual OmniHelmReleaseStatus⦄ (api : Api) (h : Helm)
    (cache_dir : String) (item : OmniHelmRelease) (w : World api.Store h.World) where
  -- What a release acts on, as the API server has it.
  pub record IsReady (bytes : Bytes) : Type 0 where
    pub finalized : has finalizer item.meta ≡ true
    pub valid : helm_release_spec_error item ≡ none
    pub has_cluster :
        cluster_exists api item.meta.namespace item.spec.cluster_ref.name w.store ≡ ok true
    pub has_kubeconfig : HasKubeconfig api h cache_dir item w bytes

  -- Helm was not run, and controller-runtime calls again.
  abbrev Waits : Outcome × World api.Store h.World → Type 0
  Waits p = (p.1.remote ≡ w.remote) × IsRetried p.0

  -- The specification is refused, and Helm was not run.
  abbrev Refuses : Outcome × World api.Store h.World → Type 0
  Refuses p = (p.1.remote ≡ w.remote) × (helm_release_spec_error item ≢ none)

  -- Helm's world is as one run of the client left it; an error of Helm makes controller-runtime call
  -- again.
  abbrev Releases : Bytes → Outcome × World api.Store h.World → Type 0
  Releases bytes p =
      (ran : Client.Ran) × (Client.reconcile h cache_dir item bytes w.remote ≡ (ran, p.1.remote))
      × Chooses h cache_dir item bytes w.remote (ran, p.1.remote)
      × ((ran.error ≡ none) ⊎ IsRetried p.0)

  abbrev pub EndsRelease : Outcome × World api.Store h.World → Type 0
  EndsRelease p = Waits p ⊎ Refuses p ⊎ ((bytes : Bytes) × IsReady bytes × Releases bytes p)

  abbrev Same : World api.Store h.World → Type 0
  Same v = v.remote ≡ w.remote

  cluster_known-Passes :
      (r : Result Bool) → Passes (λ _. r ≡ ok true) Same w (cluster_known api h cache_dir item r w)
  unfolding cluster_known
  cluster_known-Passes (err e) = failed-Passes _ Same w e refl
  cluster_known-Passes (ok exists) =
      if_cases (Passes (λ _. ok exists ≡ ok true) Same w) exists
        (λ there. inl (tt, refl, ap (λ b. ok b) there)) (λ _. after_call-Passes _ Same w _ refl)

  error_after_report :
      (e : Option Error) (p : Result (Unit {0}) × World api.Store h.World)
      → (e ≡ none) ⊎ IsRetried (unless_failed (record finished { error = e }) p).0
  error_after_report none p = inl refl
  error_after_report (some e) p = inr (
      unless_failed-IsRetried (record finished { error = some e }) p
        (inl (λ same. absurd (cc same))))

  remote_after_report :
      (o : Outcome) (p : Result (Unit {0}) × World api.Store h.World)
      → (unless_failed o p).1.remote ≡ p.1.remote
  remote_after_report o (r, v) =
      ap (λ (u : World api.Store h.World). u.remote) (unless_failed-world o r v)

  released-EndsRelease :
      (bytes : Bytes)
      → IsReady bytes
      → (ran : Client.Ran) (remote : h.World)
      → Client.reconcile h cache_dir item bytes w.remote ≡ (ran, remote)
      → EndsRelease (released api h cache_dir item (ran, record w { remote = remote }))
  unfolding released
  released-EndsRelease bytes ready ran remote run = inr (
      inr (
        bytes,
        ready,
        (
          ran,
          rw (remote_after_report _ _) run,
          rw (remote_after_report _ _) (
              subst (Chooses h cache_dir item bytes w.remote) run
                (reconcile-Chooses h cache_dir item bytes w.remote)),
          error_after_report ran.error _,
        ),
      ))

  ready-EndsRelease :
      (bytes : Bytes) → IsReady bytes → EndsRelease (release_with api h cache_dir item bytes w)
  unfolding release_with
  ready-EndsRelease bytes ready = released-EndsRelease bytes ready _ _ refl

  checked-EndsRelease :
      has finalizer item.meta ≡ true
      → (e : Option Error) → helm_release_spec_error item ≡ e
      → EndsRelease (reconcile_checked api h cache_dir item e w)
  unfolding reconcile_checked
  checked-EndsRelease finalized (some e) refused =
      inr (inl (refl, λ valid. absurd (cc (sym refused ∙ valid))))
  checked-EndsRelease finalized none valid =
      unless_done-cases _ Same w EndsRelease _ _ (cluster_known-Passes _)
        (λ _ has_cluster.
          unless_done-cases (HasKubeconfig api h cache_dir item w) (Spared api h cache_dir item w) w
            EndsRelease _ _ (kubeconfig-Passes api h cache_dir item w)
            (λ bytes has_kubeconfig. ready-EndsRelease bytes (record {
              finalized = finalized;
              valid = valid;
              has_cluster = has_cluster;
              has_kubeconfig = has_kubeconfig;
            }))
            (λ o v kept again. inl (kept.0, again)))
        (λ o v same again. inl (same, again))

  -- A reconciliation of a release that is not being deleted ends in one of three ways: Helm is not run,
  -- and controller-runtime calls again; the specification is refused, and Helm is not run; or the item
  -- has its finalizer, its specification is accepted, its cluster exists and its kubeconfig loads, and
  -- then Helm's world is as one run of the client left it, which installed where Helm knew no release,
  -- upgraded where it knew one or stopped with an error, and an error of that run makes
  -- controller-runtime call again.
  pub reconcile_alive-EndsRelease : EndsRelease (reconcile_alive api h cache_dir item w)
  unfolding reconcile_alive
  reconcile_alive-EndsRelease =
      unless_done-cases (λ _. has finalizer item.meta ≡ true) Same w EndsRelease _ _
        (ensure_finalizer-Passes api.helm_releases (has finalizer item.meta)
          (owned api h cache_dir item) w)
        (λ _ finalized. checked-EndsRelease finalized _ refl) (λ o v same again. inl (same, again))
