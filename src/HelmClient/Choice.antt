-- ===== src/HelmClient/Choice.antt =====
-- client.go: a release is installed exactly where Helm knows none of its name, and else upgraded.
use omni_cluster_operator.Base.{
  String, true, Option, none, some, ◌≡◌, ◌≢◌, ◌⊎◌, inl, inr, refl, if_cases,
}
use omni_cluster_operator.Api.Meta.{Bytes}
use omni_cluster_operator.Api.Workload.{OmniHelmRelease}
use omni_cluster_operator.External.{Error, Result, ok, err, is_not_found, External}
use omni_cluster_operator.Release
use omni_cluster_operator.HelmClient.Library.{Helm, ReleaseView}
use omni_cluster_operator.HelmClient.Client.{
  Ran, Prepared, prepare, choose, install, upgrade, reconcile_prepared, reconcile, viewed_result,
  result_from_release,
}

module _ ⦃x : External⦄ (h : Helm) (cache_dir : String) (item : OmniHelmRelease)
    (kubeconfig : Bytes) (w : h.World) where
  -- The result names this action.
  abbrev pub HasAction : String → Ran → Type 0
  HasAction action ran =
      (result : Release.ReleaseResult) × (ran.result ≡ some result) × (result.action ≡ action)

  -- Helm was not run: there is an error and no result, and all that changed changed in the preparation.
  abbrev Stops : Ran × h.World → Type 0
  Stops p =
      (p.0.result ≡ none) × (p.0.error ≢ none) × (p.1 ≡ (prepare h cache_dir item kubeconfig w).1)

  -- Helm knew no release of the name, and the run is an installation.
  abbrev Installs : Prepared h cache_dir → h.World → Ran × h.World → Type 0
  Installs p v ran =
      (e : Error) × (h.last p.config (Release.release_name item) v ≡ err e)
      × (is_not_found e ≡ true)
      × (ran ≡ install h cache_dir item p.config p.chart p.values v)
      × HasAction "Install" ran.0

  -- Helm knew a release of the name, and the run is an upgrade.
  abbrev Upgrades : Prepared h cache_dir → h.World → Ran × h.World → Type 0
  Upgrades p v ran =
      (release : h.Release) × (h.last p.config (Release.release_name item) v ≡ ok release)
      × (ran ≡ upgrade h cache_dir item p.config p.chart p.values v)
      × HasAction "Upgrade" ran.0

  abbrev pub Chooses : Ran × h.World → Type 0
  Chooses ran =
      Stops ran
      ⊎ ((p : Prepared h cache_dir) × (v : h.World) × (prepare h cache_dir item kubeconfig w
            ≡ (ok p, v))
          × (Installs p v ran ⊎ Upgrades p v ran))

  viewed_action :
      (result : Release.ReleaseResult) (view : Result ReleaseView)
      → (viewed_result h cache_dir result view).action ≡ result.action
  viewed_action result (ok view) = refl
  viewed_action result (err e) = refl

  action_of_result :
      (action : String) (release : Option h.Release)
      → (result_from_release h cache_dir action item release).action ≡ action
  unfolding result_from_release
  action_of_result action none = refl
  action_of_result action (some release) = viewed_action _ (h.accessor release)

  install-HasAction :
      (p : Prepared h cache_dir) (v : h.World)
      → HasAction "Install" (install h cache_dir item p.config p.chart p.values v).0
  unfolding install
  install-HasAction p v = (_, refl, action_of_result "Install" _)

  upgrade-HasAction :
      (p : Prepared h cache_dir) (v : h.World)
      → HasAction "Upgrade" (upgrade h cache_dir item p.config p.chart p.values v).0
  unfolding upgrade
  upgrade-HasAction p v = (_, refl, action_of_result "Upgrade" _)

  choose-Chooses :
      (p : Prepared h cache_dir) (v : h.World)
      → prepare h cache_dir item kubeconfig w ≡ (ok p, v)
      → (r : Result h.Release) → h.last p.config (Release.release_name item) v ≡ r
      → Chooses (choose h cache_dir item p r v)
  unfolding choose
  choose-Chooses p v ready (ok release) known =
      inr (p, v, ready, inr (release, known, refl, upgrade-HasAction p v))
  choose-Chooses p v ready (err e) unknown =
      if_cases Chooses (is_not_found e)
        (λ absent. inr (p, v, ready, inl (e, unknown, absent, refl, install-HasAction p v)))
        (λ _. inl (refl, λ same. absurd (cc same), rw ready refl))

  prepared-Chooses :
      (q : Result (Prepared h cache_dir) × h.World)
      → prepare h cache_dir item kubeconfig w ≡ q
      → Chooses (reconcile_prepared h cache_dir item q)
  unfolding reconcile_prepared
  prepared-Chooses (err e, v) ready = inl (refl, λ same. absurd (cc same), rw ready refl)
  prepared-Chooses (ok p, v) ready = choose-Chooses p v ready _ refl

  -- A reconciliation of a release ends in one of three ways: Helm is not run, with an error and no
  -- result, and nothing has changed since the preparation; or the values, the configuration and the
  -- chart were there, and then it is one installation where Helm answered that it knows no release of
  -- the name, and one upgrade where it knew one, with a result that names the action.
  pub reconcile-Chooses : Chooses (reconcile h cache_dir item kubeconfig w)
  unfolding reconcile
  reconcile-Chooses = prepared-Chooses _ refl
