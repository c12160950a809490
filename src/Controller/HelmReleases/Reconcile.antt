-- ===== src/Controller/HelmReleases/Reconcile.antt =====
-- omnihelmrelease_controller.go: `Reconcile`. The remote is the world that Helm acts on.
use omni_cluster_operator.Base.{
  String, ◌<>◌, Bool, true, Option, none, some, not, ◌==◌, is_some, if◌then◌else◌,
}
use omni_cluster_operator.Api.Meta.{Bytes}
use omni_cluster_operator.Api.Common.{finalizer}
use omni_cluster_operator.Api.Workload.{OmniHelmRelease, OmniHelmReleaseStatus, policy_orphan}
use omni_cluster_operator.External.{Error, Result, ok, err, is_not_found, External}
use omni_cluster_operator.Exec.{Exec}
use omni_cluster_operator.Release
use omni_cluster_operator.HelmClient.Library.{Helm}
use omni_cluster_operator.HelmClient.Client
use omni_cluster_operator.Controller.Kube.{
  Api, Runtime, DeepEqual, World, Key, key_of_meta, Outcome, Stage, proceed, done, stop, on_store,
  unless_failed, unless_done, after_call, with_error, finished, failed, minute,
}
use omni_cluster_operator.Controller.Objects.{
  has, with_finalizer, without_finalizer, update_stripped,
}
use omni_cluster_operator.Controller.Children.{cluster_exists}
use omni_cluster_operator.Controller.Stages.{Reports, ensure_finalizer, kubeconfig_found}
use omni_cluster_operator.Controller.SpecErrors.{helm_release_spec_error}
use omni_cluster_operator.Controller.HelmReleases.Status.{
  HelmReleaseStatusUpdate, no_update, accepted_update, update_helm_release_status,
}

abbrev pub kubeconfig_key : OmniHelmRelease → Key
kubeconfig_key item = record {
  namespace = item.meta.namespace;
  name = item.spec.kubeconfig_secret_ref.name;
}

module _ ⦃t : Runtime⦄ (api : Api) where
  abbrev pub strip : OmniHelmRelease → OmniHelmRelease
  strip latest = record latest { meta = without_finalizer finalizer latest.meta }

  unfoldable pub remove_finalizer : OmniHelmRelease → Exec api.Store (Unit {0})
  remove_finalizer item = update_stripped api api.helm_releases strip (key_of_meta item.meta)

module _ ⦃x : External⦄ ⦃t : Runtime⦄ ⦃d : DeepEqual OmniHelmReleaseStatus⦄ (api : Api) (h : Helm)
    (cache_dir : String) where
  abbrev pub Run : Type 0 → Type 0
  Run A = World api.Store h.World → A × World api.Store h.World

  -- A run of Helm, in the world of both.
  abbrev pub on_helm : (h.World → Client.Ran × h.World) → Run Client.Ran
  on_helm call w = let (ran, remote) = call w.remote in (ran, record w { remote = remote })

  module _ (item : OmniHelmRelease) where
    abbrev pub report : HelmReleaseStatusUpdate → Run (Result (Unit {0}))
    report input = on_store (update_helm_release_status api item input)

    -- How `kubeconfig` reports.
    abbrev pub reports : Reports (World api.Store h.World)
    reports = record {
      missing = λ message.
          report (record accepted_update { reason = "MissingSecret"; message = message });
      lacking = λ e. report (record accepted_update {
        reason = "MissingSecret";
        message = e.message;
        error = some e;
      });
      invalid = λ e. report (record accepted_update {
        reason = "ValidationFailed";
        message = e.message;
        error = some e;
      });
    }

    unfoldable pub kubeconfig : Run (Stage Bytes)
    kubeconfig w =
        kubeconfig_found reports (kubeconfig_key item) (Release.kubeconfig_secret_key item)
          (api.secrets.get (kubeconfig_key item) w.store) w

    -- The test that the cluster exists, from its answer on
    unfoldable pub cluster_known : Result Bool → Run (Stage (Unit {0}))
    cluster_known (err e) w = (done (failed e), w)
    cluster_known (ok exists) w =
        if exists
        then (proceed tt, w)
        else stop (
            after_call minute (
              report
                (record no_update {
                  accepted_known = true;
                  reason = "MissingCluster";
                  message =
                      "OmniCluster " <> x.quote item.spec.cluster_ref.name <> " does not exist";
                })
                w))

    abbrev pub ran_update : Client.Ran → HelmReleaseStatusUpdate
    ran_update ran = record accepted_update { result = ran.result; error = ran.error }

    -- `Reconcile` from the answer of Helm on
    unfoldable pub released :
        Client.Ran × World api.Store h.World → Outcome × World api.Store h.World
    released (ran, w) =
        unless_failed (record finished { error = ran.error }) (report (ran_update ran) w)

    unfoldable pub release_with : Bytes → Run Outcome
    unfolding released
    release_with bytes w = released (on_helm (Client.reconcile h cache_dir item bytes) w)

    -- `Reconcile` from the check of the specification on
    unfoldable pub reconcile_checked : Option Error → Run Outcome
    unfolding release_with cluster_known kubeconfig
    reconcile_checked (some e) w = with_error (
        report
          (record no_update { reason = "ValidationFailed"; message = e.message; error = some e }) w)
    reconcile_checked none w =
        unless_done (λ _ v. unless_done release_with (kubeconfig v))
          (cluster_known (cluster_exists api item.meta.namespace item.spec.cluster_ref.name w.store)
            w)

    abbrev pub owned : OmniHelmRelease
    owned = record item { meta = with_finalizer finalizer item.meta }

    -- `Reconcile` of an item that is not being deleted
    unfoldable pub reconcile_alive : Run Outcome
    unfolding reconcile_checked
    reconcile_alive w =
        unless_done (λ _. reconcile_checked (helm_release_spec_error item))
          (ensure_finalizer api.helm_releases (has finalizer item.meta) owned w)

    -- `reconcileDelete` once the status is written
    unfoldable pub uninstall_reported :
        Option Error
        → Result (Unit {0}) × World api.Store h.World
        → Outcome × World api.Store h.World
    uninstall_reported error (err e, w) = (failed e, w)
    uninstall_reported (some e) (ok _, w) = (failed e, w)
    uninstall_reported none (ok _, w) = with_error (on_store (remove_finalizer api item) w)

    -- `reconcileDelete` from the answer of Helm on
    unfoldable pub uninstalled :
        Client.Ran × World api.Store h.World → Outcome × World api.Store h.World
    unfolding uninstall_reported
    uninstalled (ran, w) = uninstall_reported ran.error (report (ran_update ran) w)

    unfoldable pub uninstall_with : Bytes → Run Outcome
    unfolding uninstalled
    uninstall_with bytes w = uninstalled (on_helm (Client.uninstall h cache_dir item bytes) w)

    unfoldable pub reconcile_delete : Run Outcome
    unfolding uninstall_with kubeconfig
    reconcile_delete w =
        if not (has finalizer item.meta)
        then (finished, w)
        else if Release.deletion_policy item == policy_orphan
        then with_error (on_store (remove_finalizer api item) w)
        else unless_done uninstall_with (kubeconfig w)

    unfoldable pub reconcile_item : Run Outcome
    unfolding reconcile_delete reconcile_alive
    reconcile_item w =
        if is_some item.meta.deletion_timestamp then reconcile_delete w else reconcile_alive w

  unfoldable pub reconcile_found : Result OmniHelmRelease → Run Outcome
  unfolding reconcile_item
  reconcile_found (err e) w = (if is_not_found e then finished else failed e, w)
  reconcile_found (ok item) w = reconcile_item item w

  -- `Reconcile`
  unfoldable pub reconcile : Key → Run Outcome
  unfolding reconcile_found
  reconcile key w = reconcile_found (api.helm_releases.get key w.store) w
