-- ===== src/HelmClient/Client.antt =====
-- client.go, restclient_getter.go and helmchart/renderer.go: `Client.Reconcile` and `Client.Uninstall`.
use omni_cluster_operator.Base.{
  String, ◌<>◌, [], ◌∷◌, true, Option, none, some, ◌==◌, if◌then◌else◌,
}
use omni_cluster_operator.Base.Int.{pos}
use omni_cluster_operator.Api.Meta.{Bytes}
use omni_cluster_operator.Api.Workload.{OmniHelmRelease}
use omni_cluster_operator.External.{Error, Result, ok, err, is_not_found, Fields, External}
use omni_cluster_operator.Exec.{Exec, pure, lift, attempt, ◌>>=◌, wrapped}
use omni_cluster_operator.Release
use omni_cluster_operator.HelmClient.Library.{
  Helm, System, EnvSettings, WaitStrategy, status_watcher, hook_only, LocateOptions, InstallOptions,
  UpgradeOptions, UninstallOptions, ReleaseView,
}
use omni_cluster_operator.HelmClient.Directory.{with_isolated_working_directory}

-- `(*Result, error)`: a run of Helm that failed has a result too.
pub record Ran : Type 0 where
  pub result : Option Release.ReleaseResult
  pub error : Option Error

abbrev pub nothing_ran : Error → Ran
nothing_ran e = record { result = none; error = some e }

unfoldable pub wait_strategy : OmniHelmRelease → WaitStrategy
wait_strategy item = if item.spec.wait then status_watcher else hook_only

-- A result before anything is read from a release.
abbrev pub bare_result : String → OmniHelmRelease → String → Release.ReleaseResult
bare_result action item status = record {
  action = action;
  release_name = Release.release_name item;
  namespace = Release.namespace item;
  chart = item.spec.chart.chart;
  chart_version = item.spec.chart.version;
  revision = pos 0;
  status = status;
}

unfoldable pub install_options : OmniHelmRelease → InstallOptions
unfolding wait_strategy
install_options item = record {
  release_name = Release.release_name item;
  namespace = Release.namespace item;
  create_namespace = item.spec.create_namespace;
  disable_hooks = item.spec.disable_hooks;
  skip_crds = item.spec.skip_crds;
  wait_strategy = wait_strategy item;
  wait_for_jobs = item.spec.wait_for_jobs;
  timeout = Release.timeout item;
  rollback_on_failure = item.spec.atomic;
}

unfoldable pub upgrade_options : OmniHelmRelease → UpgradeOptions
unfolding wait_strategy
upgrade_options item = record {
  namespace = Release.namespace item;
  disable_hooks = item.spec.disable_hooks;
  skip_crds = item.spec.skip_crds;
  wait_strategy = wait_strategy item;
  wait_for_jobs = item.spec.wait_for_jobs;
  timeout = Release.timeout item;
  rollback_on_failure = item.spec.atomic;
  cleanup_on_fail = item.spec.atomic;
  max_history = item.spec.max_history;
}

unfoldable pub uninstall_options : OmniHelmRelease → UninstallOptions
unfolding wait_strategy
uninstall_options item = record {
  disable_hooks = item.spec.disable_hooks;
  ignore_not_found = true;
  timeout = Release.timeout item;
  wait_strategy = wait_strategy item;
}

unfoldable pub locate_options : OmniHelmRelease → LocateOptions
locate_options item = record {
  repo_url = (Release.chart_locator item).1;
  version = item.spec.chart.version;
  release_name = Release.release_name item;
  namespace = Release.namespace item;
}

module _ ⦃x : External⦄ {World : Type 0} (o : System World) where
  -- `fmt.Errorf(prefix + ": %w", err)` where a call failed
  abbrev pub failing : {A : Type 0} → String → Exec World A → Exec World A
  failing prefix call w =
      let (r, w') = call w in (elim r [ ok a ↦ ok a | err e ↦ err (wrapped prefix e) ], w')

  -- `Settings` of `helmchart.Renderer`
  unfoldable pub settings : String → Exec World EnvSettings
  settings cache_dir = do
    let dir =
        if cache_dir == ""
        then o.join_path (o.temp_dir ∷ "omni-cluster-operator" ∷ "helm" ∷ [])
        else cache_dir
    let cache = o.join_path (dir ∷ "cache" ∷ [])
    let config = o.join_path (dir ∷ "config" ∷ [])
    _ ←
        failing ("create Helm cache directory " <> x.quote dir <> ": ")
          (o.mkdir_all (o.join_path (cache ∷ "content" ∷ [])))
    _ ←
        failing ("create Helm repository cache directory " <> x.quote dir <> ": ")
          (o.mkdir_all (o.join_path (cache ∷ "repository" ∷ [])))
    _ ←
        failing ("create Helm config directory " <> x.quote dir <> ": ")
          (o.mkdir_all (o.join_path (config ∷ "registry" ∷ [])))
    pure (record {
      repository_cache = o.join_path (cache ∷ "repository" ∷ []);
      content_cache = o.join_path (cache ∷ "content" ∷ []);
      repository_config = o.join_path (config ∷ "repositories.yaml" ∷ []);
      registry_config = o.join_path (config ∷ "registry" ∷ "config.json" ∷ []);
    })

module _ ⦃x : External⦄ (h : Helm) (cache_dir : String) where
  open h use {World, Getter, Config, Chart}

  unfoldable pub new_rest_client_getter : Bytes → Result Getter
  new_rest_client_getter kubeconfig = elim (h.client_config kubeconfig) [
    | ok getter ↦ ok getter
    | err e ↦ err (wrapped "load workload kubeconfig: " e)
  ]

  unfoldable pub action_config : OmniHelmRelease → Bytes → Exec World (Config × EnvSettings)
  unfolding new_rest_client_getter settings
  action_config item kubeconfig = do
    getter ← lift (new_rest_client_getter kubeconfig)
    env ← settings h.system cache_dir
    config ←
        failing h.system "initialize Helm action configuration: "
          (lift (h.init getter (Release.namespace item) "secrets"))
    registered ←
        failing h.system "initialize Helm registry client: " (lift (h.registry_client env config))
    pure (registered, env)

  abbrev pub not_located : OmniHelmRelease → Error → Error
  not_located item e =
      let (chart, repository) = Release.chart_locator item in
      let what = "locate Helm chart " <> chart <> " " <> item.spec.chart.version in
      if repository == ""
      then wrapped (what <> ": ") e
      else wrapped (what <> " from " <> repository <> ": ") e

  -- `loadChart` from the answer of the search for the chart on
  unfoldable pub located : OmniHelmRelease → Result String → Exec World Chart
  located item (err e) w = (err (not_located item e), w)
  located item (ok path) w = elim (h.cancelled w) [
    | some e ↦ (err e, w)
    | none ↦ failing h.system ("load Helm chart " <> x.quote path <> ": ") (lift (h.load path w)) w
  ]

  unfoldable pub load_chart : OmniHelmRelease → Config → EnvSettings → Exec World Chart
  unfolding located
  load_chart item config env = do
    path ← attempt (
        with_isolated_working_directory h.system cache_dir
          (h.locate_chart config (locate_options item) (Release.chart_locator item).0 env))
    located item path

  abbrev pub viewed_result : Release.ReleaseResult → Result ReleaseView → Release.ReleaseResult
  viewed_result result (err e) = result
  viewed_result result (ok view) = record result {
    release_name = view.name;
    namespace = view.namespace;
    revision = view.version;
    status = view.status;
  }

  unfoldable pub result_from_release :
      String → OmniHelmRelease → Option h.Release → Release.ReleaseResult
  result_from_release action item none = bare_result action item "unknown"
  result_from_release action item (some release) =
      viewed_result (bare_result action item "unknown") (h.accessor release)

  abbrev pub run :
      String → OmniHelmRelease → (Option h.Release × Option Error) × World → Ran × World
  run action item ((release, error), w) =
      (record { result = some (result_from_release action item release); error = error }, w)

  unfoldable pub install : OmniHelmRelease → Config → Chart → Fields → World → Ran × World
  unfolding result_from_release install_options
  install item config chart values w =
      run Release.action_install item (h.run_install config (install_options item) chart values w)

  unfoldable pub upgrade : OmniHelmRelease → Config → Chart → Fields → World → Ran × World
  unfolding result_from_release upgrade_options
  upgrade item config chart values w =
      run Release.action_upgrade item
        (h.run_upgrade config (upgrade_options item) (Release.release_name item) chart values w)

  -- What `Reconcile` has before it asks for the release.
  pub record Prepared : Type 0 where
    pub values : Fields
    pub config : Config
    pub chart : Chart

  unfoldable pub prepare : OmniHelmRelease → Bytes → Exec World Prepared
  unfolding action_config load_chart
  prepare item kubeconfig = do
    values ← lift (Release.values item)
    (config, env) ← action_config item kubeconfig
    chart ← load_chart item config env
    pure (record { values = values; config = config; chart = chart })

  -- `Reconcile` from the answer of `Releases.Last` on
  unfoldable pub choose : OmniHelmRelease → Prepared → Result h.Release → World → Ran × World
  unfolding install upgrade
  choose item p (ok _) w = upgrade item p.config p.chart p.values w
  choose item p (err e) w = if is_not_found e then install item p.config p.chart p.values w else (
    nothing_ran (
        wrapped ("read Helm release history for " <> x.quote (Release.release_name item) <> ": ")
          e),
    w,
  )

  unfoldable pub reconcile_prepared : OmniHelmRelease → Result Prepared × World → Ran × World
  unfolding choose
  reconcile_prepared item (err e, w) = (nothing_ran e, w)
  reconcile_prepared item (ok p, w) =
      choose item p (h.last p.config (Release.release_name item) w) w

  -- `Client.Reconcile`
  unfoldable pub reconcile : OmniHelmRelease → Bytes → World → Ran × World
  unfolding reconcile_prepared prepare
  reconcile item kubeconfig w = reconcile_prepared item (prepare item kubeconfig w)

  -- `Uninstall` from what Helm reads of the release on
  abbrev pub uninstalled_view : OmniHelmRelease → Option Error → Result ReleaseView → Ran
  uninstalled_view item error (err e) = record {
    result = some (bare_result Release.action_uninstall item "uninstalled");
    error = some (wrapped "read uninstalled Helm release: " e);
  }
  uninstalled_view item error (ok view) = record {
    result = some (record (bare_result Release.action_uninstall item "uninstalled") {
      revision = view.version;
      status = view.status;
    });
    error = error;
  }

  -- `Uninstall` from the answer of Helm on
  unfoldable pub uninstalled : OmniHelmRelease → Option h.Release × Option Error → Ran
  uninstalled item (none, error) = record {
    result = some (bare_result Release.action_uninstall item "uninstalled");
    error = error;
  }
  uninstalled item (some release, error) = uninstalled_view item error (h.accessor release)

  unfoldable pub uninstall_configured :
      OmniHelmRelease → Result (Config × EnvSettings) × World → Ran × World
  unfolding uninstalled uninstall_options
  uninstall_configured item (err e, w) = (nothing_ran e, w)
  uninstall_configured item (ok (config, env), w) =
      let (reply, w') =
        h.run_uninstall config (uninstall_options item) (Release.release_name item) w in
      (uninstalled item reply, w')

  -- `Client.Uninstall`
  unfoldable pub uninstall : OmniHelmRelease → Bytes → World → Ran × World
  unfolding uninstall_configured action_config
  uninstall item kubeconfig w = uninstall_configured item (action_config item kubeconfig w)
