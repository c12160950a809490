-- ===== src/Tests/Helm.antt =====
-- A Helm release: its client, its reconciliation and its deletion.
use omni_cluster_operator.Base.{String, ◌<>◌, List, [], ◌∷◌, none, some, ◌≡◌, refl, sym, ap}
use omni_cluster_operator.Base.Int.{pos}
use omni_cluster_operator.Api.Meta.{Bytes, Secret}
use omni_cluster_operator.Api.Common.{finalizer}
use omni_cluster_operator.Api.Workload.{OmniHelmRelease}
use omni_cluster_operator.External.{new_error, not_found, Result, ok, err}
use omni_cluster_operator.Exec.{Exec}
use omni_cluster_operator.Release
use omni_cluster_operator.HelmClient.Library.{Helm, System}
use omni_cluster_operator.HelmClient.Client
use omni_cluster_operator.HelmClient.Choice.{Chooses, reconcile-Chooses}
use omni_cluster_operator.HelmClient.Directory.{
  with_isolated_working_directory, with_isolated_working_directory-restores,
}
use omni_cluster_operator.Controller.Kube.{World}
use omni_cluster_operator.Controller.HelmReleases.Status.{accepted_update}
use omni_cluster_operator.Controller.HelmReleases.Reconcile.{reconcile_delete, reconcile_alive}
use omni_cluster_operator.Controller.HelmReleases.Deletion.{
  EndsUninstall, reconcile_delete-EndsUninstall,
}
use omni_cluster_operator.Controller.HelmReleases.Run.{EndsRelease, reconcile_alive-EndsRelease}
use omni_cluster_operator.Controller.Reported.{ReleaseFailed, helm_release_status-error}
use omni_cluster_operator.Tests.Server.{Server, sample_api, sample_runtime, never_same, empty}
use omni_cluster_operator.Tests.Samples.{sample_external, sample_cluster, sample_release, meta_of}

-- The working directory, and the releases, which are numbered.
record Machine : Type 0 where
  directory : String
  releases : List String

joined : List String → String
joined [] = ""
joined (s ∷ l) = s <> "/" <> joined l

abbrev sample_system : System Machine
sample_system = record {
  temp_dir = "/tmp";
  join_path = joined;
  relative_path = λ _ dir. ok dir;
  mkdir_all = λ _ m. (ok tt, m);
  mkdir_temp = λ parent name m. (ok (parent <> "/" <> name), m);
  getwd = λ m. (ok m.directory, m);
  chdir = λ dir m. (ok tt, record m { directory = dir });
  remove_all = λ _ m. (ok tt, m);
}

abbrev last_of : List String → Result String
last_of [] = err (record { kind = not_found; message = "release: not found" })
last_of (name ∷ l) = ok name

abbrev sample_helm : Helm
sample_helm = record {
  World = Machine;
  system = sample_system;
  Getter = Bytes;
  Config = Bytes;
  Chart = String;
  Release = String;
  client_config = λ bytes. ok bytes;
  init = λ getter _ _. ok getter;
  registry_client = λ _ config. ok config;
  locate_chart = λ _ _ chart _ m. (ok chart, m);
  cancelled = λ _. none;
  load = λ path _. ok path;
  last = λ _ _ m. last_of m.releases;
  run_install = λ _ options _ _ m.
      ((some "installed", none), record m { releases = options.release_name ∷ m.releases });
  run_upgrade =
      λ _ _ name _ _ m. ((some "upgraded", none), record m { releases = name ∷ m.releases });
  run_uninstall = λ _ _ _ m. ((none, none), record m { releases = [] });
  accessor = λ _.
      ok (record {
        name = "cilium";
        namespace = "kube-system";
        version = pos 1;
        status = "deployed";
      });
}

abbrev fresh_machine : Machine
fresh_machine = record { directory = "/"; releases = [] }

reconcile-Chooses_example :
    Chooses ⦃x = sample_external⦄ sample_helm "" sample_release
      (9 ∷ [])
      fresh_machine
      (Client.reconcile ⦃x = sample_external⦄ sample_helm "" sample_release (9 ∷ []) fresh_machine)
reconcile-Chooses_example =
    reconcile-Chooses ⦃x = sample_external⦄ sample_helm "" sample_release (9 ∷ []) fresh_machine

-- A first run installs.
first_run_installs :
    (Client.reconcile ⦃x = sample_external⦄ sample_helm "" sample_release
      (9 ∷ [])
      fresh_machine).1.releases
    ≡ "cilium" ∷ []
unfolding Client.reconcile Release.values with_isolated_working_directory Release.release_name
first_run_installs = refl

-- A search for a chart that fails somewhere else.
abbrev lost_chart : Exec Machine String
lost_chart m = (err (new_error "no chart"), record m { directory = "/lost" })

with_isolated_working_directory-restores_example :
    (with_isolated_working_directory ⦃x = sample_external⦄ sample_system "" lost_chart
      fresh_machine).1.directory
    ≡ "/"
with_isolated_working_directory-restores_example =
    with_isolated_working_directory-restores ⦃x = sample_external⦄ sample_system
      (λ path place. path ≡ place) (λ m. m.directory)
      (record {
        getwd_reads = λ w v d h.
            ap (λ (p : Result String × Machine). elim p.0 [ ok s ↦ s | err e ↦ d ]) (sym h);
        getwd_keeps = λ w. refl;
        mkdir_keeps = λ p n w. refl;
        remove_keeps = λ d w. refl;
        chdir_enters = λ d place w leads h. leads;
        chdir_stays = λ d w v e h. absurd (cc (ap (λ (p : Result (Unit {0}) × Machine). p.0) h));
      })
      "/" (λ d leads v. refl) lost_chart "" fresh_machine refl

abbrev owned_release : OmniHelmRelease
owned_release = record sample_release {
  meta = record (sample_release.meta) { finalizers = finalizer ∷ [] };
}

abbrev kubeconfig_secret : Secret
kubeconfig_secret = record {
  meta = meta_of "edge-kubeconfig" "u10";
  type = "Opaque";
  contents = some (("kubeconfig", 9 ∷ []) ∷ []);
}

abbrev server : Server
server = record empty {
  clusters = sample_cluster ∷ [];
  helm_releases = owned_release ∷ [];
  secrets = kubeconfig_secret ∷ [];
}

abbrev start : World sample_api.Store sample_helm.World
start = record { store = server; remote = fresh_machine }

reconcile_delete-EndsUninstall_example :
    EndsUninstall ⦃x = sample_external⦄ ⦃t = sample_runtime⦄ ⦃d = never_same⦄ sample_api sample_helm
      "" owned_release start
      (reconcile_delete ⦃x = sample_external⦄ ⦃t = sample_runtime⦄ ⦃d = never_same⦄ sample_api
        sample_helm "" owned_release start)
reconcile_delete-EndsUninstall_example =
    reconcile_delete-EndsUninstall ⦃x = sample_external⦄ ⦃t = sample_runtime⦄ ⦃d = never_same⦄
      sample_api sample_helm "" owned_release start

reconcile_alive-EndsRelease_example :
    EndsRelease ⦃x = sample_external⦄ ⦃t = sample_runtime⦄ ⦃d = never_same⦄ sample_api sample_helm
      "" owned_release start
      (reconcile_alive ⦃x = sample_external⦄ ⦃t = sample_runtime⦄ ⦃d = never_same⦄ sample_api
        sample_helm "" owned_release start)
reconcile_alive-EndsRelease_example =
    reconcile_alive-EndsRelease ⦃x = sample_external⦄ ⦃t = sample_runtime⦄ ⦃d = never_same⦄
      sample_api sample_helm "" owned_release start

helm_release_status-error_example :
    ReleaseFailed ⦃x = sample_external⦄ ⦃t = sample_runtime⦄
      (pos 0)
      (new_error "refused")
      owned_release
      (record accepted_update { error = some (new_error "refused") })
helm_release_status-error_example =
    helm_release_status-error ⦃x = sample_external⦄ ⦃t = sample_runtime⦄ (pos 0)
      (new_error "refused") (record accepted_update { error = some (new_error "refused") })
      owned_release refl
