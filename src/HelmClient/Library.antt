-- ===== src/HelmClient/Library.antt =====
-- What internal/helmrelease/client.go and internal/helmchart/renderer.go call: Helm, and the operating
-- system of the operator.
use omni_cluster_operator.Base.{String, List, Bool, Option}
use omni_cluster_operator.Base.Int.{ℤ}
use omni_cluster_operator.Api.Meta.{Bytes, Duration}
use omni_cluster_operator.External.{Error, Result, Fields}
use omni_cluster_operator.Exec.{Exec}

-- The fields of `cli.EnvSettings` that the renderer sets.
pub record EnvSettings : Type 0 where
  pub repository_cache : String
  pub content_cache : String
  pub repository_config : String
  pub registry_config : String

-- `kube.WaitStrategy`
pub data WaitStrategy : Type 0 where
  status_watcher hook_only : WaitStrategy

-- The fields of `action.Install` that `loadChart` sets.
pub record LocateOptions : Type 0 where
  pub repo_url : String
  pub version : String
  pub release_name : String
  pub namespace : String

-- The fields of `action.Install` that `install` sets.
pub record InstallOptions : Type 0 where
  pub release_name : String
  pub namespace : String
  pub create_namespace : Bool
  pub disable_hooks : Bool
  pub skip_crds : Bool
  pub wait_strategy : WaitStrategy
  pub wait_for_jobs : Bool
  pub timeout : Duration
  pub rollback_on_failure : Bool

-- The fields of `action.Upgrade` that `upgrade` sets.
pub record UpgradeOptions : Type 0 where
  pub namespace : String
  pub disable_hooks : Bool
  pub skip_crds : Bool
  pub wait_strategy : WaitStrategy
  pub wait_for_jobs : Bool
  pub timeout : Duration
  pub rollback_on_failure : Bool
  pub cleanup_on_fail : Bool
  pub max_history : ℤ

-- The fields of `action.Uninstall` that `Uninstall` sets.
pub record UninstallOptions : Type 0 where
  pub disable_hooks : Bool
  pub ignore_not_found : Bool
  pub timeout : Duration
  pub wait_strategy : WaitStrategy

-- What an accessor reads of a release.
pub record ReleaseView : Type 0 where
  pub name : String
  pub namespace : String
  pub version : ℤ
  pub status : String

-- The operating system: `os` and `path/filepath`. A world has a working directory.
pub record System (World : Type 0) : Type 0 where
  pub temp_dir : String
  pub join_path : List String → String
  pub relative_path : String → String → Result String
  pub mkdir_all : String → Exec World (Unit {0})
  pub mkdir_temp : String → String → Exec World String
  pub getwd : Exec World String
  pub chdir : String → Exec World (Unit {0})
  pub remove_all : String → Exec World (Unit {0})

-- Helm. `last` answers with a kind of error that is not_found for `driver.ErrReleaseNotFound`, and the
-- error of the context is `cancelled`.
pub record Helm : Type 1 where
  pub World : Type 0
  pub system : System World
  pub Getter : Type 0
  pub Config : Type 0
  pub Chart : Type 0
  pub Release : Type 0
  pub client_config : Bytes → Result Getter
  pub init : Getter → String → String → Result Config
  pub registry_client : EnvSettings → Config → Result Config
  pub locate_chart : Config → LocateOptions → String → EnvSettings → Exec World String
  pub cancelled : World → Option Error
  pub load : String → World → Result Chart
  pub last : Config → String → World → Result Release
  pub run_install :
      Config → InstallOptions → Chart → Fields → World → (Option Release × Option Error) × World
  pub run_upgrade :
      Config
      → UpgradeOptions
      → String
      → Chart
      → Fields
      → World
      → (Option Release × Option Error) × World
  pub run_uninstall :
      Config → UninstallOptions → String → World → (Option Release × Option Error) × World
  pub accessor : Release → Result ReleaseView
