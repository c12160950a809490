-- ===== src/Tests/Server.antt =====
-- An API server small enough to run: a list for each kind of object, without conflicts.
use omni_cluster_operator.Base.{
  String, ◌<>◌, List, [], ◌∷◌, none, Bool, false, ◌==◌, ◌&&◌, refl, contains, if◌then◌else◌,
}
use omni_cluster_operator.Base.Int.{pos}
use omni_cluster_operator.Api.Meta.{Secret, ObjectMeta}
use omni_cluster_operator.Api.Template.{
  OmniCluster, OmniControlPlane, OmniWorkers, OmniMachine, OmniConnection,
}
use omni_cluster_operator.Api.Workload.{OmniHelmRelease, OmniSecretSync, OmniKubeconfigExport}
use omni_cluster_operator.External.{Result, not_found, ok, err}
use omni_cluster_operator.Exec.{Exec}
use omni_cluster_operator.Controller.Kube.{Objects, Api, Runtime, Key, DeepEqual}
use omni_cluster_operator.Controller.Objects.{RetriesConflicts, settled}

pub record Server : Type 0 where
  pub clusters : List OmniCluster
  pub connections : List OmniConnection
  pub control_planes : List OmniControlPlane
  pub workers : List OmniWorkers
  pub machines : List OmniMachine
  pub helm_releases : List OmniHelmRelease
  pub secret_syncs : List OmniSecretSync
  pub kubeconfig_exports : List OmniKubeconfigExport
  pub secrets : List Secret

abbrev pub empty : Server
empty = record {
  clusters = [];
  connections = [];
  control_planes = [];
  workers = [];
  machines = [];
  helm_releases = [];
  secret_syncs = [];
  kubeconfig_exports = [];
  secrets = [];
}

module _ {Item : Type 0} (meta : Item → ObjectMeta) (read : Server → List Item)
    (write : List Item → Server → Server) where
  abbrev is_at : Key → Item → Bool
  is_at key a = (meta a).namespace == key.namespace && (meta a).name == key.name

  abbrev find : Key → List Item → Result Item
  find key [] = err (record { kind = not_found; message = "not found" })
  find key (a ∷ l) = if is_at key a then ok a else find key l

  abbrev in_namespace : String → List Item → List Item
  in_namespace namespace [] = []
  in_namespace namespace (a ∷ l) =
      let rest = in_namespace namespace l in
      if (meta a).namespace == namespace then a ∷ rest else rest

  abbrev without : Key → List Item → List Item
  without key [] = []
  without key (a ∷ l) = let rest = without key l in if is_at key a then rest else a ∷ rest

  abbrev key : Item → Key
  key a = record { namespace = (meta a).namespace; name = (meta a).name }

  abbrev put : Item → Exec Server (Unit {0})
  put a s = (ok tt, write (a ∷ without (key a) (read s)) s)

  abbrev listed : Objects Server Item
  listed = record {
    get = λ k s. find k (read s);
    list = λ namespace s. ok (in_namespace namespace (read s));
    create = put;
    update = put;
    update_status = put;
    delete = λ a s. (ok tt, write (without (key a) (read s)) s);
  }

abbrev pub sample_api : Api
sample_api = record {
  Store = Server;
  clusters = listed (λ a. a.meta) (λ s. s.clusters) (λ l s. record s { clusters = l });
  connections = listed (λ a. a.meta) (λ s. s.connections) (λ l s. record s { connections = l });
  control_planes =
      listed (λ a. a.meta) (λ s. s.control_planes) (λ l s. record s { control_planes = l });
  workers = listed (λ a. a.meta) (λ s. s.workers) (λ l s. record s { workers = l });
  machines = listed (λ a. a.meta) (λ s. s.machines) (λ l s. record s { machines = l });
  helm_releases =
      listed (λ a. a.meta) (λ s. s.helm_releases) (λ l s. record s { helm_releases = l });
  secret_syncs = listed (λ a. a.meta) (λ s. s.secret_syncs) (λ l s. record s { secret_syncs = l });
  kubeconfig_exports =
      listed (λ a. a.meta) (λ s. s.kubeconfig_exports) (λ l s. record s { kubeconfig_exports = l });
  secrets = listed (λ a. a.meta) (λ s. s.secrets) (λ l s. record s { secrets = l });
  retry_on_conflict = λ call. call;
  now = λ _. pos 0;
}

pub sample_retries : RetriesConflicts sample_api
sample_retries call w = settled w refl

abbrev without_text : List String → String → List String
without_text [] f = []
without_text (g ∷ l) f = let rest = without_text l f in if g == f then rest else g ∷ rest

abbrev joined : List String → String → String
joined [] separator = ""
joined (s ∷ []) separator = s
joined (s ∷ t ∷ l) separator = s <> separator <> joined (t ∷ l) separator

abbrev pub sample_runtime : Runtime
sample_runtime = record {
  contains_finalizer = contains;
  add_finalizer = λ l f. f ∷ l;
  remove_finalizer = without_text;
  set_condition = λ l c. c ∷ l;
  count_text = λ _. "2";
  integer_text = λ _. "1";
  byte_length = λ _. 0;
  byte_prefix = λ _ s. s;
  lower = λ s. s;
  join = joined;
  template_error = λ _ _. none;
  kubeconfig_error = λ _. none;
}

-- Every change of a status is written.
abbrev pub never_same : {Status : Type 0} → DeepEqual Status
never_same = record { same = λ _ _. false }
