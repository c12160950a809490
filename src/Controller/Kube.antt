-- ===== src/Controller/Kube.antt =====
-- What the controllers call: the API of the cluster that they run in, the helpers of controller-runtime
-- and of client-go, and the result of a reconciliation.
use omni_cluster_operator.Base.{ℕ, String, List, Bool, true, false, Option, none, some}
use omni_cluster_operator.Base.Int.{ℤ, pos}
use omni_cluster_operator.Api.Meta.{Bytes, Time, Duration, Condition, Secret, ObjectMeta}
use omni_cluster_operator.Api.Template.{
  OmniCluster, OmniControlPlane, OmniWorkers, OmniMachine, OmniConnection,
}
use omni_cluster_operator.Api.Workload.{OmniHelmRelease, OmniSecretSync, OmniKubeconfigExport}
use omni_cluster_operator.External.{Error, Result, ok, err}
use omni_cluster_operator.Exec.{Exec}

-- `types.NamespacedName`
pub record Key : Type 0 where
  pub namespace : String
  pub name : String

-- `client.ObjectKeyFromObject`
abbrev pub key_of_meta : ObjectMeta → Key
key_of_meta meta = record { namespace = meta.namespace; name = meta.name }

-- `ctrl.Result`
pub record CtrlResult : Type 0 where
  pub requeue : Bool
  pub requeue_after : Duration

-- What `Reconcile` returns: a result and an error.
pub record Outcome : Type 0 where
  pub result : CtrlResult
  pub error : Option Error

abbrev pub no_result : CtrlResult
no_result = record { requeue = false; requeue_after = pos 0 }

-- `ctrl.Result{}, nil`, `ctrl.Result{}, err`, and results that ask to be called again
abbrev pub finished : Outcome
finished = record { result = no_result; error = none }

abbrev pub failed : Error → Outcome
failed e = record { result = no_result; error = some e }

abbrev pub requeued : Outcome
requeued = record { result = record no_result { requeue = true }; error = none }

abbrev pub after : Duration → Option Error → Outcome
after d error = record { result = record no_result { requeue_after = d }; error = error }

-- The error of a call that returns nothing else.
abbrev pub error_of : Result (Unit {0}) → Option Error
error_of (ok _) = none
error_of (err e) = some e

-- `err.Error()`, and the text `""` that a message has without an error.
abbrev pub message_of : Option Error → String
message_of none = ""
message_of (some e) = e.message

-- The calls of the client that concern one kind of object, over a state of the API server.
pub record Objects (Store Item : Type 0) : Type 0 where
  pub get : Key → Store → Result Item
  pub list : String → Store → Result (List Item)
  pub create : Item → Exec Store (Unit {0})
  pub update : Item → Exec Store (Unit {0})
  pub update_status : Item → Exec Store (Unit {0})
  pub delete : Item → Exec Store (Unit {0})

-- The client, `retry.RetryOnConflict` and the clock.
pub record Api : Type 1 where
  pub Store : Type 0
  pub clusters : Objects Store OmniCluster
  pub connections : Objects Store OmniConnection
  pub control_planes : Objects Store OmniControlPlane
  pub workers : Objects Store OmniWorkers
  pub machines : Objects Store OmniMachine
  pub helm_releases : Objects Store OmniHelmRelease
  pub secret_syncs : Objects Store OmniSecretSync
  pub kubeconfig_exports : Objects Store OmniKubeconfigExport
  pub secrets : Objects Store Secret
  pub retry_on_conflict : Exec Store (Unit {0}) → Exec Store (Unit {0})
  pub now : Store → Time

-- Functions of controller-runtime, apimachinery, client-go and Go, and Omni's validator of templates.
pub record Runtime : Type 0 where
  pub contains_finalizer : List String → String → Bool
  pub add_finalizer : List String → String → List String
  pub remove_finalizer : List String → String → List String
  -- `meta.SetStatusCondition`
  pub set_condition : List Condition → Condition → List Condition
  -- `%d`, of a count and of an integer
  pub count_text : ℕ → String
  pub integer_text : ℤ → String
  -- `len(text)` and `text[:n]`, which count bytes
  pub byte_length : String → ℕ
  pub byte_prefix : ℕ → String → String
  -- `strings.ToLower` and `strings.Join`
  pub lower : String → String
  pub join : List String → String → String
  -- `omnitemplate.Validate`: the template root is opened, and Omni's validator reads the template
  pub template_error : Bytes → String → Option Error
  -- the error of `clientcmd.Load`
  pub kubeconfig_error : Bytes → Option Error

-- `reflect.DeepEqual` on the statuses of one kind of object
pub record DeepEqual (Status : Type 0) : Type 0 where
  pub same : Status → Status → Bool

-- The API server together with what a controller acts on.
pub record World (Store Remote : Type 0) : Type 0 where
  pub store : Store
  pub remote : Remote

module _ {Store Remote A : Type 0} where
  -- A call of the API, and a call of the remote, in the world of both.
  abbrev pub on_store : Exec Store A → World Store Remote → Result A × World Store Remote
  on_store call w = let (r, store) = call w.store in (r, record w { store = store })

  abbrev pub on_remote : Exec Remote A → World Store Remote → Result A × World Store Remote
  on_remote call w = let (r, remote) = call w.remote in (r, record w { remote = remote })

-- What a step of a reconciliation gives `Reconcile`: the value that it goes on with, or the outcome.
pub data Stage {ℓ} (A : Type ℓ) : Type ℓ where
  proceed : A → Stage A
  done : Outcome → Stage A

module _ {W : Type 0} where
  -- `if err := …; err != nil { return ctrl.Result{}, err }`, and the return after it
  abbrev pub unless_failed : Outcome → Result (Unit {0}) × W → Outcome × W
  unless_failed outcome (ok _, w) = (outcome, w)
  unless_failed outcome (err e, w) = (failed e, w)

  -- `return ctrl.Result{RequeueAfter: d}, err`
  abbrev pub after_call : Duration → Result (Unit {0}) × W → Outcome × W
  after_call d (r, w) = (after d (error_of r), w)

  -- `return ctrl.Result{}, err`
  abbrev pub with_error : Result (Unit {0}) × W → Outcome × W
  with_error (r, w) = (record finished { error = error_of r }, w)

module _ {ℓ} {W : Type 0} {A : Type ℓ} where
  -- `value, result, done, err := …; if done || err != nil { return result, err }`, and what follows
  abbrev pub unless_done : (A → W → Outcome × W) → Stage A × W → Outcome × W
  unless_done rest (proceed a, w) = rest a w
  unless_done rest (done outcome, w) = (outcome, w)

  abbrev pub stop : Outcome × W → Stage A × W
  stop (outcome, w) = (done outcome, w)

-- `time.Minute`
abbrev pub minute : Duration
minute = pos 60_000_000_000
