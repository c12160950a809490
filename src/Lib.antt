-- ===== src/Lib.antt =====
-- Verification of the Omni cluster operator, a Kubernetes operator that renders cluster templates
-- for Omni and manages what runs on the clusters: Helm releases, synced Secrets and exported
-- kubeconfigs.
--
-- The program: resources of the API (api/v1alpha1) are checked by admission webhooks
-- (internal/webhook/v1alpha1), and reconciled by controllers (internal/controller). The cluster
-- controller hands an OmniCluster with its control plane, workers and machines to the renderer
-- (internal/omnitemplate), and the rendered template to Omni (internal/omniapi). The controllers
-- of Helm releases, Secret syncs and kubeconfig exports act on a workload cluster by
-- internal/helmrelease, internal/secretsync and internal/kubeconfigexport.
--
-- The files, by the code that they model:
--   Base        the tests, texts, integers, maps and orders that the rest shares. A Go map is
--               `Map`: nil or a list of entries. An int64, a time and a duration are an unbounded
--               ℤ: what the code computes of them leaves Go's range only for lengths of time of
--               about 290 years. `Time.Sub` stops at the bounds of a Duration as it does in Go.
--               Base.Order.Sorter is the promise of `sort.Slice`, and Base.Order.Insertion a
--               function that keeps it.
--   Api         api/v1alpha1/*_types.go, one record per struct. Optional pointers are `Option`. A
--               nil slice and an empty one are not told apart, of bytes or of anything else.
--   External    the functions of Go's libraries that the code calls, as one record; an `error` is
--               its kind (what `apierrors.IsNotFound` and its like ask) and its text.
--   Exec        code that talks to a server: a function of a world, which gives a value or an
--               error and the world after.
--   Template    internal/omnitemplate/builder.go. Docs holds the documents, Parts a function for
--               each part of one, Render `Render` (its loops are workers_docs, machines_docs and
--               encode_docs; the YAML encoder is the record Encoder), Root `OpenRoot` and
--               `Validate`. Names, Laws and OrderIndependence hold the proofs.
--   Webhook     internal/webhook/v1alpha1. Field is the part of `field.ErrorList` that
--               validation.go uses, Sources the checks of lists, Validation one function per
--               resource, Hooks the validators of the *_webhook.go files. Laws, SourceLaws and
--               Immutable hold the proofs.
--   Release     internal/helmrelease/helmrelease.go.
--   HelmClient  internal/helmrelease/client.go and restclient_getter.go, with
--               internal/helmchart/renderer.go. Library is Helm and the operating system as a
--               record of calls over a world, Directory `withIsolatedWorkingDirectory`, Client
--               `Reconcile` and `Uninstall`. Choice and Directory hold the proofs.
--   OmniClient  internal/omniapi/client.go. Key is `serviceAccountKey`, Real the methods of
--               `RealClient` over Sidero's client as a record of calls. Key, Reached and Roots
--               hold the proofs.
--   Export      internal/kubeconfigexport/kubeconfigexport.go.
--   SecretSync  internal/secretsync/secretsync.go. Desired is what a sync wants, Client its
--               `Sync` and `Delete` over the record Workload of the calls of a cluster's API.
--               Server says what the API promises of a write, Ownership and Repeat hold the
--               proofs.
--   Controller  internal/controller. Kube is what the controllers call of the API server (a list
--               of objects of each kind as the record Objects, all of them as Api) and of
--               controller-runtime, with the result of a reconciliation; Omni is the interface of
--               internal/omniapi/client.go. Objects changes a finalizer or a status, again after
--               a conflict; Stages is the finalizer and the kubeconfig that the controllers of
--               workload resources begin with. An early return is a function that takes the value
--               that decides it. SpecErrors is the check that three reconcilers make of a
--               specification, Admission compares it with the webhooks.
--   Controller.Cluster
--               omnicluster_controller.go: Inputs the documents of a cluster, Status, Reconcile
--               and Deletion. Safety, Calls and Latest hold the proofs.
--   Controller.SecretSyncs, Controller.HelmReleases
--               omnisecretsync_controller.go and omnihelmrelease_controller.go: Status the status
--               and its conditions, Reconcile `Reconcile` and `reconcileDelete`. Run and Deletion
--               hold the proofs, Controller.Reported those of the status after an error.
--   Controller.KubeconfigExport
--               omnikubeconfigexport_controller.go: State whether an exported kubeconfig is kept,
--               Written the Secret that an export writes, Previous the lookup of the target and
--               the removal of an old one, Generated `generateKubeconfig` on the answer of Omni,
--               Status and Reconcile the rest, and Validator `workloadKubeconfigValidator`.
--               Reuse, Cycle, Later, Looks, Rotation, Once and Deletion hold the proofs.
--   Controller.Connections
--               omniconnection_controller.go, with the proofs in References.
--   Controller.Children
--               child_status.go and the reconcilers of control planes, worker sets and machines,
--               with the proofs in Controller.Accepted.
--   Controller.Watches
--               child_watch.go, predicates.go and the functions that turn a change of an object
--               into requests, with the proofs in Controller.Wakes.
--   Tests       sample values, a small workload cluster, a small API server (Server), a Helm and
--               an Omni, and the theorems applied to them.
--
-- A reconciliation is a function of a world of two parts: the API server's store, and what the
-- controller acts on, which is Omni, a workload cluster, or the place where Helm runs. What it
-- calls is a record of functions over that world, so each call may fail, and each theorem is
-- about whatever the calls answer. No loop here needs fuel: each goes over a list, and
-- `retry.RetryOnConflict` is a function that is promised to repeat a call only after a conflict.
-- The cluster controller takes the answer of `Validate` as a function of the template and the
-- root.
--
-- Not modelled: `SetupWithManager`, the registration of the webhooks, cmd/main.go and the
-- generated code, which pass values to libraries; that the calls of `RealClient` which only read
-- close the client; the mutex around the location of a chart and the methods of
-- `restClientGetter` that Helm calls; the logs; and what other processes do between two calls of
-- one reconciliation, except as the answers of those calls.
pub mod Base
pub mod Api
pub mod External
pub mod Exec
pub mod Template
pub mod Webhook
pub mod Release
pub mod HelmClient
pub mod OmniClient
pub mod Export
pub mod SecretSync
pub mod Controller
pub mod Tests
