-- ===== src/Controller/Children.antt =====
-- child_status.go, and the reconcilers of omnicontrolplane_controller.go, omniworkers_controller.go and
-- omnimachine_controller.go: a resource of a cluster reports whether its cluster is there.
use omni_cluster_operator.Base.{String, ◌<>◌, Bool, true, false, ◌==◌, if◌then◌else◌}
use omni_cluster_operator.Base.Int.{ℤ}
use omni_cluster_operator.Api.Meta.{Condition, ObjectMeta, condition_true, condition_false}
use omni_cluster_operator.Api.Common.{CommonStatusFields, new_condition}
use omni_cluster_operator.Api.Template.{
  OmniCluster, OmniControlPlane, OmniControlPlaneStatus, OmniWorkers, OmniWorkersStatus,
  OmniMachine, OmniMachineStatus,
}
use omni_cluster_operator.External.{Result, ok, err, is_not_found, External}
use omni_cluster_operator.Exec.{Exec}
use omni_cluster_operator.Controller.Kube.{
  Objects, Api, Runtime, DeepEqual, Key, key_of_meta, Outcome, finished, failed, with_error,
}
use omni_cluster_operator.Controller.Objects.{update_changed}

-- `clusterExists`, from the answer of the API on
unfoldable pub exists_in : Result OmniCluster → Result Bool
exists_in (ok cluster) = ok true
exists_in (err e) = if is_not_found e then ok false else err e

module _ (api : Api) where
  unfoldable pub cluster_exists : String → String → api.Store → Result Bool
  unfolding exists_in
  cluster_exists namespace name store =
      exists_in (api.clusters.get (record { namespace = namespace; name = name }) store)

module _ ⦃x : External⦄ where
  unfoldable pub accepted_condition : ℤ → String → Bool → Condition
  accepted_condition generation cluster_name exists =
      if exists
      then new_condition "Accepted" condition_true generation "Accepted"
          ("attached to OmniCluster " <> x.quote cluster_name)
      else new_condition "Accepted" condition_false generation "MissingCluster"
          ("OmniCluster " <> x.quote cluster_name <> " does not exist")

  module _ ⦃t : Runtime⦄ where
    -- The fields that each of the three statuses starts with.
    abbrev pub accepted_fields :
        ObjectMeta → String → Bool → CommonStatusFields → CommonStatusFields
    accepted_fields meta cluster_name exists common = record {
      observed_generation = meta.generation;
      conditions =
          t.set_condition common.conditions
            (accepted_condition meta.generation cluster_name exists);
    }

    unfoldable pub control_plane_status : Bool → OmniControlPlane → OmniControlPlane
    control_plane_status exists latest =
        let name = latest.spec.cluster_ref.name in
        record latest {
          status = record {
            common = accepted_fields latest.meta name exists latest.status.common;
            cluster_ref = name;
          };
        }

    unfoldable pub workers_status : Bool → OmniWorkers → OmniWorkers
    workers_status exists latest =
        let name = latest.spec.cluster_ref.name in
        let set = latest.spec.worker_set_name in
        record latest {
          status = record {
            common = accepted_fields latest.meta name exists latest.status.common;
            cluster_ref = name;
            worker_set_name = if set == "" then latest.meta.name else set;
          };
        }

    unfoldable pub machine_status : Bool → OmniMachine → OmniMachine
    machine_status exists latest =
        let name = latest.spec.cluster_ref.name in
        let id = latest.spec.machine_id in
        record latest {
          status = record {
            common = accepted_fields latest.meta name exists latest.status.common;
            cluster_ref = name;
            machine_id = if id == "" then latest.meta.name else id;
          };
        }

-- What the three reconcilers do to their kind of object.
pub record Child (Store Item : Type 0) : Type 0 where
  pub objects : Objects Store Item
  pub meta : Item → ObjectMeta
  pub cluster : Item → String
  pub change : Bool → Item → Item
  pub same : Item → Item → Bool

module _ (api : Api) where
  module _ {Item : Type 0} (child : Child api.Store Item) where
    -- `updateControlPlaneStatus`, `updateWorkersStatus` and `updateMachineStatus`
    abbrev pub update_child : Item → Bool → Exec api.Store (Unit {0})
    update_child item exists =
        update_changed api child.objects child.same (λ _. child.change exists)
          (key_of_meta (child.meta item))

    unfoldable pub reconcile_known : Item → Result Bool → api.Store → Outcome × api.Store
    reconcile_known item (err e) store = (failed e, store)
    reconcile_known item (ok exists) store = with_error (update_child item exists store)

    unfoldable pub reconcile_found : Result Item → api.Store → Outcome × api.Store
    unfolding reconcile_known
    reconcile_found (err e) store = (if is_not_found e then finished else failed e, store)
    reconcile_found (ok item) store =
        reconcile_known item
          (cluster_exists api (child.meta item).namespace (child.cluster item) store) store

    unfoldable pub reconcile_child : Key → api.Store → Outcome × api.Store
    unfolding reconcile_found
    reconcile_child key store = reconcile_found (child.objects.get key store) store

  module _ ⦃x : External⦄ ⦃t : Runtime⦄ where
    abbrev pub control_plane_child :
        ⦃d : DeepEqual OmniControlPlaneStatus⦄ → Child api.Store OmniControlPlane
    control_plane_child ⦃d⦄ = record {
      objects = api.control_planes;
      meta = λ item. item.meta;
      cluster = λ item. item.spec.cluster_ref.name;
      change = control_plane_status;
      same = λ a b. d.same a.status b.status;
    }

    abbrev pub workers_child : ⦃d : DeepEqual OmniWorkersStatus⦄ → Child api.Store OmniWorkers
    workers_child ⦃d⦄ = record {
      objects = api.workers;
      meta = λ item. item.meta;
      cluster = λ item. item.spec.cluster_ref.name;
      change = workers_status;
      same = λ a b. d.same a.status b.status;
    }

    abbrev pub machine_child : ⦃d : DeepEqual OmniMachineStatus⦄ → Child api.Store OmniMachine
    machine_child ⦃d⦄ = record {
      objects = api.machines;
      meta = λ item. item.meta;
      cluster = λ item. item.spec.cluster_ref.name;
      change = machine_status;
      same = λ a b. d.same a.status b.status;
    }

    -- The three `Reconcile`
    unfoldable pub reconcile_control_plane :
        ⦃d : DeepEqual OmniControlPlaneStatus⦄ → Key → api.Store → Outcome × api.Store
    reconcile_control_plane = reconcile_child control_plane_child

    unfoldable pub reconcile_workers :
        ⦃d : DeepEqual OmniWorkersStatus⦄ → Key → api.Store → Outcome × api.Store
    reconcile_workers = reconcile_child workers_child

    unfoldable pub reconcile_machine :
        ⦃d : DeepEqual OmniMachineStatus⦄ → Key → api.Store → Outcome × api.Store
    reconcile_machine = reconcile_child machine_child
