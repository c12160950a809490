-- ===== src/Controller/Accepted.antt =====
-- child_status.go: what a reconciliation of a resource of a cluster reports.
use omni_cluster_operator.Base.{
  String, List, Bool, true, false, none, ◌≡◌, ◌⊎◌, inl, inr, refl, sym, subst, ap, if_cases,
  if◌then◌else◌,
}
use omni_cluster_operator.Base.Int.{ℤ}
use omni_cluster_operator.Api.Meta.{Condition, ObjectMeta, condition_true, condition_false}
use omni_cluster_operator.Api.Common.{CommonStatusFields, new_condition}
use omni_cluster_operator.Api.Template.{
  OmniCluster, OmniControlPlane, OmniControlPlaneStatus, OmniWorkers, OmniWorkersStatus,
  OmniMachine, OmniMachineStatus,
}
use omni_cluster_operator.External.{Error, Result, ok, err, is_not_found, External}
use omni_cluster_operator.Controller.Kube.{Api, Runtime, DeepEqual, Key, key_of_meta, error_of}
use omni_cluster_operator.Controller.Objects.{RetriesConflicts, IsChanged, update_changed-IsChanged}
use omni_cluster_operator.Controller.Children.{
  Child, exists_in, cluster_exists, update_child, reconcile_known, reconcile_found, reconcile_child,
  accepted_condition, accepted_fields, control_plane_status, workers_status, machine_status,
  control_plane_child, workers_child, machine_child,
}

pub error_of-none : (r : Result (Unit {0})) → error_of r ≡ none → r ≡ ok tt
error_of-none (ok _) h = refl
error_of-none (err e) h = absurd (cc h)

ok_inj : {a b : Bool} → ok a ≡ ok b → a ≡ b
ok_inj {a = a} h = ap (λ (r : Result Bool). elim r [ ok c ↦ c | err e ↦ a ]) h

module _ (api : Api) (retries : RetriesConflicts api) {Item : Type 0}
    (child : Child api.Store Item) where
  -- The status says of the cluster what the API server answered, in a change of the object as the
  -- server had it.
  abbrev Reports : Item → api.Store → api.Store → Type 0
  Reports item store final =
      (exists : Bool) × (cluster_exists api (child.meta item).namespace (child.cluster item) store
        ≡ ok exists)
      × IsChanged child.objects (key_of_meta (child.meta item)) final child.same
          (λ _. child.change exists)

  reconcile_known-Reports :
      (item : Item) (store : api.Store) (r : Result Bool)
      → cluster_exists api (child.meta item).namespace (child.cluster item) store ≡ r
      → (reconcile_known api child item r store).0.error ≡ none
      → Reports item store (reconcile_known api child item r store).1
  unfolding reconcile_known
  reconcile_known-Reports item store (err e) asked h = absurd (cc h)
  reconcile_known-Reports item store (ok exists) asked h = (
    exists,
    asked,
    update_changed-IsChanged api retries child.objects child.same (λ _. child.change exists)
        (key_of_meta (child.meta item)) store
        (error_of-none (update_child api child item exists store).0 h),
  )

  reconcile_found-Reports :
      (item : Item) (store : api.Store) (r : Result Item)
      → r ≡ ok item
      → (reconcile_found api child r store).0.error ≡ none
      → Reports item store (reconcile_found api child r store).1
  unfolding reconcile_found
  reconcile_found-Reports item store r found =
      subst
        (λ s.
          (reconcile_found api child s store).0.error ≡ none
          → Reports item store (reconcile_found api child s store).1)
        (sym found) (reconcile_known-Reports item store _ refl)

  child-Reports :
      (key : Key) (store : api.Store) (item : Item)
      → child.objects.get key store ≡ ok item
      → (reconcile_child api child key store).0.error ≡ none
      → Reports item store (reconcile_child api child key store).1
  unfolding reconcile_child
  child-Reports key store item found h =
      reconcile_found-Reports item store (child.objects.get key store) found h

-- Whether the cluster exists, by the answer of the API server.
abbrev pub Answers : Result OmniCluster → Bool → Type 0
Answers r exists =
    ((cluster : OmniCluster) × (r ≡ ok cluster) × (exists ≡ true))
    ⊎ ((e : Error) × (r ≡ err e) × (is_not_found e ≡ true) × (exists ≡ false))

exists_in-Answers :
    (r : Result OmniCluster) (exists : Bool) → exists_in r ≡ ok exists → Answers r exists
unfolding exists_in
exists_in-Answers (ok cluster) exists = λ h. inl (cluster, refl, sym (ok_inj h))
exists_in-Answers (err e) exists =
    if_cases (λ o. o ≡ ok exists → Answers (err e) exists) (is_not_found e)
      (λ missing h. inr (e, refl, missing, sym (ok_inj h))) (λ _ h. absurd (cc h))

-- The kinds of resource that belong to a cluster.
pub data Kind : Type 0 where
  of_control_plane of_workers of_machine : Kind

abbrev pub ItemOf : Kind → Type 0
ItemOf of_control_plane = OmniControlPlane
ItemOf of_workers = OmniWorkers
ItemOf of_machine = OmniMachine

abbrev pub common_of : (kind : Kind) → ItemOf kind → CommonStatusFields
common_of of_control_plane item = item.status.common
common_of of_workers item = item.status.common
common_of of_machine item = item.status.common

module _ ⦃x : External⦄ ⦃t : Runtime⦄ where
  -- The condition that was set last says whether the object is accepted, which it is where its cluster
  -- exists, for this generation.
  pub record Tells (generation : ℤ) (exists : Bool) (common : CommonStatusFields) : Type 0 where
    pub before : List Condition
    pub condition : Condition
    pub set : common.conditions ≡ t.set_condition before condition
    pub about : condition.type ≡ "Accepted"
    pub says : condition.status ≡ (if exists then condition_true else condition_false)
    pub condition_observed : condition.observed_generation ≡ generation
    pub observed : common.observed_generation ≡ generation

  accepted_fields-Tells :
      (meta : ObjectMeta) (name : String) (exists : Bool) (common : CommonStatusFields)
      → Tells meta.generation exists (accepted_fields meta name exists common)
  unfolding accepted_condition new_condition
  accepted_fields-Tells meta name true common = record {
    before = common.conditions;
    condition = accepted_condition meta.generation name true;
    set = refl;
    about = refl;
    says = refl;
    condition_observed = refl;
    observed = refl;
  }
  accepted_fields-Tells meta name false common = record {
    before = common.conditions;
    condition = accepted_condition meta.generation name false;
    set = refl;
    about = refl;
    says = refl;
    condition_observed = refl;
    observed = refl;
  }

  module _ ⦃c : DeepEqual OmniControlPlaneStatus⦄ ⦃d : DeepEqual OmniWorkersStatus⦄
      ⦃m : DeepEqual OmniMachineStatus⦄ (api : Api) where
    abbrev pub child_of : (kind : Kind) → Child api.Store (ItemOf kind)
    child_of of_control_plane = control_plane_child api
    child_of of_workers = workers_child api
    child_of of_machine = machine_child api

    change-Tells :
        (kind : Kind) (exists : Bool) (latest : ItemOf kind)
        → Tells
            ((child_of kind).meta latest).generation
            exists
            (common_of kind ((child_of kind).change exists latest))
    unfolding control_plane_status workers_status machine_status
    change-Tells of_control_plane exists latest =
        accepted_fields-Tells latest.meta latest.spec.cluster_ref.name exists latest.status.common
    change-Tells of_workers exists latest =
        accepted_fields-Tells latest.meta latest.spec.cluster_ref.name exists latest.status.common
    change-Tells of_machine exists latest =
        accepted_fields-Tells latest.meta latest.spec.cluster_ref.name exists latest.status.common

    -- The status that was written tells what the API server answered about the cluster.
    abbrev pub TellsCluster : (kind : Kind) → ItemOf kind → api.Store → api.Store → Type 0
    TellsCluster kind item store final =
        let child = child_of kind in
        (exists : Bool) × Answers
          (api.clusters.get
            (record { namespace = (child.meta item).namespace; name = child.cluster item }) store)
          exists
        × (changed : IsChanged child.objects (key_of_meta (child.meta item)) final child.same
            (λ _. child.change exists))
        × Tells (child.meta changed.latest).generation exists
            (common_of kind (child.change exists changed.latest))

    -- A reconciliation of a control plane, a worker set or a machine that ends without an error has
    -- asked the API server whether its cluster exists, and has written to the object that the server
    -- had right before a status whose condition Accepted, which was set last and is for the object's
    -- generation, is true where the cluster was found and false where it was not, unless the object had
    -- that status already; this needs that `RetryOnConflict` repeats a call only after a conflict, and
    -- ends with the answer of the last one.
    pub reconcile_child-Reports :
        (retries : RetriesConflicts api) (kind : Kind) (key : Key) (store : api.Store)
        (item : ItemOf kind)
        → (child_of kind).objects.get key store ≡ ok item
        → (reconcile_child api (child_of kind) key store).0.error ≡ none
        → TellsCluster kind item store (reconcile_child api (child_of kind) key store).1
    unfolding cluster_exists
    reconcile_child-Reports retries kind key store item found h =
        let (exists, asked, changed) =
          child-Reports api retries (child_of kind) key store item found h in
        (exists, exists_in-Answers _ exists asked, changed, change-Tells kind exists changed.latest)
