-- ===== src/Template/Laws.antt =====
-- What `Render` produces, when it fails, and that it does not depend on the order of its inputs.
use mathlib.Core.HLevel.{¬_prop}
use mathlib.Core.List.{Perm}
use mathlib.Core.List.Perm
use omni_cluster_operator.Base.{
  List, [], ◌∷◌, ◌++◌, map, true, ◌≡◌, refl, sym, ◌∙◌, ap, ◌↔◌, ◌≢◌, arith, eq_iff,
}
use omni_cluster_operator.Base.Order.{Sorter}
use omni_cluster_operator.Base.Order.TextOrder.{key_order-IsStrictOrder}
use omni_cluster_operator.Base.Order.Unique.{InKeyOrder}
use omni_cluster_operator.Base.Predicates.{All, Distinct, All-perm}
use omni_cluster_operator.Api.Template.{OmniCluster, OmniControlPlane, OmniWorkers, OmniMachine}
use omni_cluster_operator.External.{External, ok, is_ok, ok_of_is_ok, >>=-eq-ok}
use omni_cluster_operator.Template.Docs.{Doc, cluster_doc, control_plane_doc, workers_doc}
use omni_cluster_operator.Template.Names.{manifest_names, validate_manifest_names_iff}
use omni_cluster_operator.Template.Parts.{
  cluster_name, worker_set_name, machine_id, render_cluster, render_control_plane, render_workers,
}
use omni_cluster_operator.Template.Render.{
  Inputs, validate_manifest_names, workers_docs, machines_docs, sorted_workers, sorted_machines,
  template_docs, less_workers, less_machines,
}

-- The name that Omni keeps for the control plane's machine set is not taken.
abbrev pub NotReserved : OmniWorkers → Type 0
NotReserved w = worker_set_name w ≢ "control-planes"

NotReserved-prop : (w : OmniWorkers) → IsProp (NotReserved w)
NotReserved-prop w = ¬_prop

module _ ⦃x : External⦄ where
  abbrev pub worker_docs : List OmniWorkers → List Doc
  worker_docs = map (λ w. workers_doc (render_workers w (worker_set_name w)))

  workers_docs_ok : (l : List OmniWorkers) → All NotReserved l → workers_docs l ≡ ok (worker_docs l)
  unfolding workers_docs
  workers_docs_ok [] h = refl
  workers_docs_ok (w ∷ l) h =
      ground (arith, workers_docs_ok l h.1, eq_iff (worker_set_name w) "control-planes")

  workers_docs_reserved : (l : List OmniWorkers) → is_ok (workers_docs l) ≡ true → All NotReserved l
  unfolding workers_docs
  workers_docs_reserved [] h = tt
  workers_docs_reserved (w ∷ l) h = (
    λ e. ground (arith, eq_iff (worker_set_name w) "control-planes"),
    workers_docs_reserved l (ground (arith, eq_iff (worker_set_name w) "control-planes")),
  )

module _ ⦃s : Sorter⦄ where
  pub sorted_workers-perm : (input : Inputs) → Perm (sorted_workers input) input.workers
  unfolding sorted_workers
  sorted_workers-perm input = s.sort-perm OmniWorkers less_workers input.workers

  pub sorted_machines-perm : (input : Inputs) → Perm (sorted_machines input) input.machines
  unfolding sorted_machines
  sorted_machines-perm input = s.sort-perm OmniMachine less_machines input.machines

  pub sorted_workers-InKeyOrder :
      (input : Inputs) → InKeyOrder worker_set_name (sorted_workers input)
  unfolding sorted_workers
  sorted_workers-InKeyOrder input =
      s.sort-IsOrdered OmniWorkers less_workers input.workers
        (key_order-IsStrictOrder worker_set_name)

  pub sorted_machines-InKeyOrder : (input : Inputs) → InKeyOrder machine_id (sorted_machines input)
  unfolding sorted_machines
  sorted_machines-InKeyOrder input =
      s.sort-IsOrdered OmniMachine less_machines input.machines (key_order-IsStrictOrder machine_id)

module _ ⦃x : External⦄ ⦃s : Sorter⦄ where
  -- The cluster, the control plane, the worker sets by name, the machines by id.
  abbrev pub template_layout : OmniCluster → OmniControlPlane → Inputs → List Doc
  template_layout cluster control_plane input =
      cluster_doc (render_cluster cluster (cluster_name cluster))
      ∷ control_plane_doc (render_control_plane control_plane)
      ∷ (worker_docs (sorted_workers input) ++ machines_docs (sorted_machines input))

  -- What the checks of `Render` accept.
  abbrev pub IsRenderable : OmniCluster → Inputs → Type 0
  IsRenderable cluster input =
      Distinct (manifest_names cluster.spec.kubernetes.manifests) × All NotReserved input.workers

  module _ (cluster : OmniCluster) (control_plane : OmniControlPlane) (input : Inputs) where
    pub template_docs_complete :
        IsRenderable cluster input
        → template_docs cluster control_plane input
          ≡ ok (template_layout cluster control_plane input)
    unfolding template_docs
    template_docs_complete h =
        let (owners, named) =
          ok_of_is_ok (validate_manifest_names cluster)
            ((validate_manifest_names_iff cluster).1 h.0) in
        let free =
          All-perm NotReserved NotReserved-prop _ _ (Perm.symm (sorted_workers-perm input)) h.1 in
        rw (named, workers_docs_ok _ free, template_docs)

    template_docs_sound :
        (docs : List Doc)
        → template_docs cluster control_plane input ≡ ok docs
        → IsRenderable cluster input
    unfolding template_docs
    template_docs_sound docs h =
        let (owners, named, h') = >>=-eq-ok (validate_manifest_names cluster) _ docs h in
        let (ws, rendered, _) = >>=-eq-ok (workers_docs (sorted_workers input)) _ docs h' in
        (
          (validate_manifest_names_iff cluster).0 (rw named refl),
          All-perm NotReserved NotReserved-prop _ _ (sorted_workers-perm input)
              (workers_docs_reserved _ (rw rendered refl)),
        )

    -- The documents are built exactly when the manifest names are distinct and no worker set is
    -- named `control-planes`, and are then the four groups in their order.
    pub template_docs_iff :
        (docs : List Doc)
        → (template_docs cluster control_plane input ≡ ok docs)
          ↔ (IsRenderable cluster input × (docs ≡ template_layout cluster control_plane input))
    template_docs_iff docs = (
      λ h. let fits = template_docs_sound docs h in (fits, cc (h, template_docs_complete fits)),
      λ h. template_docs_complete h.0 ∙ ap ok (sym h.1),
    )
