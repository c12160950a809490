-- ===== src/Template/OrderIndependence.antt =====
-- `Render` does not depend on the order in which the API server lists the resources.
use mathlib.Core.List.{Perm}
use mathlib.Core.List.Perm
use omni_cluster_operator.Base.{List, map, ◌≡◌, refl, String-set, Option, none, some}
use omni_cluster_operator.Base.Order.{Sorter}
use omni_cluster_operator.Base.Order.Unique.{InKeyOrder-unique, Distinct-keys}
use omni_cluster_operator.Base.Predicates.{Distinct}
use omni_cluster_operator.Api.Template.{OmniCluster, OmniControlPlane, OmniWorkers, OmniMachine}
use omni_cluster_operator.External.{External}
use omni_cluster_operator.Template.Laws.{
  sorted_workers-perm, sorted_machines-perm, sorted_workers-InKeyOrder, sorted_machines-InKeyOrder,
}
use omni_cluster_operator.Template.Parts.{worker_set_name, machine_id}
use omni_cluster_operator.Template.Render.{
  Inputs, Encoder, sorted_workers, sorted_machines, template_docs, render_resources, render_given,
  render,
}

OmniWorkers-set : IsSet OmniWorkers
OmniWorkers-set = hlevel String-set

OmniMachine-set : IsSet OmniMachine
OmniMachine-set = hlevel String-set

module _ ⦃s : Sorter⦄ (a b : Inputs) where
  sorted_workers_eq :
      Perm a.workers b.workers
      → Distinct (map worker_set_name a.workers)
      → sorted_workers a ≡ sorted_workers b
  sorted_workers_eq p d =
      let q =
        Perm.trans (sorted_workers-perm a) (Perm.trans p (Perm.symm (sorted_workers-perm b))) in
      let keys = Distinct-keys worker_set_name OmniWorkers-set a.workers d in
      InKeyOrder-unique worker_set_name _ _ (sorted_workers-InKeyOrder a)
        (sorted_workers-InKeyOrder b) q
        (λ v w mv mw.
          keys v w ((Perm.mem_iff (sorted_workers-perm a)).0 mv)
            ((Perm.mem_iff (sorted_workers-perm a)).0 mw))

  sorted_machines_eq :
      Perm a.machines b.machines
      → Distinct (map machine_id a.machines)
      → sorted_machines a ≡ sorted_machines b
  sorted_machines_eq p d =
      let q =
        Perm.trans (sorted_machines-perm a) (Perm.trans p (Perm.symm (sorted_machines-perm b))) in
      let keys = Distinct-keys machine_id OmniMachine-set a.machines d in
      InKeyOrder-unique machine_id _ _ (sorted_machines-InKeyOrder a) (sorted_machines-InKeyOrder b)
        q
        (λ m n mm mn.
          keys m n ((Perm.mem_iff (sorted_machines-perm a)).0 mm)
            ((Perm.mem_iff (sorted_machines-perm a)).0 mn))

module _ ⦃x : External⦄ ⦃s : Sorter⦄ ⦃y : Encoder⦄ where
  render_resources_eq :
      (a b : Inputs) (cluster : OmniCluster) (control_plane : OmniControlPlane)
      → sorted_workers a ≡ sorted_workers b
      → sorted_machines a ≡ sorted_machines b
      → render_resources cluster control_plane a ≡ render_resources cluster control_plane b
  unfolding render_resources template_docs
  render_resources_eq a b cluster control_plane p q = rw (p, q)

  render_given_eq :
      (a b : Inputs) (cluster : Option OmniCluster) (control_plane : Option OmniControlPlane)
      → sorted_workers a ≡ sorted_workers b
      → sorted_machines a ≡ sorted_machines b
      → render_given cluster control_plane a ≡ render_given cluster control_plane b
  unfolding render_given
  render_given_eq a b none control_plane p q = refl
  render_given_eq a b (some cluster) none p q = refl
  render_given_eq a b (some cluster) (some control_plane) p q =
      render_resources_eq a b cluster control_plane p q

  -- Two inputs with one cluster and one control plane, whose workers and machines are rearrangements
  -- of each other, have the same rendering, or the same error, if no two of the workers have one
  -- worker set name and no two of the machines one id.
  pub render-perm :
      (a : Inputs) (ws : List OmniWorkers) (ms : List OmniMachine)
      → Perm a.workers ws
      → Perm a.machines ms
      → Distinct (map worker_set_name a.workers)
      → Distinct (map machine_id a.machines)
      → render a ≡ render (record a { workers = ws; machines = ms })
  unfolding render
  render-perm a ws ms p q d e =
      let b : Inputs = record a { workers = ws; machines = ms } in
      render_given_eq a b a.cluster a.control_plane (sorted_workers_eq a b p d)
        (sorted_machines_eq a b q e)
