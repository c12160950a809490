-- ===== src/Tests/Template.antt =====
-- The renderer on a cluster of two worker sets and two machines.
use mathlib.Core.List.Perm
use omni_cluster_operator.Base.{[], ◌∷◌, true, ◌≡◌, ◌↔◌, arith, eq_iff, map}
use omni_cluster_operator.Base.Order.Insertion.{insertion_sorter}
use omni_cluster_operator.Base.Predicates.{Distinct}
use omni_cluster_operator.External.{ok, is_ok}
use omni_cluster_operator.Template.Render.{render, template_docs, validate_manifest_names}
use omni_cluster_operator.Template.Laws.{template_docs_iff, template_layout, IsRenderable}
use omni_cluster_operator.Template.Names.{validate_manifest_names_iff, manifest_names}
use omni_cluster_operator.Template.OrderIndependence.{render-perm}
use omni_cluster_operator.Template.Parts.{worker_set_name, machine_id}
use omni_cluster_operator.Tests.Samples.{
  sample_external, sample_encoder, sample_cluster, sample_control_plane, sample_inputs,
  workers_named, machine_named, uuid_a, uuid_b,
}

Distinct-workers : Distinct (map worker_set_name sample_inputs.workers)
unfolding worker_set_name
Distinct-workers = ((λ e. ground (arith, (eq_iff "gpu" "cpu").1 e), tt), (tt, tt))

Distinct-machines : Distinct (map machine_id sample_inputs.machines)
unfolding machine_id
Distinct-machines = ((λ e. ground (arith, (eq_iff uuid_b uuid_a).1 e), tt), (tt, tt))

render-perm_example :
    render ⦃x = sample_external⦄ ⦃s = insertion_sorter⦄ ⦃y = sample_encoder⦄ sample_inputs
    ≡ render ⦃x = sample_external⦄ ⦃s = insertion_sorter⦄ ⦃y = sample_encoder⦄
        (record sample_inputs {
          workers = workers_named "cpu" ∷ workers_named "gpu" ∷ [];
          machines = machine_named uuid_a ∷ machine_named uuid_b ∷ [];
        })
render-perm_example =
    render-perm ⦃x = sample_external⦄ ⦃s = insertion_sorter⦄ ⦃y = sample_encoder⦄ sample_inputs
      (workers_named "cpu" ∷ workers_named "gpu" ∷ [])
      (machine_named uuid_a ∷ machine_named uuid_b ∷ []) (Perm.swap _ _ []) (Perm.swap _ _ [])
      Distinct-workers Distinct-machines

template_docs_iff_example :
    (template_docs ⦃x = sample_external⦄ ⦃s = insertion_sorter⦄ sample_cluster sample_control_plane
        sample_inputs
      ≡ ok (
          template_layout ⦃x = sample_external⦄ ⦃s = insertion_sorter⦄ sample_cluster
            sample_control_plane sample_inputs))
    ↔ (IsRenderable ⦃x = sample_external⦄ ⦃s = insertion_sorter⦄ sample_cluster sample_inputs
        × (template_layout ⦃x = sample_external⦄ ⦃s = insertion_sorter⦄ sample_cluster
              sample_control_plane sample_inputs
            ≡ template_layout ⦃x = sample_external⦄ ⦃s = insertion_sorter⦄ sample_cluster
                sample_control_plane sample_inputs))
template_docs_iff_example =
    template_docs_iff ⦃x = sample_external⦄ ⦃s = insertion_sorter⦄ sample_cluster
      sample_control_plane sample_inputs
      (template_layout ⦃x = sample_external⦄ ⦃s = insertion_sorter⦄ sample_cluster
        sample_control_plane sample_inputs)

validate_manifest_names_iff_example :
    (is_ok (validate_manifest_names ⦃x = sample_external⦄ sample_cluster) ≡ true)
    ↔ Distinct (manifest_names sample_cluster.spec.kubernetes.manifests)
validate_manifest_names_iff_example =
    validate_manifest_names_iff ⦃x = sample_external⦄ sample_cluster
