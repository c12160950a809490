-- ===== src/Controller/Cluster/Inputs.antt =====
-- omnicluster_controller.go: `templateInputs`, the documents that refer to a cluster.
use omni_cluster_operator.Base.{ℕ, suc, ◌<>◌, List, [], ◌∷◌, Bool, some, ◌==◌, if◌then◌else◌}
use omni_cluster_operator.Api.Template.{OmniCluster, OmniControlPlane}
use omni_cluster_operator.External.{Result, ok, err, new_error, ◌>>=◌}
use omni_cluster_operator.Template.Render.{Inputs}
use omni_cluster_operator.Controller.Kube.{Api, Runtime}

-- The loops that keep the items that pass a test.
unfoldable pub select {ℓ} : {A : Type ℓ} → (A → Bool) → List A → List A
select test [] = []
select test (a ∷ l) = let rest = select test l in if test a then a ∷ rest else rest

abbrev count {ℓ} : {A : Type ℓ} → List A → ℕ
count [] = 0
count (_ ∷ l) = suc (count l)

module _ ⦃t : Runtime⦄ where
  unfoldable pub the_control_plane : OmniCluster → List OmniControlPlane → Result OmniControlPlane
  unfolding new_error
  the_control_plane cluster (control_plane ∷ []) = ok control_plane
  the_control_plane cluster selected = err (
      new_error (
        "expected exactly one OmniControlPlane referencing "
        <> cluster.meta.namespace
        <> "/"
        <> cluster.meta.name
        <> ", found "
        <> t.count_text (count selected)))

  module _ (api : Api) where
    unfoldable pub template_inputs : OmniCluster → api.Store → Result Inputs
    template_inputs cluster store = do
      control_planes ← api.control_planes.list cluster.meta.namespace store
      control_plane ←
          the_control_plane cluster
            (select (λ c. c.spec.cluster_ref.name == cluster.meta.name) control_planes)
      workers ← api.workers.list cluster.meta.namespace store
      machines ← api.machines.list cluster.meta.namespace store
      ok (record {
        cluster = some cluster;
        control_plane = some control_plane;
        workers = select (λ w. w.spec.cluster_ref.name == cluster.meta.name) workers;
        machines = select (λ m. m.spec.cluster_ref.name == cluster.meta.name) machines;
      })
