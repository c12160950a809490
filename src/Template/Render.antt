-- ===== src/Template/Render.antt =====
-- internal/omnitemplate/builder.go: `Render` and the checks that it makes.
use omni_cluster_operator.Base.{
  String, ◌<>◌, List, [], ◌∷◌, ◌++◌, map, Option, none, some, Bool, ◌==◌, not, if◌then◌else◌,
}
use omni_cluster_operator.Base.Maps.{Entries, put, get_text}
use omni_cluster_operator.Base.Order.{Sorter, text_lt}
use omni_cluster_operator.Api.Meta.{Bytes}
use omni_cluster_operator.Api.Common.{KubernetesManifest}
use omni_cluster_operator.Api.Template.{OmniCluster, OmniControlPlane, OmniWorkers, OmniMachine}
use omni_cluster_operator.External.{Result, ok, err, new_error, External, ◌>>=◌}
use omni_cluster_operator.Template.Docs.{
  Doc, cluster_doc, control_plane_doc, workers_doc, machine_doc,
}
use omni_cluster_operator.Template.Parts.{
  cluster_name, worker_set_name, machine_id, render_cluster, render_control_plane, render_workers,
  render_machine,
}

-- The YAML encoder of `go.yaml.in/yaml/v4`, which writes document after document to a buffer.
pub record Encoder : Type 1 where
  pub Buffer : Type 0
  pub start : Buffer
  pub encode : Doc → Buffer → Result Buffer
  pub close : Buffer → Result Bytes

pub record Inputs : Type 0 where
  pub cluster : Option OmniCluster
  pub control_plane : Option OmniControlPlane
  pub workers : List OmniWorkers
  pub machines : List OmniMachine

-- `Result` of the source.
pub record Rendered : Type 0 where
  pub cluster_name : String
  pub template : Bytes
  pub template_hash : String
  pub control_plane_ref : String
  pub workers_refs : List String
  pub machine_refs : List String

abbrev pub manifest_owner : String
manifest_owner = "OmniCluster.spec.kubernetes.manifests[]"

module _ ⦃x : External⦄ where
  unfoldable pub claim_manifest_name : Entries String → String → String → Result (Entries String)
  unfolding new_error get_text
  claim_manifest_name owners name owner =
      let existing = get_text name (some owners) in
      if not (existing == "")
      then err (
          new_error (
            "duplicate Kubernetes manifest name "
            <> x.quote name
            <> " for "
            <> owner
            <> " conflicts with "
            <> existing))
      else ok (put name owner owners)

  unfoldable pub claim_names : Entries String → List KubernetesManifest → Result (Entries String)
  claim_names owners [] = ok owners
  claim_names owners (existing ∷ rest) = do
    owners' ← claim_manifest_name owners existing.name manifest_owner
    claim_names owners' rest

  unfoldable pub validate_manifest_names : OmniCluster → Result (Entries String)
  unfolding claim_names claim_manifest_name
  validate_manifest_names cluster = claim_names [] cluster.spec.kubernetes.manifests

  -- The loop over the sorted workers.
  unfoldable pub workers_docs : List OmniWorkers → Result (List Doc)
  unfolding new_error
  workers_docs [] = ok []
  workers_docs (workers ∷ rest) =
      let name = worker_set_name workers in
      let more = workers_docs rest in
      if name == "control-planes"
      then err (
          new_error (
            "workers "
            <> x.quote workers.meta.name
            <> " uses reserved workerSetName "
            <> x.quote name))
      else do docs ← more; ok (workers_doc (render_workers workers name) ∷ docs)

  unfoldable pub machines_docs : List OmniMachine → List Doc
  machines_docs = map λ machine. machine_doc (render_machine machine (machine_id machine))

abbrev pub less_workers : OmniWorkers → OmniWorkers → Bool
less_workers v w = text_lt (worker_set_name v) (worker_set_name w)

abbrev pub less_machines : OmniMachine → OmniMachine → Bool
less_machines m n = text_lt (machine_id m) (machine_id n)

-- An error of the encoder, under the text that `Render` puts before it.
unfoldable pub wrap : {A : Type 0} → String → Result A → Result A
wrap prefix (ok a) = ok a
wrap prefix (err e) = err (record e { message = prefix <> e.message })

module _ ⦃y : Encoder⦄ where
  unfoldable pub encode_docs : List Doc → y.Buffer → Result y.Buffer
  unfolding wrap
  encode_docs [] buffer = ok buffer
  encode_docs (doc ∷ docs) buffer = do
    buffer' ← wrap "encode template document: " (y.encode doc buffer)
    encode_docs docs buffer'

  -- The bytes of a template, from a new encoder.
  unfoldable pub encode_template : List Doc → Result Bytes
  unfolding encode_docs wrap
  encode_template docs = do
    buffer ← encode_docs docs y.start
    wrap "close template encoder: " (y.close buffer)

module _ ⦃s : Sorter⦄ where
  -- `workers` and `machines` after `sort.Slice`.
  unfoldable pub sorted_workers : Inputs → List OmniWorkers
  sorted_workers input = s.sort OmniWorkers less_workers input.workers

  unfoldable pub sorted_machines : Inputs → List OmniMachine
  sorted_machines input = s.sort OmniMachine less_machines input.machines

module _ ⦃x : External⦄ ⦃s : Sorter⦄ where
  -- `docs`, with the checks that stop it from being built.
  unfoldable pub template_docs : OmniCluster → OmniControlPlane → Inputs → Result (List Doc)
  template_docs cluster control_plane input = do
    owners ← validate_manifest_names cluster
    docs ← workers_docs (sorted_workers input)
    ok (
        cluster_doc (render_cluster cluster (cluster_name cluster))
        ∷ control_plane_doc (render_control_plane control_plane)
        ∷ (docs ++ machines_docs (sorted_machines input)))

module _ ⦃x : External⦄ ⦃s : Sorter⦄ ⦃y : Encoder⦄ where
  unfoldable pub render_resources : OmniCluster → OmniControlPlane → Inputs → Result Rendered
  render_resources cluster control_plane input = do
    docs ← template_docs cluster control_plane input
    bytes ← encode_template docs
    ok (record {
      cluster_name = cluster_name cluster;
      template = bytes;
      template_hash = x.sha256_hex bytes;
      control_plane_ref = control_plane.meta.name;
      workers_refs = map (λ w. w.meta.name) (sorted_workers input);
      machine_refs = map (λ m. m.meta.name) (sorted_machines input);
    })

  -- The two early returns of `Render`, and the rest of it.
  unfoldable pub render_given :
      Option OmniCluster → Option OmniControlPlane → Inputs → Result Rendered
  unfolding new_error
  render_given none control_plane input = err (new_error "cluster is required")
  render_given (some cluster) none input = err (
      new_error
        ("exactly one OmniControlPlane must reference OmniCluster " <> x.quote cluster.meta.name))
  render_given (some cluster) (some control_plane) input =
      render_resources cluster control_plane input

  -- `Render`
  unfoldable pub render : Inputs → Result Rendered
  unfolding render_given render_resources
  render input = render_given input.cluster input.control_plane input
