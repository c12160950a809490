-- ===== src/Controller/Cluster/Safety.antt =====
-- omnicluster_controller.go: which calls of Omni a reconciliation makes, and when a deleted cluster
-- loses its finalizers.
use omni_cluster_operator.Base.{
  true, false, Option, none, some, not, ◌≡◌, ◌≢◌, ◌⊎◌, inl, inr, refl, ◌∙◌, ap, arith, if_cases,
}
use omni_cluster_operator.Api.Template.{OmniCluster, OmniClusterStatus, OmniConnection}
use omni_cluster_operator.External.{Error, Result, ok, err, External}
use omni_cluster_operator.Template.Parts.{cluster_name}
use omni_cluster_operator.Controller.Kube.{
  Api, Runtime, World, on_store, unless_failed, Outcome, failed,
}
use omni_cluster_operator.Controller.Omni.{Omni, Reply}
use omni_cluster_operator.Controller.Objects.{unless_failed-world}
use omni_cluster_operator.Controller.Cluster.Status.{connection_key, update_cluster_status}
use omni_cluster_operator.Controller.Cluster.Deletion.{
  has_finalizer, without_finalizers, release, delete_options, delete_replied, delete_with,
  reconcile_delete,
}

module _ ⦃x : External⦄ ⦃t : Runtime⦄ (api : Api) (omni : Omni) where
  release-world :
      (cluster : OmniCluster) (w : World api.Store omni.Remote)
      → (release api omni cluster w).1
        ≡ record w { store = (api.clusters.update (without_finalizers cluster) w.store).1 }
  unfolding release
  release-world cluster w = unless_failed-world _ _ _

  -- Omni deleted the cluster through this connection.
  pub record DeletedBy (cluster : OmniCluster) (w : World api.Store omni.Remote)
      (connection : OmniConnection) : Type 0 where
    pub found : api.connections.get (connection_key cluster) w.store ≡ ok connection
    pub no_error :
        (omni.delete_cluster connection
          (cluster_name cluster)
          (delete_options cluster)
          w.remote).0.error
        ≡ none

  module _ (cluster : OmniCluster) (w : World api.Store omni.Remote) where
    -- Nothing happened.
    abbrev Untouched : Outcome × World api.Store omni.Remote → Type 0
    Untouched p = (has_finalizer cluster ≡ false) × (p.1 ≡ w)

    -- The finalizers are taken off, for a reason.
    abbrev Released : Outcome × World api.Store omni.Remote → Type 0
    Released p =
        ((cluster.spec.delete_policy.orphan ≡ true)
          ⊎ ((connection : OmniConnection) × DeletedBy cluster w connection))
        × (p.1.store ≡ (api.clusters.update (without_finalizers cluster) w.store).1)

    -- Only the status is written, and the outcome is an error.
    abbrev Kept : Outcome × World api.Store omni.Remote → Type 0
    Kept p =
        (mutate : OmniClusterStatus → OmniClusterStatus) × (p.0.error ≢ none)
        × (p.1.store ≡ (update_cluster_status api cluster mutate w.store).1)

    abbrev pub EndsDeletion : Outcome × World api.Store omni.Remote → Type 0
    EndsDeletion p = Untouched p ⊎ Released p ⊎ Kept p

    kept :
        (e : Error) (mutate : OmniClusterStatus → OmniClusterStatus)
        (v : World api.Store omni.Remote)
        → v.store ≡ w.store
        → Kept (unless_failed (failed e) (on_store (update_cluster_status api cluster mutate) v))
    kept e mutate v same =
        go (update_cluster_status api cluster mutate v.store)
          (ap (update_cluster_status api cluster mutate) same)
      where
        go :
            (p : Result (Unit {0}) × api.Store)
            → p ≡ update_cluster_status api cluster mutate w.store
            → Kept (unless_failed (failed e) (p.0, record v { store = p.1 }))
        go (ok _, store) h = (mutate, λ q. cc q, ap (λ p. p.1) h)
        go (err f, store) h = (mutate, λ q. cc q, ap (λ p. p.1) h)

    module _ (connection : OmniConnection)
        (found : api.connections.get (connection_key cluster) w.store ≡ ok connection) where
      abbrev reply : Reply
      reply =
          (omni.delete_cluster connection (cluster_name cluster) (delete_options cluster)
            w.remote).0

      delete_replied-ends :
          (v : World api.Store omni.Remote) (e : Option Error)
          → v.store ≡ w.store
          → reply.error ≡ e
          → EndsDeletion (delete_replied api omni cluster reply.output e v)
      unfolding delete_replied
      delete_replied-ends v none same h = inr (
          inl (
            inr (connection, record { found = found; no_error = h }),
            ap (λ u. u.store) (release-world cluster v)
                ∙ ap (λ store. (api.clusters.update (without_finalizers cluster) store).1) same,
          ))
      delete_replied-ends v (some e) same h = inr (inr (kept e _ v same))

    delete_with-ends :
        (found : Result OmniConnection)
        → api.connections.get (connection_key cluster) w.store ≡ found
        → EndsDeletion (delete_with api omni cluster found w)
    unfolding delete_with
    delete_with-ends (err e) found = inr (inr (kept e _ w refl))
    delete_with-ends (ok connection) found = delete_replied-ends connection found _ _ refl refl

    -- A deletion ends in one of three ways: there was no finalizer and nothing happens; the finalizers
    -- are taken off, which happens only if the remote cluster is to be orphaned or Omni deleted it; or
    -- only the status is written, and the outcome is an error.
    pub reconcile_delete-EndsDeletion : EndsDeletion (reconcile_delete api omni cluster w)
    unfolding reconcile_delete
    reconcile_delete-EndsDeletion =
        if_cases EndsDeletion (not (has_finalizer cluster)) (λ absent. inl (ground arith, refl))
          (λ _.
            if_cases EndsDeletion cluster.spec.delete_policy.orphan
              (λ orphan. inr (inl (inl orphan, ap (λ v. v.store) (release-world cluster w))))
              (λ _. delete_with-ends (api.connections.get (connection_key cluster) w.store) refl))
