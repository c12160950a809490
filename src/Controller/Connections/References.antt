-- ===== src/Controller/Connections/References.antt =====
-- omniconnection_controller.go: a connection is kept while a cluster refers to it.
use omni_cluster_operator.Base.{
  String, List, [], ◌∷◌, false, not, ◌≡◌, ◌≢◌, ◌⊎◌, inl, inr, refl, ap, arith, ◌==◌, if_cases,
  Bool-cases,
}
use omni_cluster_operator.Base.Predicates.{All}
use omni_cluster_operator.Base.Order.{Sorter, text_lt}
use mathlib.Core.List.Perm
use omni_cluster_operator.Api.Template.{OmniCluster, OmniConnection}
use omni_cluster_operator.External.{Result, ok, err}
use omni_cluster_operator.Controller.Kube.{Api, Runtime, World, Outcome}
use omni_cluster_operator.Controller.Omni.{Omni}
use omni_cluster_operator.Controller.Stages.{IsRetried}
use omni_cluster_operator.Controller.Watches.{names_connected}
use omni_cluster_operator.Controller.Connections.Reconcile.{
  has_finalizer, remove_finalizers, update_connection_status, waiting_status, references_among,
  referencing_cluster_names, delete_unless, reconcile_delete,
}

-- No cluster of the list refers to the connection of this name.
abbrev pub NoneRefers : String → List OmniCluster → Type 0
NoneRefers name = All (λ cluster. (cluster.spec.connection_ref.name == name) ≡ false)

none_connected :
    (name : String) (clusters : List OmniCluster)
    → names_connected name clusters ≡ []
    → NoneRefers name clusters
unfolding names_connected
none_connected name [] h = tt
none_connected name (cluster ∷ l) h = elim (Bool-cases (cluster.spec.connection_ref.name == name)) [
  | inl refers ↦ absurd (cc (rw refers at h))
  | inr not_here ↦ (not_here, none_connected name l (rw not_here at h))
]

module _ ⦃s : Sorter⦄ ⦃t : Runtime⦄ (api : Api) (omni : Omni) (connection : OmniConnection)
    (w : World api.Store omni.Remote) where
  -- There was no finalizer, and nothing happens.
  abbrev Untouched : Outcome × World api.Store omni.Remote → Type 0
  Untouched p = (has_finalizer connection ≡ false) × (p.1 ≡ w)

  -- No cluster of the namespace refers to the connection, and the finalizers are taken off.
  abbrev Released : Outcome × World api.Store omni.Remote → Type 0
  Released p =
      (clusters : List OmniCluster) × (api.clusters.list connection.meta.namespace w.store
        ≡ ok clusters)
      × NoneRefers connection.meta.name clusters
      × (p.1.store ≡ (remove_finalizers api connection w.store).1)

  -- At most the status is written, with the names that are waited for, and the deletion is tried again.
  abbrev Kept : Outcome × World api.Store omni.Remote → Type 0
  Kept p =
      IsRetried p.0
      × ((p.1.store ≡ w.store)
          ⊎ ((names : List String) × (names ≢ [])
              × (referencing_cluster_names api omni connection w.store ≡ ok names)
              × (p.1.store
                  ≡ (update_connection_status api connection (waiting_status connection names)
                      w.store).1)))

  abbrev pub KeepsReferenced : Outcome × World api.Store omni.Remote → Type 0
  KeepsReferenced p = (p.1.remote ≡ w.remote) × (Untouched p ⊎ Released p ⊎ Kept p)

  no_references :
      (answer : Result (List OmniCluster))
      → references_among connection answer ≡ ok []
      → (clusters : List OmniCluster) × (answer ≡ ok clusters)
        × NoneRefers connection.meta.name clusters
  unfolding references_among
  no_references (err e) h = absurd (cc h)
  no_references (ok clusters) h =
      let names = names_connected connection.meta.name clusters in
      let sorted : s.sort String text_lt names ≡ [] =
        ap (λ (r : Result (List String)). elim r [ ok l ↦ l | err e ↦ "" ∷ [] ]) h in
      (
        clusters,
        refl,
        none_connected connection.meta.name clusters (
            Perm.eq-nil (
              Perm.trans (Perm.symm (s.sort-perm String text_lt names)) (rw sorted (Perm.refl _)))),
      )

  delete_unless-KeepsReferenced :
      (r : Result (List String))
      → referencing_cluster_names api omni connection w.store ≡ r
      → KeepsReferenced (delete_unless api omni connection r w)
  unfolding delete_unless referencing_cluster_names
  delete_unless-KeepsReferenced (err e) h =
      (refl, inr (inr (inl (λ same. absurd (cc same)), inl refl)))
  delete_unless-KeepsReferenced (ok []) h =
      let (clusters, read, unused) = no_references _ h in
      (refl, inr (inl (clusters, read, unused, refl)))
  delete_unless-KeepsReferenced (ok (name ∷ names)) h = (
    refl,
    inr (inr (inr (inr (ground arith)), inr (name ∷ names, (λ empty. absurd (cc empty)), h, refl))),
  )

  -- A deletion of a connection leaves Omni as it was, and ends in one of three ways: there was no
  -- finalizer and nothing happens; no cluster of the namespace refers to the connection, and the
  -- finalizers are taken off; or the API's objects are as they were, or the status names the clusters
  -- that are waited for, of which there is at least one, and controller-runtime calls again.
  pub reconcile_delete-KeepsReferenced : KeepsReferenced (reconcile_delete api omni connection w)
  unfolding reconcile_delete
  reconcile_delete-KeepsReferenced =
      if_cases KeepsReferenced (not (has_finalizer connection))
        (λ h. (refl, inl (ground arith, refl))) (λ _. delete_unless-KeepsReferenced _ refl)
