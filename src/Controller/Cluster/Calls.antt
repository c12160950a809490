-- ===== src/Controller/Cluster/Calls.antt =====
-- omnicluster_controller.go: which calls of Omni a reconciliation makes.
use omni_cluster_operator.Base.{
  String, true, false, Option, none, some, not, ◌≡◌, ◌⊎◌, inl, inr, refl, ap, arith, is_some,
  if_cases,
}
use omni_cluster_operator.Base.Order.{Sorter}
use omni_cluster_operator.Api.Meta.{Time}
use omni_cluster_operator.Api.Template.{OmniCluster, OmniConnection}
use omni_cluster_operator.External.{Error, Result, ok, err, External}
use omni_cluster_operator.Template.Parts.{cluster_name}
use omni_cluster_operator.Template.Render.{Inputs, Rendered, Encoder, render}
use omni_cluster_operator.Controller.Kube.{Api, Runtime, World, Key, Outcome, unless_failed}
use omni_cluster_operator.Controller.Omni.{Omni}
use omni_cluster_operator.Controller.Cluster.Status.{connection_key}
use omni_cluster_operator.Controller.Cluster.Inputs.{template_inputs}
use omni_cluster_operator.Controller.Cluster.Deletion.{
  has_finalizer, release, delete_options, delete_replied, delete_with, reconcile_delete,
}
use omni_cluster_operator.Controller.Cluster.Reconcile.{
  sync_options, replied, sync_rendered, sync_checked, reconcile_found, sync_inputs, sync_with,
  suspend, reconcile_cluster, reconcile,
}
use omni_cluster_operator.Controller.Objects.{unless_failed-world}

module _ ⦃x : External⦄ ⦃s : Sorter⦄ ⦃y : Encoder⦄ ⦃t : Runtime⦄ (api : Api) (omni : Omni)
    (w : World api.Store omni.Remote) where
  -- The cluster is to be synced: it is alive, has a finalizer, is not suspended, and its template is
  -- rendered and valid.
  pub record IsSyncable (cluster : OmniCluster) (connection : OmniConnection) (rendered : Rendered)
      : Type 0 where
    pub alive : is_some cluster.meta.deletion_timestamp ≡ false
    pub finalized : has_finalizer cluster ≡ true
    pub active : cluster.spec.suspend ≡ false
    pub connected : api.connections.get (connection_key cluster) w.store ≡ ok connection
    pub inputs : Inputs
    pub read : template_inputs api cluster w.store ≡ ok inputs
    pub is_rendered : render inputs ≡ ok rendered
    pub valid : t.template_error rendered.template cluster.spec.template_root ≡ none

  -- The remote cluster is to be deleted.
  pub record IsDeletable (cluster : OmniCluster) (connection : OmniConnection) : Type 0 where
    pub deleting : is_some cluster.meta.deletion_timestamp ≡ true
    pub owned : has_finalizer cluster ≡ true
    pub managed : cluster.spec.delete_policy.orphan ≡ false
    pub connected : api.connections.get (connection_key cluster) w.store ≡ ok connection

  -- Omni is as it was, or as one sync that destroys no machines left it, or as one deletion did.
  abbrev pub CallsFor : OmniCluster → Outcome × World api.Store omni.Remote → Type 0
  CallsFor cluster p =
      (p.1.remote ≡ w.remote)
      ⊎ ((connection : OmniConnection) × (rendered : Rendered) × IsSyncable cluster connection
            rendered
          × (p.1.remote
              ≡ (omni.sync_template connection rendered.template cluster.spec.template_root
                  sync_options w.remote).1))
      ⊎ ((connection : OmniConnection) × IsDeletable cluster connection
          × (p.1.remote
              ≡ (omni.delete_cluster connection (cluster_name cluster) (delete_options cluster)
                  w.remote).1))

  status_only :
      (o : Outcome) (r : Result (Unit {0})) (v : World api.Store omni.Remote)
      → (unless_failed o (r, v)).1.remote ≡ v.remote
  status_only o r v = ap (λ u. u.remote) (unless_failed-world o r v)

  module _ (cluster : OmniCluster) where
    replied-remote :
        (connection : OmniConnection) (rendered : Rendered) (now : Time) (output : String)
        (e : Option Error) (v : World api.Store omni.Remote)
        → (replied api omni cluster connection rendered now output e v).1.remote ≡ v.remote
    unfolding replied
    replied-remote connection rendered now output none v = status_only _ _ _
    replied-remote connection rendered now output (some e) v = status_only _ _ _

    delete_replied-remote :
        (output : String) (e : Option Error) (v : World api.Store omni.Remote)
        → (delete_replied api omni cluster output e v).1.remote ≡ v.remote
    unfolding delete_replied release
    delete_replied-remote output none v = status_only _ _ _
    delete_replied-remote output (some e) v = status_only _ _ _

    module _ (alive : is_some cluster.meta.deletion_timestamp ≡ false)
        (finalized : has_finalizer cluster ≡ true) (active : cluster.spec.suspend ≡ false)
        (connection : OmniConnection)
        (connected : api.connections.get (connection_key cluster) w.store ≡ ok connection) where
      sync_checked-calls :
          (inputs : Inputs) (rendered : Rendered)
          → template_inputs api cluster w.store ≡ ok inputs
          → render inputs ≡ ok rendered
          → (e : Option Error) → t.template_error rendered.template cluster.spec.template_root ≡ e
          → CallsFor cluster (sync_checked api omni cluster connection rendered e w)
      unfolding sync_checked
      sync_checked-calls inputs rendered read h (some e) v = inl (status_only _ _ _)
      sync_checked-calls inputs rendered read h none v = inr (
          inl (
            connection,
            rendered,
            record {
              alive = alive;
              finalized = finalized;
              active = active;
              connected = connected;
              inputs = inputs;
              read = read;
              is_rendered = h;
              valid = v;
            },
            replied-remote connection rendered _ _ _ _,
          ))

      sync_rendered-calls :
          (inputs : Inputs)
          → template_inputs api cluster w.store ≡ ok inputs
          → (r : Result Rendered) → render inputs ≡ r
          → CallsFor cluster (sync_rendered api omni cluster connection r w)
      unfolding sync_rendered
      sync_rendered-calls inputs read (err e) h = inl (status_only _ _ _)
      sync_rendered-calls inputs read (ok rendered) h =
          sync_checked-calls inputs rendered read h _ refl

      sync_inputs-calls :
          (r : Result Inputs)
          → template_inputs api cluster w.store ≡ r
          → CallsFor cluster (sync_inputs api omni cluster connection r w)
      unfolding sync_inputs
      sync_inputs-calls (err e) h = inl (status_only _ _ _)
      sync_inputs-calls (ok inputs) h = sync_rendered-calls inputs h (render inputs) refl

    sync_with-calls :
        is_some cluster.meta.deletion_timestamp ≡ false
        → has_finalizer cluster ≡ true
        → cluster.spec.suspend ≡ false
        → (r : Result OmniConnection) → api.connections.get (connection_key cluster) w.store ≡ r
        → CallsFor cluster (sync_with api omni cluster r w)
    unfolding sync_with
    sync_with-calls a f n (err e) h = inl (status_only _ _ _)
    sync_with-calls a f n (ok connection) h =
        sync_inputs-calls a f n connection h (template_inputs api cluster w.store) refl

    delete_with-calls :
        is_some cluster.meta.deletion_timestamp ≡ true
        → has_finalizer cluster ≡ true
        → cluster.spec.delete_policy.orphan ≡ false
        → (r : Result OmniConnection) → api.connections.get (connection_key cluster) w.store ≡ r
        → CallsFor cluster (delete_with api omni cluster r w)
    unfolding delete_with
    delete_with-calls d f m (err e) h = inl (status_only _ _ _)
    delete_with-calls d f m (ok connection) h = inr (
        inr (
          connection,
          record { deleting = d; owned = f; managed = m; connected = h },
          delete_replied-remote _ _ _,
        ))

    reconcile_cluster-calls : CallsFor cluster (reconcile_cluster api omni cluster w)
    unfolding reconcile_cluster reconcile_delete release suspend
    reconcile_cluster-calls =
        if_cases (CallsFor cluster) (is_some cluster.meta.deletion_timestamp)
          (λ d.
            if_cases (CallsFor cluster) (not (has_finalizer cluster)) (λ _. inl refl)
              (λ f.
                if_cases (CallsFor cluster) cluster.spec.delete_policy.orphan
                  (λ _. inl (status_only _ _ _))
                  (λ m. delete_with-calls d (ground arith) m _ refl)))
          (λ a.
            if_cases (CallsFor cluster) (not (has_finalizer cluster)) (λ _. inl (status_only _ _ _))
              (λ f.
                if_cases (CallsFor cluster) cluster.spec.suspend (λ _. inl refl)
                  (λ n. sync_with-calls a (ground arith) n _ refl)))

  reconcile_found-calls :
      (r : Result OmniCluster)
      → ((reconcile_found api omni r w).1.remote ≡ w.remote)
        ⊎ ((cluster : OmniCluster) × (r ≡ ok cluster)
            × CallsFor cluster (reconcile_found api omni r w))
  unfolding reconcile_found
  reconcile_found-calls (err e) = inl refl
  reconcile_found-calls (ok cluster) = inr (cluster, refl, reconcile_cluster-calls cluster)

  -- After a reconciliation Omni is as it was, or the key names a cluster and Omni is as one call left
  -- it: one sync, without the destruction of machines, of a cluster that is alive, has a finalizer,
  -- is not suspended and has a rendered and valid template; or one deletion of a cluster that is being
  -- deleted, has a finalizer and is not to be orphaned.
  pub reconcile-calls :
      (key : Key)
      → ((reconcile api omni key w).1.remote ≡ w.remote)
        ⊎ ((cluster : OmniCluster) × (api.clusters.get key w.store ≡ ok cluster)
            × CallsFor cluster (reconcile api omni key w))
  unfolding reconcile
  reconcile-calls key = reconcile_found-calls (api.clusters.get key w.store)
