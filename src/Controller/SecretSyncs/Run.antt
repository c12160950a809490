-- ===== src/Controller/SecretSyncs/Run.antt =====
-- omnisecretsync_controller.go: what a reconciliation does to the workload cluster, and when it comes
-- to rest.
use omni_cluster_operator.Base.{
  true, Option, none, some, ◌≡◌, ◌≢◌, ◌⊎◌, inl, inr, refl, sym, ap, ◌∙◌,
}
use omni_cluster_operator.Api.Meta.{Bytes, Secret}
use omni_cluster_operator.Api.Common.{finalizer}
use omni_cluster_operator.Api.Template.{OmniCluster}
use omni_cluster_operator.Api.Workload.{OmniSecretSync, OmniSecretSyncStatus}
use omni_cluster_operator.External.{Error, Result, ok, err, External}
use omni_cluster_operator.Template.Parts.{cluster_name}
use omni_cluster_operator.SecretSync.Desired.{SyncResult}
use omni_cluster_operator.SecretSync.Client.{Workload, sync}
use omni_cluster_operator.Controller.Kube.{
  Api, Runtime, DeepEqual, World, Outcome, unless_failed, after, minute,
}
use omni_cluster_operator.Controller.Objects.{has, unless_failed-world}
use omni_cluster_operator.Controller.Stages.{
  IsRetried, unless_failed-IsRetried, Passes, unless_done-cases, not_found-Passes,
  ensure_finalizer-Passes,
}
use omni_cluster_operator.Controller.SpecErrors.{secret_sync_spec_error}
use omni_cluster_operator.Controller.SecretSyncs.Reconcile.{
  cluster_key, source_key, delete_previous_target_secret, cluster_found, source_found, synced,
  moved, reconcile_ready, reconcile_checked, owned, reconcile_alive,
}
use omni_cluster_operator.Controller.SecretSyncs.Deletion.{HasKubeconfig, Spared, kubeconfig-Passes}

module _ ⦃x : External⦄ ⦃t : Runtime⦄ ⦃d : DeepEqual OmniSecretSyncStatus⦄ (api : Api)
    (c : Workload) (item : OmniSecretSync) (w : World api.Store c.World) where
  -- What a sync acts on, as the API server has it.
  pub record IsReady (cluster : OmniCluster) (source : Secret) (bytes : Bytes) : Type 0 where
    pub finalized : has finalizer item.meta ≡ true
    pub valid : secret_sync_spec_error item ≡ none
    pub has_cluster : api.clusters.get (cluster_key item) w.store ≡ ok cluster
    pub has_source : api.secrets.get (source_key item) w.store ≡ ok source
    pub has_kubeconfig : HasKubeconfig api c item w bytes

  -- The workload cluster is as it was, and controller-runtime calls again.
  abbrev Waits : Outcome × World api.Store c.World → Type 0
  Waits p = (p.1.remote ≡ w.remote) × IsRetried p.0

  -- The specification is refused, and the workload cluster is as it was.
  abbrev Refuses : Outcome × World api.Store c.World → Type 0
  Refuses p = (p.1.remote ≡ w.remote) × (secret_sync_spec_error item ≢ none)

  -- The deletion of the previous target failed: nothing is synced, and controller-runtime calls again.
  abbrev Sticks : Bytes → Outcome × World api.Store c.World → Type 0
  Sticks bytes p =
      (e : Error) × (delete_previous_target_secret c item bytes w.remote ≡ (err e, p.1.remote))
      × IsRetried p.0

  -- The previous target is out of the way, and the workload cluster is as one `Sync` left it; where
  -- `Sync` failed, controller-runtime calls again.
  abbrev Syncs : OmniCluster → Secret → Bytes → Outcome × World api.Store c.World → Type 0
  Syncs cluster source bytes p =
      (remote : c.World) × (r : Result SyncResult) × (delete_previous_target_secret c item bytes
          w.remote
        ≡ (ok tt, remote))
      × (sync c item source bytes (cluster_name cluster) remote ≡ (r, p.1.remote))
      × (((result : SyncResult) × (r ≡ ok result)) ⊎ IsRetried p.0)

  abbrev pub EndsSync : Outcome × World api.Store c.World → Type 0
  EndsSync p =
      Waits p
      ⊎ Refuses p
      ⊎ ((cluster : OmniCluster) × (source : Secret) × (bytes : Bytes) × IsReady cluster source
            bytes
          × (Sticks bytes p ⊎ Syncs cluster source bytes p))

  remote-after :
      (o : Outcome) (r : Result (Unit {0})) (v : World api.Store c.World)
      → (unless_failed o (r, v)).1.remote ≡ v.remote
  remote-after o r v = ap (λ (u : World api.Store c.World). u.remote) (unless_failed-world o r v)

  module _ (cluster : OmniCluster) (source : Secret) (bytes : Bytes)
      (ready : IsReady cluster source bytes) where
    synced-EndsSync :
        (remote : c.World)
        → delete_previous_target_secret c item bytes w.remote ≡ (ok tt, remote)
        → (r : Result SyncResult) (final : c.World)
        → sync c item source bytes (cluster_name cluster) remote ≡ (r, final)
        → EndsSync (synced api c item (r, record w { remote = final }))
    unfolding synced
    synced-EndsSync remote moved (ok result) final h = inr (
        inr (
          cluster,
          source,
          bytes,
          ready,
          inr (remote, ok result, moved, rw (remote-after _ _ _) h, inl (result, refl)),
        ))
    synced-EndsSync remote moved (err e) final h = inr (
        inr (
          cluster,
          source,
          bytes,
          ready,
          inr (
            remote,
            err e,
            moved,
            rw (remote-after _ _ _) h,
            inr (
                unless_failed-IsRetried (after minute (some e)) _ (inl (λ same. absurd (cc same)))),
          ),
        ))

    moved-EndsSync :
        (r : Result (Unit {0})) (remote : c.World)
        → delete_previous_target_secret c item bytes w.remote ≡ (r, remote)
        → EndsSync (moved api c item cluster source bytes (r, record w { remote = remote }))
    unfolding moved
    moved-EndsSync (ok _) remote h = synced-EndsSync remote h _ _ refl
    moved-EndsSync (err e) remote h = inr (
        inr (
          cluster,
          source,
          bytes,
          ready,
          inl (
            e,
            rw (remote-after _ _ _) h,
            unless_failed-IsRetried (after minute (some e)) _ (inl (λ same. absurd (cc same))),
          ),
        ))

  abbrev Same : World api.Store c.World → Type 0
  Same v = v.remote ≡ w.remote

  cluster_found-Passes :
      (r : Result OmniCluster)
      → Passes (λ cluster. r ≡ ok cluster) Same w (cluster_found api c item r w)
  unfolding cluster_found
  cluster_found-Passes (ok cluster) = inl (cluster, refl, refl)
  cluster_found-Passes (err e) = not_found-Passes _ Same w _ e refl refl

  source_found-Passes :
      (r : Result Secret) → Passes (λ source. r ≡ ok source) Same w (source_found api c item r w)
  unfolding source_found
  source_found-Passes (ok source) = inl (source, refl, refl)
  source_found-Passes (err e) = not_found-Passes _ Same w _ e refl refl

  ready-EndsSync :
      (cluster : OmniCluster) (source : Secret) (bytes : Bytes)
      → IsReady cluster source bytes
      → EndsSync (reconcile_ready api c item cluster source bytes w)
  unfolding reconcile_ready
  ready-EndsSync cluster source bytes ready = moved-EndsSync cluster source bytes ready _ _ refl

  waits : (o : Outcome) (v : World api.Store c.World) → Same v → IsRetried o → EndsSync (o, v)
  waits o v same again = inl (same, again)

  checked-EndsSync :
      has finalizer item.meta ≡ true
      → (e : Option Error) → secret_sync_spec_error item ≡ e
      → EndsSync (reconcile_checked api c item e w)
  unfolding reconcile_checked
  checked-EndsSync finalized (some e) h = inr (inl (refl, λ valid. absurd (cc (sym h ∙ valid))))
  checked-EndsSync finalized none valid =
      unless_done-cases _ Same w EndsSync _ _ (cluster_found-Passes _)
        (λ cluster has_cluster.
          unless_done-cases _ Same w EndsSync _ _ (source_found-Passes _)
            (λ source has_source.
              unless_done-cases (HasKubeconfig api c item w) (Spared api c item w) w EndsSync _ _
                (kubeconfig-Passes api c item w)
                (λ bytes has_kubeconfig. ready-EndsSync cluster source bytes (record {
                  finalized = finalized;
                  valid = valid;
                  has_cluster = has_cluster;
                  has_source = has_source;
                  has_kubeconfig = has_kubeconfig;
                }))
                (λ o v kept. waits o v kept.0))
            waits)
        waits

  -- A reconciliation of an item that is not being deleted ends in one of three ways: the workload
  -- cluster is as it was, and controller-runtime calls again; the specification is refused, and the
  -- workload cluster is as it was; or the item has its finalizer, its specification is accepted, and
  -- the API server has its cluster, its source and a kubeconfig that loads, and then either the
  -- deletion of the previous target failed, nothing is synced and controller-runtime calls again, or
  -- the workload cluster is as that deletion and one `Sync` left it, and `Sync` succeeded or
  -- controller-runtime calls again.
  pub reconcile_alive-EndsSync : EndsSync (reconcile_alive api c item w)
  unfolding reconcile_alive
  reconcile_alive-EndsSync =
      unless_done-cases (λ _. has finalizer item.meta ≡ true) Same w EndsSync _ _
        (ensure_finalizer-Passes api.secret_syncs (has finalizer item.meta) (owned api c item) w)
        (λ _ finalized. checked-EndsSync finalized _ refl) waits
