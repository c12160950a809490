-- ===== src/Controller/KubeconfigExport/Rotation.antt =====
-- omnikubeconfigexport_controller.go: when a reconciliation asks Omni for a kubeconfig, and that each
-- export is looked at again.
use omni_cluster_operator.Base.{
  String, Bool, true, false, Option, none, some, ◌≡◌, ◌≢◌, ◌⊎◌, inl, inr, refl, sym, ◌∙◌, arith,
}
use omni_cluster_operator.Base.Int.{◌<ℤ◌}
use omni_cluster_operator.Api.Meta.{Secret}
use omni_cluster_operator.Api.Common.{finalizer}
use omni_cluster_operator.Api.Template.{OmniCluster, OmniConnection}
use omni_cluster_operator.Api.Workload.{OmniKubeconfigExport, OmniKubeconfigExportStatus}
use omni_cluster_operator.External.{Error, Result, ok, err, External}
use omni_cluster_operator.Export
use omni_cluster_operator.Template.Parts
use omni_cluster_operator.Controller.Kube.{
  Api, Runtime, DeepEqual, World, Outcome, after, failed, requeued, minute, unless_failed,
  unless_done,
}
use omni_cluster_operator.Controller.Objects.{has}
use omni_cluster_operator.Controller.Omni.{Omni}
use omni_cluster_operator.Controller.Stages.{
  IsRetried, unless_done-cases, not_found-Passes, ensure_finalizer,
}
use omni_cluster_operator.Controller.SpecErrors.{kubeconfig_export_spec_error}
use omni_cluster_operator.Controller.KubeconfigExport.State.{CurrentKubeconfigState}
use omni_cluster_operator.Controller.KubeconfigExport.Reuse.{
  current_kubeconfig_secret_state-IsFresh,
}
use omni_cluster_operator.Controller.KubeconfigExport.Later.{reusable_is_current}
use omni_cluster_operator.Controller.KubeconfigExport.Looks.{
  Looks, rotation, report_exported-Looks, generated-Looks,
}
use omni_cluster_operator.Controller.KubeconfigExport.Previous.{
  target_secret, delete_previous_target_secret,
}
use omni_cluster_operator.Controller.KubeconfigExport.Generated.{
  Kubeconfigs, cluster_key, connection_key, kubeconfig_options,
}
use omni_cluster_operator.Controller.KubeconfigExport.Reconcile.{
  cluster_found, connection_found, generate_kubeconfig, reusable, keep_or_export, with_target,
  moved, hashed, reconcile_connected, reconcile_checked, owned, reconcile_alive,
}

module _ ⦃x : External⦄ ⦃t : Runtime⦄ ⦃d : DeepEqual OmniKubeconfigExportStatus⦄ (api : Api)
    (omni : Omni) (k : Kubeconfigs) (item : OmniKubeconfigExport)
    (w : World api.Store omni.Remote) where
  -- What comes before a Secret is kept or exported: the specification is accepted, the cluster and its
  -- connection are there, and the target was looked up, once the previous target was dealt with.
  pub record IsTargeted (cluster : OmniCluster) (connection : OmniConnection) : Type 0 where
    pub finalized : has finalizer item.meta ≡ true
    pub valid : kubeconfig_export_spec_error item ≡ none
    pub has_cluster : api.clusters.get (cluster_key item) w.store ≡ ok cluster
    pub has_connection : api.connections.get (connection_key item cluster) w.store ≡ ok connection
    pub spec_hash : String
    pub hashes : Export.spec_hash item (Parts.cluster_name cluster) ≡ ok spec_hash
    pub found : Option Secret
    pub read : target_secret api item (delete_previous_target_secret api item w.store).1 ≡ ok found

  -- Why an export waits before its target is looked at.
  pub data IsUnready : Type 0 where
    unowned : has finalizer item.meta ≡ false → IsUnready
    clusterless : (e : Error) → api.clusters.get (cluster_key item) w.store ≡ err e → IsUnready
    unconnected :
        (cluster : OmniCluster) (e : Error)
        → api.clusters.get (cluster_key item) w.store ≡ ok cluster
        → api.connections.get (connection_key item cluster) w.store ≡ err e
        → IsUnready

  abbrev Ran : Type 0
  Ran = Outcome × World api.Store omni.Remote

  abbrev Same : World api.Store omni.Remote → Type 0
  Same v = v.remote ≡ w.remote

  -- Omni is as it was, with an error, or because the export is not ready and with another call.
  abbrev Rests : Ran → Type 0
  Rests p = Same p.1 × ((p.0.error ≢ none) ⊎ (IsUnready × IsRetried p.0))

  -- The specification is refused, and Omni is as it was.
  abbrev Refuses : Ran → Type 0
  Refuses p = Same p.1 × (kubeconfig_export_spec_error item ≢ none)

  -- The Secret that was found is kept, Omni is as it was, and the export is looked at again when the
  -- rotation that the Secret tells of is due.
  abbrev Keeps : Ran → Type 0
  Keeps p =
      (cluster : OmniCluster) × (connection : OmniConnection) × (target : IsTargeted cluster
        connection)
      × (state : CurrentKubeconfigState) × (reusable api omni k item cluster connection
            target.spec_hash (api.now w.store) target.found
          ≡ some state)
      × Looks (api.now w.store) state.next_rotation_time w.remote p

  -- No Secret can be kept, Omni was asked for one kubeconfig, and the export is looked at again when
  -- the rotation of what was exported is due.
  abbrev Asks : Ran → Type 0
  Asks p =
      (cluster : OmniCluster) × (connection : OmniConnection) × (target : IsTargeted cluster
        connection)
      × (reusable api omni k item cluster connection target.spec_hash (api.now w.store) target.found
          ≡ none)
      × Looks (api.now w.store) (rotation api omni k item cluster connection (api.now w.store))
          (omni.kubeconfig connection (Parts.cluster_name cluster) (kubeconfig_options item)
            w.remote).1
          p

  abbrev pub EndsExport : Ran → Type 0
  EndsExport p = Rests p ⊎ Refuses p ⊎ Keeps p ⊎ Asks p

  fails : (e : Error) (v : World api.Store omni.Remote) → Same v → EndsExport (failed e, v)
  fails e v same = inl (same, inl (λ h. absurd (cc h)))

  module _ (cluster : OmniCluster) (connection : OmniConnection)
      (finalized : has finalizer item.meta ≡ true)
      (valid : kubeconfig_export_spec_error item ≡ none)
      (has_cluster : api.clusters.get (cluster_key item) w.store ≡ ok cluster)
      (has_connection : api.connections.get (connection_key item cluster) w.store
        ≡ ok connection) where
    -- The world once the previous target was dealt with.
    abbrev cleaned : World api.Store omni.Remote
    cleaned = record w { store = (delete_previous_target_secret api item w.store).1 }

    keep-EndsExport :
        (target : IsTargeted cluster connection) (state : Option CurrentKubeconfigState)
        → reusable api omni k item cluster connection target.spec_hash
            (api.now w.store)
            target.found
          ≡ state
        → EndsExport (
            keep_or_export api omni k item cluster connection target.spec_hash
              (api.now w.store)
              target.found
              state
              cleaned)
    unfolding keep_or_export generate_kubeconfig
    keep-EndsExport target none stale =
        let (r, remote) =
          omni.kubeconfig connection (Parts.cluster_name cluster) (kubeconfig_options item)
            w.remote in
        inr (
          inr (
            inr (
              cluster,
              connection,
              target,
              stale,
              generated-Looks api omni k item cluster connection (api.now w.store) valid
                  target.spec_hash target.found r
                  (record { store = cleaned.store; remote = remote }),
            )))
    keep-EndsExport target (some state) kept = inr (
        inr (
          inl (
            cluster,
            connection,
            target,
            state,
            kept,
            report_exported-Looks api omni k item cluster connection (api.now w.store) state cleaned
                (reused_in_time target.found target.spec_hash state kept),
          )))
      where
        reused_in_time :
            (found : Option Secret) (spec_hash : String) (state : CurrentKubeconfigState)
            → reusable api omni k item cluster connection spec_hash (api.now w.store) found
              ≡ some state
            → api.now w.store <ℤ state.next_rotation_time
        reused_in_time none spec_hash state kept = absurd (cc kept)
        reused_in_time (some secret) spec_hash state kept =
            (current_kubeconfig_secret_state-IsFresh secret (Export.target_secret_key item)
              spec_hash (api.now w.store) item.spec.renew_before state
              (reusable_is_current k.validate secret _ spec_hash _ _ state kept)).in_time

    with_target-EndsExport :
        (spec_hash : String)
        → Export.spec_hash item (Parts.cluster_name cluster) ≡ ok spec_hash
        → (r : Result (Option Secret)) → target_secret api item cleaned.store ≡ r
        → EndsExport
            (with_target api omni k item cluster connection spec_hash (api.now w.store) r cleaned)
    unfolding with_target
    with_target-EndsExport spec_hash hashes (err e) read = fails e cleaned refl
    with_target-EndsExport spec_hash hashes (ok found) read =
        let target : IsTargeted cluster connection = record {
          finalized = finalized;
          valid = valid;
          has_cluster = has_cluster;
          has_connection = has_connection;
          spec_hash = spec_hash;
          hashes = hashes;
          found = found;
          read = read;
        } in
        keep-EndsExport target _ refl

    moved-EndsExport :
        (spec_hash : String)
        → Export.spec_hash item (Parts.cluster_name cluster) ≡ ok spec_hash
        → (r : Result (Unit {0}))
        → EndsExport
            (moved api omni k item cluster connection spec_hash (api.now w.store) (r, cleaned))
    unfolding moved
    moved-EndsExport spec_hash hashes (err e) = fails e cleaned refl
    moved-EndsExport spec_hash hashes (ok _) = with_target-EndsExport spec_hash hashes _ refl

    hashed-EndsExport :
        (r : Result String)
        → Export.spec_hash item (Parts.cluster_name cluster) ≡ r
        → EndsExport (hashed api omni k item cluster connection r w)
    unfolding hashed
    hashed-EndsExport (err e) hashes = fails e w refl
    hashed-EndsExport (ok spec_hash) hashes = moved-EndsExport spec_hash hashes _

  -- A step that stops an export that is not ready.
  rests :
      IsUnready
      → (o : Outcome) (v : World api.Store omni.Remote) → Same v
      → IsRetried o
      → EndsExport (o, v)
  rests unready o v same again = inl (same, inr (unready, again))

  -- A report that ends the reconciliation of an export that is not ready.
  reported-Rests :
      IsUnready
      → (o : Outcome) (p : Result (Unit {0}) × World api.Store omni.Remote) → Same p.1
      → IsRetried o
      → EndsExport (unless_failed o p)
  reported-Rests unready o (ok _, v) same again = rests unready o v same again
  reported-Rests unready o (err e, v) same again = fails e v same

  connection-EndsExport :
      (cluster : OmniCluster)
      → has finalizer item.meta ≡ true
      → kubeconfig_export_spec_error item ≡ none
      → api.clusters.get (cluster_key item) w.store ≡ ok cluster
      → (r : Result OmniConnection) → api.connections.get (connection_key item cluster) w.store ≡ r
      → EndsExport (
          unless_done
            (reconcile_connected api omni k item cluster)
            (connection_found api omni k item cluster r w))
  unfolding connection_found reconcile_connected
  connection-EndsExport cluster finalized valid has_cluster (ok connection) has_connection =
      hashed-EndsExport cluster connection finalized valid has_cluster has_connection _ refl
  connection-EndsExport cluster finalized valid has_cluster (err e) missing =
      reported-Rests (unconnected cluster e has_cluster missing) (after minute none)
        (_, record w { store = _ }) refl (inr (inr (ground arith)))

  cluster-EndsExport :
      has finalizer item.meta ≡ true
      → kubeconfig_export_spec_error item ≡ none
      → (r : Result OmniCluster) → api.clusters.get (cluster_key item) w.store ≡ r
      → EndsExport (
          unless_done
            (λ cluster v. unless_done (reconcile_connected api omni k item cluster) (
              connection_found api omni k item cluster
                (api.connections.get (connection_key item cluster) v.store)
                v))
            (cluster_found api omni k item r w))
  unfolding cluster_found
  cluster-EndsExport finalized valid (ok cluster) has_cluster =
      connection-EndsExport cluster finalized valid has_cluster _ refl
  cluster-EndsExport finalized valid (err e) missing =
      unless_done-cases (λ _. ⊥) Same w EndsExport _ _
        (not_found-Passes (λ _. ⊥) Same w _ e refl refl) (λ _ none. absurd none)
        (rests (clusterless e missing))

  checked-EndsExport :
      has finalizer item.meta ≡ true
      → (e : Option Error) → kubeconfig_export_spec_error item ≡ e
      → EndsExport (reconcile_checked api omni k item e w)
  unfolding reconcile_checked
  checked-EndsExport finalized (some e) refused =
      inr (inl (refl, λ valid. absurd (cc (sym refused ∙ valid))))
  checked-EndsExport finalized none valid = cluster-EndsExport finalized valid _ refl

  owned-EndsExport :
      (owns : Bool)
      → has finalizer item.meta ≡ owns
      → EndsExport (
          unless_done
            (λ _. reconcile_checked api omni k item (kubeconfig_export_spec_error item))
            (ensure_finalizer api.kubeconfig_exports owns (owned api omni k item) w))
  unfolding ensure_finalizer
  owned-EndsExport true finalized = checked-EndsExport finalized _ refl
  owned-EndsExport false missing =
      reported-Rests (unowned missing) requeued (_, record w { store = _ }) refl (inr (inl refl))

  pub reconcile_alive-EndsExport : EndsExport (reconcile_alive api omni k item w)
  unfolding reconcile_alive
  reconcile_alive-EndsExport = owned-EndsExport _ refl
