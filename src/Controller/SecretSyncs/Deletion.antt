-- ===== src/Controller/SecretSyncs/Deletion.antt =====
-- omnisecretsync_controller.go: when an OmniSecretSync that is deleted loses its finalizer.
use omni_cluster_operator.Base.{
  false, some, not, ◌≡◌, ◌⊎◌, inl, inr, refl, ap, arith, ◌==◌, eq_iff, if_cases,
}
use omni_cluster_operator.Api.Meta.{Bytes}
use omni_cluster_operator.Api.Common.{finalizer}
use omni_cluster_operator.Api.Workload.{OmniSecretSync, OmniSecretSyncStatus, policy_orphan}
use omni_cluster_operator.External.{Result, ok, err, External}
use omni_cluster_operator.SecretSync.Desired.{kubeconfig_secret_key}
use omni_cluster_operator.SecretSync.Client.{Workload, delete}
use omni_cluster_operator.Controller.Kube.{Api, Runtime, DeepEqual, World, Outcome, after, minute}
use omni_cluster_operator.Controller.Objects.{has, unless_failed-world}
use omni_cluster_operator.Controller.Stages.{
  IsRetried, unless_failed-IsRetried, IsKubeconfig, Passes, unless_done-cases,
  kubeconfig_found-Passes,
}
use omni_cluster_operator.Controller.SecretSyncs.Status.{
  SecretSyncStatusUpdate, update_secret_sync_status,
}
use omni_cluster_operator.Controller.SecretSyncs.Reconcile.{
  kubeconfig_key, deleted_target, remove_finalizer, report, reports, kubeconfig, deleted,
  delete_with, reconcile_delete,
}

module _ ⦃x : External⦄ ⦃t : Runtime⦄ ⦃d : DeepEqual OmniSecretSyncStatus⦄ (api : Api)
    (c : Workload) (item : OmniSecretSync) (w : World api.Store c.World) where
  -- Of the API server's objects, only the status of the item may have been written.
  abbrev pub StatusOnly : World api.Store c.World → Type 0
  StatusOnly v =
      (v.store ≡ w.store)
      ⊎ ((input : SecretSyncStatusUpdate) × (v.store
            ≡ (update_secret_sync_status api item input w.store).1))

  abbrev pub Spared : World api.Store c.World → Type 0
  Spared v = (v.remote ≡ w.remote) × StatusOnly v

  -- The kubeconfig that the item names.
  abbrev pub HasKubeconfig : Bytes → Type 0
  HasKubeconfig =
      IsKubeconfig (api.secrets.get (kubeconfig_key item) w.store) (kubeconfig_secret_key item)

  report-Spared : (input : SecretSyncStatusUpdate) → Spared (report api c item input w).1
  report-Spared input = (refl, inr (input, refl))

  pub kubeconfig-Passes : Passes HasKubeconfig Spared w (kubeconfig api c item w)
  unfolding kubeconfig
  kubeconfig-Passes =
      kubeconfig_found-Passes (reports api c item) (kubeconfig_key item)
        (kubeconfig_secret_key item) w Spared (refl, inl refl) (λ _. report-Spared _)
        (λ _. report-Spared _) (λ _. report-Spared _)
        (api.secrets.get (kubeconfig_key item) w.store)

  -- There was no finalizer, and nothing happens.
  abbrev Untouched : Outcome × World api.Store c.World → Type 0
  Untouched p = (has finalizer item.meta ≡ false) × (p.1 ≡ w)

  -- The workload cluster deleted the target, or had none that the item owns.
  abbrev Cleared : World api.Store c.World → Type 0
  Cleared v =
      (bytes : Bytes) × HasKubeconfig bytes
      × (delete c item bytes (deleted_target item) w.remote ≡ (ok tt, v.remote))

  -- The finalizer is taken off, for a reason.
  abbrev Released : Outcome × World api.Store c.World → Type 0
  Released p =
      (((item.spec.deletion_policy ≡ policy_orphan) × (p.1.remote ≡ w.remote)) ⊎ Cleared p.1)
      × (p.1.store ≡ (remove_finalizer api item w.store).1)

  -- Only the status is written, and the deletion is tried again.
  abbrev Kept : Outcome × World api.Store c.World → Type 0
  Kept p = IsRetried p.0 × StatusOnly p.1

  abbrev pub ClearsTarget : Outcome × World api.Store c.World → Type 0
  ClearsTarget p = Untouched p ⊎ Released p ⊎ Kept p

  deleted-ClearsTarget :
      (bytes : Bytes)
      → HasKubeconfig bytes
      → (r : Result (Unit {0})) (remote : c.World)
      → delete c item bytes (deleted_target item) w.remote ≡ (r, remote)
      → ClearsTarget (deleted api c item (r, record w { remote = remote }))
  unfolding deleted
  deleted-ClearsTarget bytes good (ok _) remote h = inr (inl (inr (bytes, good, h), refl))
  deleted-ClearsTarget bytes good (err e) remote h = inr (
      inr (
        unless_failed-IsRetried (after minute (some e)) _ (inl (λ same. absurd (cc same))),
        inr (_, ap (λ (v : World api.Store c.World). v.store) (unless_failed-world _ _ _)),
      ))

  -- A deletion ends in one of three ways: there was no finalizer and nothing happens; the finalizer is
  -- taken off, which happens only under the policy Orphan, with the workload cluster as it was, or
  -- after the workload cluster answered the deletion of the target without an error, under the
  -- kubeconfig that the item names; or at most the status is written, and controller-runtime calls
  -- again.
  pub reconcile_delete-ClearsTarget : ClearsTarget (reconcile_delete api c item w)
  unfolding reconcile_delete delete_with
  reconcile_delete-ClearsTarget =
      if_cases ClearsTarget (not (has finalizer item.meta)) (λ h. inl (ground arith, refl))
        (λ _.
          if_cases ClearsTarget (item.spec.deletion_policy == policy_orphan)
            (λ orphan.
              inr
                (inl (inl ((eq_iff item.spec.deletion_policy policy_orphan).0 orphan, refl), refl)))
            (λ _.
              unless_done-cases HasKubeconfig Spared w ClearsTarget (delete_with api c item)
                (kubeconfig api c item w) kubeconfig-Passes
                (λ bytes good. deleted-ClearsTarget bytes good _ _ refl)
                (λ o v kept again. inr (inr (again, kept.1)))))
