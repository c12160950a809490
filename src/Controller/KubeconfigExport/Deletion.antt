-- ===== src/Controller/KubeconfigExport/Deletion.antt =====
-- omnikubeconfigexport_controller.go: which Secret goes with an OmniKubeconfigExport that is deleted.
use omni_cluster_operator.Base.{
  Bool, true, false, Option, none, some, not, ◌≡◌, ◌≢◌, ◌⊎◌, inl, inr, refl, arith, ◌==◌, ◌&&◌,
  if_cases,
}
use omni_cluster_operator.Api.Meta.{Secret}
use omni_cluster_operator.Api.Common.{finalizer}
use omni_cluster_operator.Api.Workload.{
  OmniKubeconfigExport, OmniKubeconfigExportStatus, policy_delete,
}
use omni_cluster_operator.External.{Error, Result, ok, err, is_not_found, External}
use omni_cluster_operator.Export
use omni_cluster_operator.Controller.Kube.{Api, Runtime, DeepEqual, World, Outcome}
use omni_cluster_operator.Controller.Objects.{has, without_finalizer}
use omni_cluster_operator.Controller.Omni.{Omni}
use omni_cluster_operator.Controller.KubeconfigExport.Previous.{target_secret}
use omni_cluster_operator.Controller.KubeconfigExport.Generated.{Kubeconfigs}
use omni_cluster_operator.Controller.KubeconfigExport.Reconcile.{
  release, secret_deleted, delete_target, reconcile_delete,
}

-- Under this specification the target goes with the export.
abbrev pub deletes_target : OmniKubeconfigExport → Bool
deletes_target item =
    item.spec.deletion_policy == policy_delete && not (item.spec.target_secret_ref.name == "")

module _ ⦃x : External⦄ ⦃t : Runtime⦄ ⦃d : DeepEqual OmniKubeconfigExportStatus⦄ (api : Api)
    (omni : Omni) (k : Kubeconfigs) (item : OmniKubeconfigExport)
    (w : World api.Store omni.Remote) where
  -- The update that takes the finalizer off, from this store on.
  abbrev pub ReleasedFrom : api.Store → Outcome × World api.Store omni.Remote → Type 0
  ReleasedFrom store p =
      p.1.store
      ≡ (api.kubeconfig_exports.update
          (record item { meta = without_finalizer finalizer item.meta }) store).1

  -- There was no finalizer, and nothing happens.
  abbrev Untouched : Outcome × World api.Store omni.Remote → Type 0
  Untouched p = (has finalizer item.meta ≡ false) × (p.1 ≡ w)

  -- No Secret is deleted: the policy keeps it, it is not there, or the export does not own it.
  abbrev Spares : Outcome × World api.Store omni.Remote → Type 0
  Spares p =
      ReleasedFrom w.store p
      × ((deletes_target item ≡ false)
          ⊎ (target_secret api item w.store ≡ ok none)
          ⊎ ((secret : Secret) × (target_secret api item w.store ≡ ok (some secret))
              × (Export.is_owned_secret item (some secret) ≡ false)))

  -- A Secret that goes with the export: it was found, and the export owns it.
  pub record IsDoomed (secret : Secret) : Type 0 where
    pub deletes : deletes_target item ≡ true
    pub read : target_secret api item w.store ≡ ok (some secret)
    pub owned : Export.is_owned_secret item (some secret) ≡ true

  -- The Secret was deleted, or was gone, before the finalizer is taken off.
  abbrev Clears : Outcome × World api.Store omni.Remote → Type 0
  Clears p =
      (secret : Secret) × IsDoomed secret
      × (((api.secrets.delete secret w.store).0 ≡ ok tt)
          ⊎ ((e : Error) × ((api.secrets.delete secret w.store).0 ≡ err e)
              × (is_not_found e ≡ true)))
      × ReleasedFrom (api.secrets.delete secret w.store).1 p

  -- The Secret could not be read or deleted, and the outcome is that error.
  abbrev Kept : Outcome × World api.Store omni.Remote → Type 0
  Kept p =
      (p.0.error ≢ none)
      × ((p.1.store ≡ w.store)
          ⊎ ((secret : Secret) × IsDoomed secret
              × (p.1.store ≡ (api.secrets.delete secret w.store).1)))

  abbrev pub EndsTarget : Outcome × World api.Store omni.Remote → Type 0
  EndsTarget p = (p.1.remote ≡ w.remote) × (Untouched p ⊎ Spares p ⊎ Clears p ⊎ Kept p)

  deleted-EndsTarget :
      (secret : Secret)
      → IsDoomed secret
      → (r : Result (Unit {0})) → (api.secrets.delete secret w.store).0 ≡ r
      → EndsTarget (
          secret_deleted api omni k item
            (r, record w { store = (api.secrets.delete secret w.store).1 }))
  unfolding secret_deleted release
  deleted-EndsTarget secret doomed (ok _) h = (refl, inr (inr (inl (secret, doomed, inl h, refl))))
  deleted-EndsTarget secret doomed (err e) h =
      if_cases EndsTarget (is_not_found e)
        (λ gone. (refl, inr (inr (inl (secret, doomed, inr (e, h, gone), refl)))))
        (λ _. (refl, inr (inr (inr ((λ same. absurd (cc same)), inr (secret, doomed, refl))))))

  target-EndsTarget :
      deletes_target item ≡ true
      → (r : Result (Option Secret)) → target_secret api item w.store ≡ r
      → EndsTarget (delete_target api omni k item r w)
  unfolding delete_target release
  target-EndsTarget deletes (err e) read =
      (refl, inr (inr (inr ((λ same. absurd (cc same)), inl refl))))
  target-EndsTarget deletes (ok none) read = (refl, inr (inl (refl, inr (inl read))))
  target-EndsTarget deletes (ok (some secret)) read =
      if_cases EndsTarget (Export.is_owned_secret item (some secret))
        (λ owned.
          deleted-EndsTarget secret (record { deletes = deletes; read = read; owned = owned }) _
            refl)
        (λ foreign. (refl, inr (inl (refl, inr (inr (secret, read, foreign))))))

  -- A deletion of an export leaves Omni as it was, and ends in one of four ways: there was no finalizer
  -- and nothing happens; the finalizer is taken off and no Secret is deleted, because the policy keeps
  -- the target, the target is not there, or the export does not own it; the target is one that the
  -- export owns, it was deleted or gone, and the finalizer is taken off after that; or the target could
  -- not be read or deleted, the outcome is an error, and the finalizer stays.
  pub reconcile_delete-EndsTarget : EndsTarget (reconcile_delete api omni k item w)
  unfolding reconcile_delete release
  reconcile_delete-EndsTarget =
      if_cases EndsTarget (not (has finalizer item.meta)) (λ h. (refl, inl (ground arith, refl)))
        (λ _.
          if_cases EndsTarget (deletes_target item) (λ deletes. target-EndsTarget deletes _ refl)
            (λ keeps. (refl, inr (inl (refl, inl keeps)))))
