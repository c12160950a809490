-- ===== src/Controller/Wakes.antt =====
-- child_watch.go, predicates.go and the controllers of workload resources: a reconciler is called when
-- what it reads changes, and not for the status that it writes.
use omni_cluster_operator.Base.{
  List, [], ◌∷◌, Bool, true, false, some, ◌≡◌, ◌⊎◌, inl, inr, sym, ap, subst, arith, ◌==◌, ◌||◌,
  eq_iff, Bool-cases, ◌↔◌, is_some,
}
use omni_cluster_operator.Base.Int.{ℤ, leb_ℤ}
use mathlib.Core.Logic.Or
use mathlib.Core.List.{Mem, mem-cons, mem-cons_self, mem-cons_of_mem, not-mem-nil}
use mathlib.Core.List.Perm
use mathlib.Core.Logic.{∥∥₁_prop}
use omni_cluster_operator.Base.Order.{Sorter}
use omni_cluster_operator.Api.Meta.{ObjectMeta, Time}
use omni_cluster_operator.Api.Workload.{OmniHelmRelease, OmniSecretSync}
use omni_cluster_operator.External.{Result, ok, External}
use omni_cluster_operator.Controller.Kube.{Api, Runtime, Key, key_of_meta}
use omni_cluster_operator.Controller.Watches.{
  updated, spec_or_deletion_changed_predicate, spec_or_deletion_differs, keys_where, less_keys,
  sort_requests, sorted_listed, secret_sync_requests_for_secret, helm_release_requests_for_secret,
}
use omni_cluster_operator.Controller.SecretSyncs.Status.{SecretSyncStatusUpdate, secret_sync_status}
use omni_cluster_operator.Controller.SecretSyncs
use omni_cluster_operator.Controller.HelmReleases
use omni_cluster_operator.Controller.HelmReleases.Status.{
  HelmReleaseStatusUpdate, helm_release_status,
}

leb_antisym : (a b : ℤ) → leb_ℤ a b ≡ true → leb_ℤ b a ≡ true → a ≡ b
leb_antisym a b h k = ground arith

module _ {Item : Type 0} (meta : Item → ObjectMeta) (refers : Item → Bool) where
  mem-keys_where :
      (items : List Item) (a : Item)
      → Mem a items
      → refers a ≡ true
      → Mem (key_of_meta (meta a)) (keys_where meta refers items)
  unfolding keys_where
  mem-keys_where [] a m h = absurd (not-mem-nil m)
  mem-keys_where (b ∷ l) a m h =
      Or.elim ∥∥₁_prop (mem-cons.0 m)
        (λ e.
          subst (λ c. Mem (key_of_meta (meta a)) (keys_where meta refers (c ∷ l))) e
            (rw h mem-cons_self))
        (λ later. elim (Bool-cases (refers b)) [
          | inl yes_b ↦ rw yes_b (mem-cons_of_mem _ (mem-keys_where l a later h))
          | inr no_b ↦ rw no_b (mem-keys_where l a later h)
        ])

  mem-sorted_listed :
      ⦃x : External⦄ ⦃s : Sorter⦄ (items : List Item) (a : Item)
      → Mem a items
      → refers a ≡ true
      → Mem (key_of_meta (meta a)) (sorted_listed meta refers (ok items))
  unfolding sort_requests
  mem-sorted_listed ⦃s = s⦄ items a m h =
      (Perm.mem_iff (s.sort-perm Key less_keys (keys_where meta refers items))).1
        (mem-keys_where items a m h)

-- The item is listed in the namespace of the object.
pub record IsListed {Item : Type 0} (answer : Result (List Item)) (item : Item) : Type 0 where
  pub items : List Item
  pub listed : answer ≡ ok items
  pub there : Mem item items

module _ ⦃x : External⦄ ⦃s : Sorter⦄ (api : Api) (object : ObjectMeta) (store : api.Store) where
  wakes_listed :
      {Item : Type 0} (meta : Item → ObjectMeta) (refers : Item → Bool)
      (answer : Result (List Item)) (item : Item)
      → IsListed answer item
      → refers item ≡ true
      → Mem (key_of_meta (meta item)) (sorted_listed meta refers answer)
  wakes_listed meta refers answer item listed h =
      subst (λ r. Mem (key_of_meta (meta item)) (sorted_listed meta refers r)) (sym listed.listed)
        (mem-sorted_listed meta refers listed.items item listed.there h)

  sync_reads :
      (item : OmniSecretSync)
      → (SecretSyncs.Reconcile.source_key item ≡ key_of_meta object)
        ⊎ (SecretSyncs.Reconcile.kubeconfig_key item ≡ key_of_meta object)
      → (item.spec.source_secret_ref.name == object.name
          || item.spec.kubeconfig_secret_ref.name == object.name)
        ≡ true
  sync_reads item (inl same) =
      let h =
        (eq_iff item.spec.source_secret_ref.name object.name).1 (ap (λ (k : Key). k.name) same) in
      ground arith
  sync_reads item (inr same) =
      let h =
        (eq_iff item.spec.kubeconfig_secret_ref.name object.name).1
          (ap (λ (k : Key). k.name) same) in
      ground arith

  -- A change of a Secret calls the reconciler of each Secret sync whose source it is, or whose
  -- kubeconfig it holds, if the API server lists the sync in the namespace of the Secret.
  pub secret_sync_requests_for_secret-wake :
      (item : OmniSecretSync)
      → IsListed (api.secret_syncs.list object.namespace store) item
      → (SecretSyncs.Reconcile.source_key item ≡ key_of_meta object)
        ⊎ (SecretSyncs.Reconcile.kubeconfig_key item ≡ key_of_meta object)
      → Mem (key_of_meta item.meta) (secret_sync_requests_for_secret api object store)
  unfolding secret_sync_requests_for_secret
  secret_sync_requests_for_secret-wake item listed reads =
      wakes_listed (λ a. a.meta) _ _ item listed (sync_reads item reads)

  -- A change of a Secret calls the reconciler of each Helm release whose kubeconfig it holds, if the
  -- API server lists the release in the namespace of the Secret.
  pub helm_release_requests_for_secret-wake :
      (item : OmniHelmRelease)
      → IsListed (api.helm_releases.list object.namespace store) item
      → HelmReleases.Reconcile.kubeconfig_key item ≡ key_of_meta object
      → Mem (key_of_meta item.meta) (helm_release_requests_for_secret api object store)
  unfolding helm_release_requests_for_secret
  helm_release_requests_for_secret-wake item listed same =
      wakes_listed (λ a. a.meta) _ _ item listed
        ((eq_iff item.spec.kubeconfig_secret_ref.name object.name).1
          (ap (λ (k : Key). k.name) same))

-- How the API server answers a write of a status: of the metadata the resource version may change, and
-- what other writers own, but not the generation nor the time of a deletion.
pub record IsStatusWrite (sent served : ObjectMeta) : Type 0 where
  pub generation : served.generation ≡ sent.generation
  pub deletion : served.deletion_timestamp ≡ sent.deletion_timestamp

-- What two versions of an object have in common where a reconciler need not be called.
pub record IsUneventful (old new : ObjectMeta) : Type 0 where
  pub generation : old.generation ≡ new.generation
  pub deletion : is_some old.deletion_timestamp ≡ is_some new.deletion_timestamp

differs-IsUneventful :
    (old new : ObjectMeta) → spec_or_deletion_differs old new ≡ false → IsUneventful old new
unfolding spec_or_deletion_differs
differs-IsUneventful old new h = record {
  generation = leb_antisym old.generation new.generation (ground arith) (ground arith);
  deletion = ground arith;
}

IsUneventful-differs :
    (old new : ObjectMeta) → IsUneventful old new → spec_or_deletion_differs old new ≡ false
unfolding spec_or_deletion_differs
IsUneventful-differs old new quiet =
    let same = quiet.generation in let kept = quiet.deletion in rw (same, kept) (ground arith)

status_write_is_ignored :
    (sent served : ObjectMeta)
    → IsStatusWrite sent served
    → spec_or_deletion_differs sent served ≡ false
status_write_is_ignored sent served write =
    IsUneventful-differs sent served
      (record { generation = sym write.generation; deletion = ap is_some (sym write.deletion) })

-- An update is dropped by the predicate exactly where the generation is as it was, and the object is
-- being deleted before and after or neither. So the event of a status that the reconcilers of Secret
-- syncs and of Helm releases computed and wrote is dropped, whatever else, such as the resource version,
-- changed with it, if the API server leaves the generation and the time of a deletion as they were in a
-- write of a status.
pub status-is_ignored :
    ⦃x : External⦄ ⦃t : Runtime⦄ (now : Time) (sync_input : SecretSyncStatusUpdate)
    (sync : OmniSecretSync) (release_input : HelmReleaseStatusUpdate) (release : OmniHelmRelease)
    (sync_served release_served old new : ObjectMeta)
    → IsStatusWrite (secret_sync_status sync_input now sync).meta sync_served
    → IsStatusWrite (helm_release_status release_input now release).meta release_served
    → ((spec_or_deletion_changed_predicate (updated (some old) (some new)) ≡ false)
        ↔ IsUneventful old new)
      × (spec_or_deletion_changed_predicate (updated (some sync.meta) (some sync_served)) ≡ false)
      × (spec_or_deletion_changed_predicate (updated (some release.meta) (some release_served))
          ≡ false)
unfolding spec_or_deletion_changed_predicate secret_sync_status helm_release_status
status-is_ignored now sync_input sync release_input release sync_served release_served old new
      sync_write release_write =
    (
      (differs-IsUneventful old new, IsUneventful-differs old new),
      status_write_is_ignored sync.meta sync_served sync_write,
      status_write_is_ignored release.meta release_served release_write,
    )
