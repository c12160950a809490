-- ===== src/SecretSync/Repeat.antt =====
-- secretsync.go: a second `Sync`, of a cluster that a first one has just brought up to date, writes
-- nothing.
use omni_cluster_operator.SecretSync.Server.{
  KeepsWrites, has_no_empty_value, target_of, Holds-is_up_to_date,
}
use mathlib.Core.Path.{subst}
use omni_cluster_operator.Base.{
  String, Bool, true, false, ◌≡◌, ◌≢◌, refl, ap, sym, ◌∙◌, inl, inr, arith, if◌then◌else◌,
  Bool-cases,
}
use omni_cluster_operator.Base.Maps.{entries}
use omni_cluster_operator.Api.Meta.{Bytes, Secret}
use omni_cluster_operator.Api.Workload.{OmniSecretSync}
use omni_cluster_operator.External.{
  Error, Result, ok, err, External, is_not_found, is_already_exists,
}
use omni_cluster_operator.Exec.{Exec, lift, >>=-ok}
use omni_cluster_operator.SecretSync.Desired.{
  Target, SyncResult, target_for_item, desired_secret, hash, hashed_secret, copy_byte_map,
}
use omni_cluster_operator.SecretSync.Client.{
  Workload, clientset, sync, sync_found, written, prepare, sync_connected, sync_prepared,
  sync_hashed, ensure_namespace, found_namespace, created_namespace, is_up_to_date,
}

module _ ⦃x : External⦄ (c : Workload) (keeps : KeepsWrites c) where
  open c use {
    World, Clientset, get_namespace, create_namespace, get_secret, create_secret, update_secret,
  }

  created_namespace-finds :
      (client : Clientset) (n : String) (w : World) (r : Result (Unit {0}))
      → (create_namespace client n w).0 ≡ r
      → (created_namespace c n r (create_namespace client n w).1).0 ≡ ok tt
      → get_namespace client n (created_namespace c n r (create_namespace client n w).1).1 ≡ ok tt
  unfolding created_namespace
  created_namespace-finds client n w (ok _) made done = keeps.finds_created client n w made
  created_namespace-finds client n w (err e) made done = elim (Bool-cases (is_already_exists e)) [
    | inl h ↦ rw (h, keeps.finds_existing client n w e made h)
    | inr h ↦ ground arith
  ]

  found_namespace-finds :
      (client : Clientset) (n : String) (w : World) (r : Result (Unit {0}))
      → get_namespace client n w ≡ r
      → (found_namespace c client n r w).0 ≡ ok tt
      → get_namespace client n (found_namespace c client n r w).1 ≡ ok tt
  unfolding found_namespace
  found_namespace-finds client n w (ok _) found done = found
  found_namespace-finds client n w (err e) found done =
      let finds = created_namespace-finds client n w (create_namespace client n w).0 refl in
      elim (Bool-cases (is_not_found e)) [ inl h ↦ ground arith | inr h ↦ ground arith ]

  -- The namespace that `Sync` needs is there.
  abbrev IsReady : Clientset → OmniSecretSync → World → Type 0
  IsReady client item w =
      item.spec.create_namespace ≡ true
      → get_namespace client (target_for_item item).namespace w ≡ ok tt

  prepare-IsReady :
      (client : Clientset) (item : OmniSecretSync) (w : World)
      → (prepare c client item w).0 ≡ ok tt
      → IsReady client item (prepare c client item w).1
  unfolding ensure_namespace
  prepare-IsReady client item w done asked =
      let finds =
        found_namespace-finds client (target_for_item item).namespace w
          (get_namespace client (target_for_item item).namespace w) refl in
      ground arith

  prepare-eq :
      (client : Clientset) (item : OmniSecretSync) (w : World)
      → IsReady client item w
      → prepare c client item w ≡ (ok tt, w)
  unfolding ensure_namespace found_namespace
  prepare-eq client item w ready = ground arith

  -- The Secret at the target is what `desired` asks for.
  abbrev IsSynced : Clientset → Target → Secret → World → Type 0
  IsSynced client target desired w =
      (stored : Secret) × (get_secret client target w ≡ ok stored)
      × (is_up_to_date c stored desired ≡ true)

  module _ (client : Clientset) (item : OmniSecretSync) (desired : Secret)
      (done r : SyncResult) where
    -- Where the code ended well, it returned `done` and the cluster is synced.
    abbrev Syncs : Result SyncResult × World → Type 0
    Syncs (answer, w) =
        answer ≡ ok r
        → (done ≡ r) × IsReady client item w × IsSynced client (target_for_item item) desired w

    if-Syncs :
        (b : Bool) (m n : Exec World SyncResult) (w : World)
        → (b ≡ true → Syncs (m w))
        → (b ≡ false → Syncs (n w))
        → Syncs ((if b then m else n) w)
    if-Syncs true m n w then_so else_so = then_so refl
    if-Syncs false m n w then_so else_so = else_so refl

    fail-Syncs : (e : Error) (w : World) → Syncs (err e, w)
    fail-Syncs e w h = absurd (cc h)

    written-Syncs :
        (action : String) (answer : Result (Unit {0})) (w : World)
        → (answer ≡ ok tt
            → IsReady client item w × IsSynced client (target_for_item item) desired w)
        → Syncs (written c action (target_for_item item) done answer w)
    unfolding written
    written-Syncs action (ok _) w facts h = let f = facts refl in (ground arith, f.0, f.1)
    written-Syncs action (err e) w facts h = absurd (cc h)

    module _ (at_target : target_of desired ≡ target_for_item item) (typed : desired.type ≢ "")
        (filled : has_no_empty_value (entries desired.contents) ≡ true) (w : World)
        (ready : IsReady client item w) where
      created-IsSynced :
          (create_secret client desired w).0 ≡ ok tt
          → IsReady client item (create_secret client desired w).1
            × IsSynced client (target_for_item item) desired (create_secret client desired w).1
      created-IsSynced created =
          let (stored, found, holds) = keeps.reads_created client desired w typed filled created in
          (
            λ asked.
                keeps.create_keeps_namespace client desired (target_for_item item).namespace w
                  (ready asked),
            (stored, rw (sym at_target, found), Holds-is_up_to_date c stored desired holds),
          )

      updated-IsSynced :
          (version : String)
          → let sent = record desired {
            meta = record (desired.meta) { resource_version = version };
          } in
            (update_secret client sent w).0 ≡ ok tt
            → IsReady client item (update_secret client sent w).1
              × IsSynced client (target_for_item item) desired (update_secret client sent w).1
      updated-IsSynced version updated =
          let sent = record desired {
            meta = record (desired.meta) { resource_version = version };
          } in
          let (stored, found, holds) = keeps.reads_updated client sent w typed filled updated in
          (
            λ asked.
                keeps.update_keeps_namespace client sent (target_for_item item).namespace w
                  (ready asked),
            (stored, rw (sym at_target, found), Holds-is_up_to_date c stored sent holds),
          )

      sync_found-Syncs :
          (found : Result Secret)
          → get_secret client (target_for_item item) w ≡ found
          → Syncs (sync_found c client (target_for_item item) desired done found w)
      unfolding sync_found
      sync_found-Syncs (ok existing) found =
          if-Syncs (is_up_to_date c existing desired) _ _ w
            (λ same. λ h. (ground arith, ready, (existing, found, same)))
            (λ _. written-Syncs "update" _ _ (updated-IsSynced existing.resource_version))
      sync_found-Syncs (err e) found =
          if-Syncs (is_not_found e) _ _ w (λ _. written-Syncs "create" _ _ created-IsSynced)
            (λ _. fail-Syncs _ w)

  module _ (item : OmniSecretSync) (source : Secret) (kubeconfig : Bytes) (cluster_name : String)
      (typed : (desired_secret item source cluster_name).type ≢ "")
      (filled : has_no_empty_value (entries source.contents) ≡ true) where
    abbrev wanted : String → Secret
    wanted h = hashed_secret item source cluster_name h

    abbrev result_of : String → SyncResult
    result_of h = record { target = target_for_item item; type = (wanted h).type; hash = h }

    abbrev hash_of : Result String
    hash_of =
        hash (desired_secret item source cluster_name).type
          (desired_secret item source cluster_name).contents

    sync-of_synced :
        (client : Clientset) (h : String) (w : World)
        → clientset c kubeconfig ≡ ok client
        → hash_of ≡ ok h
        → IsReady client item w
        → IsSynced client (target_for_item item) (wanted h) w
        → sync c item source kubeconfig cluster_name w ≡ (ok (result_of h), w)
    unfolding sync sync_found
    sync-of_synced client h w connected hashed ready (stored, found, same) =
        rw (connected, prepare-eq client item w ready, hashed, found, same)

    wanted-at_target : (h : String) → target_of (wanted h) ≡ target_for_item item
    unfolding hashed_secret desired_secret
    wanted-at_target h = refl

    wanted-typed : (h : String) → (wanted h).type ≢ ""
    unfolding hashed_secret
    wanted-typed h = typed

    wanted-filled : (h : String) → has_no_empty_value (entries (wanted h).contents) ≡ true
    unfolding hashed_secret desired_secret copy_byte_map
    wanted-filled h = ground arith

    -- The client, the hash and the cluster that a sync that returned has ended with.
    Ends : World → SyncResult → Type 0
    Ends v r =
        (client : Clientset) × (h : String) × (clientset c kubeconfig ≡ ok client)
        × (hash_of ≡ ok h)
        × (result_of h ≡ r)
        × IsReady client item v
        × IsSynced client (target_for_item item) (wanted h) v

    sync-Ends :
        (w : World) (r : SyncResult)
        → (sync c item source kubeconfig cluster_name w).0 ≡ ok r
        → Ends (sync c item source kubeconfig cluster_name w).1 r
    unfolding sync Ends
    sync-Ends w r done =
        let (client, connected, e1) =
          >>=-ok (lift (clientset c kubeconfig)) (sync_connected c item source cluster_name) w r
            done in
        let (_, prepared, e2) =
          >>=-ok (prepare c client item) (λ _. sync_prepared c item source cluster_name client) w r
            (ground arith) in
        let w1 = (prepare c client item w).1 in
        let (h, hashed, e3) =
          >>=-ok (lift hash_of) (sync_hashed c item source cluster_name client) w1 r
            (ground arith) in
        let found = get_secret client (target_for_item item) w1 in
        let (same, ready, synced) =
          sync_found-Syncs client item (wanted h) (result_of h) r (wanted-at_target h)
            (wanted-typed h) (wanted-filled h) w1 (prepare-IsReady client item w prepared) found
            refl (ground arith) in
        let e = ap (λ p. p.1) (e1 ∙ e2 ∙ e3) in
        subst (λ v. Ends v r) (sym e) (client, h, connected, hashed, same, ready, synced)

    -- After a sync that returned, the cluster holds the Secret that the sync wants at the target that
    -- it reports, and one more sync of the same inputs returns the same and changes nothing, if the
    -- API serves what it accepted, the Secret has a type and no value in it is empty.
    pub sync-twice :
        (w : World) (r : SyncResult)
        → (sync c item source kubeconfig cluster_name w).0 ≡ ok r
        → ((client : Clientset) × (clientset c kubeconfig ≡ ok client)
            × IsSynced client r.target
                (hashed_secret item source cluster_name r.hash)
                (sync c item source kubeconfig cluster_name w).1)
          × (sync c item source kubeconfig cluster_name
                (sync c item source kubeconfig cluster_name w).1
              ≡ (ok r, (sync c item source kubeconfig cluster_name w).1))
    unfolding Ends
    sync-twice w r done =
        let (client, h, connected, hashed, same, ready, synced) = sync-Ends w r done in
        let again =
          sync-of_synced client h (sync c item source kubeconfig cluster_name w).1 connected hashed
            ready synced in
        subst
          (λ q.
            ((client : Clientset) × (clientset c kubeconfig ≡ ok client)
              × IsSynced client q.target (wanted q.hash)
                  (sync c item source kubeconfig cluster_name w).1)
            × (sync c item source kubeconfig cluster_name
                  (sync c item source kubeconfig cluster_name w).1
                ≡ (ok q, (sync c item source kubeconfig cluster_name w).1)))
          same ((client, connected, synced), again)
