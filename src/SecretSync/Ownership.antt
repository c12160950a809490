-- ===== src/SecretSync/Ownership.antt =====
-- secretsync.go: what marks a synced Secret as the operator's, whatever the user asks for, and that
-- `Delete` touches no Secret without that mark.
use omni_cluster_operator.Base.{
  Bool-cases, String, [], ◌∷◌, true, Option, none, some, ◌≡◌, refl, ap, ◌⊎◌, inl, inr, eq_iff,
  arith, if◌then◌else◌, is_nil, ◌&&◌,
}
use omni_cluster_operator.Base.Maps.{
  Map, Entries, entries, get, find, copy_into, find-copy_into, get_text, or_else,
}
use omni_cluster_operator.Api.Meta.{Bytes, Secret}
use omni_cluster_operator.Api.Workload.{OmniSecretSync}
use omni_cluster_operator.External.{is_not_found, Result, ok, err, External}
use omni_cluster_operator.SecretSync.Desired.{
  Target, desired_secret, hashed_secret, is_owned_secret, merge_string_maps, secret_labels,
  secret_annotations, content_annotations, owner_uid_label, owner_annotation,
}
use omni_cluster_operator.SecretSync.Client.{Workload, clientset, delete, deleted, delete_found}

or_else-none : (o : Option String) → or_else o none ≡ o
or_else-none none = refl
or_else-none (some v) = refl

find-copied :
    (k : String) (base overrides : Entries String)
    → find k (copy_into (copy_into [] base) overrides) ≡ or_else (find k overrides) (find k base)
unfolding find
find-copied k base overrides = rw (
  find-copy_into k (copy_into [] base) overrides,
  find-copy_into k [] base,
  or_else-none (find k base),
)

find-merged :
    (k : String) (base overrides : Entries String)
    → find k (
        entries (
          if is_nil base && is_nil overrides
          then none
          else some (copy_into (copy_into [] base) overrides)))
      ≡ or_else (find k overrides) (find k base)
unfolding find
find-merged k [] [] = refl
find-merged k (p ∷ l) overrides = find-copied k (p ∷ l) overrides
find-merged k [] (p ∷ l) = find-copied k [] (p ∷ l)

-- A key of two merged maps has the value of the overrides, and else that of the base.
pub get-merge_string_maps :
    (k : String) (base overrides : Map String)
    → get k (merge_string_maps base overrides) ≡ or_else (get k overrides) (get k base)
unfolding merge_string_maps
get-merge_string_maps k base overrides = find-merged k (entries base) (entries overrides)

-- What `m[k]` reads as when the key is there.
pub get_text-eq : (k v : String) (m : Map String) → get k m ≡ some v → get_text k m ≡ v
unfolding get_text
get_text-eq k v m h = ap (λ o. elim o [ none ↦ "" | some w ↦ w ]) h

module _ ⦃x : External⦄ (item : OmniSecretSync) (source : Secret) (cluster_name h : String) where
  abbrev sent : Secret
  sent = hashed_secret item source cluster_name h

  labels_of_sent :
      (k : String)
      → get k sent.labels
        ≡ or_else (get k (secret_labels item cluster_name)) (get k item.spec.labels)
  unfolding hashed_secret desired_secret
  labels_of_sent k = get-merge_string_maps k item.spec.labels (secret_labels item cluster_name)

  annotations_of_sent :
      (k : String)
      → get k sent.annotations
        ≡ or_else
            (get k (content_annotations h))
            (or_else (get k (secret_annotations item source)) (get k item.spec.annotations))
  unfolding hashed_secret desired_secret
  annotations_of_sent k = rw (
    get-merge_string_maps k
        (merge_string_maps item.spec.annotations (secret_annotations item source))
        (content_annotations h),
    get-merge_string_maps k item.spec.annotations (secret_annotations item source),
  )

  sent-is_owned : is_owned_secret item (some sent) ≡ true
  unfolding is_owned_secret secret_labels secret_annotations find
  sent-is_owned =
      let by_label =
        get_text-eq owner_uid_label item.meta.uid sent.labels (labels_of_sent owner_uid_label) in
      let by_name =
        get_text-eq owner_annotation item.meta.name sent.annotations
          (annotations_of_sent owner_annotation) in
      ground (
        arith,
        eq_iff (get_text owner_uid_label sent.labels) item.meta.uid,
        eq_iff (get_text owner_annotation sent.annotations) item.meta.name,
      )

  -- What `Sync` writes is owned by the item, whatever labels and annotations its spec asks for: each
  -- key that the operator sets has the operator's value, and each other key has the spec's.
  pub hashed_secret-is_owned :
      (is_owned_secret item (some sent) ≡ true)
      × ((k : String)
          → get k sent.labels
            ≡ or_else (get k (secret_labels item cluster_name)) (get k item.spec.labels))
      × ((k : String)
          → get k sent.annotations
            ≡ or_else
                (get k (content_annotations h))
                (or_else (get k (secret_annotations item source)) (get k item.spec.annotations)))
  hashed_secret-is_owned = (sent-is_owned, labels_of_sent, annotations_of_sent)

module _ ⦃x : External⦄ (c : Workload) where
  open c use {World, Clientset, get_secret, delete_secret}

  world_of_deleted :
      (target : Target) (r : Result (Unit {0})) (w : World) → (deleted c target r w).1 ≡ w
  unfolding deleted
  world_of_deleted target (ok _) w = refl
  world_of_deleted target (err e) w = elim (Bool-cases (is_not_found e)) [
    | inl h ↦ rw (h)
    | inr h ↦ rw (h)
  ]

  delete_found-touches_owned :
      (item : OmniSecretSync) (client : Clientset) (target : Target) (w : World) (r : Result Secret)
      → ((delete_found c item client target r w).1 ≡ w)
        ⊎ ((secret : Secret) × (r ≡ ok secret)
            × (is_owned_secret item (some secret) ≡ true)
            × ((delete_found c item client target r w).1 ≡ (delete_secret client target w).1))
  unfolding delete_found
  delete_found-touches_owned item client target w (ok secret) =
      elim (Bool-cases (is_owned_secret item (some secret))) [
        | inl h ↦ inr (
          secret,
          refl,
          h,
          rw (
            h,
            world_of_deleted target (delete_secret client target w).0
                (delete_secret client target w).1,
          ),
        )
        | inr h ↦ inl (rw (h))
      ]
  delete_found-touches_owned item client target w (err e) =
      inl (elim (Bool-cases (is_not_found e)) [ inl h ↦ rw (h) | inr h ↦ rw (h) ])

  -- `Delete` leaves the workload cluster as it was, or it found a Secret at the target that the item
  -- owns, and the cluster is as the one call of the API left it.
  pub delete-touches_owned :
      (item : OmniSecretSync) (kubeconfig : Bytes) (target : Target) (w : World)
      → (((delete c item kubeconfig target w).1) ≡ w)
        ⊎ ((client : Clientset) × (secret : Secret) × (clientset c kubeconfig ≡ ok client)
            × (get_secret client target w ≡ ok secret)
            × (is_owned_secret item (some secret) ≡ true)
            × ((delete c item kubeconfig target w).1 ≡ (delete_secret client target w).1))
  unfolding delete
  delete-touches_owned item kubeconfig target w = go (clientset c kubeconfig) refl
    where
      go :
          (r : Result Clientset)
          → clientset c kubeconfig ≡ r
          → (((delete c item kubeconfig target w).1) ≡ w)
            ⊎ ((client : Clientset) × (secret : Secret) × (clientset c kubeconfig ≡ ok client)
                × (get_secret client target w ≡ ok secret)
                × (is_owned_secret item (some secret) ≡ true)
                × ((delete c item kubeconfig target w).1 ≡ (delete_secret client target w).1))
      go (err e) h = inl (rw (h))
      go (ok client) h =
          elim (delete_found-touches_owned item client target w (get_secret client target w)) [
            | inl same ↦ inl (rw (h, same))
            | inr (secret, found, owned, same) ↦ inr (client, secret, h, found, owned, rw (h, same))
          ]
