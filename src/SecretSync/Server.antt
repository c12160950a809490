-- ===== src/SecretSync/Server.antt =====
-- What secretsync.go relies on of the API server of a workload cluster.
use omni_cluster_operator.Base.{
  String, [], ◌∷◌, Bool, true, ◌≡◌, ◌≢◌, refl, ◌==◌, eq_iff, arith, ◌&&◌, not, is_nil,
}
use omni_cluster_operator.Base.Maps.{Entries, entries, deep_equal_refl}
use omni_cluster_operator.Api.Meta.{Bytes, Secret}
use omni_cluster_operator.External.{Error, ok, err, External, is_already_exists}
use omni_cluster_operator.SecretSync.Desired.{Target}
use omni_cluster_operator.SecretSync.Client.{Workload, is_up_to_date, bytes_eq}

-- No value of the map is empty. Go tells a nil slice from an empty one, and `Bytes` does not.
abbrev pub has_no_empty_value : Entries Bytes → Bool
has_no_empty_value [] = true
has_no_empty_value ((_, v) ∷ l) = not (is_nil v) && has_no_empty_value l

-- The Secret that the API serves holds what was sent, besides what the server itself sets.
pub record Holds (stored sent : Secret) : Type 0 where
  pub same_type : stored.type ≡ sent.type
  pub same_contents : stored.contents ≡ sent.contents
  pub same_labels : stored.labels ≡ sent.labels
  pub same_annotations : stored.annotations ≡ sent.annotations

abbrev pub target_of : Secret → Target
target_of s = record { namespace = s.namespace; name = s.name }

module _ (c : Workload) where
  open c use {
    World, Clientset, get_namespace, create_namespace, get_secret, create_secret, update_secret,
  }

  -- What the API of Kubernetes documents of a write that it accepts: a later read gives what was
  -- written (an empty type becomes `Opaque`, so the type is not empty), and a Secret's write removes
  -- no namespace.
  pub record KeepsWrites : Type 0 where
    pub reads_created :
        (client : Clientset) (s : Secret) (w : World)
        → s.type ≢ ""
        → has_no_empty_value (entries s.contents) ≡ true
        → (create_secret client s w).0 ≡ ok tt
        → (stored : Secret) × (get_secret client (target_of s) (create_secret client s w).1
            ≡ ok stored)
          × Holds stored s
    pub reads_updated :
        (client : Clientset) (s : Secret) (w : World)
        → s.type ≢ ""
        → has_no_empty_value (entries s.contents) ≡ true
        → (update_secret client s w).0 ≡ ok tt
        → (stored : Secret) × (get_secret client (target_of s) (update_secret client s w).1
            ≡ ok stored)
          × Holds stored s
    pub finds_created :
        (client : Clientset) (n : String) (w : World)
        → (create_namespace client n w).0 ≡ ok tt
        → get_namespace client n (create_namespace client n w).1 ≡ ok tt
    pub finds_existing :
        (client : Clientset) (n : String) (w : World) (e : Error)
        → (create_namespace client n w).0 ≡ err e
        → is_already_exists e ≡ true
        → get_namespace client n (create_namespace client n w).1 ≡ ok tt
    pub create_keeps_namespace :
        (client : Clientset) (s : Secret) (n : String) (w : World)
        → get_namespace client n w ≡ ok tt
        → get_namespace client n (create_secret client s w).1 ≡ ok tt
    pub update_keeps_namespace :
        (client : Clientset) (s : Secret) (n : String) (w : World)
        → get_namespace client n w ≡ ok tt
        → get_namespace client n (update_secret client s w).1 ≡ ok tt

bytes_eq_refl : (b : Bytes) → bytes_eq b b ≡ true
bytes_eq_refl [] = refl
bytes_eq_refl (n ∷ b) = let rest = bytes_eq_refl b in ground arith

module _ ⦃x : External⦄ (c : Workload) where
  pub Holds-is_up_to_date :
      (stored sent : Secret) → Holds stored sent → is_up_to_date c stored sent ≡ true
  Holds-is_up_to_date stored sent h = rw (
    h.same_type,
    h.same_contents,
    h.same_labels,
    h.same_annotations,
    deep_equal_refl bytes_eq bytes_eq_refl sent.contents,
    deep_equal_refl (λ a b. a == b) (λ a. (eq_iff a a).1 refl) sent.labels,
    deep_equal_refl (λ a b. a == b) (λ a. (eq_iff a a).1 refl) sent.annotations,
    (eq_iff sent.type sent.type).1 refl,
  )
