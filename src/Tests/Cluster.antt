-- ===== src/Tests/Cluster.antt =====
-- A workload cluster small enough to run: its namespaces, and its Secrets, the last written first.
use omni_cluster_operator.Base.{
  String, List, [], ◌∷◌, Bool, ◌≡◌, refl, ◌==◌, eq_iff, ◌&&◌, contains, if◌then◌else◌, Bool-cases,
  inl, inr,
}
use omni_cluster_operator.Api.Meta.{Bytes, Secret}
use omni_cluster_operator.External.{Error, ErrorKind, not_found, already_exists, Result, ok, err}
use omni_cluster_operator.Exec.{Exec}
use omni_cluster_operator.SecretSync.Desired.{Target}
use omni_cluster_operator.SecretSync.Client.{Workload}
use omni_cluster_operator.SecretSync.Server.{KeepsWrites, Holds, target_of}

pub record Cluster : Type 0 where
  pub namespaces : List String
  pub secrets : List Secret

abbrev pub error_of : ErrorKind → Error
error_of kind = record { kind = kind; message = "" }

abbrev is_at : Target → Secret → Bool
is_at target s = s.namespace == target.namespace && s.name == target.name

abbrev find_secret : Target → List Secret → Result Secret
find_secret target [] = err (error_of not_found)
find_secret target (s ∷ l) = if is_at target s then ok s else find_secret target l

abbrev without : Target → List Secret → List Secret
without target [] = []
without target (s ∷ l) = let rest = without target l in if is_at target s then rest else s ∷ rest

abbrev write : Secret → Exec Cluster (Unit {0})
write s w = (ok tt, record w { secrets = s ∷ w.secrets })

abbrev create : Secret → Result Secret → Exec Cluster (Unit {0})
create s (ok _) w = (err (error_of already_exists), w)
create s (err _) w = write s w

abbrev update : Secret → Result Secret → Exec Cluster (Unit {0})
update s (ok _) w = write s w
update s (err e) w = (err e, w)

abbrev remove_at : Target → Result Secret → Exec Cluster (Unit {0})
remove_at target (ok _) w = (ok tt, record w { secrets = without target w.secrets })
remove_at target (err e) w = (err e, w)

abbrev pub sample_workload : Workload
sample_workload = record {
  World = Cluster;
  Config = Bytes;
  Clientset = Bytes;
  rest_config = λ b. ok b;
  new_for_config = λ b. ok b;
  get_namespace = λ _ n w. if contains w.namespaces n then ok tt else err (error_of not_found);
  create_namespace = λ _ n w.
      if contains w.namespaces n
      then (err (error_of already_exists), w)
      else (ok tt, record w { namespaces = n ∷ w.namespaces });
  get_secret = λ _ target w. find_secret target w.secrets;
  create_secret = λ _ s w. create s (find_secret (target_of s) w.secrets) w;
  update_secret = λ _ s w. update s (find_secret (target_of s) w.secrets) w;
  delete_secret = λ _ target w. remove_at target (find_secret target w.secrets) w;
}

abbrev pub one_namespace : Cluster
one_namespace = record { namespaces = "default" ∷ []; secrets = [] }

found_first : (s : Secret) (l : List Secret) → find_secret (target_of s) (s ∷ l) ≡ ok s
found_first s l = rw ((eq_iff s.namespace s.namespace).1 refl, (eq_iff s.name s.name).1 refl)

written_is_read :
    (s : Secret) (w : Cluster)
    → (stored : Secret) × (find_secret (target_of s) (write s w).1.secrets ≡ ok stored)
      × Holds stored s
written_is_read s w = (
  s,
  found_first s w.secrets,
  record { same_type = refl; same_contents = refl; same_labels = refl; same_annotations = refl },
)

create_is_read :
    (s : Secret) (found : Result Secret) (w : Cluster)
    → (create s found w).0 ≡ ok tt
    → (stored : Secret) × (find_secret (target_of s) (create s found w).1.secrets ≡ ok stored)
      × Holds stored s
create_is_read s (ok _) w h = absurd (cc h)
create_is_read s (err _) w h = written_is_read s w

update_is_read :
    (s : Secret) (found : Result Secret) (w : Cluster)
    → (update s found w).0 ≡ ok tt
    → (stored : Secret) × (find_secret (target_of s) (update s found w).1.secrets ≡ ok stored)
      × Holds stored s
update_is_read s (ok _) w h = written_is_read s w
update_is_read s (err _) w h = absurd (cc h)

create_namespaces :
    (s : Secret) (found : Result Secret) (w : Cluster)
    → (create s found w).1.namespaces ≡ w.namespaces
create_namespaces s (ok _) w = refl
create_namespaces s (err _) w = refl

update_namespaces :
    (s : Secret) (found : Result Secret) (w : Cluster)
    → (update s found w).1.namespaces ≡ w.namespaces
update_namespaces s (ok _) w = refl
update_namespaces s (err _) w = refl

pub sample_workload-KeepsWrites : KeepsWrites sample_workload
sample_workload-KeepsWrites = record {
  reads_created = λ _ s w _ _. create_is_read s (find_secret (target_of s) w.secrets) w;
  reads_updated = λ _ s w _ _. update_is_read s (find_secret (target_of s) w.secrets) w;
  finds_created = λ _ n w h. elim (Bool-cases (contains w.namespaces n)) [
    | inl there ↦ absurd (cc (rw there at h))
    | inr fresh ↦ rw (fresh, (eq_iff n n).1 refl)
  ];
  finds_existing = λ _ n w e h _. elim (Bool-cases (contains w.namespaces n)) [
    | inl there ↦ rw (there, there)
    | inr fresh ↦ absurd (cc (rw fresh at h))
  ];
  create_keeps_namespace =
      λ _ s n w h. rw (create_namespaces s (find_secret (target_of s) w.secrets) w) h;
  update_keeps_namespace =
      λ _ s n w h. rw (update_namespaces s (find_secret (target_of s) w.secrets) w) h;
}
