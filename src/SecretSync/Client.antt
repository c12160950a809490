-- ===== src/SecretSync/Client.antt =====
-- secretsync.go: `Client.Sync` and `Client.Delete`, over the API of a workload cluster.
use omni_cluster_operator.Base.{
  String, ◌<>◌, [], ◌∷◌, Bool, true, false, some, ◌&&◌, ◌==◌, leb, if◌then◌else◌,
}
use omni_cluster_operator.Base.Maps.{deep_equal}
use omni_cluster_operator.Api.Meta.{Bytes, Secret}
use omni_cluster_operator.Api.Workload.{OmniSecretSync}
use omni_cluster_operator.External.{Result, ok, err, External, is_not_found, is_already_exists}
use omni_cluster_operator.Exec.{Exec, pure, fail, lift, reads, attempt, ◌>>=◌, wrapped}
use omni_cluster_operator.SecretSync.Desired.{
  Target, SyncResult, target_for_item, desired_secret, hash, hashed_secret, is_owned_secret,
}

-- The client of a workload cluster that a kubeconfig gives: `RESTConfigFromKubeConfig` and
-- `NewForConfig`, and the calls that `secretsync` makes of it. Reads leave the cluster alone.
pub record Workload : Type 1 where
  pub World : Type 0
  pub Config : Type 0
  pub Clientset : Type 0
  pub rest_config : Bytes → Result Config
  pub new_for_config : Config → Result Clientset
  pub get_namespace : Clientset → String → World → Result (Unit {0})
  pub create_namespace : Clientset → String → Exec World (Unit {0})
  pub get_secret : Clientset → Target → World → Result Secret
  pub create_secret : Clientset → Secret → Exec World (Unit {0})
  pub update_secret : Clientset → Secret → Exec World (Unit {0})
  pub delete_secret : Clientset → Target → Exec World (Unit {0})

-- `reflect.DeepEqual` on two byte slices
abbrev pub bytes_eq : Bytes → Bytes → Bool
bytes_eq [] [] = true
bytes_eq (a ∷ l) (b ∷ m) = leb a b && leb b a && bytes_eq l m
bytes_eq _ _ = false

module _ ⦃x : External⦄ (c : Workload) where
  open c use {
    World, Clientset, rest_config, new_for_config, get_namespace, create_namespace, get_secret,
    create_secret, update_secret, delete_secret,
  }

  abbrev pub named : Target → String
  named target = x.quote (x.namespaced_name target.namespace target.name)

  -- `clientset`
  unfoldable pub clientset : Bytes → Result Clientset
  clientset kubeconfig = elim (rest_config kubeconfig) [
    | err e ↦ err (wrapped "load workload kubeconfig: " e)
    | ok config ↦ elim (new_for_config config) [
      | err e ↦ err (wrapped "create workload Kubernetes client: " e)
      | ok client ↦ ok client
    ]
  ]

  unfoldable pub created_namespace : String → Result (Unit {0}) → Exec World (Unit {0})
  created_namespace namespace (ok _) = pure tt
  created_namespace namespace (err e) =
      if is_already_exists e
      then pure tt
      else fail (wrapped ("create workload namespace " <> x.quote namespace <> ": ") e)

  unfoldable pub found_namespace : Clientset → String → Result (Unit {0}) → Exec World (Unit {0})
  unfolding created_namespace
  found_namespace client namespace (ok _) = pure tt
  found_namespace client namespace (err e) =
      if is_not_found e
      then (do
        created ← attempt (create_namespace client namespace)
        created_namespace namespace created)
      else fail (wrapped ("get workload namespace " <> x.quote namespace <> ": ") e)

  unfoldable pub ensure_namespace : Clientset → String → Exec World (Unit {0})
  unfolding found_namespace
  ensure_namespace client namespace = do
    found ← reads (get_namespace client namespace)
    found_namespace client namespace found

  -- What `Sync` compares before it writes.
  abbrev pub is_up_to_date : Secret → Secret → Bool
  is_up_to_date existing desired =
      existing.type == desired.type
      && deep_equal bytes_eq existing.contents desired.contents
      && deep_equal (λ a b. a == b) existing.labels desired.labels
      && deep_equal (λ a b. a == b) existing.annotations desired.annotations

  unfoldable pub written : String → Target → SyncResult → Result (Unit {0}) → Exec World SyncResult
  written action target done (ok _) = pure done
  written action target done (err e) =
      fail (wrapped (action <> " workload Secret " <> named target <> ": ") e)

  -- `Sync` from the answer of `secrets.Get` on.
  unfoldable pub sync_found :
      Clientset → Target → Secret → SyncResult → Result Secret → Exec World SyncResult
  unfolding written
  sync_found client target desired done (ok existing) =
      if is_up_to_date existing desired then pure done else (do
        updated ← attempt (
            update_secret client (record desired {
              meta = record (desired.meta) { resource_version = existing.resource_version };
            }))
        written "update" target done updated)
  sync_found client target desired done (err e) =
      if is_not_found e
      then (do
        created ← attempt (create_secret client desired)
        written "create" target done created)
      else fail (wrapped ("get workload Secret " <> named target <> ": ") e)

  abbrev pub prepare : Clientset → OmniSecretSync → Exec World (Unit {0})
  prepare client item =
      if item.spec.create_namespace
      then ensure_namespace client (target_for_item item).namespace
      else pure tt

  module _ (item : OmniSecretSync) (source : Secret) (cluster_name : String) where
    -- `Sync` once the hash is made
    abbrev pub sync_hashed : Clientset → String → Exec World SyncResult
    sync_hashed client h = do
      found ← reads (get_secret client (target_for_item item))
      let desired = hashed_secret item source cluster_name h
      sync_found client (target_for_item item) desired
          (record { target = target_for_item item; type = desired.type; hash = h }) found

    -- `Sync` once the namespace is there
    abbrev pub sync_prepared : Clientset → Exec World SyncResult
    sync_prepared client = do
      let desired = desired_secret item source cluster_name
      h ← lift (hash desired.type desired.contents)
      sync_hashed client h

    -- `Sync` once it has a client
    abbrev pub sync_connected : Clientset → Exec World SyncResult
    sync_connected client = do _ ← prepare client item; sync_prepared client

  -- `Client.Sync`
  unfoldable pub sync : OmniSecretSync → Secret → Bytes → String → Exec World SyncResult
  sync item source kubeconfig cluster_name = do
    client ← lift (clientset kubeconfig)
    sync_connected item source cluster_name client

  unfoldable pub deleted : Target → Result (Unit {0}) → Exec World (Unit {0})
  deleted target (ok _) = pure tt
  deleted target (err e) =
      if is_not_found e
      then pure tt
      else fail (wrapped ("delete workload Secret " <> named target <> ": ") e)

  unfoldable pub delete_found :
      OmniSecretSync → Clientset → Target → Result Secret → Exec World (Unit {0})
  unfolding deleted
  delete_found item client target (ok secret) =
      if is_owned_secret item (some secret)
      then (do done ← attempt (delete_secret client target); deleted target done)
      else pure tt
  delete_found item client target (err e) =
      if is_not_found e
      then pure tt
      else fail (wrapped ("get workload Secret " <> named target <> ": ") e)

  -- `Client.Delete`
  unfoldable pub delete : OmniSecretSync → Bytes → Target → Exec World (Unit {0})
  unfolding delete_found
  delete item kubeconfig target = do
    client ← lift (clientset kubeconfig)
    found ← reads (get_secret client target)
    delete_found item client target found
