-- ===== src/OmniClient/Real.antt =====
-- client.go: `RealClient`, over Sidero's client of Omni.
use omni_cluster_operator.Base.{String, ◌<>◌, Bool, Option, none, some, is_nil, if◌then◌else◌}
use omni_cluster_operator.Api.Meta.{Bytes, Secret}
use omni_cluster_operator.Api.Template.{OmniConnection}
use omni_cluster_operator.External.{Error, new_error, Result, ok, err, External}
use omni_cluster_operator.Exec.{Exec, wrapped}
use omni_cluster_operator.Controller.Kube.{Key}
use omni_cluster_operator.Controller.Omni.{Omni, Reply, SyncOptions, KubeconfigOptions}
use omni_cluster_operator.Template.Root.{RootLibrary, open_root, with_root}
use omni_cluster_operator.OmniClient.Key.{key_ref, service_account_key}

-- Sidero's client, and the reader of Secrets that `RealClient` is given.
pub record OmniLibrary : Type 1 where
  pub World : Type 0
  pub Client : Type 0
  pub Root : Type 0
  pub get_secret : Key → World → Result Secret
  pub decode_error : String → Option Error
  -- endpoint, service account key, and whether the certificate is not verified
  pub new_client : String → String → Bool → Result Client
  pub endpoint : Client → String
  pub list_error : Client → World → Option Error
  pub close_client : Client → World → World
  pub roots : RootLibrary World Root
  pub run_sync : Client → Bytes → Option Root → Bool → World → Reply × World
  pub run_delete : Client → String → Bool → World → Reply × World
  pub run_status : Client → String → World → Reply
  pub run_kubeconfig : Client → String → KubeconfigOptions → Exec World Bytes

abbrev pub no_reply : Error → Reply
no_reply e = record { output = ""; error = some e }

module _ ⦃x : External⦄ (lib : OmniLibrary) where
  open lib use {World, Client, Root}

  -- `newOmniClient`, from the key on
  unfoldable pub client_with : OmniConnection → Result String → Result Client
  client_with connection (err e) = err e
  client_with connection (ok key) =
      elim (lib.new_client connection.spec.endpoint key connection.spec.insecure_skip_tls_verify) [
        | ok client ↦ ok client
        | err e ↦ err (wrapped "create Omni client: " e)
      ]

  unfoldable pub new_omni_client : OmniConnection → World → Result Client
  unfolding client_with
  new_omni_client connection w =
      client_with connection
        (service_account_key lib.decode_error connection (lib.get_secret (key_ref connection) w))

  abbrev pub listed : Client → Option Error → Result String
  listed client none = ok ("connected to " <> lib.endpoint client)
  listed client (some e) = err (wrapped "list Omni clusters: " e)

  abbrev pub pinged : World → Result Client → Result String
  pinged w (err e) = err e
  pinged w (ok client) = listed client (lib.list_error client w)

  unfoldable pub ping : OmniConnection → World → Result String
  unfolding new_omni_client
  ping connection w = pinged w (new_omni_client connection w)

  -- `defer func() { _ = omniClient.Close() }()`, once the rest has returned
  abbrev pub closed : {A : Type 0} → Client → A × World → A × World
  closed client (a, w) = (a, lib.close_client client w)

  -- `SyncTemplate` from `OpenRoot` on
  unfoldable pub sync_rooted : Client → Bytes → String → SyncOptions → World → Reply × World
  unfolding with_root open_root
  sync_rooted client bytes path options w =
      with_root lib.roots no_reply (λ root. lib.run_sync client bytes root options.destroy_machines)
        (open_root lib.roots path w)

  abbrev pub sync_with : Bytes → String → SyncOptions → Result Client → World → Reply × World
  sync_with bytes path options (err e) w = (no_reply e, w)
  sync_with bytes path options (ok client) w =
      closed client (sync_rooted client bytes path options w)

  unfoldable pub sync_template :
      OmniConnection → Bytes → String → SyncOptions → World → Reply × World
  unfolding new_omni_client sync_rooted
  sync_template connection bytes root options w =
      sync_with bytes root options (new_omni_client connection w) w

  abbrev pub delete_with : String → SyncOptions → Result Client → World → Reply × World
  delete_with name options (err e) w = (no_reply e, w)
  delete_with name options (ok client) w =
      closed client (lib.run_delete client name options.destroy_machines w)

  unfoldable pub delete_cluster : OmniConnection → String → SyncOptions → World → Reply × World
  unfolding new_omni_client
  delete_cluster connection name options w =
      delete_with name options (new_omni_client connection w) w

  abbrev pub status_with : String → Result Client → World → Reply
  status_with name (err e) w = no_reply e
  status_with name (ok client) w = lib.run_status client name w

  unfoldable pub status_cluster : OmniConnection → String → World → Reply
  unfolding new_omni_client
  status_cluster connection name w = status_with name (new_omni_client connection w) w

  -- `Kubeconfig` from the answer of Omni on
  unfoldable pub filled_kubeconfig : String → Result Bytes → Result Bytes
  unfolding new_error
  filled_kubeconfig name (err e) =
      err (wrapped ("get kubeconfig for Omni cluster " <> x.quote name <> ": ") e)
  filled_kubeconfig name (ok bytes) =
      if is_nil bytes
      then err
          (new_error ("get kubeconfig for Omni cluster " <> x.quote name <> ": response was empty"))
      else ok bytes

  abbrev pub kubeconfig_with : String → KubeconfigOptions → Result Client → Exec World Bytes
  kubeconfig_with name options (err e) w = (err e, w)
  kubeconfig_with name options (ok client) w =
      let (r, w') = lib.run_kubeconfig client name options w in
      (filled_kubeconfig name r, lib.close_client client w')

  unfoldable pub kubeconfig : OmniConnection → String → KubeconfigOptions → Exec World Bytes
  unfolding new_omni_client filled_kubeconfig
  kubeconfig connection name options w =
      kubeconfig_with name options (new_omni_client connection w) w

  -- `RealClient` as the `Client` that the controllers call.
  abbrev pub real_client : Omni
  real_client = record {
    Remote = World;
    ping = ping;
    sync_template = sync_template;
    status_cluster = status_cluster;
    delete_cluster = delete_cluster;
    kubeconfig = kubeconfig;
  }
