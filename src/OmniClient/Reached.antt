-- ===== src/OmniClient/Reached.antt =====
-- client.go: what a kubeconfig that `RealClient` returns is.
use omni_cluster_operator.Base.{String, [], ◌∷◌, false, ◌≡◌, refl, sym, ap, is_nil}
use omni_cluster_operator.Api.Meta.{Bytes, Secret}
use omni_cluster_operator.Api.Template.{OmniConnection}
use omni_cluster_operator.External.{Result, ok, err, External}
use omni_cluster_operator.Exec.{wrapped}
use omni_cluster_operator.Controller.Omni.{KubeconfigOptions}
use omni_cluster_operator.OmniClient.Key.{
  key_ref, service_account_key, IsUsable, service_account_key-IsUsable,
}
use omni_cluster_operator.OmniClient.Real.{
  OmniLibrary, client_with, new_omni_client, filled_kubeconfig, kubeconfig_with, kubeconfig,
  real_client,
}

module _ ⦃x : External⦄ (lib : OmniLibrary) where
  open lib use {World, Client}

  filled-eq :
      (name : String) (r : Result Bytes) (bytes : Bytes)
      → filled_kubeconfig lib name r ≡ ok bytes
      → (is_nil bytes ≡ false) × (r ≡ ok bytes)
  unfolding filled_kubeconfig
  filled-eq name (err e) bytes h = absurd (cc h)
  filled-eq name (ok []) bytes h = absurd (cc h)
  filled-eq name (ok (b ∷ l)) bytes h =
      let same = ap (λ (r : Result Bytes). elim r [ ok m ↦ m | err e ↦ [] ]) h in
      (rw (sym same) refl, h)

  -- A client that Omni was reached with: it was made for the connection's endpoint, with a key that the
  -- connection's Secret gives.
  pub record IsReached (connection : OmniConnection) (w : World) (client : Client) : Type 0 where
    pub key : String
    pub secret : Secret
    pub read : lib.get_secret (key_ref connection) w ≡ ok secret
    pub usable : IsUsable lib.decode_error connection secret key
    pub made :
        lib.new_client connection.spec.endpoint key connection.spec.insecure_skip_tls_verify
        ≡ ok client

  made-eq :
      (r : Result Client) (client : Client)
      → (elim r [ ok c ↦ ok c | err e ↦ err (wrapped "create Omni client: " e) ]) ≡ ok client
      → r ≡ ok client
  made-eq (ok c) client h = h
  made-eq (err e) client h = absurd (cc h)

  client_with-IsReached :
      (connection : OmniConnection) (w : World) (client : Client) (r : Result String)
      → service_account_key lib.decode_error connection (lib.get_secret (key_ref connection) w) ≡ r
      → client_with lib connection r ≡ ok client
      → IsReached connection w client
  unfolding client_with
  client_with-IsReached connection w client (err e) key_is h = absurd (cc h)
  client_with-IsReached connection w client (ok key) key_is h =
      let (secret, read, usable) =
        service_account_key-IsUsable lib.decode_error connection _ key key_is in
      record { key = key; secret = secret; read = read; usable = usable; made = made-eq _ client h }

  kubeconfig_with-IsReached :
      (connection : OmniConnection) (name : String) (options : KubeconfigOptions) (w : World)
      (bytes : Bytes) (r : Result Client)
      → new_omni_client lib connection w ≡ r
      → (kubeconfig_with lib name options r w).0 ≡ ok bytes
      → (is_nil bytes ≡ false)
        × ((client : Client) × IsReached connection w client
            × ((lib.run_kubeconfig client name options w).0 ≡ ok bytes))
  unfolding new_omni_client
  kubeconfig_with-IsReached connection name options w bytes (err e) reached h = absurd (cc h)
  kubeconfig_with-IsReached connection name options w bytes (ok client) reached h =
      let (filled, given) = filled-eq name _ bytes h in
      (filled, (client, client_with-IsReached connection w client _ refl reached, given))

  -- A kubeconfig that `RealClient` returns is not empty, and is what Omni gave a client that was made
  -- for the connection's endpoint with a usable key from the connection's Secret.
  pub kubeconfig-IsReached :
      (connection : OmniConnection) (name : String) (options : KubeconfigOptions) (w : World)
      (bytes : Bytes)
      → ((real_client lib).kubeconfig connection name options w).0 ≡ ok bytes
      → (is_nil bytes ≡ false)
        × ((client : Client) × IsReached connection w client
            × ((lib.run_kubeconfig client name options w).0 ≡ ok bytes))
  unfolding kubeconfig
  kubeconfig-IsReached connection name options w bytes h =
      kubeconfig_with-IsReached connection name options w bytes _ refl h
