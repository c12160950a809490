-- ===== src/Controller/KubeconfigExport/Validator.antt =====
-- omnikubeconfigexport_controller.go: `workloadKubeconfigValidator`, and which kubeconfigs it makes the
-- reconciler export again.
use omni_cluster_operator.Base.{
  String, ◌<>◌, Bool, true, false, Option, none, some, ◌≡◌, ◌≢◌, ◌↔◌, ◌⊎◌, inl, inr, refl,
  if◌then◌else◌,
}
use omni_cluster_operator.Base.Int.{pos}
use omni_cluster_operator.Api.Meta.{Bytes, Time, Duration, Secret}
use omni_cluster_operator.External.{
  Error, ErrorKind, not_found, conflict, already_exists, forbidden, unauthorized, not_usable, other,
  Result, ok, err, External,
}
use omni_cluster_operator.Controller.KubeconfigExport.State.{
  CurrentKubeconfigState, bytes_at, kubeconfig_validation_requires_rotation,
  current_kubeconfig_secret_state, reusable_current_kubeconfig_secret_state,
}

-- What `client-go` does with a kubeconfig.
pub record Discovery : Type 1 where
  pub Config : Type 0
  pub Clientset : Type 0
  pub rest_config : Bytes → Result Config
  pub set_timeout : Config → Duration → Config
  pub new_for_config : Config → Result Clientset
  -- the error of `ServerVersion`
  pub version_error : Clientset → Option Error

-- `10 * time.Second`
abbrev pub timeout : Duration
timeout = pos 10_000_000_000

-- `fmt.Errorf("%w: %v", errKubeconfigNotUsable, err)`
unfoldable pub unusable : Error → Error
unusable e = record { kind = not_usable; message = "kubeconfig is not usable: " <> e.message }

module _ (c : Discovery) where
  unfoldable pub validate_client : Result c.Clientset → Option Error
  unfolding unusable
  validate_client (err e) = some (unusable e)
  validate_client (ok client) = c.version_error client

  unfoldable pub validate_config : Result c.Config → Option Error
  unfolding unusable validate_client
  validate_config (err e) = some (unusable e)
  validate_config (ok config) = validate_client (c.new_for_config (c.set_timeout config timeout))

  -- `workloadKubeconfigValidator.Validate`
  unfoldable pub validate : Bytes → Option Error
  unfolding validate_config
  validate kubeconfig = validate_config (c.rest_config kubeconfig)

  -- A kubeconfig that gives no client, or that its cluster does not let in.
  pub data IsRejected (kubeconfig : Bytes) : Type 0 where
    unloadable : (e : Error) → c.rest_config kubeconfig ≡ err e → IsRejected kubeconfig
    clientless :
        (config : c.Config) (e : Error)
        → c.rest_config kubeconfig ≡ ok config
        → c.new_for_config (c.set_timeout config timeout) ≡ err e
        → IsRejected kubeconfig
    kept_out :
        (config : c.Config) (client : c.Clientset) (e : Error)
        → c.rest_config kubeconfig ≡ ok config
        → c.new_for_config (c.set_timeout config timeout) ≡ ok client
        → c.version_error client ≡ some e
        → (e.kind ≡ forbidden) ⊎ (e.kind ≡ unauthorized)
        → IsRejected kubeconfig

  kept_out_kind :
      (e : Error)
      → e.kind ≢ not_usable
      → kubeconfig_validation_requires_rotation (some e) ≡ true
      → (e.kind ≡ forbidden) ⊎ (e.kind ≡ unauthorized)
  unfolding kubeconfig_validation_requires_rotation
  kept_out_kind e = go e.kind
    where
      go :
          (kind : ErrorKind)
          → kind ≢ not_usable
          → (elim kind [ not_usable ↦ true | forbidden ↦ true | unauthorized ↦ true | _ ↦ false ])
            ≡ true
          → (kind ≡ forbidden) ⊎ (kind ≡ unauthorized)
      go forbidden own h = inl refl
      go unauthorized own h = inr refl
      go not_usable own h = absurd (own refl)
      go not_found own h = absurd (cc h)
      go conflict own h = absurd (cc h)
      go already_exists own h = absurd (cc h)
      go other own h = absurd (cc h)

  rejected_kind :
      (e : Error)
      → (e.kind ≡ forbidden) ⊎ (e.kind ≡ unauthorized)
      → kubeconfig_validation_requires_rotation (some e) ≡ true
  unfolding kubeconfig_validation_requires_rotation
  rejected_kind e (inl h) = rw (h) refl
  rejected_kind e (inr h) = rw (h) refl

  rejected_requires :
      (kubeconfig : Bytes)
      → IsRejected kubeconfig
      → kubeconfig_validation_requires_rotation (validate kubeconfig) ≡ true
  unfolding validate validate_config validate_client unusable
      kubeconfig_validation_requires_rotation
  rejected_requires kubeconfig (unloadable e loads) = rw (loads) refl
  rejected_requires kubeconfig (clientless config e loads made) = rw (loads, made) refl
  rejected_requires kubeconfig (kept_out config client e loads made version kind) =
      rw (loads, made, version) (rejected_kind e kind)

  -- The errors of the server are its own: none is the error of a kubeconfig that is not usable.
  module _
      (own : (client : c.Clientset) (e : Error)
        → c.version_error client ≡ some e
        → e.kind ≢ not_usable) where
    version-IsRejected :
        (kubeconfig : Bytes) (config : c.Config) (client : c.Clientset)
        → c.rest_config kubeconfig ≡ ok config
        → c.new_for_config (c.set_timeout config timeout) ≡ ok client
        → (answer : Option Error) → c.version_error client ≡ answer
        → kubeconfig_validation_requires_rotation answer ≡ true
        → IsRejected kubeconfig
    unfolding kubeconfig_validation_requires_rotation
    version-IsRejected kubeconfig config client loads made none v h = absurd (cc h)
    version-IsRejected kubeconfig config client loads made (some e) v h =
        kept_out config client e loads made v (kept_out_kind e (own client e v) h)

    client-IsRejected :
        (kubeconfig : Bytes) (config : c.Config)
        → c.rest_config kubeconfig ≡ ok config
        → (r : Result c.Clientset) → c.new_for_config (c.set_timeout config timeout) ≡ r
        → kubeconfig_validation_requires_rotation (validate_client r) ≡ true
        → IsRejected kubeconfig
    unfolding validate_client
    client-IsRejected kubeconfig config loads (err e) made h = clientless config e loads made
    client-IsRejected kubeconfig config loads (ok client) made h =
        version-IsRejected kubeconfig config client loads made _ refl h

    config-IsRejected :
        (kubeconfig : Bytes) (r : Result c.Config)
        → c.rest_config kubeconfig ≡ r
        → kubeconfig_validation_requires_rotation (validate_config r) ≡ true
        → IsRejected kubeconfig
    unfolding validate_config
    config-IsRejected kubeconfig (err e) loads h = unloadable e loads
    config-IsRejected kubeconfig (ok config) loads h =
        client-IsRejected kubeconfig config loads _ refl h

    requires_iff :
        (kubeconfig : Bytes)
        → (kubeconfig_validation_requires_rotation (validate kubeconfig) ≡ true)
          ↔ IsRejected kubeconfig
    unfolding validate
    requires_iff kubeconfig = (config-IsRejected kubeconfig _ refl, rejected_requires kubeconfig)

    -- The exported kubeconfig of a Secret whose state is current is exported again exactly where it
    -- gives no client, or where its cluster answers that it is forbidden or not authorized: a cluster
    -- that is not reached, or fails in another way, changes nothing. The errors of a server are its own.
    pub reusable-IsRejected :
        ⦃x : External⦄ (secret : Secret) (target_key spec_hash : String) (now : Time)
        (renew_before : Option Duration) (state : CurrentKubeconfigState)
        → current_kubeconfig_secret_state secret target_key spec_hash now renew_before ≡ some state
        → (reusable_current_kubeconfig_secret_state validate secret target_key spec_hash now
              renew_before
            ≡ none)
          ↔ IsRejected (bytes_at target_key secret)
    unfolding reusable_current_kubeconfig_secret_state
    reusable-IsRejected secret target_key spec_hash now renew_before state current =
        rw (reusable_current_kubeconfig_secret_state, current)
          (go (kubeconfig_validation_requires_rotation (validate (bytes_at target_key secret)))
            (requires_iff (bytes_at target_key secret)))
      where
        go :
            {P : Type 0} (b : Bool) → (b ≡ true) ↔ P → ((if b then none else some state) ≡ none) ↔ P
        go true (f, g) = (λ h. f refl, λ p. refl)
        go false (f, g) = (λ h. absurd (cc h), λ p. absurd (cc (g p)))
