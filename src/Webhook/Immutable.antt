-- ===== src/Webhook/Immutable.antt =====
-- omnisecretsync_webhook.go: an update of a Secret sync does not change the cluster that it writes to.
use omni_cluster_operator.Base.{
  String, List, [], ◌∷◌, ◌++◌, Bool, true, false, none, not, ◌==◌, ◌≡◌, ◌↔◌, refl, eq_iff,
}
use omni_cluster_operator.Api.Workload.{OmniSecretSync}
use omni_cluster_operator.Webhook.Field.{ErrorList, FieldError, check}
use omni_cluster_operator.Webhook.Validation.{validate_secret_sync}
use omni_cluster_operator.Webhook.Hooks.{
  rejection, secret_sync_create, secret_sync_update, secret_sync_hook, immutable_errors,
}

rejection_iff :
    (kind name : String) (errors : ErrorList) → (rejection kind name errors ≡ none) ↔ (errors ≡ [])
unfolding rejection
rejection_iff kind name [] = (λ _. refl, λ _. refl)
rejection_iff kind name (e ∷ rest) = (λ h. absurd (cc h), λ h. absurd (cc h))

append_nil_iff {ℓ} : {A : Type ℓ} (l m : List A) → (l ++ m ≡ []) ↔ ((l ≡ []) × (m ≡ []))
append_nil_iff [] m = (λ h. (refl, h), λ (_, h). h)
append_nil_iff (a ∷ l) m = (λ h. absurd (cc h), λ (h, _). absurd (cc h))

unchanged_iff : (s t : String) (e : FieldError) → (check (not (s == t)) e ≡ []) ↔ (s ≡ t)
unchanged_iff s t e = go (s == t) (eq_iff s t)
  where
    go : (b : Bool) → (b ≡ true) ↔ (s ≡ t) → (check (not b) e ≡ []) ↔ (s ≡ t)
    go true (f, g) = (λ _. f refl, λ _. refl)
    go false (f, g) = (λ h. absurd (cc h), λ h. absurd (cc (g h)))

immutable_errors_iff :
    (old new : OmniSecretSync)
    → (immutable_errors old new ≡ []) ↔ (
        (old.spec.kubeconfig_secret_ref.name ≡ new.spec.kubeconfig_secret_ref.name)
        × (old.spec.kubeconfig_secret_ref.key ≡ new.spec.kubeconfig_secret_ref.key))
unfolding immutable_errors
immutable_errors_iff old new =
    let (f, g) = append_nil_iff _ _ in
    let (name_is, name_does) = unchanged_iff _ _ _ in
    let (key_is, key_does) = unchanged_iff _ _ _ in
    (λ h. (name_is (f h).0, key_is (f h).1), λ (n, k). g (name_does n, key_does k))

-- The webhook admits an update of a Secret sync exactly where it would admit the creation of the new
-- object, and the new object reads the kubeconfig of the workload cluster from the same key of the
-- same Secret as the old one.
pub secret_sync_update_iff :
    (old new : OmniSecretSync)
    → ((secret_sync_hook.update old new).error ≡ none) ↔ (
        ((secret_sync_hook.create new).error ≡ none)
        × ((old.spec.kubeconfig_secret_ref.name ≡ new.spec.kubeconfig_secret_ref.name)
            × (old.spec.kubeconfig_secret_ref.key ≡ new.spec.kubeconfig_secret_ref.key)))
unfolding secret_sync_hook secret_sync_create secret_sync_update
secret_sync_update_iff old new =
    let (updated, update) =
      rejection_iff "OmniSecretSync" new.meta.name
        (validate_secret_sync new ++ immutable_errors old new) in
    let (created, create) =
      rejection_iff "OmniSecretSync" new.meta.name (validate_secret_sync new) in
    let (apart, together) = append_nil_iff (validate_secret_sync new) (immutable_errors old new) in
    let (same, keeps) = immutable_errors_iff old new in
    (
      λ h. (create (apart (updated h)).0, same (apart (updated h)).1),
      λ (h, unchanged). update (together (created h, keeps unchanged)),
    )
