-- ===== src/Controller/Admission.antt =====
-- What the admission webhooks accept, the reconcilers accept: the checks of validation.go against
-- the checks that the controllers repeat.
use omni_cluster_operator.Base.{
  ℕ, suc, String, List, [], ◌∷◌, none, Bool, true, false, ◌≡◌, ◌↔◌, refl, arith, ◌==◌, eq_iff,
  trim_space, is_blank, if◌then◌else◌,
}
use omni_cluster_operator.Base.Maps.{Entries, find, put}
use omni_cluster_operator.Base.Predicates.{append-eq-nil}
use omni_cluster_operator.Api.Workload.{OmniKubeconfigExport, OmniHelmRelease, OmniSecretSync}
use omni_cluster_operator.External.{External}
use omni_cluster_operator.Export
use omni_cluster_operator.Release
use omni_cluster_operator.Webhook.Field.{FieldPath, concat-eq-nil, concat_of_empty}
use omni_cluster_operator.Webhook.Validation.{
  group_errors, path_of, validate_groups_from, validate_kubeconfig_export, validate_helm_release,
  validate_secret_sync,
}
use omni_cluster_operator.Controller.SpecErrors.{
  groups_error, kubeconfig_export_spec_error, secret_sync_spec_error, helm_release_spec_error,
}

secret_sync_accepted :
    (item : OmniSecretSync) → validate_secret_sync item ≡ [] → secret_sync_spec_error item ≡ none
unfolding validate_secret_sync secret_sync_spec_error
secret_sync_accepted item h = let facts = concat-eq-nil _ h in ground arith

secret_sync_accepted_back :
    (item : OmniSecretSync) → secret_sync_spec_error item ≡ none → validate_secret_sync item ≡ []
unfolding validate_secret_sync secret_sync_spec_error
secret_sync_accepted_back item h =
    concat_of_empty _ (ground (arith, eq_iff item.spec.deletion_policy ""))

-- A Secret sync passes the webhook exactly when it passes the check of its reconciler.
pub secret_sync_accepted_iff :
    (item : OmniSecretSync)
    → (validate_secret_sync item ≡ []) ↔ (secret_sync_spec_error item ≡ none)
secret_sync_accepted_iff item = (secret_sync_accepted item, secret_sync_accepted_back item)

groups_accepted :
    (path : FieldPath) (allow : Bool) (i : ℕ) (seen : Entries ℕ) (groups : List String)
    → validate_groups_from path allow i seen groups ≡ []
    → groups_error allow groups ≡ none
unfolding validate_groups_from groups_error
groups_accepted path allow i seen [] h = refl
groups_accepted path allow i seen (item ∷ rest) h =
    let group = trim_space item in
    let later : Entries ℕ = if group == "" then seen else put group i seen in
    let parts =
      append-eq-nil (group_errors path i (find group seen) allow group)
        (validate_groups_from path allow (suc i) later rest) h in
    ground (arith, groups_accepted path allow (suc i) later rest parts.1)

default_not_blank : is_blank "kubeconfig" ≡ false
unfolding is_blank
default_not_blank = refl

-- What the webhook accepts as a kubeconfig export, its reconciler accepts.
pub kubeconfig_export_accepted :
    ⦃x : External⦄ (item : OmniKubeconfigExport)
    → validate_kubeconfig_export item ≡ []
    → kubeconfig_export_spec_error item ≡ none
unfolding validate_kubeconfig_export kubeconfig_export_spec_error Export.target_secret_key
kubeconfig_export_accepted item h =
    let facts = concat-eq-nil _ h in
    let account = item.spec.service_account in
    let groups =
      groups_accepted (path_of "serviceAccount" "groups") account.allow_cluster_admin 0 []
        account.groups facts.1.1.1.1.1.1.1.0 in
    ground (arith, default_not_blank, groups)

trimmed_not_blank :
    (s : String) → (trim_space s == s) ≡ true → (s == "") ≡ false → is_blank s ≡ false
trimmed_not_blank s trimmed set = unfold is_blank in (rw ((eq_iff (trim_space s) s).0 trimmed) set)

default_namespace_not_blank : is_blank "default" ≡ false
unfolding is_blank
default_namespace_not_blank = refl

-- What the webhook accepts as a Helm release, its reconciler accepts, if the resource has a name
-- that is not blank.
pub helm_release_accepted :
    ⦃x : External⦄ (item : OmniHelmRelease)
    → is_blank item.meta.name ≡ false
    → validate_helm_release item ≡ []
    → helm_release_spec_error item ≡ none
unfolding validate_helm_release helm_release_spec_error Release.release_name Release.namespace
helm_release_accepted item named h =
    let facts = concat-eq-nil _ h in
    ground (
      arith,
      trimmed_not_blank item.spec.release_name,
      trimmed_not_blank item.spec.namespace,
      default_namespace_not_blank,
    )
