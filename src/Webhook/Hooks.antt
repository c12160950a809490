-- ===== src/Webhook/Hooks.antt =====
-- The validators of internal/webhook/v1alpha1/*_webhook.go: what the webhook of each kind answers to a
-- creation, an update and a deletion.
use omni_cluster_operator.Base.{String, List, [], ◌∷◌, ◌++◌, Option, none, some, not, ◌==◌}
use omni_cluster_operator.Api.Template.{
  OmniCluster, OmniControlPlane, OmniWorkers, OmniMachine, OmniConnection,
}
use omni_cluster_operator.Api.Workload.{OmniKubeconfigExport, OmniHelmRelease, OmniSecretSync}
use omni_cluster_operator.External.{External}
use omni_cluster_operator.Webhook.Field.{ErrorList, forbidden, check}
use omni_cluster_operator.Webhook.Validation.{
  path_of, validate_cluster, validate_control_plane, validate_workers, validate_machine,
  validate_connection, validate_helm_release, validate_secret_sync, validate_kubeconfig_export,
  cluster_warnings, connection_warnings, helm_release_warnings, secret_sync_warnings,
  kubeconfig_export_warnings,
}

-- `errors.NewInvalid` of the group omni.texashpc.com
pub record Invalid : Type 0 where
  pub kind : String
  pub name : String
  pub errors : ErrorList

-- `invalid`
unfoldable pub rejection : String → String → ErrorList → Option Invalid
rejection kind name [] = none
rejection kind name (e ∷ rest) = some (record { kind = kind; name = name; errors = e ∷ rest })

-- `(admission.Warnings, error)`
pub record Answer : Type 0 where
  pub warnings : List String
  pub error : Option Invalid

-- The validator of a kind of object: `ValidateCreate`, `ValidateUpdate` of an old and a new object,
-- and `ValidateDelete`.
pub record Hook (Object : Type 0) : Type 0 where
  pub create : Object → Answer
  pub update : Object → Object → Answer
  pub delete : Object → Answer

abbrev pub nothing : Answer
nothing = record { warnings = []; error = none }

unfoldable pub cluster_create : ⦃x : External⦄ → OmniCluster → Answer
cluster_create obj = record {
  warnings = cluster_warnings obj;
  error = rejection "OmniCluster" obj.meta.name (validate_cluster obj);
}

unfoldable pub cluster_hook : ⦃x : External⦄ → Hook OmniCluster
unfolding cluster_create
cluster_hook = record {
  create = cluster_create;
  update = λ old new. cluster_create new;
  delete = λ obj. nothing;
}

unfoldable pub control_plane_create : ⦃x : External⦄ → OmniControlPlane → Answer
control_plane_create obj = record {
  warnings = [];
  error = rejection "OmniControlPlane" obj.meta.name (validate_control_plane obj);
}

unfoldable pub control_plane_hook : ⦃x : External⦄ → Hook OmniControlPlane
unfolding control_plane_create
control_plane_hook = record {
  create = control_plane_create;
  update = λ old new. control_plane_create new;
  delete = λ obj. nothing;
}

unfoldable pub workers_create : ⦃x : External⦄ → OmniWorkers → Answer
workers_create obj = record {
  warnings = [];
  error = rejection "OmniWorkers" obj.meta.name (validate_workers obj);
}

unfoldable pub workers_hook : ⦃x : External⦄ → Hook OmniWorkers
unfolding workers_create
workers_hook = record {
  create = workers_create;
  update = λ old new. workers_create new;
  delete = λ obj. nothing;
}

unfoldable pub machine_create : ⦃x : External⦄ → OmniMachine → Answer
machine_create obj = record {
  warnings = [];
  error = rejection "OmniMachine" obj.meta.name (validate_machine obj);
}

unfoldable pub machine_hook : ⦃x : External⦄ → Hook OmniMachine
unfolding machine_create
machine_hook = record {
  create = machine_create;
  update = λ old new. machine_create new;
  delete = λ obj. nothing;
}

unfoldable pub connection_create : ⦃x : External⦄ → OmniConnection → Answer
connection_create obj = record {
  warnings = connection_warnings obj;
  error = rejection "OmniConnection" obj.meta.name (validate_connection obj);
}

unfoldable pub connection_hook : ⦃x : External⦄ → Hook OmniConnection
unfolding connection_create
connection_hook = record {
  create = connection_create;
  update = λ old new. connection_create new;
  delete = λ obj. nothing;
}

unfoldable pub helm_release_create : ⦃x : External⦄ → OmniHelmRelease → Answer
helm_release_create obj = record {
  warnings = helm_release_warnings obj;
  error = rejection "OmniHelmRelease" obj.meta.name (validate_helm_release obj);
}

unfoldable pub helm_release_hook : ⦃x : External⦄ → Hook OmniHelmRelease
unfolding helm_release_create
helm_release_hook = record {
  create = helm_release_create;
  update = λ old new. helm_release_create new;
  delete = λ obj. nothing;
}

unfoldable pub kubeconfig_export_create : ⦃x : External⦄ → OmniKubeconfigExport → Answer
kubeconfig_export_create obj = record {
  warnings = kubeconfig_export_warnings obj;
  error = rejection "OmniKubeconfigExport" obj.meta.name (validate_kubeconfig_export obj);
}

unfoldable pub kubeconfig_export_hook : ⦃x : External⦄ → Hook OmniKubeconfigExport
unfolding kubeconfig_export_create
kubeconfig_export_hook = record {
  create = kubeconfig_export_create;
  update = λ old new. kubeconfig_export_create new;
  delete = λ obj. nothing;
}

unfoldable pub secret_sync_create : OmniSecretSync → Answer
secret_sync_create obj = record {
  warnings = secret_sync_warnings obj;
  error = rejection "OmniSecretSync" obj.meta.name (validate_secret_sync obj);
}

-- What an update must not change.
unfoldable pub immutable_errors : OmniSecretSync → OmniSecretSync → ErrorList
immutable_errors old new =
    let before = old.spec.kubeconfig_secret_ref in
    let after = new.spec.kubeconfig_secret_ref in
    check (not (before.name == after.name))
      (forbidden (path_of "kubeconfigSecretRef" "name") "kubeconfigSecretRef.name is immutable")
    ++ check (not (before.key == after.key))
        (forbidden (path_of "kubeconfigSecretRef" "key") "kubeconfigSecretRef.key is immutable")

unfoldable pub secret_sync_update : OmniSecretSync → OmniSecretSync → Answer
unfolding immutable_errors
secret_sync_update old new = record {
  warnings = secret_sync_warnings new;
  error =
      rejection "OmniSecretSync" new.meta.name
        (validate_secret_sync new ++ immutable_errors old new);
}

unfoldable pub secret_sync_hook : Hook OmniSecretSync
unfolding secret_sync_create secret_sync_update
secret_sync_hook = record {
  create = secret_sync_create;
  update = secret_sync_update;
  delete = λ obj. nothing;
}
