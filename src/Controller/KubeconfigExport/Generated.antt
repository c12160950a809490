-- ===== src/Controller/KubeconfigExport/Generated.antt =====
-- omnikubeconfigexport_controller.go: what an export asks of Omni, and `generateKubeconfig` on the answer.
use omni_cluster_operator.Base.{String, ◌<>◌, Bool, Option, not, ◌==◌, if◌then◌else◌}
use omni_cluster_operator.Api.Meta.{Bytes}
use omni_cluster_operator.Api.Template.{OmniCluster}
use omni_cluster_operator.Api.Workload.{OmniKubeconfigExport}
use omni_cluster_operator.External.{Error, new_error, Result, ok, err, External}
use omni_cluster_operator.Exec.{wrapped}
use omni_cluster_operator.Controller.Kube.{Key}
use omni_cluster_operator.Controller.Omni.{KubeconfigOptions}

-- `clientcmd` on a kubeconfig, and the check of a kubeconfig against its cluster.
pub record Kubeconfigs : Type 1 where
  pub Config : Type 0
  pub load : Bytes → Result Config
  pub current_context : Config → String
  pub has_context : Config → String → Bool
  pub set_namespace : Config → String → String → Config
  pub write : Config → Result Bytes
  pub validate : Bytes → Option Error

abbrev pub cluster_key : OmniKubeconfigExport → Key
cluster_key item = record { namespace = item.meta.namespace; name = item.spec.cluster_ref.name }

abbrev pub connection_key : OmniKubeconfigExport → OmniCluster → Key
connection_key item cluster = record {
  namespace = item.meta.namespace;
  name = cluster.spec.connection_ref.name;
}

abbrev pub kubeconfig_options : OmniKubeconfigExport → KubeconfigOptions
kubeconfig_options item = record {
  ttl = item.spec.ttl;
  user = item.spec.service_account.user;
  groups = item.spec.service_account.groups;
}

module _ ⦃x : External⦄ (k : Kubeconfigs) where
  -- `generateKubeconfig` from the answer of `clientcmd.Load` on
  unfoldable pub in_context : OmniKubeconfigExport → Bytes → Result k.Config → Result Bytes
  unfolding new_error
  in_context item bytes (err e) = err (wrapped "generated kubeconfig is invalid: " e)
  in_context item bytes (ok config) =
      let name = k.current_context config in
      if item.spec.context_namespace == ""
      then ok bytes
      else if not (k.has_context config name)
      then err
          (new_error ("generated kubeconfig current context " <> x.quote name <> " was not found"))
      else elim (k.write (k.set_namespace config name item.spec.context_namespace)) [
        | ok written ↦ ok written
        | err e ↦ err (wrapped "write kubeconfig with context namespace: " e)
      ]
