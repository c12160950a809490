-- ===== src/Controller/Omni.antt =====
-- What the controllers call of `omniapi.Client`.
use omni_cluster_operator.Base.{String, List, Bool, Option}
use omni_cluster_operator.Api.Meta.{Bytes, Duration}
use omni_cluster_operator.Api.Template.{OmniConnection}
use omni_cluster_operator.External.{Error, Result}
use omni_cluster_operator.Exec.{Exec}

pub record SyncOptions : Type 0 where
  pub destroy_machines : Bool

pub record KubeconfigOptions : Type 0 where
  pub ttl : Duration
  pub user : String
  pub groups : List String

-- The text that a call of Omni gives, and its error.
pub record Reply : Type 0 where
  pub output : String
  pub error : Option Error

-- `omniapi.Client`, over a state of Omni.
pub record Omni : Type 1 where
  pub Remote : Type 0
  pub ping : OmniConnection → Remote → Result String
  pub sync_template : OmniConnection → Bytes → String → SyncOptions → Remote → Reply × Remote
  pub status_cluster : OmniConnection → String → Remote → Reply
  pub delete_cluster : OmniConnection → String → SyncOptions → Remote → Reply × Remote
  pub kubeconfig : OmniConnection → String → KubeconfigOptions → Exec Remote Bytes
