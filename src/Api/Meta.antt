-- ===== src/Api/Meta.antt =====
-- The Kubernetes API types that the operator's resources are built from, with the fields that the
-- sources read or write: `metav1.ObjectMeta`, `metav1.Condition`, `corev1.Secret`, `intstr`, JSON.
use omni_cluster_operator.Base.{ℕ, String, List, Option}
use omni_cluster_operator.Base.Int.{ℤ}
use omni_cluster_operator.Base.Maps.{Map}

abbrev pub Bytes : Type 0
Bytes = List ℕ

-- Nanoseconds, from the epoch or as a length of time.
abbrev pub Time : Type 0
Time = ℤ

abbrev pub Duration : Type 0
Duration = ℤ

pub record ObjectMeta : Type 0 where
  pub name : String
  pub namespace : String
  pub uid : String
  pub generation : ℤ
  pub resource_version : String
  pub deletion_timestamp : Option Time
  pub finalizers : List String
  pub labels : Map String
  pub annotations : Map String

pub data ConditionStatus : Type 0 where
  condition_true condition_false condition_unknown : ConditionStatus

pub record Condition : Type 0 where
  pub type : String
  pub status : ConditionStatus
  pub observed_generation : ℤ
  pub reason : String
  pub message : String

pub record Secret : Type 0 where
  pub meta : ObjectMeta
  pub open meta use *
  pub type : String
  pub contents : Map Bytes

-- `apiextensionsv1.JSON`
pub record Json : Type 0 where
  pub raw : Bytes

pub data IntOrStringType : Type 0 where
  int string : IntOrStringType

pub record IntOrString : Type 0 where
  pub type : IntOrStringType
  pub int_val : ℤ
  pub str_val : String
