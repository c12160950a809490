-- ===== src/Webhook/Field.antt =====
-- `field.Path`, `field.Error` and `field.ErrorList` of k8s.io/apimachinery, as the validation code of
-- internal/webhook/v1alpha1/validation.go builds them. A path is kept as its elements.
use omni_cluster_operator.Base.{
  ℕ, String, List, [], ◌∷◌, ◌++◌, Bool, true, false, ◌≡◌, refl, Option, if◌then◌else◌,
}
use omni_cluster_operator.Base.Int.{ℤ}
use omni_cluster_operator.Base.Predicates.{All, append-eq-nil}
use omni_cluster_operator.Api.Meta.{Json}
use omni_cluster_operator.Api.Common.{ClusterDeletePolicy, Patch, KubernetesManifest}

pub data PathElement : Type 0 where
  name : String → PathElement
  index : ℕ → PathElement

abbrev pub FieldPath : Type 0
FieldPath = List PathElement

abbrev pub spec_path : FieldPath
spec_path = name "spec" ∷ []

abbrev pub child : FieldPath → String → FieldPath
child path n = path ++ (name n ∷ [])

abbrev pub at : FieldPath → ℕ → FieldPath
at path i = path ++ (index i ∷ [])

-- The value that an error reports.
pub data BadValue : Type 0 where
  text : String → BadValue
  texts : List String → BadValue
  number : ℤ → BadValue
  delete_policy : ClusterDeletePolicy → BadValue
  patch : Patch → BadValue
  manifest : KubernetesManifest → BadValue
  values : Option Json → BadValue

pub data FieldError : Type 0 where
  required : FieldPath → String → FieldError
  invalid : FieldPath → BadValue → String → FieldError
  duplicate : FieldPath → String → FieldError
  forbidden : FieldPath → String → FieldError
  not_supported : FieldPath → String → List String → FieldError

abbrev pub ErrorList : Type 0
ErrorList = List FieldError

-- `if test { allErrs = append(allErrs, e) }`
abbrev pub check : Bool → FieldError → ErrorList
check test e = if test then e ∷ [] else []

-- One block of appended errors after another.
unfoldable pub concat : List ErrorList → ErrorList
concat [] = []
concat (l ∷ ls) = l ++ concat ls

abbrev pub IsEmpty : ErrorList → Type 0
IsEmpty l = l ≡ []

-- No errors at all is no errors in each block.
pub concat-eq-nil : (ls : List ErrorList) → concat ls ≡ [] → All IsEmpty ls
unfolding concat
concat-eq-nil [] h = tt
concat-eq-nil (l ∷ ls) h =
    let (first, rest) = append-eq-nil l (concat ls) h in (first, concat-eq-nil ls rest)

pub concat_of_empty : (ls : List ErrorList) → All IsEmpty ls → concat ls ≡ []
unfolding concat
concat_of_empty [] h = refl
concat_of_empty (l ∷ ls) (first, rest) = rw (first, concat_of_empty ls rest)

pub check-eq-nil : (test : Bool) (e : FieldError) → check test e ≡ [] → test ≡ false
check-eq-nil true e h = absurd (cc h)
check-eq-nil false e h = refl

pub check_of_false : (test : Bool) (e : FieldError) → test ≡ false → check test e ≡ []
check_of_false test e h = rw h
