-- ===== src/External.antt =====
-- Functions of the Go libraries that the sources call and that are no part of the repository. Each
-- is a parameter of the code that calls it, by an instance argument.
use omni_cluster_operator.Base.{String, List, Option, Bool, true, false, ◌≡◌, refl}
use omni_cluster_operator.Base.Int.{ℤ}
use omni_cluster_operator.Base.Maps.{Map}
use omni_cluster_operator.Api.Meta.{Bytes, Time, Duration}

-- A Go `error`: what the callers ask about it, and its text.
pub data ErrorKind : Type 0 where
  not_found conflict already_exists forbidden unauthorized not_usable other : ErrorKind

pub record Error : Type 0 where
  pub kind : ErrorKind
  pub message : String

-- An error that the sources make, `errors.New` or `fmt.Errorf` with no `%w`.
unfoldable pub new_error : String → Error
new_error message = record { kind = other; message = message }

pub data Result {ℓ} (A : Type ℓ) : Type ℓ where
  ok : A → Result A
  err : Error → Result A

infixl 5 ◌>>=◌
abbrev pub ◌>>=◌ {ℓ κ} : {A : Type ℓ} {B : Type κ} → Result A → (A → Result B) → Result B
ok a >>= f = f a
err e >>= f = err e

-- `apierrors.IsNotFound` and its like
abbrev pub is_not_found : Error → Bool
is_not_found e = elim e.kind [ not_found ↦ true | _ ↦ false ]

abbrev pub is_conflict : Error → Bool
is_conflict e = elim e.kind [ conflict ↦ true | _ ↦ false ]

abbrev pub is_already_exists : Error → Bool
is_already_exists e = elim e.kind [ already_exists ↦ true | _ ↦ false ]

abbrev pub is_ok {ℓ} : {A : Type ℓ} → Result A → Bool
is_ok (ok a) = true
is_ok (err e) = false

pub ok_of_is_ok {ℓ} : {A : Type ℓ} (r : Result A) → is_ok r ≡ true → (a : A) × (r ≡ ok a)
ok_of_is_ok (ok a) h = (a, refl)
ok_of_is_ok (err e) h = absurd (cc h)

pub >>=-eq-ok {ℓ κ} :
    {A : Type ℓ} {B : Type κ} (m : Result A) (f : A → Result B) (b : B)
    → (m >>= f) ≡ ok b
    → (a : A) × (m ≡ ok a) × (f a ≡ ok b)
>>=-eq-ok (ok a) f b h = (a, refl, h)
>>=-eq-ok (err e) f b h = absurd (cc h)

-- What `json.Unmarshal` decodes into an `any`. A number is kept as its text.
mutual
  pub data Any : Type 0 where
    null : Any
    boolean : Bool → Any
    number : String → Any
    integer : ℤ → Any
    text : String → Any
    array : Items → Any
    object : Fields → Any

  pub data Items : Type 0 where
    nil : Items
    cons : Any → Items → Items

  pub data Fields : Type 0 where
    end : Fields
    field : String → Any → Fields → Fields

pub record Url : Type 0 where
  pub scheme : String
  pub host : String

-- The fields of an export that its specification hash covers.
pub record ExportPayload : Type 0 where
  pub version : String
  pub cluster_name : String
  pub target_secret_key : String
  pub context_namespace : String
  pub service_account_user : String
  pub service_account_groups : List String
  pub ttl : String

pub record External : Type 0 where
  -- `%q` of `fmt`
  pub quote : String → String
  -- whether `uuid.Parse` accepts the text
  pub is_uuid : String → Bool
  -- `url.Parse`
  pub parse_url : String → Option Url
  -- `json.Unmarshal` into an `any`
  pub unmarshal : Bytes → Result Any
  -- `string(bytes)`, and `bytes.TrimSpace`
  pub text_of_bytes : Bytes → String
  pub trim_bytes : Bytes → Bytes
  -- `Duration.String`
  pub duration_text : Duration → String
  -- `NamespacedName.String`, of a namespace and a name
  pub namespaced_name : String → String → String
  -- `json.Marshal` of the payload that `secretsync.Hash` builds: version, type and contents
  pub marshal_secret : String → String → Map Bytes → Result Bytes
  -- `json.Marshal` of the payload that `kubeconfigexport.SpecHash` builds
  pub marshal_export : ExportPayload → Result Bytes
  -- the hexadecimal SHA-256 sum
  pub sha256_hex : Bytes → String
  -- `Time.UTC().Format(time.RFC3339)`, and `time.Parse(time.RFC3339, …)`
  pub format_time : Time → String
  pub parse_time : String → Option Time
