-- ===== src/OmniClient/Key.antt =====
-- client.go: `serviceAccountKey` and `containsOmniEnvAssignment`.
use Prim.Native.Char.{code}
use omni_cluster_operator.Base.{
  ℕ, String, ◌<>◌, List, [], ◌∷◌, Bool, true, false, Option, none, some, ◌≡◌, refl, sym, ap, ◌==◌,
  ◌||◌, ◌&&◌, starts_with, trim_space, leb, if◌then◌else◌, if_cases,
}
use omni_cluster_operator.Base.Maps.{get}
use omni_cluster_operator.Api.Meta.{Bytes, Secret}
use omni_cluster_operator.Api.Template.{OmniConnection}
use omni_cluster_operator.External.{Error, new_error, Result, ok, err, is_not_found, External}
use omni_cluster_operator.Exec.{wrapped}
use omni_cluster_operator.Controller.Kube.{Key}

-- `r == '\n' || r == '\r'`
abbrev pub is_break : ℕ → Bool
is_break c = (leb 10 c && leb c 10) || (leb 13 c && leb c 13)

abbrev pub filled : String → List String → List String
filled s l = if s == "" then l else s ∷ l

-- What stands before the first line break, and the lines that are not empty after it.
unfoldable pub pieces : String → String × List String
pieces String.[] = ("", [])
pieces (String.◌∷◌ c s) =
    let (first, rest) = pieces s in
    if is_break (code c) then ("", filled first rest) else (String.◌∷◌ c first, rest)

-- `strings.FieldsFunc`: the lines that are not empty.
unfoldable pub lines_of : String → List String
unfolding pieces
lines_of s = let (first, rest) = pieces s in filled first rest

abbrev pub same_char : ℕ → ℕ → Bool
same_char a b = leb a b && leb b a

-- `strings.CutPrefix`
unfoldable pub cut_prefix : String → String → Option String
cut_prefix s String.[] = some s
cut_prefix String.[] (String.◌∷◌ c p) = none
cut_prefix (String.◌∷◌ d s) (String.◌∷◌ c p) =
    let rest = cut_prefix s p in if same_char (code c) (code d) then rest else none

-- `strings.TrimPrefix`
unfoldable pub trim_prefix : String → String → String
unfolding cut_prefix
trim_prefix s prefix = elim (cut_prefix s prefix) [ none ↦ s | some rest ↦ rest ]

-- The line without spaces around it and without `export`.
unfoldable pub assignment_of : String → String
unfolding trim_prefix
assignment_of line = trim_space (trim_prefix (trim_space line) "export ")

unfoldable pub is_assignment : String → Bool
unfolding assignment_of
is_assignment line =
    let text = assignment_of line in
    starts_with text "OMNI_ENDPOINT="
    || starts_with text "OMNI_SERVICE_ACCOUNT_KEY="
    || starts_with text "SIDERO_SERVICE_ACCOUNT_KEY="

unfoldable pub any_assignment : List String → Bool
unfolding is_assignment
any_assignment [] = false
any_assignment (line ∷ l) = let rest = any_assignment l in is_assignment line || rest

unfoldable pub contains_omni_env_assignment : String → Bool
unfolding any_assignment lines_of
contains_omni_env_assignment value = any_assignment (lines_of value)

assignment_is_found :
    contains_omni_env_assignment "\r\n  export OMNI_ENDPOINT=https://omni\n" ≡ true
unfolding contains_omni_env_assignment trim_space
assignment_is_found = refl

key_is_no_assignment : contains_omni_env_assignment "ZXhwb3J0IA==" ≡ false
unfolding contains_omni_env_assignment trim_space
key_is_no_assignment = refl

abbrev pub key_ref : OmniConnection → Key
key_ref connection = record {
  namespace = connection.meta.namespace;
  name = connection.spec.auth.service_account_secret_ref.name;
}

-- `decode_error` is the error of `base64.StdEncoding.DecodeString`.
module _ ⦃x : External⦄ (decode_error : String → Option Error) (connection : OmniConnection) where
  -- `secret <namespace>/<name>`
  abbrev pub secret_text : String
  secret_text =
      "secret " <> connection.meta.namespace <> "/"
      <> connection.spec.auth.service_account_secret_ref.name

  abbrev pub key_text : String
  key_text = x.quote connection.spec.auth.service_account_secret_ref.key

  -- From the decoding on
  unfoldable pub decoded_key : String → Option Error → Result String
  decoded_key key none = ok key
  decoded_key key (some e) = err (
      wrapped
        (secret_text <> " key " <> key_text
          <> " must contain the base64-encoded Omni service account key: ")
        e)

  -- The checks of the text
  unfoldable pub checked_key : String → Result String
  unfolding decoded_key new_error
  checked_key key =
      if key == ""
      then err (new_error (secret_text <> " key " <> key_text <> " is empty"))
      else if contains_omni_env_assignment key
      then err (
          new_error (
            secret_text <> " key " <> key_text
            <> " contains Omni environment assignments; store only the OMNI_SERVICE_ACCOUNT_KEY value"))
      else decoded_key key (decode_error key)

  unfoldable pub key_at : Option Bytes → Result String
  unfolding checked_key new_error
  key_at none = err (new_error (secret_text <> " missing key " <> key_text))
  key_at (some value) = checked_key (trim_space (x.text_of_bytes value))

  -- `serviceAccountKey`, from the answer of `Get` on
  unfoldable pub service_account_key : Result Secret → Result String
  unfolding key_at
  service_account_key (ok secret) =
      key_at (get connection.spec.auth.service_account_secret_ref.key secret.contents)
  service_account_key (err e) =
      if is_not_found e
      then err (
          wrapped
            ("MissingSecret "
              <> x.quote connection.spec.auth.service_account_secret_ref.name
              <> ": ")
            e)
      else err e

  -- A key that Omni is given: the bytes that the Secret has under the key that the connection names,
  -- without spaces around them.
  pub record IsUsable (secret : Secret) (key : String) : Type 0 where
    pub value : Bytes
    pub there : get connection.spec.auth.service_account_secret_ref.key secret.contents ≡ some value
    pub trimmed : key ≡ trim_space (x.text_of_bytes value)
    pub is_filled : (key == "") ≡ false
    pub bare : contains_omni_env_assignment key ≡ false
    pub decodes : decode_error key ≡ none

  result_or : String → Result String → String
  result_or s (ok t) = t
  result_or s (err e) = s

  decoded-eq :
      (key result : String) (e : Option Error)
      → decoded_key key e ≡ ok result
      → (key ≡ result) × (e ≡ none)
  unfolding decoded_key result_or
  decoded-eq key result none h = (ap (result_or key) h, refl)
  decoded-eq key result (some e) h = absurd (cc h)

  checked-eq :
      (key result : String)
      → checked_key key ≡ ok result
      → ((key == "") ≡ false)
        × (contains_omni_env_assignment key ≡ false)
        × (key ≡ result)
        × (decode_error key ≡ none)
  unfolding checked_key
  checked-eq key result =
      let Good =
        ((key == "") ≡ false)
        × (contains_omni_env_assignment key ≡ false)
        × (key ≡ result)
        × (decode_error key ≡ none) in
      if_cases (λ r. r ≡ ok result → Good) (key == "") (λ _ h. absurd (cc h))
        (λ filled_key.
          if_cases (λ r. r ≡ ok result → Good) (contains_omni_env_assignment key)
            (λ _ h. absurd (cc h))
            (λ bare_key h.
              let (same, decodes) = decoded-eq key result (decode_error key) h in
              (filled_key, bare_key, same, decodes)))

  key_at-IsUsable :
      (secret : Secret) (value : Option Bytes) (key : String)
      → get connection.spec.auth.service_account_secret_ref.key secret.contents ≡ value
      → key_at value ≡ ok key
      → IsUsable secret key
  unfolding key_at
  key_at-IsUsable secret none key there h = absurd (cc h)
  key_at-IsUsable secret (some value) key there h =
      let (is_filled, bare, same, decodes) = checked-eq _ key h in
      record {
        value = value;
        there = there;
        trimmed = sym same;
        is_filled = rw (sym same) is_filled;
        bare = rw (sym same) bare;
        decodes = rw (sym same) decodes;
      }

  -- A key that is returned is the trimmed text of the bytes that the Secret has under the key that the
  -- connection names; it is not empty, has no line that assigns one of Omni's environment variables,
  -- and decodes from base64.
  pub service_account_key-IsUsable :
      (r : Result Secret) (key : String)
      → service_account_key r ≡ ok key
      → (secret : Secret) × (r ≡ ok secret) × IsUsable secret key
  unfolding service_account_key
  service_account_key-IsUsable (ok secret) key h =
      (secret, refl, key_at-IsUsable secret _ key refl h)
  service_account_key-IsUsable (err e) key h =
      let answer : Result Secret = err e in
      (if_cases (λ r. r ≡ ok key → (secret : Secret) × (answer ≡ ok secret) × IsUsable secret key)
          (is_not_found e) (λ _ h. absurd (cc h)) (λ _ h. absurd (cc h)))
        h
