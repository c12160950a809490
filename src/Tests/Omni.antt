-- ===== src/Tests/Omni.antt =====
-- A client of Omni that reads its key from a Secret.
use omni_cluster_operator.Base.{String, false, [], ◌∷◌, none, some, ◌≡◌, refl, is_nil, trim_space}
use omni_cluster_operator.Base.Int.{pos}
use omni_cluster_operator.Base.Maps.{find}
use omni_cluster_operator.Api.Meta.{Bytes, Secret}
use omni_cluster_operator.External.{ok}
use omni_cluster_operator.Controller.Omni.{KubeconfigOptions}
use omni_cluster_operator.OmniClient.Key.{
  service_account_key, IsUsable, service_account_key-IsUsable, contains_omni_env_assignment,
}
use omni_cluster_operator.OmniClient.Real.{OmniLibrary, real_client, kubeconfig}
use omni_cluster_operator.OmniClient.Reached.{IsReached, kubeconfig-IsReached}
use omni_cluster_operator.Tests.Samples.{sample_external, sample_connection, meta_of}

abbrev pub key_secret : Secret
key_secret = record {
  meta = meta_of "omni-key" "u11";
  type = "Opaque";
  contents = some (("key", 5 ∷ []) ∷ []);
}

key_is_usable :
    service_account_key ⦃x = sample_external⦄ (λ _. none) sample_connection (ok key_secret)
    ≡ ok "null"
unfolding service_account_key find trim_space contains_omni_env_assignment
key_is_usable = refl

service_account_key-IsUsable_example :
    (secret : Secret) × (ok key_secret ≡ ok secret)
    × IsUsable ⦃x = sample_external⦄ (λ _. none) sample_connection secret "null"
service_account_key-IsUsable_example =
    service_account_key-IsUsable ⦃x = sample_external⦄ (λ _. none) sample_connection (ok key_secret)
      "null" key_is_usable

abbrev given : Bytes
given = 9 ∷ []

abbrev sample_library : OmniLibrary
sample_library = record {
  World = Unit {0};
  Client = String;
  Root = String;
  get_secret = λ _ _. ok key_secret;
  decode_error = λ _. none;
  new_client = λ endpoint _ _. ok endpoint;
  endpoint = λ client. client;
  list_error = λ _ _. none;
  close_client = λ _ w. w;
  roots = record { open_dir = λ path w. (ok path, w); close = λ _ w. w };
  run_sync = λ _ _ _ _ w. (record { output = "synced"; error = none }, w);
  run_delete = λ _ _ _ w. (record { output = "deleted"; error = none }, w);
  run_status = λ _ _ _. record { output = "ready"; error = none };
  run_kubeconfig = λ _ _ _ w. (ok given, w);
}

abbrev sample_options : KubeconfigOptions
sample_options = record { ttl = pos 3600; user = "flux"; groups = "viewers" ∷ [] }

kubeconfig_is_given :
    ((real_client ⦃x = sample_external⦄ sample_library).kubeconfig sample_connection "edge"
      sample_options tt).0
    ≡ ok given
unfolding kubeconfig service_account_key find trim_space contains_omni_env_assignment
kubeconfig_is_given = refl

kubeconfig-IsReached_example :
    (is_nil given ≡ false)
    × ((client : String) × IsReached ⦃x = sample_external⦄ sample_library sample_connection tt
          client
        × ((sample_library.run_kubeconfig client "edge" sample_options tt).0 ≡ ok given))
kubeconfig-IsReached_example =
    kubeconfig-IsReached ⦃x = sample_external⦄ sample_library sample_connection "edge"
      sample_options tt given kubeconfig_is_given
