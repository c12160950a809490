-- ===== src/Tests/Roots.antt =====
-- Template roots that are opened and closed: the world is the list of those that are open.
use omni_cluster_operator.Base.{String, List, [], ◌∷◌, Option, none, some, ◌≡◌, refl, false}
use omni_cluster_operator.Api.Meta.{Bytes}
use omni_cluster_operator.External.{Error, new_error, ok}
use omni_cluster_operator.Template.Root.{
  RootLibrary, TracksRoots, open_root, validate, validate-closes,
}
use omni_cluster_operator.Controller.Omni.{SyncOptions}
use omni_cluster_operator.OmniClient.Real.{OmniLibrary, sync_template}
use omni_cluster_operator.OmniClient.Roots.{sync_template-closes}
use omni_cluster_operator.Tests.Samples.{sample_external, sample_connection}
use omni_cluster_operator.Tests.Omni.{key_secret}

abbrev last_closed : List String → List String
last_closed [] = []
last_closed (root ∷ rest) = rest

abbrev sample_roots : RootLibrary (List String) String
sample_roots = record { open_dir = λ path w. (ok path, path ∷ w); close = λ _ w. last_closed w }

sample_roots-TracksRoots : TracksRoots ⦃x = sample_external⦄ sample_roots (λ w. w)
sample_roots-TracksRoots = record {
  open_adds = λ path w v root h. cc h;
  open_fails = λ path w v e h. absurd (cc h);
  close_takes = λ w root rest h. rw (h) refl;
}

abbrev refused : Bytes → Option String → List String → Option Error × List String
refused bytes root w = (some (new_error "invalid template"), w)

validate_refuses :
    validate ⦃x = sample_external⦄ sample_roots refused (7 ∷ []) "templates" ("open" ∷ [])
    ≡ (some (new_error "invalid template"), "open" ∷ [])
unfolding validate open_root
validate_refuses = refl

validate-closes_example :
    (validate ⦃x = sample_external⦄ sample_roots refused (7 ∷ []) "templates" ("open" ∷ [])).1
    ≡ "open" ∷ []
validate-closes_example =
    validate-closes ⦃x = sample_external⦄ sample_roots (λ w. w) sample_roots-TracksRoots refused
      (λ _ _ _. refl) (7 ∷ []) "templates" ("open" ∷ [])

abbrev rooted_library : OmniLibrary
rooted_library = record {
  World = List String;
  Client = String;
  Root = String;
  get_secret = λ _ _. ok key_secret;
  decode_error = λ _. none;
  new_client = λ endpoint _ _. ok endpoint;
  endpoint = λ client. client;
  list_error = λ _ _. none;
  close_client = λ _ w. w;
  roots = sample_roots;
  run_sync = λ _ _ _ _ w. (record { output = "synced"; error = none }, w);
  run_delete = λ _ _ _ w. (record { output = "deleted"; error = none }, w);
  run_status = λ _ _ _. record { output = "ready"; error = none };
  run_kubeconfig = λ _ _ _ w. (ok (9 ∷ []), w);
}

abbrev no_options : SyncOptions
no_options = record { destroy_machines = false }

sync_template-closes_example :
    (sync_template ⦃x = sample_external⦄ rooted_library sample_connection
      (7 ∷ [])
      "templates"
      no_options
      ("open" ∷ [])).1
    ≡ "open" ∷ []
sync_template-closes_example =
    sync_template-closes ⦃x = sample_external⦄ rooted_library (λ w. w) sample_roots-TracksRoots
      (λ _ _ _ _ _. refl) (λ _ _. refl) sample_connection (7 ∷ []) "templates" no_options
      ("open" ∷ [])
