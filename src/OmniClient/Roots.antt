-- ===== src/OmniClient/Roots.antt =====
-- client.go: `SyncTemplate` closes the template root that it opens.
use omni_cluster_operator.Base.{String, Bool, List, Option, ◌≡◌, refl, ◌∙◌}
use omni_cluster_operator.Api.Meta.{Bytes}
use omni_cluster_operator.Api.Template.{OmniConnection}
use omni_cluster_operator.External.{Result, ok, err, External}
use omni_cluster_operator.Template.Root.{TracksRoots, with_root-closes}
use omni_cluster_operator.Controller.Omni.{SyncOptions}
use omni_cluster_operator.OmniClient.Real.{
  OmniLibrary, no_reply, new_omni_client, sync_rooted, sync_with, sync_template,
}

module _ ⦃x : External⦄ (lib : OmniLibrary) where
  open lib use {World, Client, Root}

  module _ (roots : World → List Root) (laws : TracksRoots lib.roots roots)
      (sync_keeps : (client : Client) (bytes : Bytes) (root : Option Root) (destroys : Bool)
          (w : World)
        → roots (lib.run_sync client bytes root destroys w).1 ≡ roots w)
      (close_keeps : (client : Client) (w : World)
        → roots (lib.close_client client w) ≡ roots w) where
    sync_with-closes :
        (bytes : Bytes) (path : String) (options : SyncOptions) (r : Result Client) (w : World)
        → roots (sync_with lib bytes path options r w).1 ≡ roots w
    unfolding sync_rooted
    sync_with-closes bytes path options (err e) w = refl
    sync_with-closes bytes path options (ok client) w =
        close_keeps client (sync_rooted lib client bytes path options w).1
        ∙ with_root-closes lib.roots roots laws no_reply
            (λ root. lib.run_sync client bytes root options.destroy_machines)
            (λ root. sync_keeps client bytes root options.destroy_machines) path w

    -- A sync of a template by `RealClient` leaves open the template roots that were open before, and no
    -- other, whether it reaches Omni or fails on the way, if Omni's library leaves them so and `os`
    -- opens and closes what it is asked to.
    pub sync_template-closes :
        (connection : OmniConnection) (bytes : Bytes) (path : String) (options : SyncOptions)
        (w : World)
        → roots (sync_template lib connection bytes path options w).1 ≡ roots w
    unfolding sync_template
    sync_template-closes connection bytes path options w =
        sync_with-closes bytes path options (new_omni_client lib connection w) w
