-- ===== src/Controller/Cluster/Latest.antt =====
-- omnicluster_controller.go: `updateClusterStatus` changes the status that it has just read.
use omni_cluster_operator.Base.{◌≡◌, refl, ap, ◌∙◌}
use omni_cluster_operator.Api.Template.{OmniCluster, OmniClusterStatus}
use omni_cluster_operator.External.{Result, ok, err}
use omni_cluster_operator.Controller.Kube.{Api}
use omni_cluster_operator.Controller.Objects.{RetriesConflicts, last_try}
use omni_cluster_operator.Controller.Cluster.Status.{key_of, update_latest, update_cluster_status}

module _ (api : Api) (retries : RetriesConflicts api) where
  update_latest-ok :
      (mutate : OmniClusterStatus → OmniClusterStatus) (r : Result OmniCluster)
      (store final : api.Store)
      → update_latest api mutate r store ≡ (ok tt, final)
      → (latest : OmniCluster) × (r ≡ ok latest)
        × (api.clusters.update_status (record latest { status = mutate latest.status }) store
            ≡ (ok tt, final))
  unfolding update_latest
  update_latest-ok mutate (ok latest) store final h = (latest, refl, h)
  update_latest-ok mutate (err e) store final h = absurd (cc (ap (λ p. p.0) h))

  -- A status that was written without an error is the change applied to the status that the API server
  -- had right before the write, and all else of the cluster is as the server had it; this needs that
  -- `RetryOnConflict` repeats a call only after a conflict, and ends with the answer of the last one.
  pub update_cluster_status-latest :
      (cluster : OmniCluster) (mutate : OmniClusterStatus → OmniClusterStatus) (store : api.Store)
      → (update_cluster_status api cluster mutate store).0 ≡ ok tt
      → (before : api.Store) × (latest : OmniCluster) × (api.clusters.get (key_of cluster) before
          ≡ ok latest)
        × (api.clusters.update_status (record latest { status = mutate latest.status }) before
            ≡ (ok tt, (update_cluster_status api cluster mutate store).1))
  unfolding update_cluster_status
  update_cluster_status-latest cluster mutate store done =
      let (before, h) = last_try _ _ store (retries _ store) in
      let final = (update_cluster_status api cluster mutate store).1 in
      let (latest, read, wrote) =
        update_latest-ok mutate (api.clusters.get (key_of cluster) before) before final
          (h ∙ ap (λ r. (r, final)) done) in
      (before, latest, read, wrote)
