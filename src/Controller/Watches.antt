-- ===== src/Controller/Watches.antt =====
-- child_watch.go, predicates.go and the `…Requests…` functions of the controllers: which objects are
-- reconciled again when another one changes.
use omni_cluster_operator.Base.{
  String, List, [], ◌∷◌, Bool, true, Option, none, some, not, ◌==◌, ◌&&◌, ◌||◌, is_nil, is_some,
  contains, if◌then◌else◌,
}
use omni_cluster_operator.Base.Int.{leb_ℤ}
use omni_cluster_operator.Base.Maps.{get_text}
use omni_cluster_operator.Base.Order.{Sorter, text_lt}
use omni_cluster_operator.Api.Meta.{ObjectMeta}
use omni_cluster_operator.Api.Template.{OmniCluster, OmniControlPlane, OmniWorkers, OmniMachine}
use omni_cluster_operator.External.{Result, ok, err, External}
use omni_cluster_operator.Export
use omni_cluster_operator.Controller.Kube.{Api, Key, key_of_meta}

-- `event.UpdateEvent` and its like. An update may lack one of its objects.
pub data Event : Type 0 where
  created deleted generic : Event
  updated : Option ObjectMeta → Option ObjectMeta → Event

-- `UpdateFunc` with both objects there
unfoldable pub spec_or_deletion_differs : ObjectMeta → ObjectMeta → Bool
spec_or_deletion_differs old new =
    not (leb_ℤ old.generation new.generation && leb_ℤ new.generation old.generation)
    || not (is_some old.deletion_timestamp) && is_some new.deletion_timestamp
    || is_some old.deletion_timestamp && not (is_some new.deletion_timestamp)

unfoldable pub spec_or_deletion_changed_predicate : Event → Bool
unfolding spec_or_deletion_differs
spec_or_deletion_changed_predicate (updated (some old) (some new)) =
    spec_or_deletion_differs old new
spec_or_deletion_changed_predicate _ = true

-- The loops that append the key of each item that refers to the object.
unfoldable pub keys_where :
    {Item : Type 0} → (Item → ObjectMeta) → (Item → Bool) → List Item → List Key
keys_where meta refers [] = []
keys_where meta refers (a ∷ l) =
    let rest = keys_where meta refers l in if refers a then key_of_meta (meta a) ∷ rest else rest

-- `if err := c.List(…); err != nil { return nil }`, and the loop after it
unfoldable pub keys_listed :
    {Item : Type 0} → (Item → ObjectMeta) → (Item → Bool) → Result (List Item) → List Key
unfolding keys_where
keys_listed meta refers (err e) = []
keys_listed meta refers (ok items) = keys_where meta refers items

unfoldable pub request_for_cluster_ref : String → String → List Key
request_for_cluster_ref namespace name =
    if name == "" then [] else record { namespace = namespace; name = name } ∷ []

-- The objects that `requestForChildCluster` is given.
pub data ChildObject : Type 0 where
  control_plane : OmniControlPlane → ChildObject
  workers : OmniWorkers → ChildObject
  machine : OmniMachine → ChildObject
  another : ChildObject

unfoldable pub request_for_child_cluster : ChildObject → List Key
unfolding request_for_cluster_ref
request_for_child_cluster (control_plane item) =
    request_for_cluster_ref item.meta.namespace item.spec.cluster_ref.name
request_for_child_cluster (workers item) =
    request_for_cluster_ref item.meta.namespace item.spec.cluster_ref.name
request_for_child_cluster (machine item) =
    request_for_cluster_ref item.meta.namespace item.spec.cluster_ref.name
request_for_child_cluster another = []

unfoldable pub request_for_cluster_connection : Option OmniCluster → List Key
request_for_cluster_connection none = []
request_for_cluster_connection (some cluster) =
    let name = cluster.spec.connection_ref.name in
    if name == "" then [] else record { namespace = cluster.meta.namespace; name = name } ∷ []

-- The cluster names that `kubeconfigExportRequestsForConnection` gathers.
unfoldable pub names_connected : String → List OmniCluster → List String
names_connected connection [] = []
names_connected connection (cluster ∷ l) =
    let rest = names_connected connection l in
    if cluster.spec.connection_ref.name == connection then cluster.meta.name ∷ rest else rest

unfoldable pub kubeconfig_export_requests_for_secret : ObjectMeta → List Key
kubeconfig_export_requests_for_secret object =
    let owner = get_text Export.owner_annotation object.annotations in
    let namespace = get_text Export.owner_namespace_annotation object.annotations in
    if owner == ""
    then []
    else record {
      namespace = if namespace == "" then object.namespace else namespace;
      name = owner;
    }
      ∷ []

module _ (api : Api) (object : ObjectMeta) (store : api.Store) where
  unfoldable pub kubeconfig_export_requests_for_cluster : List Key
  unfolding keys_listed
  kubeconfig_export_requests_for_cluster =
      keys_listed (λ item. item.meta) (λ item. item.spec.cluster_ref.name == object.name)
        (api.kubeconfig_exports.list object.namespace store)

  unfoldable pub export_requests_among : Result (List OmniCluster) → List Key
  unfolding names_connected keys_listed
  export_requests_among (err e) = []
  export_requests_among (ok clusters) =
      let names = names_connected object.name clusters in
      if is_nil names
      then []
      else keys_listed (λ item. item.meta) (λ item. contains names item.spec.cluster_ref.name)
          (api.kubeconfig_exports.list object.namespace store)

  unfoldable pub kubeconfig_export_requests_for_connection : List Key
  unfolding export_requests_among
  kubeconfig_export_requests_for_connection =
      export_requests_among (api.clusters.list object.namespace store)

module _ ⦃x : External⦄ ⦃s : Sorter⦄ where
  abbrev pub less_keys : Key → Key → Bool
  less_keys a b =
      text_lt (x.namespaced_name a.namespace a.name) (x.namespaced_name b.namespace b.name)

  unfoldable pub sort_requests : List Key → List Key
  sort_requests requests = s.sort Key less_keys requests

  -- A sorted list of requests, which is nil where the list of items is not to be had.
  abbrev pub sorted_listed :
      {Item : Type 0} → (Item → ObjectMeta) → (Item → Bool) → Result (List Item) → List Key
  sorted_listed meta refers (err e) = []
  sorted_listed meta refers (ok items) = sort_requests (keys_where meta refers items)

  module _ (api : Api) (object : ObjectMeta) (store : api.Store) where
    unfoldable pub control_plane_requests_for_cluster : List Key
    unfolding keys_where sort_requests
    control_plane_requests_for_cluster =
        sorted_listed (λ item. item.meta) (λ item. item.spec.cluster_ref.name == object.name)
          (api.control_planes.list object.namespace store)

    unfoldable pub workers_requests_for_cluster : List Key
    unfolding keys_where sort_requests
    workers_requests_for_cluster =
        sorted_listed (λ item. item.meta) (λ item. item.spec.cluster_ref.name == object.name)
          (api.workers.list object.namespace store)

    unfoldable pub machine_requests_for_cluster : List Key
    unfolding keys_where sort_requests
    machine_requests_for_cluster =
        sorted_listed (λ item. item.meta) (λ item. item.spec.cluster_ref.name == object.name)
          (api.machines.list object.namespace store)

    unfoldable pub helm_release_requests_for_cluster : List Key
    unfolding keys_where sort_requests
    helm_release_requests_for_cluster =
        sorted_listed (λ item. item.meta) (λ item. item.spec.cluster_ref.name == object.name)
          (api.helm_releases.list object.namespace store)

    unfoldable pub helm_release_requests_for_secret : List Key
    unfolding keys_where sort_requests
    helm_release_requests_for_secret =
        sorted_listed (λ item. item.meta)
          (λ item. item.spec.kubeconfig_secret_ref.name == object.name)
          (api.helm_releases.list object.namespace store)

    unfoldable pub secret_sync_requests_for_cluster : List Key
    unfolding keys_where sort_requests
    secret_sync_requests_for_cluster =
        sorted_listed (λ item. item.meta) (λ item. item.spec.cluster_ref.name == object.name)
          (api.secret_syncs.list object.namespace store)

    unfoldable pub secret_sync_requests_for_secret : List Key
    unfolding keys_where sort_requests
    secret_sync_requests_for_secret =
        sorted_listed (λ item. item.meta)
          (λ item.
            item.spec.source_secret_ref.name == object.name
            || item.spec.kubeconfig_secret_ref.name == object.name)
          (api.secret_syncs.list object.namespace store)

    unfoldable pub clusters_for_connection : List Key
    unfolding keys_where sort_requests
    clusters_for_connection =
        sorted_listed (λ item. item.meta) (λ item. item.spec.connection_ref.name == object.name)
          (api.clusters.list object.namespace store)
