-- ===== src/Controller/KubeconfigExport/Previous.antt =====
-- omnikubeconfigexport_controller.go: `targetSecret`, and `deletePreviousTargetSecret` with the proof
-- that it deletes nothing but a Secret that the export has left behind.
use omni_cluster_operator.Base.{
  Bool, true, false, Option, none, some, not, ◌≡◌, ◌≢◌, ◌⊎◌, inl, inr, refl, ap, arith, ◌==◌,
  eq_iff, ◌&&◌, ◌||◌, if◌then◌else◌, if_cases,
}
use omni_cluster_operator.Api.Meta.{Secret}
use omni_cluster_operator.Api.Workload.{OmniKubeconfigExport, policy_delete}
use omni_cluster_operator.External.{Result, ok, err, is_not_found}
use omni_cluster_operator.Exec.{Exec}
use omni_cluster_operator.Export
use omni_cluster_operator.Controller.Kube.{Api, Key}

-- The Secret that the specification names.
abbrev pub wanted_key : OmniKubeconfigExport → Key
wanted_key item = record {
  namespace = Export.target_secret_namespace item;
  name = item.spec.target_secret_ref.name;
}

-- The Secret that `targetSecret` reads.
unfoldable pub target_key_of : OmniKubeconfigExport → Key
target_key_of item =
    if not (item.status.target_secret_ref == "") && not (item.status.target_secret_namespace == "")
    then record {
      namespace = item.status.target_secret_namespace;
      name = item.status.target_secret_ref;
    }
    else wanted_key item

-- The Secret that an earlier reconciliation reported.
abbrev pub previous_key : OmniKubeconfigExport → Key
previous_key item = record {
  namespace =
      if item.status.target_secret_namespace == ""
      then item.meta.namespace
      else item.status.target_secret_namespace;
  name = item.status.target_secret_ref;
}

-- The early return of `deletePreviousTargetSecret`.
unfoldable pub keeps_previous : OmniKubeconfigExport → Bool
keeps_previous item =
    not (item.spec.deletion_policy == policy_delete)
    || item.status.target_secret_ref == ""
    || (item.status.target_secret_ref == item.spec.target_secret_ref.name
        && (previous_key item).namespace == Export.target_secret_namespace item)

module _ (api : Api) where
  -- `targetSecret`: a Secret that is not there is no error.
  abbrev found_secret : Result Secret → Result (Option Secret)
  found_secret (ok secret) = ok (some secret)
  found_secret (err e) = if is_not_found e then ok none else err e

  unfoldable pub target_secret : OmniKubeconfigExport → api.Store → Result (Option Secret)
  target_secret item store = found_secret (api.secrets.get (target_key_of item) store)

  unfoldable pub delete_previous : OmniKubeconfigExport → Result Secret → Exec api.Store (Unit {0})
  delete_previous item (err e) store = (if is_not_found e then ok tt else err e, store)
  delete_previous item (ok secret) store =
      if not (Export.is_owned_secret item (some secret))
      then (ok tt, store)
      else api.secrets.delete secret store

  unfoldable pub delete_previous_target_secret : OmniKubeconfigExport → Exec api.Store (Unit {0})
  unfolding delete_previous
  delete_previous_target_secret item store =
      if keeps_previous item
      then (ok tt, store)
      else delete_previous item (api.secrets.get (previous_key item) store) store

  -- A Secret that is left behind: an earlier target, which is not the present one, that the export owns.
  pub record IsLeftBehind (item : OmniKubeconfigExport) (store : api.Store) (secret : Secret)
      : Type 0 where
    pub read : api.secrets.get (previous_key item) store ≡ ok secret
    pub owned : Export.is_owned_secret item (some secret) ≡ true
    pub deletes : item.spec.deletion_policy ≡ policy_delete
    pub moved : previous_key item ≢ wanted_key item

  module _ (item : OmniKubeconfigExport) (store : api.Store) where
    abbrev pub Deletes : Result (Unit {0}) × api.Store → Type 0
    Deletes p =
        (p.1 ≡ store)
        ⊎ ((secret : Secret) × IsLeftBehind item store secret
            × (p ≡ api.secrets.delete secret store))

    keeps_present : keeps_previous item ≡ false → previous_key item ≢ wanted_key item
    unfolding keeps_previous
    keeps_present h same =
        let name =
          (eq_iff item.status.target_secret_ref item.spec.target_secret_ref.name).1
            (ap (λ k. k.name) same) in
        let namespace =
          (eq_iff (previous_key item).namespace (Export.target_secret_namespace item)).1
            (ap (λ k. k.namespace) same) in
        ground arith

    deletes_by_policy : keeps_previous item ≡ false → item.spec.deletion_policy ≡ policy_delete
    unfolding keeps_previous
    deletes_by_policy h = ground (arith, eq_iff item.spec.deletion_policy policy_delete)

    delete_previous-Deletes :
        keeps_previous item ≡ false
        → (r : Result Secret) → api.secrets.get (previous_key item) store ≡ r
        → Deletes (delete_previous item r store)
    unfolding delete_previous
    delete_previous-Deletes h (err e) found = inl refl
    delete_previous-Deletes h (ok secret) found =
        if_cases Deletes (not (Export.is_owned_secret item (some secret))) (λ _. inl refl)
          (λ owned. inr (
            secret,
            record {
              read = found;
              owned = ground arith;
              deletes = deletes_by_policy h;
              moved = keeps_present h;
            },
            refl,
          ))

    -- The removal of the previous target leaves the Secrets as they were, or deletes one Secret: one
    -- that an earlier reconciliation reported, that is not the Secret that the specification names,
    -- and that the export owns, under the deletion policy Delete.
    pub delete_previous_target_secret-IsLeftBehind :
        Deletes (delete_previous_target_secret item store)
    unfolding delete_previous_target_secret
    delete_previous_target_secret-IsLeftBehind =
        if_cases Deletes (keeps_previous item) (λ _. inl refl)
          (λ h. delete_previous-Deletes h (api.secrets.get (previous_key item) store) refl)
