-- ===== src/Webhook/Laws.antt =====
-- What the checks of lists accept: machine ids, patches and manifests.
use omni_cluster_operator.Base.{
  ℕ, suc, String, List, [], ◌∷◌, ◌++◌, true, none, not, ◌≡◌, ◌↔◌, refl, arith, eq_iff,
}
use omni_cluster_operator.Base.Maps.{Entries, find, put, find-put}
use omni_cluster_operator.Base.Predicates.{All, NotIn, Distinct, append-eq-nil}
use omni_cluster_operator.External.{External}
use omni_cluster_operator.Webhook.Field.{FieldPath, at, check, invalid, text}
use omni_cluster_operator.Webhook.Sources.{
  validate_machine_ids_from, validate_machine_ids, duplicate_errors,
}

abbrev Unseen : Entries ℕ → List String → Type 0
Unseen seen = All (λ id. find id seen ≡ none)

Unseen-put :
    (id : String) (i : ℕ) (seen : Entries ℕ) (ids : List String)
    → NotIn id ids
    → Unseen seen ids
    → Unseen (put id i seen) ids
Unseen-put id i seen [] n u = tt
Unseen-put id i seen (j ∷ ids) n u =
    (ground (arith, find-put id j i seen, eq_iff id j), Unseen-put id i seen ids n.1 u.1)

Unseen-of_put :
    (id : String) (i : ℕ) (seen : Entries ℕ) (ids : List String)
    → Unseen (put id i seen) ids
    → NotIn id ids × Unseen seen ids
Unseen-of_put id i seen [] u = (tt, tt)
Unseen-of_put id i seen (j ∷ ids) u =
    let rest = Unseen-of_put id i seen ids u.1 in
    (
      (λ e. ground (arith, find-put id j i seen, eq_iff id j), rest.0),
      (ground (arith, find-put id j i seen, eq_iff id j), rest.1),
    )

module _ ⦃x : External⦄ where
  abbrev pub AreUuids : List String → Type 0
  AreUuids = All (λ id. x.is_uuid id ≡ true)

  machine_ids_sound :
      (path : FieldPath) (i : ℕ) (seen : Entries ℕ) (ids : List String)
      → validate_machine_ids_from path i seen ids ≡ []
      → AreUuids ids × Distinct ids × Unseen seen ids
  unfolding validate_machine_ids_from
  machine_ids_sound path i seen [] h = (tt, tt, tt)
  machine_ids_sound path i seen (id ∷ ids) h =
      let first =
        append-eq-nil
          (check (not (x.is_uuid id)) (invalid (at path i) (text id) "machine ID must be a UUID"))
          (duplicate_errors path i (find id seen) id
            ++ validate_machine_ids_from path (suc i) (put id i seen) ids)
          h in
      let second =
        append-eq-nil (duplicate_errors path i (find id seen) id)
          (validate_machine_ids_from path (suc i) (put id i seen) ids) first.1 in
      let (uuids, distinct, unseen) = machine_ids_sound path (suc i) (put id i seen) ids second.1 in
      let (fresh, rest) = Unseen-of_put id i seen ids unseen in
      ((ground arith, uuids), (fresh, distinct), (ground arith, rest))

  machine_ids_complete :
      (path : FieldPath) (i : ℕ) (seen : Entries ℕ) (ids : List String)
      → AreUuids ids
      → Distinct ids
      → Unseen seen ids
      → validate_machine_ids_from path i seen ids ≡ []
  unfolding validate_machine_ids_from
  machine_ids_complete path i seen [] v d u = refl
  machine_ids_complete path i seen (id ∷ ids) v d u =
      rw (v.0, u.0)
        (machine_ids_complete path (suc i) (put id i seen) ids v.1 d.1
          (Unseen-put id i seen ids d.0 u.1))

  Unseen-at_start : (ids : List String) → Unseen [] ids
  unfolding find
  Unseen-at_start [] = tt
  Unseen-at_start (id ∷ ids) = (refl, Unseen-at_start ids)

  -- The machine ids of a set are accepted exactly when each is a UUID and no two are equal.
  pub validate_machine_ids_iff :
      (path : FieldPath) (ids : List String)
      → (validate_machine_ids path ids ≡ []) ↔ (AreUuids ids × Distinct ids)
  unfolding validate_machine_ids
  validate_machine_ids_iff path ids = (
    λ h. let (v, d, _) = machine_ids_sound path 0 [] ids h in (v, d),
    λ h. machine_ids_complete path 0 [] ids h.0 h.1 (Unseen-at_start ids),
  )
