-- ===== src/Template/Names.antt =====
-- `validateManifestNames` accepts a cluster exactly when no two manifests have one name.
use omni_cluster_operator.Base.{
  String, List, [], ◌∷◌, map, some, true, ◌≡◌, refl, sym, ◌∙◌, ◌↔◌, ◌≢◌, arith, eq_iff, ◌==◌,
  Bool-cases, inl, inr,
}
use omni_cluster_operator.Base.Maps.{Entries, put, find-put, get_text}
use omni_cluster_operator.Base.Predicates.{All, NotIn, Distinct}
use omni_cluster_operator.Api.Common.{KubernetesManifest}
use omni_cluster_operator.Api.Template.{OmniCluster}
use omni_cluster_operator.External.{External, is_ok}
use omni_cluster_operator.Template.Render.{
  manifest_owner, claim_manifest_name, claim_names, validate_manifest_names,
}

abbrev pub manifest_names : List KubernetesManifest → List String
manifest_names = map (λ m. m.name)

abbrev Unclaimed : Entries String → List String → Type 0
Unclaimed owners = All (λ name. get_text name (some owners) ≡ "")

get_text-put :
    (name key : String) (owners : Entries String)
    → name ≢ key
    → get_text key (some (put name manifest_owner owners)) ≡ get_text key (some owners)
unfolding get_text
get_text-put name key owners h =
    ground (arith, find-put name key manifest_owner owners, eq_iff name key)

get_text-put_self :
    (name : String) (owners : Entries String)
    → get_text name (some (put name manifest_owner owners)) ≡ manifest_owner
unfolding get_text
get_text-put_self name owners =
    ground (arith, find-put name name manifest_owner owners, eq_iff name name)

Unclaimed-put :
    (name : String) (owners : Entries String) (names : List String)
    → NotIn name names
    → Unclaimed owners names
    → Unclaimed (put name manifest_owner owners) names
Unclaimed-put name owners [] h u = tt
Unclaimed-put name owners (key ∷ names) h u =
    (rw (get_text-put name key owners h.0) u.0, Unclaimed-put name owners names h.1 u.1)

owner_not_empty : ◌≢◌ {A = String} manifest_owner ""
owner_not_empty = ground (arith, eq_iff manifest_owner "")

claimed_ne :
    (name key : String) (owners : Entries String)
    → get_text key (some (put name manifest_owner owners)) ≡ ""
    → name ≢ key
claimed_ne name key owners u e =
    owner_not_empty (sym (get_text-put_self name owners) ∙ rw (← e) at u)

Unclaimed-of_put :
    (name : String) (owners : Entries String) (names : List String)
    → Unclaimed (put name manifest_owner owners) names
    → NotIn name names × Unclaimed owners names
Unclaimed-of_put name owners [] u = (tt, tt)
Unclaimed-of_put name owners (key ∷ names) u =
    let fresh = claimed_ne name key owners u.0 in
    let rest = Unclaimed-of_put name owners names u.1 in
    ((fresh, rest.0), (rw (get_text-put name key owners fresh) at u.0, rest.1))

module _ ⦃x : External⦄ where
  claim_names_sound :
      (owners : Entries String) (manifests : List KubernetesManifest)
      → is_ok (claim_names owners manifests) ≡ true
      → Distinct (manifest_names manifests) × Unclaimed owners (manifest_names manifests)
  unfolding claim_names claim_manifest_name
  claim_names_sound owners [] h = (tt, tt)
  claim_names_sound owners (m ∷ rest) h =
      let ih = claim_names_sound (put m.name manifest_owner owners) rest in
      elim (Bool-cases (get_text m.name (some owners) == "")) [
        | inl free ↦
            let (d, u) = ih (rw (free, claim_manifest_name) at h) in
            let (fresh, u') = Unclaimed-of_put m.name owners (manifest_names rest) u in
            ((fresh, d), ((eq_iff _ _).0 free, u'))
        | inr taken ↦ absurd (cc (rw (taken, claim_manifest_name) at h))
      ]

  claim_names_complete :
      (owners : Entries String) (manifests : List KubernetesManifest)
      → Distinct (manifest_names manifests)
      → Unclaimed owners (manifest_names manifests)
      → is_ok (claim_names owners manifests) ≡ true
  unfolding claim_names claim_manifest_name
  claim_names_complete owners [] d u = refl
  claim_names_complete owners (m ∷ rest) d u =
      rw ((eq_iff _ _).1 u.0, claim_manifest_name)
        (claim_names_complete (put m.name manifest_owner owners) rest d.1
          (Unclaimed-put m.name owners (manifest_names rest) d.0 u.1))

  Unclaimed-at_start : (names : List String) → Unclaimed [] names
  unfolding get_text
  Unclaimed-at_start [] = tt
  Unclaimed-at_start (name ∷ names) = (refl, Unclaimed-at_start names)

  -- The check passes exactly when no two manifests of the cluster have one name.
  pub validate_manifest_names_iff :
      (cluster : OmniCluster)
      → (is_ok (validate_manifest_names cluster) ≡ true)
        ↔ Distinct (manifest_names cluster.spec.kubernetes.manifests)
  unfolding validate_manifest_names
  validate_manifest_names_iff cluster =
      (λ h. (claim_names_sound [] _ h).0, λ d. claim_names_complete [] _ d (Unclaimed-at_start _))
