-- ===== src/Controller/KubeconfigExport/Reuse.antt =====
-- omnikubeconfigexport_controller.go: the kubeconfigs that are kept are fresh, and what an export
-- writes is kept.
use omni_cluster_operator.Base.{
  String, false, Option, none, some, ◌≡◌, ◌≢◌, refl, ap, sym, ◌∙◌, arith, eq_iff, ◌==◌, not, ◌||◌,
  is_nil, if_cases,
}
use omni_cluster_operator.Base.Int.{◌<ℤ◌}
use omni_cluster_operator.Base.Maps.{Map, find, or_else, get, get_text}
use omni_cluster_operator.Api.Meta.{Time, Duration, Secret}
use omni_cluster_operator.Api.Workload.{OmniKubeconfigExport}
use omni_cluster_operator.External.{Result, ok, err, External}
use omni_cluster_operator.Export
use omni_cluster_operator.SecretSync.Desired.{merge_string_maps}
use omni_cluster_operator.SecretSync.Ownership.{get_text-eq, get-merge_string_maps}
use omni_cluster_operator.Controller.KubeconfigExport.State.{
  CurrentKubeconfigState, bytes_at, state_since, state_until, current_kubeconfig_secret_state,
}
use omni_cluster_operator.Controller.KubeconfigExport.Later.{not_due-lt}

abbrev some_or : Option CurrentKubeconfigState → CurrentKubeconfigState → CurrentKubeconfigState
some_or none state = state
some_or (some state) _ = state

module _ ⦃x : External⦄ (secret : Secret) (target_key spec_hash : String) (now : Time)
    (renew_before : Option Duration) where
  -- The state is that of a kubeconfig that needs no rotation yet, as the Secret's annotations tell.
  pub record IsFresh (state : CurrentKubeconfigState) : Type 0 where
    pub in_time : now <ℤ state.next_rotation_time
    pub rotates :
        state.next_rotation_time ≡ Export.next_rotation_time state.expiration_time renew_before
    pub expires :
        Export.annotation_time (some secret) Export.expiration_annotation
        ≡ ok (some state.expiration_time)
    pub hashed : state.hash ≡ Export.hash (bytes_at target_key secret)
    pub intact : get_text Export.hash_annotation secret.annotations ≡ state.hash
    pub filled : is_nil (bytes_at target_key secret) ≡ false
    pub same_spec : get_text Export.spec_hash_annotation secret.annotations ≡ spec_hash

  state_since-eq :
      (hash : String) (expiration : Time) (r : Result (Option Time))
      (state : CurrentKubeconfigState)
      → state_since hash expiration renew_before r ≡ some state
      → (hash ≡ state.hash)
        × (expiration ≡ state.expiration_time)
        × (Export.next_rotation_time expiration renew_before ≡ state.next_rotation_time)
  unfolding state_since
  state_since-eq hash expiration (err e) state h = absurd (cc h)
  state_since-eq hash expiration (ok last) state h = (
    ap (λ o. (some_or o state).hash) h,
    ap (λ o. (some_or o state).expiration_time) h,
    ap (λ o. (some_or o state).next_rotation_time) h,
  )

  state_until-IsFresh :
      (hash : String) (r : Result (Option Time)) (state : CurrentKubeconfigState)
      → Export.annotation_time (some secret) Export.expiration_annotation ≡ r
      → hash ≡ Export.hash (bytes_at target_key secret)
      → get_text Export.hash_annotation secret.annotations ≡ hash
      → is_nil (bytes_at target_key secret) ≡ false
      → get_text Export.spec_hash_annotation secret.annotations ≡ spec_hash
      → state_until secret hash now renew_before r ≡ some state
      → IsFresh state
  unfolding state_until
  state_until-IsFresh hash (ok none) state e k i f g h = absurd (cc h)
  state_until-IsFresh hash (err _) state e k i f g h = absurd (cc h)
  state_until-IsFresh hash (ok (some expiration)) state e k i f g done =
      (if_cases (λ o. o ≡ some state → IsFresh state)
          (Export.rotation_due now expiration renew_before) (λ _ h. absurd (cc h))
          (λ later h.
            let (same_hash, same_time, next) = state_since-eq hash expiration _ state h in
            record {
              in_time = rw (sym next) (not_due-lt now expiration renew_before later);
              rotates =
                  sym next ∙ ap (λ time. Export.next_rotation_time time renew_before) same_time;
              expires = e ∙ ap (λ time. ok (some time)) same_time;
              hashed = sym same_hash ∙ k;
              intact = i ∙ same_hash;
              filled = f;
              same_spec = g;
            }))
        done

  -- A kubeconfig that is current is not empty, the Secret has its hash, which is that of its bytes, and
  -- the hash of the present specification, and its rotation is due strictly later, at the time that
  -- follows from the expiration that the Secret has.
  pub current_kubeconfig_secret_state-IsFresh :
      (state : CurrentKubeconfigState)
      → current_kubeconfig_secret_state secret target_key spec_hash now renew_before ≡ some state
      → IsFresh state
  unfolding current_kubeconfig_secret_state
  current_kubeconfig_secret_state-IsFresh state =
      let found = get_text Export.spec_hash_annotation secret.annotations in
      let told = get_text Export.hash_annotation secret.annotations in
      let hash = Export.hash (bytes_at target_key secret) in
      if_cases (λ o. o ≡ some state → IsFresh state)
        (is_nil (bytes_at target_key secret) || not (found == spec_hash)) (λ _ h. absurd (cc h))
        (λ good.
          if_cases (λ o. o ≡ some state → IsFresh state) (not (told == hash)) (λ _ h. absurd (cc h))
            (λ same.
              state_until-IsFresh hash _ state refl refl (ground (arith, eq_iff told hash))
                (ground arith) (ground (arith, eq_iff found spec_hash))))

module _ ⦃x : External⦄ where
  -- What `time.Parse` reads of the text that `Format` wrote of a time: the time in whole seconds.
  pub record IsPrinted (time read : Time) : Type 0 where
    pub printed : x.format_time time ≢ ""
    pub parsed : x.parse_time (x.format_time time) ≡ some read

module _ ⦃x : External⦄ (item : OmniKubeconfigExport) (secret : Secret) (spec_hash : String)
    (expiration last : Time) (base : Map String) where
  -- What an export writes: some bytes, and its annotations over those that the Secret had.
  pub record IsExported : Type 0 where
    pub filled : is_nil (bytes_at (Export.target_secret_key item) secret) ≡ false
    pub annotated :
        secret.annotations
        ≡ merge_string_maps base (
            Export.secret_annotations item spec_hash
              (Export.hash (bytes_at (Export.target_secret_key item) secret))
              expiration
              last)

  abbrev written : Map String
  written =
      Export.secret_annotations item spec_hash
        (Export.hash (bytes_at (Export.target_secret_key item) secret)) expiration last

  at_hash :
      get Export.hash_annotation written
      ≡ some (Export.hash (bytes_at (Export.target_secret_key item) secret))
  unfolding Export.secret_annotations find
  at_hash = refl

  at_spec : get Export.spec_hash_annotation written ≡ some spec_hash
  unfolding Export.secret_annotations find
  at_spec = refl

  at_expiration : get Export.expiration_annotation written ≡ some (x.format_time expiration)
  unfolding Export.secret_annotations find
  at_expiration = refl

  at_last : get Export.last_rotation_annotation written ≡ some (x.format_time last)
  unfolding Export.secret_annotations find
  at_last = refl

  read_back :
      IsExported
      → (key value : String) → get key written ≡ some value
      → get_text key secret.annotations ≡ value
  read_back exported key value h = get_text-eq key value secret.annotations (
      ap (get key) exported.annotated
      ∙ get-merge_string_maps key base written
      ∙ ap (λ o. or_else o (get key base)) h)

  annotation_time-printed :
      (key : String) (time read : Time)
      → IsPrinted time read
      → get_text key secret.annotations ≡ x.format_time time
      → Export.annotation_time (some secret) key ≡ ok (some read)
  unfolding Export.annotation_time
  annotation_time-printed key time read printable h =
      let parsed = printable.parsed in
      rw (h) (ground (arith, eq_iff (x.format_time time) "", printable.printed))

  -- What an export wrote is current at every time before its rotation is due, with the times as they
  -- are read back from the annotations, if the Secret holds some bytes.
  pub current_kubeconfig_secret_state-written :
      (now expires rotated : Time) (renew_before : Option Duration)
      → IsExported
      → IsPrinted expiration expires
      → IsPrinted last rotated
      → Export.rotation_due now expires renew_before ≡ false
      → current_kubeconfig_secret_state secret
          (Export.target_secret_key item)
          spec_hash
          now
          renew_before
        ≡ some (record {
          hash = Export.hash (bytes_at (Export.target_secret_key item) secret);
          expiration_time = expires;
          last_rotation_time = some rotated;
          next_rotation_time = Export.next_rotation_time expires renew_before;
        })
  unfolding current_kubeconfig_secret_state state_until state_since
  current_kubeconfig_secret_state-written now expires rotated renew_before exported e l later =
      let kept_hash = read_back exported Export.hash_annotation _ at_hash in
      let kept_spec = read_back exported Export.spec_hash_annotation spec_hash at_spec in
      let ends =
        annotation_time-printed Export.expiration_annotation expiration expires e
          (read_back exported Export.expiration_annotation _ at_expiration) in
      let turned =
        annotation_time-printed Export.last_rotation_annotation last rotated l
          (read_back exported Export.last_rotation_annotation _ at_last) in
      rw (
        exported.filled,
        kept_spec,
        kept_hash,
        (eq_iff spec_hash spec_hash).1 refl,
        (eq_iff _ _).1 refl,
        ends,
        later,
        turned,
      )
