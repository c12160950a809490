-- ===== src/Controller/Stages.antt =====
-- internal/controller: the steps of a reconciliation that the controllers of workload resources share.
-- Each controller has its own copy of `ensureFinalizer` and of `kubeconfig` in the sources.
use omni_cluster_operator.Base.{
  String, ◌<>◌, Bool, true, Option, none, some, ◌≡◌, ◌≢◌, ◌⊎◌, inl, inr, refl, sym, subst, arith,
  is_nil, if◌then◌else◌, if_cases,
}
use omni_cluster_operator.Base.Int.{pos, ◌<ℤ◌}
use omni_cluster_operator.Api.Meta.{Bytes, Secret}
use omni_cluster_operator.External.{Error, new_error, Result, ok, err, is_not_found, External}
use omni_cluster_operator.Exec.{wrapped}
use omni_cluster_operator.Controller.Kube.{
  Objects, Runtime, Key, World, Outcome, Stage, proceed, done, stop, on_store, unless_failed,
  unless_done, after, after_call, requeued, failed, minute, error_of,
}
use omni_cluster_operator.Controller.KubeconfigExport.State.{bytes_at}

-- controller-runtime calls `Reconcile` again: at once, after a delay, or because of the error.
abbrev pub IsRetried : Outcome → Type 0
IsRetried o = (o.error ≢ none) ⊎ (o.result.requeue ≡ true) ⊎ (pos 0 <ℤ o.result.requeue_after)

-- The outcome of a report of an error.
pub unless_failed-IsRetried :
    {W : Type 0} (o : Outcome) (p : Result (Unit {0}) × W)
    → IsRetried o
    → IsRetried (unless_failed o p).0
unless_failed-IsRetried o (ok _, v) h = h
unless_failed-IsRetried o (err e, v) h = inl (λ same. absurd (cc same))

module _ {Store Remote : Type 0} where
  -- `ensureFinalizer`: `owned` is the item with its finalizer.
  unfoldable pub ensure_finalizer :
      {Item : Type 0}
      → Objects Store Item
      → Bool
      → Item
      → World Store Remote
      → Stage (Unit {0}) × World Store Remote
  ensure_finalizer objects has owned w =
      if has
      then (proceed tt, w)
      else stop (unless_failed requeued (on_store (objects.update owned) w))

-- How a controller reports what is wrong with the Secret of the kubeconfig.
pub record Reports (W : Type 0) : Type 0 where
  pub missing : String → W → Result (Unit {0}) × W
  pub lacking : Error → W → Result (Unit {0}) × W
  pub invalid : Error → W → Result (Unit {0}) × W

module _ ⦃x : External⦄ ⦃t : Runtime⦄ {Store Remote : Type 0}
    (reports : Reports (World Store Remote)) (key : Key) (secret_key : String) where
  abbrev pub secret_name : String
  secret_name = x.quote (x.namespaced_name key.namespace key.name)

  -- `kubeconfig`, from the answer of `clientcmd.Load` on
  unfoldable pub kubeconfig_loaded :
      Bytes → Option Error → World Store Remote → Stage Bytes × World Store Remote
  kubeconfig_loaded bytes none w = (proceed bytes, w)
  kubeconfig_loaded bytes (some e) w = stop (
      after_call minute (
        reports.invalid
          (wrapped
            ("kubeconfig Secret "
              <> secret_name
              <> " key "
              <> x.quote secret_key
              <> " is invalid: ")
            e)
          w))

  -- `kubeconfig`, from the answer of `Get` on
  unfoldable pub kubeconfig_found :
      Result Secret → World Store Remote → Stage Bytes × World Store Remote
  unfolding kubeconfig_loaded new_error
  kubeconfig_found (err e) w =
      if is_not_found e
      then stop (
          after_call minute
            (reports.missing ("kubeconfig Secret " <> secret_name <> " does not exist") w))
      else (done (failed e), w)
  kubeconfig_found (ok secret) w =
      let bytes = bytes_at secret_key secret in
      if is_nil bytes
      then stop (
          after_call minute (
            reports.lacking
              (new_error (
                "kubeconfig Secret "
                <> secret_name
                <> " does not contain key "
                <> x.quote secret_key))
              w))
      else kubeconfig_loaded bytes (t.kubeconfig_error bytes) w

module _ {W : Type 0} where
  -- A step that gives a value leaves all as it was; one that stops asks for another call, and keeps
  -- what it is to keep.
  abbrev pub Passes : {A : Type 0} → (A → Type 0) → (W → Type 0) → W → Stage A × W → Type 0
  Passes {A = A} Good Keeps w p =
      ((a : A) × (p ≡ (proceed a, w)) × Good a)
      ⊎ ((o : Outcome) × (v : W) × (p ≡ (done o, v)) × Keeps v × IsRetried o)

  pub unless_done-cases :
      {A : Type 0} (Good : A → Type 0) (Keeps : W → Type 0) (w : W) (Q : Outcome × W → Type 0)
      (rest : A → W → Outcome × W) (p : Stage A × W)
      → Passes Good Keeps w p
      → ((a : A) → Good a → Q (rest a w))
      → ((o : Outcome) (v : W) → Keeps v → IsRetried o → Q (o, v))
      → Q (unless_done rest p)
  unless_done-cases Good Keeps w Q rest p (inl (a, same, good)) go_on ends =
      subst (λ q. Q (unless_done rest q)) (sym same) (go_on a good)
  unless_done-cases Good Keeps w Q rest p (inr (o, v, same, kept, again)) go_on ends =
      subst (λ q. Q (unless_done rest q)) (sym same) (ends o v kept again)

  pub after_call-Passes :
      {A : Type 0} (Good : A → Type 0) (Keeps : W → Type 0) (w : W) (p : Result (Unit {0}) × W)
      → Keeps p.1
      → Passes Good Keeps w (stop (after_call minute p))
  after_call-Passes Good Keeps w (r, v) kept =
      inr (after minute (error_of r), v, refl, kept, inr (inr (ground arith)))

  pub failed-Passes :
      {A : Type 0} (Good : A → Type 0) (Keeps : W → Type 0) (w : W) (e : Error)
      → Keeps w
      → Passes Good Keeps w (done (failed e), w)
  failed-Passes Good Keeps w e kept = inr (failed e, w, refl, kept, inl (λ h. absurd (cc h)))

  -- `if apierrors.IsNotFound(err) { …report… }; return …, err`
  pub not_found-Passes :
      {A : Type 0} (Good : A → Type 0) (Keeps : W → Type 0) (w : W) (p : Result (Unit {0}) × W)
      (e : Error)
      → Keeps p.1
      → Keeps w
      → Passes Good Keeps w
          (if is_not_found e then stop (after_call minute p) else (done (failed e), w))
  not_found-Passes Good Keeps w p e reported kept =
      if_cases (Passes Good Keeps w) (is_not_found e)
        (λ _. after_call-Passes Good Keeps w p reported) (λ _. failed-Passes Good Keeps w e kept)

  requeued-Passes :
      {A : Type 0} (Good : A → Type 0) (Keeps : W → Type 0) (w : W) (p : Result (Unit {0}) × W)
      → Keeps p.1
      → Passes Good Keeps w (stop (unless_failed requeued p))
  requeued-Passes Good Keeps w (ok _, v) kept = inr (requeued, v, refl, kept, inr (inl refl))
  requeued-Passes Good Keeps w (err e, v) kept =
      inr (failed e, v, refl, kept, inl (λ h. absurd (cc h)))

pub ensure_finalizer-Passes :
    {Store Remote Item : Type 0} (objects : Objects Store Item) (has : Bool) (owned : Item)
    (w : World Store Remote)
    → Passes (λ _. has ≡ true) (λ v. v.remote ≡ w.remote) w (ensure_finalizer objects has owned w)
unfolding ensure_finalizer
ensure_finalizer-Passes objects has owned w =
    let Good : Unit {0} → Type 0 = λ _. has ≡ true in
    if_cases (Passes Good (λ v. v.remote ≡ w.remote) w) has (λ h. inl (tt, refl, h))
      (λ _.
        requeued-Passes Good (λ v. v.remote ≡ w.remote) w (on_store (objects.update owned) w) refl)

-- A kubeconfig that the controllers act with.
pub record IsKubeconfig ⦃t : Runtime⦄ (found : Result Secret) (secret_key : String) (bytes : Bytes)
    : Type 0 where
  pub secret : Secret
  pub read : found ≡ ok secret
  pub same : bytes_at secret_key secret ≡ bytes
  pub loads : t.kubeconfig_error bytes ≡ none

module _ ⦃x : External⦄ ⦃t : Runtime⦄ {Store Remote : Type 0}
    (reports : Reports (World Store Remote)) (key : Key) (secret_key : String)
    (w : World Store Remote) (Keeps : World Store Remote → Type 0) (kept : Keeps w)
    (kept_missing : (s : String) → Keeps (reports.missing s w).1)
    (kept_lacking : (e : Error) → Keeps (reports.lacking e w).1)
    (kept_invalid : (e : Error) → Keeps (reports.invalid e w).1) where
  kubeconfig_loaded-Passes :
      (secret : Secret) (e : Option Error)
      → t.kubeconfig_error (bytes_at secret_key secret) ≡ e
      → Passes
          (IsKubeconfig (ok secret) secret_key)
          Keeps
          w
          (kubeconfig_loaded reports key secret_key (bytes_at secret_key secret) e w)
  unfolding kubeconfig_loaded
  kubeconfig_loaded-Passes secret none h = inl (
    bytes_at secret_key secret,
    refl,
    record { secret = secret; read = refl; same = refl; loads = h },
  )
  kubeconfig_loaded-Passes secret (some e) h =
      after_call-Passes (IsKubeconfig (ok secret) secret_key) Keeps w _ (kept_invalid _)

  -- A Secret that gives no kubeconfig is reported, or not there to be read: all else passes.
  pub kubeconfig_found-Passes :
      (r : Result Secret)
      → Passes (IsKubeconfig r secret_key) Keeps w (kubeconfig_found reports key secret_key r w)
  unfolding kubeconfig_found
  kubeconfig_found-Passes (err e) =
      not_found-Passes (IsKubeconfig (err e) secret_key) Keeps w _ e (kept_missing _) kept
  kubeconfig_found-Passes (ok secret) =
      if_cases (Passes (IsKubeconfig (ok secret) secret_key) Keeps w)
        (is_nil (bytes_at secret_key secret))
        (λ _. after_call-Passes (IsKubeconfig (ok secret) secret_key) Keeps w _ (kept_lacking _))
        (λ _. kubeconfig_loaded-Passes secret _ refl)
