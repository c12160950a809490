-- ===== src/Template/Root.antt =====
-- builder.go: `OpenRoot` and `Validate`, and that a root that was opened is closed.
use omni_cluster_operator.Base.{
  String, ◌<>◌, List, ◌∷◌, Option, none, some, ◌==◌, if◌then◌else◌, if_cases, ◌≡◌, refl, ◌∙◌,
}
use omni_cluster_operator.Api.Meta.{Bytes}
use omni_cluster_operator.External.{Error, Result, ok, err, External}
use omni_cluster_operator.Exec.{Exec, wrapped}

-- `os.OpenRoot` and `(*os.Root).Close`
pub record RootLibrary (World Root : Type 0) : Type 0 where
  pub open_dir : String → Exec World Root
  pub close : Root → World → World

module _ ⦃x : External⦄ {World Root : Type 0} (lib : RootLibrary World Root) where
  -- `OpenRoot` from the answer of `os.OpenRoot` on
  unfoldable pub opened : String → Result Root × World → Result (Option Root) × World
  opened path (ok root, w) = (ok (some root), w)
  opened path (err e, w) = (err (wrapped ("open template root " <> x.quote path <> ": ") e), w)

  unfoldable pub open_root : String → Exec World (Option Root)
  unfolding opened
  open_root path w = if path == "" then (ok none, w) else opened path (lib.open_dir path w)

  -- The function `closeRoot` that `OpenRoot` returns.
  abbrev pub close_root : Option Root → World → World
  close_root none w = w
  close_root (some root) w = lib.close root w

  abbrev pub closed : {A : Type 0} → Option Root → A × World → A × World
  closed root (a, w) = (a, close_root root w)

  -- `if err != nil { return … }; defer closeRoot()`, and what follows
  unfoldable pub with_root :
      {A : Type 0}
      → (Error → A)
      → (Option Root → World → A × World)
      → Result (Option Root) × World
      → A × World
  with_root failed act (err e, w) = (failed e, w)
  with_root failed act (ok root, w) = closed root (act root w)

  -- `validator` is `operations.ValidateTemplate`.
  unfoldable pub validate :
      (Bytes → Option Root → World → Option Error × World)
      → Bytes
      → String
      → World
      → Option Error × World
  unfolding with_root open_root
  validate validator bytes path w = with_root some (validator bytes) (open_root path w)

  -- What the documentation of `os` says of the roots that are open, the last one first.
  pub record TracksRoots (roots : World → List Root) : Type 0 where
    pub open_adds :
        (path : String) (w v : World) (root : Root)
        → lib.open_dir path w ≡ (ok root, v)
        → roots v ≡ root ∷ roots w
    pub open_fails :
        (path : String) (w v : World) (e : Error)
        → lib.open_dir path w ≡ (err e, v)
        → roots v ≡ roots w
    pub close_takes :
        (w : World) (root : Root) (rest : List Root)
        → roots w ≡ root ∷ rest
        → roots (lib.close root w) ≡ rest

  module _ (roots : World → List Root) (laws : TracksRoots roots) {A : Type 0} (failed : Error → A)
      (act : Option Root → World → A × World)
      (keeps : (root : Option Root) (w : World) → roots (act root w).1 ≡ roots w) where
    opened_is_closed :
        (path : String) (w : World) (r : Result Root) (v : World)
        → lib.open_dir path w ≡ (r, v)
        → roots (with_root failed act (opened path (r, v))).1 ≡ roots w
    unfolding with_root opened
    opened_is_closed path w (ok root) v h =
        laws.close_takes (act (some root) v).1 root (roots w)
          (keeps (some root) v ∙ laws.open_adds path w v root h)
    opened_is_closed path w (err e) v h = laws.open_fails path w v e h

    -- What acts with a root leaves the roots that are open as they were, if the action does.
    pub with_root-closes :
        (path : String) (w : World) → roots (with_root failed act (open_root path w)).1 ≡ roots w
    unfolding with_root open_root
    with_root-closes path w =
        if_cases (λ r. roots (with_root failed act r).1 ≡ roots w) (path == "") (λ _. keeps none w)
          (λ _. opened_is_closed path w _ _ refl)

  -- `Validate` leaves open the roots that were open before, and no other, whichever error it returns,
  -- if the validator leaves them so and `os` opens and closes what it is asked to.
  pub validate-closes :
      (roots : World → List Root) (laws : TracksRoots roots)
      (validator : Bytes → Option Root → World → Option Error × World)
      (keeps : (bytes : Bytes) (root : Option Root) (w : World)
        → roots (validator bytes root w).1 ≡ roots w)
      (bytes : Bytes) (path : String) (w : World)
      → roots (validate validator bytes path w).1 ≡ roots w
  unfolding validate
  validate-closes roots laws validator keeps bytes path w =
      with_root-closes roots laws some (validator bytes) (keeps bytes) path w
