-- ===== src/HelmClient/Directory.antt =====
-- client.go: `withIsolatedWorkingDirectory`, and that it comes back to the directory it left.
use omni_cluster_operator.Base.{String, ◌<>◌, ◌==◌, ◌≡◌, refl, sym, ap, subst, ◌∙◌, if◌then◌else◌}
use omni_cluster_operator.External.{Error, Result, ok, err, External}
use omni_cluster_operator.Exec.{Exec, wrapped}
use omni_cluster_operator.HelmClient.Library.{System}

module _ ⦃x : External⦄ {World : Type 0} (o : System World) where
  open o use {temp_dir, relative_path, mkdir_temp, getwd, chdir, remove_all}

  unfoldable pub parent_of : String → String
  parent_of cache_dir = if cache_dir == "" then temp_dir else cache_dir

  abbrev pub or_path : String → Result String → String
  or_path dir (ok relative) = relative
  or_path dir (err e) = dir

  -- `fn` answered: its error says where it ran.
  unfoldable pub ran_in : {A : Type 0} → String → String → Result A → Result A
  ran_in parent dir (ok a) = ok a
  ran_in parent dir (err e) = err (
      wrapped
        ("run action in isolated working directory "
          <> x.quote (or_path dir (relative_path parent dir))
          <> ": ")
        e)

  -- The deferred functions, the last deferred first; their errors are dropped.
  abbrev pub leave : {A : Type 0} → String → String → Result A × World → Result A × World
  leave dir wd (r, w) = (r, (remove_all dir (chdir wd w).1).1)

  -- From the answer of `os.Chdir(dir)` on
  unfoldable pub entered :
      {A : Type 0}
      → String
      → String
      → String
      → Exec World A
      → Result (Unit {0}) × World
      → Result A × World
  unfolding ran_in
  entered parent dir wd fn (err e, w) = (
    err (wrapped ("switch to isolated working directory " <> x.quote dir <> ": ") e),
    (remove_all dir w).1,
  )
  entered parent dir wd fn (ok _, w) = let (r, w') = fn w in leave dir wd (ran_in parent dir r, w')

  -- From the answer of `os.Getwd` on
  unfoldable pub at_home :
      {A : Type 0} → String → String → Exec World A → Result String × World → Result A × World
  unfolding entered
  at_home parent dir fn (err e, w) =
      (err (wrapped "read current working directory: " e), (remove_all dir w).1)
  at_home parent dir fn (ok wd, w) = entered parent dir wd fn (chdir dir w)

  -- From the answer of `os.MkdirTemp` on
  unfoldable pub made :
      {A : Type 0} → String → Exec World A → Result String × World → Result A × World
  unfolding at_home
  made parent fn (err e, w) = (err (wrapped "create isolated working directory: " e), w)
  made parent fn (ok dir, w) = at_home parent dir fn (getwd w)

  unfoldable pub with_isolated_working_directory :
      {A : Type 0} → String → Exec World A → Exec World A
  unfolding made parent_of
  with_isolated_working_directory cache_dir fn w =
      made (parent_of cache_dir) fn (mkdir_temp (parent_of cache_dir) "helm-oci-cwd-*" w)

  -- What the documentation of `os` says of the working directory. A place is a directory, whichever
  -- path leads to it; `Leads` are the absolute paths of each, through symbolic links or not, and stand
  -- for directories that are not renamed meanwhile. A relative path leads nowhere by itself.
  pub record HasDirectory {Place : Type 0} (Leads : String → Place → Type 0) (cwd : World → Place)
      : Type 0 where
    pub getwd_reads : (w v : World) (d : String) → getwd w ≡ (ok d, v) → Leads d (cwd w)
    pub getwd_keeps : (w : World) → cwd (getwd w).1 ≡ cwd w
    pub mkdir_keeps : (p n : String) (w : World) → cwd (mkdir_temp p n w).1 ≡ cwd w
    pub remove_keeps : (d : String) (w : World) → cwd (remove_all d w).1 ≡ cwd w
    pub chdir_enters :
        (d : String) (place : Place) (w : World)
        → Leads d place
        → (chdir d w).0 ≡ ok tt
        → cwd (chdir d w).1 ≡ place
    pub chdir_stays :
        (d : String) (w v : World) (e : Error) → chdir d w ≡ (err e, v) → cwd v ≡ cwd w

  module _ {Place : Type 0} (Leads : String → Place → Type 0) (cwd : World → Place)
      (laws : HasDirectory Leads cwd) (home : Place)
      (back : (d : String) → Leads d home → (v : World) → (chdir d v).0 ≡ ok tt) {A : Type 0}
      (fn : Exec World A) where
    left_at_home :
        (dir wd : String) (v : World) → Leads wd home → cwd (remove_all dir (chdir wd v).1).1 ≡ home
    left_at_home dir wd v leads =
        laws.remove_keeps dir _ ∙ laws.chdir_enters wd home v leads (back wd leads v)

    entered_comes_home :
        (parent dir wd : String) (w : World)
        → Leads wd home
        → cwd w ≡ home
        → (r : Result (Unit {0})) (v : World) → chdir dir w ≡ (r, v)
        → cwd (entered parent dir wd fn (r, v)).1 ≡ home
    unfolding entered
    entered_comes_home parent dir wd w leads here (ok _) v h = left_at_home dir wd (fn v).1 leads
    entered_comes_home parent dir wd w leads here (err e) v h =
        laws.remove_keeps dir v ∙ laws.chdir_stays dir w v e h ∙ here

    at_home_comes_home :
        (parent dir : String) (w : World)
        → cwd w ≡ home
        → (r : Result String) (v : World) → getwd w ≡ (r, v)
        → cwd (at_home parent dir fn (r, v)).1 ≡ home
    unfolding at_home
    at_home_comes_home parent dir w here (err e) v h =
        laws.remove_keeps dir v
        ∙ ap (λ (p : Result String × World). cwd p.1) (sym h)
        ∙ laws.getwd_keeps w
        ∙ here
    at_home_comes_home parent dir w here (ok wd) v h =
        let v_here : cwd v ≡ home =
          ap (λ (p : Result String × World). cwd p.1) (sym h) ∙ laws.getwd_keeps w ∙ here in
        entered_comes_home parent dir wd v (subst (Leads wd) here (laws.getwd_reads w v wd h))
          v_here _ _ refl

    made_comes_home :
        (parent : String) (r : Result String) (v : World)
        → cwd v ≡ home
        → cwd (made parent fn (r, v)).1 ≡ home
    unfolding made
    made_comes_home parent (err e) v here = here
    made_comes_home parent (ok dir) v here = at_home_comes_home parent dir v here _ _ refl

    -- Whatever the function does, and whichever call of the operating system fails on the way, the
    -- working directory is afterwards the one it was before, if the calls do to the working directory
    -- what their documentation says, and the paths of that directory can always be entered again.
    pub with_isolated_working_directory-restores :
        (cache_dir : String) (w : World)
        → cwd w ≡ home
        → cwd (with_isolated_working_directory cache_dir fn w).1 ≡ home
    unfolding with_isolated_working_directory
    with_isolated_working_directory-restores cache_dir w here =
        made_comes_home (parent_of cache_dir) _ _ (laws.mkdir_keeps _ _ w ∙ here)
