-- ===== src/Launcher/Execute/Laws.antt =====
-- What a run of the dispatcher consults, starts and returns.
use ipgw_meta.Prelude.{
  ◌≡◌, refl, ◌⊎◌, inl, inr, Bool, Option, none, some, List, [], ◌∷◌, arith, All, All-append,
  Bool-cases, Option-cases,
}
use ipgw_meta.Prelude.Results.{Result, ok, err}
use ipgw_meta.Text.{Bytes, trim_space}
use ipgw_meta.Launcher.Mode.{Mode, FailureKind, parse_mode, extract_mode}
use ipgw_meta.Launcher.Mode.Settled.{extract_mode-extract_mode}
use ipgw_meta.Launcher.Version.{parse_version_request}
use ipgw_meta.Launcher.Execute.{
  System, Action, ran, load_configured_mode, launcher_path, file_mode, config_at, env_choice,
  env_at, with_args, resolution_of, resolve_mode, sibling_executable, run_target, start, finish,
  dispatch, answer, execute,
}

abbrev pub IsBlank : Option Bytes → Type 0
IsBlank none = Unit {0}
IsBlank (some raw) = trim_space raw ≡ []

module _ (s : System) where
  abbrev pub EnvSays : Mode → Type 0
  EnvSays m = (raw : Bytes) × (s.lookup_env ≡ some raw) × (parse_mode raw ≡ some m)

  -- The environment names nothing: the variable is unset or blank.
  abbrev pub EnvSilent : Type 0
  EnvSilent = IsBlank s.lookup_env

  abbrev pub FileSays : Option Mode → Type 0
  FileSays m =
      (d : Bytes) × (s.user_config_dir ≡ some d)
      × (load_configured_mode s (launcher_path s d) ≡ ok m)

  abbrev pub ConfigSays : Mode → Type 0
  ConfigSays m = FileSays (some m) ⊎ (FileSays none × (parse_mode s.install_default ≡ some m))

  file_mode-eq-ok :
      (r : Result FailureKind (Option Mode)) (m : Mode)
      → file_mode s r ≡ ok m
      → (r ≡ ok (some m)) ⊎ ((r ≡ ok none) × (parse_mode s.install_default ≡ some m))
  unfolding file_mode
  file_mode-eq-ok r m h = ground arith

  config_at-eq-ok :
      (dir : Option Bytes) (m : Mode)
      → s.user_config_dir ≡ dir
      → (config_at s dir).0 ≡ ok m
      → ConfigSays m
  unfolding config_at
  config_at-eq-ok none m e h = absurd (cc)
  config_at-eq-ok (some []) m e h = absurd (cc)
  config_at-eq-ok (some (c ∷ d)) m e h = elim (file_mode-eq-ok _ m h) [
    | inl p ↦ inl (c ∷ d, e, p)
    | inr p ↦ inr ((c ∷ d, e, p.0), p.1)
  ]

  env_choice-eq-ok :
      (raw trimmed : Bytes) (parsed : Option Mode) (m : Mode)
      → s.lookup_env ≡ some raw
      → trim_space raw ≡ trimmed
      → parse_mode raw ≡ parsed
      → (env_choice s trimmed parsed (config_at s s.user_config_dir)).0 ≡ ok m
      → EnvSays m ⊎ (EnvSilent × ConfigSays m)
  unfolding env_choice
  env_choice-eq-ok raw [] parsed m e t p h = inr (rw e t, config_at-eq-ok _ m refl h)
  env_choice-eq-ok raw (_ ∷ _) none m e t p h = absurd (cc)
  env_choice-eq-ok raw (_ ∷ _) (some _) m e t p h = inl (raw, e, cc)

  env_at-eq-ok :
      (env : Option Bytes) (m : Mode)
      → s.lookup_env ≡ env
      → (env_at s env).0 ≡ ok m
      → EnvSays m ⊎ (EnvSilent × ConfigSays m)
  unfolding env_at
  env_at-eq-ok none m e h = inr (rw e tt, config_at-eq-ok _ m refl h)
  env_at-eq-ok (some raw) m e h = env_choice-eq-ok raw _ _ m e refl refl h

  with_args-eq-ok :
      (r : Result FailureKind Mode) (rest out : List Bytes) (m : Mode)
      → with_args s r rest ≡ ok (m, out)
      → (r ≡ ok m) × (rest ≡ out)
  with_args-eq-ok r rest out m h = ground arith

  pub record Resolved (args : List Bytes) (m : Mode) (out : List Bytes) (by : Option Mode)
      : Type 0 where
    pub extracted : extract_mode args ≡ ok (by, out)
    pub source : (by ≡ some m) ⊎ ((by ≡ none) × (EnvSays m ⊎ (EnvSilent × ConfigSays m)))

  resolution_of-Resolved :
      (args out : List Bytes) (m : Mode) (r : Result FailureKind (Option Mode × List Bytes))
      → extract_mode args ≡ r
      → (resolution_of s r).0 ≡ ok (m, out)
      → (by : Option Mode) × Resolved args m out by
  unfolding resolution_of
  resolution_of-Resolved args out m (err e) x h = absurd (cc)
  resolution_of-Resolved args out m (ok (some m', rest)) x h =
      (some m', record { extracted = ground arith; source = inl (ground arith) })
  resolution_of-Resolved args out m (ok (none, rest)) x h =
      let (p, q) = with_args-eq-ok (env_at s s.lookup_env).0 rest out m h in
      (none, record { extracted = cc; source = inr (refl, env_at-eq-ok _ m refl p) })

  -- The mode comes from the flag, and only without one from a variable that is not blank, and only
  -- without both from launcher.yaml, and only if that file is missing from the install default; the
  -- arguments are those that `extractMode` leaves.
  pub resolve_mode-Resolved :
      (args out : List Bytes) (m : Mode)
      → (resolve_mode s args).0 ≡ ok (m, out)
      → (by : Option Mode) × Resolved args m out by
  unfolding resolve_mode
  resolve_mode-Resolved args out m h = resolution_of-Resolved args out m _ refl h

  -- The arguments of a child hold no mode flag, its program is the sibling of the launcher.
  abbrev pub IsRightAction : Action → Type 0
  IsRightAction (ran target args) =
      (extract_mode args ≡ ok (none, args))
      × ((path : Bytes) × (m : Mode) × (s.executable ≡ some path)
          × (sibling_executable s path m ≡ some target))
  IsRightAction _ = Unit {0}

  run_target-IsRightAction :
      (json : Bool) (m : Mode) (args : List Bytes) (path : Bytes) (target : Option Bytes)
      → extract_mode args ≡ ok (none, args)
      → s.executable ≡ some path
      → sibling_executable s path m ≡ target
      → All IsRightAction (run_target s json args target).1
  unfolding run_target
  run_target-IsRightAction json m args path none h e t = (tt, tt)
  run_target-IsRightAction json m args path (some target) h e t =
      elim (Option-cases (s.run_child target args)) [
        | inl n ↦ rw (n, run_target) ((h, (path, m, e, t)), (tt, tt))
        | inr (status, n) ↦ rw (n, run_target) ((h, (path, m, e, t)), tt)
      ]

  start-IsRightAction :
      (json : Bool) (m : Mode) (args : List Bytes) (program : Option Bytes)
      → extract_mode args ≡ ok (none, args)
      → s.executable ≡ program
      → All IsRightAction (start s json m args program).1
  unfolding start
  start-IsRightAction json m args none h e = (tt, tt)
  start-IsRightAction json m args (some path) h e =
      run_target-IsRightAction json m args path _ h e refl

  finish-IsRightAction :
      (args : List Bytes) (json : Bool) (r : Result FailureKind (Mode × List Bytes))
      → (resolve_mode s args).0 ≡ r
      → All IsRightAction (finish s json r).1
  unfolding finish
  finish-IsRightAction args json (err kind) x = (tt, tt)
  finish-IsRightAction args json (ok (m, rest)) x =
      let (by, found) = resolve_mode-Resolved args rest m x in
      start-IsRightAction json m rest s.executable
        (extract_mode-extract_mode args rest by found.extracted) refl

  config_at-IsRightAction : (dir : Option Bytes) → All IsRightAction (config_at s dir).1
  unfolding config_at
  config_at-IsRightAction none = tt
  config_at-IsRightAction (some []) = tt
  config_at-IsRightAction (some (c ∷ d)) = (tt, tt)

  env_choice-IsRightAction :
      (trimmed : Bytes) (parsed : Option Mode) (dir : Option Bytes)
      → All IsRightAction (env_choice s trimmed parsed (config_at s dir)).1
  unfolding env_choice
  env_choice-IsRightAction [] parsed dir = (tt, config_at-IsRightAction dir)
  env_choice-IsRightAction (_ ∷ _) none dir = (tt, tt)
  env_choice-IsRightAction (_ ∷ _) (some _) dir = (tt, tt)

  env_at-IsRightAction : (env : Option Bytes) → All IsRightAction (env_at s env).1
  unfolding env_at
  env_at-IsRightAction none = env_choice-IsRightAction [] none s.user_config_dir
  env_at-IsRightAction (some raw) = env_choice-IsRightAction _ _ s.user_config_dir

  resolution_of-IsRightAction :
      (r : Result FailureKind (Option Mode × List Bytes)) → All IsRightAction (resolution_of s r).1
  unfolding resolution_of
  resolution_of-IsRightAction (err e) = tt
  resolution_of-IsRightAction (ok (some mode, rest)) = tt
  resolution_of-IsRightAction (ok (none, rest)) = env_at-IsRightAction s.lookup_env

  dispatch-IsRightAction : (args : List Bytes) → All IsRightAction (dispatch s args).1
  unfolding dispatch
  dispatch-IsRightAction args =
      All-append IsRightAction _ _
        (unfold resolve_mode in resolution_of-IsRightAction (extract_mode args))
        (finish-IsRightAction args _ _ refl)

  answer-IsRightAction :
      (json : Bool) (r : Result FailureKind Bool) → All IsRightAction (answer s json r).1
  unfolding answer
  answer-IsRightAction json (err kind) = (tt, tt)
  answer-IsRightAction json (ok j) = (tt, tt)

  -- Whatever a run does: a child that it starts is the sibling binary of the launcher's own path,
  -- and gets arguments in which no mode flag is left.
  pub execute-IsRightAction : (args : List Bytes) → All IsRightAction (execute s args).1
  unfolding execute
  execute-IsRightAction args = elim (Bool-cases (parse_version_request args).requested) [
    | inl v ↦ rw v (answer-IsRightAction _ _)
    | inr v ↦ rw v (dispatch-IsRightAction args)
  ]
