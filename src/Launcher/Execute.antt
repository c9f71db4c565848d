-- ===== src/Launcher/Execute.antt =====
-- launcher.go: `resolveMode`, `siblingExecutable` and `Execute`. What the operating system and the
-- YAML decoder answer is a `System`; what the launcher did is the list of its actions.
pub mod Laws
pub mod Version
use ipgw_meta.Prelude.{
  ℕ, Bool, true, false, Option, none, some, List, [], ◌∷◌, ◌++◌, ltb, ◌==◌, length, if◌then◌else◌,
}
use ipgw_meta.Prelude.Results.{Result, ok, err}
use ipgw_meta.Text.{Bytes, codes, bytes_eq, to_lower, trim_space}
use ipgw_meta.Launcher.Mode.{
  Mode, meta, legacy, FailureKind, invalid_arguments, configuration, startup, parse_mode,
  extract_mode, preparse_json,
}
use ipgw_meta.Launcher.Version.{parse_version_request}

pub data FileRead : Type 0 where
  missing unreadable : FileRead
  contents : Bytes → FileRead

-- A decoded launcher.yaml; `alone` says that no second document follows.
pub record LauncherState : Type 0 where
  pub schema_version : ℕ
  pub mode : Bytes
  pub alone : Bool

-- `exec.ExitError.ExitCode` is -1 for a child that a signal ended.
pub data Status : Type 0 where
  exit : ℕ → Status
  signalled : Status

pub record System : Type 0 where
  pub lookup_env : Option Bytes
  pub user_config_dir : Option Bytes
  pub read_file : Bytes → FileRead
  pub decode_yaml : Bytes → Option LauncherState
  pub executable : Option Bytes
  pub abs : Bytes → Option Bytes
  pub dir : Bytes → Bytes
  pub ext : Bytes → Bytes
  pub join : Bytes → Bytes → Bytes
  pub run_child : Bytes → List Bytes → Option Status
  pub stdout_ok : Bool
  pub install_default : Bytes

pub data Action : Type 0 where
  read_env : Action
  read_config : Bytes → Action
  ran : Bytes → List Bytes → Action
  wrote_version : Bool → Action
  wrote_failure : Bool → FailureKind → Action

abbrev pub max_launcher_bytes : ℕ
max_launcher_bytes = 65536

unfoldable pub exact_mode : Bytes → Option Mode
exact_mode raw =
    if bytes_eq raw (codes "meta")
    then some meta
    else if bytes_eq raw (codes "legacy")
    then some legacy
    else none

unfoldable pub mode_name : Mode → Bytes
mode_name meta = codes "meta"
mode_name legacy = codes "legacy"

module _ (s : System) where
  open s use {
    lookup_env, user_config_dir, read_file, decode_yaml, executable, abs, dir, ext, join, run_child,
    stdout_ok, install_default,
  }

  -- `loadConfiguredMode`
  unfoldable pub load_configured_mode : Bytes → Result FailureKind (Option Mode)
  load_configured_mode path = elim (read_file path) [
    | missing ↦ ok none
    | unreadable ↦ err configuration
    | contents text ↦
        if ltb max_launcher_bytes (length text)
        then err configuration
        else elim (decode_yaml text) [
          | none ↦ err configuration
          | some state ↦
              if state.alone
              then (if state.schema_version == 1
                  then elim (exact_mode state.mode) [
                    | none ↦ err configuration
                    | some mode ↦ ok (some mode)
                  ]
                  else err configuration)
              else err configuration
        ]
  ]

  -- The install default, once no other source has named a mode.
  unfoldable pub fallback_mode : Result FailureKind Mode
  fallback_mode = elim (parse_mode install_default) [ none ↦ err startup | some mode ↦ ok mode ]

  abbrev pub launcher_path : Bytes → Bytes
  launcher_path d = join (join d (codes "ipgw-meta")) (codes "launcher.yaml")

  -- The mode of the file, or the install default if there is no file.
  unfoldable pub file_mode : Result FailureKind (Option Mode) → Result FailureKind Mode
  unfolding fallback_mode
  file_mode (err e) = err e
  file_mode (ok (some mode)) = ok mode
  file_mode (ok none) = fallback_mode

  unfoldable pub config_at : Option Bytes → Result FailureKind Mode × List Action
  unfolding file_mode
  config_at none = (err configuration, [])
  config_at (some []) = (err configuration, [])
  config_at (some (c ∷ d)) = (
    file_mode (load_configured_mode (launcher_path (c ∷ d))),
    read_config (launcher_path (c ∷ d)) ∷ [],
  )

  -- The trimmed variable, its mode if it has one, and what follows if it is blank.
  unfoldable pub env_choice :
      Bytes
      → Option Mode
      → Result FailureKind Mode × List Action
      → Result FailureKind Mode × List Action
  env_choice [] parsed later = (later.0, read_env ∷ later.1)
  env_choice (_ ∷ _) none later = (err invalid_arguments, read_env ∷ [])
  env_choice (_ ∷ _) (some mode) later = (ok mode, read_env ∷ [])

  unfoldable pub env_at : Option Bytes → Result FailureKind Mode × List Action
  unfolding config_at env_choice
  env_at none = env_choice [] none (config_at user_config_dir)
  env_at (some raw) = env_choice (trim_space raw) (parse_mode raw) (config_at user_config_dir)

  abbrev pub with_args :
      Result FailureKind Mode → List Bytes → Result FailureKind (Mode × List Bytes)
  with_args (err e) remaining = err e
  with_args (ok mode) remaining = ok (mode, remaining)

  unfoldable pub resolution_of :
      Result FailureKind (Option Mode × List Bytes)
      → Result FailureKind (Mode × List Bytes) × List Action
  unfolding env_at
  resolution_of (err e) = (err e, [])
  resolution_of (ok (some mode, remaining)) = (ok (mode, remaining), [])
  resolution_of (ok (none, remaining)) =
      let (found, actions) = env_at lookup_env in (with_args found remaining, actions)

  -- `resolveMode`: the mode and the arguments that are left, with what was consulted.
  unfoldable pub resolve_mode : List Bytes → Result FailureKind (Mode × List Bytes) × List Action
  unfolding resolution_of
  resolve_mode args = resolution_of (extract_mode args)

  -- `siblingExecutable`
  unfoldable pub sibling_executable : Bytes → Mode → Option Bytes
  unfolding mode_name
  sibling_executable [] mode = none
  sibling_executable (c ∷ path) mode = elim (abs (c ∷ path)) [
    | none ↦ none
    | some absolute ↦
        let suffix =
          if bytes_eq (to_lower (ext absolute)) (codes ".exe") then codes ".exe" else [] in
        some (join (dir absolute) (codes "ipgw-" ++ (mode_name mode ++ suffix)))
  ]

  -- The exit code of `failureContract`.
  unfoldable pub failure_exit : FailureKind → ℕ
  failure_exit invalid_arguments = 2
  failure_exit configuration = 2
  failure_exit startup = 1

  -- `renderFailure`: a JSON answer that cannot be written ends with 1.
  unfoldable pub render_failure : Bool → FailureKind → Status × List Action
  unfolding failure_exit
  render_failure json kind = (
    if json
        then (if stdout_ok then exit (failure_exit kind) else exit 1)
        else exit (failure_exit kind),
    wrote_failure json kind ∷ [],
  )

  unfoldable pub render_version : Bool → Status × List Action
  render_version json =
      (if json then (if stdout_ok then exit 0 else exit 1) else exit 0, wrote_version json ∷ [])

  -- From the resolved mode on: find the sibling and run it.
  unfoldable pub run_target : Bool → List Bytes → Option Bytes → Status × List Action
  unfolding render_failure
  run_target json args none = render_failure json startup
  run_target json args (some target) = elim (run_child target args) [
    | none ↦
        let (status, actions) = render_failure json startup in (status, ran target args ∷ actions)
    | some status ↦ (status, ran target args ∷ [])
  ]

  unfoldable pub start : Bool → Mode → List Bytes → Option Bytes → Status × List Action
  unfolding run_target
  start json mode args none = render_failure json startup
  start json mode args (some path) = run_target json args (sibling_executable path mode)

  unfoldable pub finish : Bool → Result FailureKind (Mode × List Bytes) → Status × List Action
  unfolding start
  finish json (err kind) = render_failure json kind
  finish json (ok (mode, remaining)) = start json mode remaining executable

  unfoldable pub dispatch : List Bytes → Status × List Action
  unfolding finish resolve_mode
  dispatch args =
      let (resolution, consulted) = resolve_mode args in
      let (status, actions) = finish (preparse_json args) resolution in
      (status, consulted ++ actions)

  unfoldable pub answer : Bool → Result FailureKind Bool → Status × List Action
  unfolding render_failure render_version
  answer failure_json (err kind) = render_failure failure_json kind
  answer failure_json (ok json) = render_version json

  -- `Execute`
  unfoldable pub execute : List Bytes → Status × List Action
  unfolding dispatch answer
  execute args =
      let request = parse_version_request args in
      let run = dispatch args in
      if request.requested then answer request.failure_json request.outcome else run
