-- ===== src/Launcher/Tests.antt =====
-- Runs of the dispatcher, and the theorems at these runs.
use ipgw_meta.Prelude.{refl, inl, ◌≡◌, [], ◌∷◌, ◌++◌, none, some, Option, List, true, false, All}
use ipgw_meta.Prelude.Results.{ok, err}
use ipgw_meta.Text.{Bytes, codes, cut, bytes_eq, has_prefix, strip_prefix, to_lower, trim_space}
use ipgw_meta.Launcher.Mode.{
  Mode, meta, legacy, invalid_arguments, extract_mode, select, parse_mode, mode_flag, mode_assign,
  terminator,
}
use ipgw_meta.Launcher.Mode.Laws.{IsPlain, extract_mode-flag, extract_mode_twice}
use ipgw_meta.Launcher.Mode.Settled.{extract_mode-extract_mode}
use ipgw_meta.Launcher.Version.{version_requested, split_long_flag}
use ipgw_meta.Launcher.Execute.{System, missing, exit, Action, execute, resolve_mode}
use ipgw_meta.Launcher.Execute.Laws.{
  Resolved, resolve_mode-Resolved, IsRightAction, execute-IsRightAction,
}
use ipgw_meta.Launcher.Execute.Version.{IsVersionWrite, execute_version}

abbrev system : System
system = record {
  lookup_env = some (codes " Legacy ");
  user_config_dir = some (codes "/home");
  read_file = λ path. missing;
  decode_yaml = λ text. none;
  executable = some (codes "/bin/ipgw");
  abs = λ path. some path;
  dir = λ path. codes "/bin";
  ext = λ path. [];
  join = λ a b. a ++ (codes "/" ++ b);
  run_child = λ target args. some (exit 0);
  stdout_ok = true;
  install_default = codes "meta";
}

abbrev login_args : List Bytes
login_args = codes "login" ∷ codes "--json" ∷ []

login-IsPlain : IsPlain (codes "login")
unfolding bytes_eq strip_prefix
login-IsPlain = record { not_terminator = refl; not_flag = refl; not_assign = refl }

run_resolve : (resolve_mode system login_args).0 ≡ ok (legacy, login_args)
unfolding resolve_mode extract_mode bytes_eq strip_prefix parse_mode trim_space to_lower
run_resolve = refl

resolve_mode-Resolved_example : (by : Option Mode) × Resolved system login_args legacy login_args by
resolve_mode-Resolved_example =
    resolve_mode-Resolved system login_args login_args legacy run_resolve

execute-IsRightAction_example :
    All (IsRightAction system) (execute system (codes "--mode=meta" ∷ login_args)).1
execute-IsRightAction_example = execute-IsRightAction system (codes "--mode=meta" ∷ login_args)

run_version_requested : version_requested (codes "--json" ∷ codes "--version" ∷ []) ≡ true
unfolding version_requested bytes_eq split_long_flag cut
run_version_requested = refl

execute_version_example :
    (a : Action) × ((execute system (codes "--json" ∷ codes "--version" ∷ [])).1 ≡ a ∷ [])
    × IsVersionWrite a
execute_version_example =
    execute_version system (codes "--json" ∷ codes "--version" ∷ []) run_version_requested

run_extract :
    extract_mode (codes "login" ∷ codes "--mode" ∷ codes "META" ∷ codes "x" ∷ [])
    ≡ ok (some meta, codes "login" ∷ codes "x" ∷ [])
unfolding extract_mode bytes_eq strip_prefix parse_mode trim_space to_lower has_prefix select
run_extract = refl

extract_mode-extract_mode_example :
    extract_mode (codes "login" ∷ codes "x" ∷ []) ≡ ok (none, codes "login" ∷ codes "x" ∷ [])
extract_mode-extract_mode_example =
    extract_mode-extract_mode (codes "login" ∷ codes "--mode" ∷ codes "META" ∷ codes "x" ∷ [])
      (codes "login" ∷ codes "x" ∷ []) (some meta) run_extract

run_parse : parse_mode (codes "meta") ≡ some meta
unfolding parse_mode bytes_eq trim_space to_lower
run_parse = refl

run_prefix : has_prefix (codes "meta") terminator ≡ false
unfolding has_prefix
run_prefix = refl

extract_mode-flag_example :
    (extract_mode (codes "login" ∷ mode_flag ∷ codes "meta" ∷ codes "login" ∷ [])
      ≡ ok (some meta, codes "login" ∷ codes "login" ∷ []))
    × (extract_mode (codes "login" ∷ (mode_assign ++ codes "meta") ∷ codes "login" ∷ [])
        ≡ ok (some meta, codes "login" ∷ codes "login" ∷ []))
extract_mode-flag_example =
    extract_mode-flag (codes "login" ∷ []) (codes "login" ∷ []) [] (codes "meta") meta
      (login-IsPlain, tt) (login-IsPlain, tt) (inl refl) run_prefix run_parse

extract_mode_twice_example :
    extract_mode ((mode_assign ++ codes "meta") ∷ codes "login" ∷ mode_flag ∷ codes "legacy" ∷ [])
    ≡ err invalid_arguments
extract_mode_twice_example =
    extract_mode_twice [] (codes "login" ∷ []) [] (codes "meta") (codes "legacy") meta tt
      (login-IsPlain, tt) run_parse
