-- ===== src/Launcher/Version.antt =====
-- launcher.go: `parseVersionRequest`, the global `--version` path that consults nothing else.
pub mod Laws
use ipgw_meta.Prelude.{
  Bool, true, false, not, ◌&&◌, ◌||◌, none, some, List, [], ◌∷◌, ltb, length, any, if◌then◌else◌,
}
use ipgw_meta.Prelude.Results.{Result, ok, err}
use ipgw_meta.Text.{Bytes, codes, bytes_eq, has_prefix, cut}
use ipgw_meta.Launcher.Mode.{FailureKind, invalid_arguments, parse_mode, terminator, preparse_json}

pub record Flag : Type 0 where
  pub name : Bytes
  pub value : Bytes
  pub inline : Bool

-- `splitLauncherLongFlag`
unfoldable pub split_long_flag : Bytes → Flag
split_long_flag argument =
    let whole : Flag = record { name = argument; value = []; inline = false } in
    elim (cut b'=' argument) [
      | none ↦ whole
      | some (before, after) ↦
          if has_prefix argument terminator && ltb 2 (length before)
          then record { name = before; value = after; inline = true }
          else whole
    ]

-- `isLauncherPasswordArgument`
unfoldable pub is_password_argument : Bytes → Bool
is_password_argument argument =
    bytes_eq argument (codes "--password")
    || has_prefix argument (codes "--password=")
    || bytes_eq argument (codes "-p")
    || (has_prefix argument (codes "-p") && ltb 2 (length argument))

pub record Seen : Type 0 where
  pub output : Bool
  pub mode : Bool
  pub version : Bool
  pub json : Bool

abbrev pub nothing_seen : Seen
nothing_seen = record { output = false; mode = false; version = false; json = false }

unfoldable pub takes_value : Bytes → Bool
takes_value name = any (bytes_eq name) (
    codes "--output"
    ∷ codes "--mode"
    ∷ codes "--config"
    ∷ codes "--profile"
    ∷ codes "--bind-ip"
    ∷ [])

-- A flag that takes a value, with the value at hand.
unfoldable pub with_value : Bytes → Bytes → Seen → Result FailureKind Seen
with_value name value seen =
    if is_password_argument value
    then err invalid_arguments
    else if bytes_eq name (codes "--output")
    then (if seen.output
          || (not (bytes_eq value (codes "human")) && not (bytes_eq value (codes "json")))
        then err invalid_arguments
        else ok (record seen { output = true; json = bytes_eq value (codes "json") }))
    else if bytes_eq name (codes "--mode")
    then (if seen.mode then err invalid_arguments else elim (parse_mode value) [
      | none ↦ err invalid_arguments
      | some _ ↦ ok (record seen { mode = true })
    ])
    else ok seen

-- `--version`, `--json` and everything that takes no value.
unfoldable pub without_value : Flag → Seen → Result FailureKind Seen
without_value flag seen =
    if bytes_eq flag.name (codes "--version")
    then (if flag.inline || seen.version
        then err invalid_arguments
        else ok (record seen { version = true }))
    else if bytes_eq flag.name (codes "--json")
    then (if flag.inline || seen.output
        then err invalid_arguments
        else ok (record seen { output = true; json = true }))
    else err invalid_arguments

unfoldable pub version_from : List Bytes → Seen → Result FailureKind Seen
version_from [] seen = ok seen
version_from (argument ∷ []) seen =
    let flag = split_long_flag argument in
    if bytes_eq argument terminator
    then ok seen
    else if takes_value flag.name
    then (if flag.inline then with_value flag.name flag.value seen else err invalid_arguments)
    else without_value flag seen
version_from (argument ∷ next ∷ rest) seen =
    let flag = split_long_flag argument in
    let attached : Result FailureKind Seen = elim (with_value flag.name flag.value seen) [
      | err e ↦ err e
      | ok seen' ↦ version_from (next ∷ rest) seen'
    ] in
    let separate : Result FailureKind Seen =
      if has_prefix next terminator
      then err invalid_arguments
      else elim (with_value flag.name next seen) [
        | err e ↦ err e
        | ok seen' ↦ version_from rest seen'
      ] in
    let plain : Result FailureKind Seen = elim (without_value flag seen) [
      | err e ↦ err e
      | ok seen' ↦ version_from (next ∷ rest) seen'
    ] in
    if bytes_eq argument terminator
    then err invalid_arguments
    else if takes_value flag.name
    then (if flag.inline then attached else separate)
    else plain

-- The first loop: is there a `--version` before the terminator?
unfoldable pub version_requested : List Bytes → Bool
version_requested [] = false
version_requested (argument ∷ rest) =
    let later = version_requested rest in
    if bytes_eq argument terminator
    then false
    else if bytes_eq (split_long_flag argument).name (codes "--version")
    then true
    else later

pub record VersionRequest : Type 0 where
  pub requested : Bool
  pub failure_json : Bool
  -- whether to answer in JSON, or why not at all; read only if `requested`
  pub outcome : Result FailureKind Bool

unfoldable pub parse_version_request : List Bytes → VersionRequest
unfolding version_requested version_from
parse_version_request args = record {
  requested = version_requested args;
  failure_json = preparse_json args;
  outcome = elim (version_from args nothing_seen) [ err e ↦ err e | ok seen ↦ ok seen.json ];
}
