-- ===== src/Launcher/Mode.antt =====
-- launcher.go: modes, the `--mode` flag, and the JSON switch that is read before parsing.
pub mod Laws
pub mod Settled
use ipgw_meta.Prelude.{
  Bool, true, false, ◌||◌, Option, none, some, List, [], ◌∷◌, ◌++◌, if◌then◌else◌,
}
use ipgw_meta.Prelude.Results.{Result, ok, err}
use ipgw_meta.Text.{Bytes, codes, bytes_eq, has_prefix, strip_prefix, to_lower, trim_space}

pub data Mode : Type 0 where
  meta legacy : Mode

pub data FailureKind : Type 0 where
  invalid_arguments configuration startup : FailureKind

unfoldable pub parse_mode : Bytes → Option Mode
parse_mode raw =
    let name = to_lower (trim_space raw) in
    if bytes_eq name (codes "meta")
    then some meta
    else if bytes_eq name (codes "legacy")
    then some legacy
    else none

abbrev pub terminator : Bytes
terminator = codes "--"

abbrev pub mode_flag : Bytes
mode_flag = codes "--mode"

abbrev pub mode_assign : Bytes
mode_assign = codes "--mode="

-- `mode, valid := parseMode(raw); if !valid || found { fail }`
unfoldable pub select : Option Mode → Bytes → Result FailureKind (Option Mode)
select (some _) raw = err invalid_arguments
select none raw = elim (parse_mode raw) [
  | none ↦ err invalid_arguments
  | some mode ↦ ok (some mode)
]

-- The loop of `extractMode`, with `remaining` and the mode selected so far.
unfoldable pub extract_from :
    List Bytes → List Bytes → Option Mode → Result FailureKind (Option Mode × List Bytes)
extract_from [] remaining selected = ok (selected, remaining)
extract_from (argument ∷ []) remaining selected =
    if bytes_eq argument terminator
    then ok (selected, remaining ++ (argument ∷ []))
    else if bytes_eq argument mode_flag
    then err invalid_arguments
    else elim (strip_prefix argument mode_assign) [
      | none ↦ ok (selected, remaining ++ (argument ∷ []))
      | some raw ↦ elim (select selected raw) [ err e ↦ err e | ok chosen ↦ ok (chosen, remaining) ]
    ]
extract_from (argument ∷ next ∷ rest) remaining selected =
    let separate : Result FailureKind (Option Mode × List Bytes) =
      if has_prefix next terminator then err invalid_arguments else elim (select selected next) [
        | err e ↦ err e
        | ok chosen ↦ extract_from rest remaining chosen
      ] in
    let other : Result FailureKind (Option Mode × List Bytes) =
      elim (strip_prefix argument mode_assign) [
        | none ↦ extract_from (next ∷ rest) (remaining ++ (argument ∷ [])) selected
        | some raw ↦ elim (select selected raw) [
          | err e ↦ err e
          | ok chosen ↦ extract_from (next ∷ rest) remaining chosen
        ]
      ] in
    if bytes_eq argument terminator
    then ok (selected, remaining ++ (argument ∷ next ∷ rest))
    else if bytes_eq argument mode_flag
    then separate
    else other

unfoldable pub extract_mode : List Bytes → Result FailureKind (Option Mode × List Bytes)
unfolding extract_from
extract_mode args = extract_from args [] none

-- `preparseJSON`
unfoldable pub preparse_json : List Bytes → Bool
preparse_json [] = false
preparse_json (argument ∷ []) =
    if bytes_eq argument terminator
    then false
    else bytes_eq argument (codes "--json") || bytes_eq argument (codes "--output=json")
preparse_json (argument ∷ next ∷ rest) =
    let later = preparse_json (next ∷ rest) in
    if bytes_eq argument terminator
    then false
    else if bytes_eq argument (codes "--json") || bytes_eq argument (codes "--output=json")
    then true
    else if bytes_eq argument (codes "--output")
    then (if bytes_eq next (codes "json") then true else later)
    else later
