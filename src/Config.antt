-- ===== src/Config.antt =====
-- internal/config/types.go: profiles and their validation. A map is its list of entries; what an
-- error says beyond its kind is not modelled.
pub mod Laws
pub mod Tests
use ipgw_meta.Prelude.{
  ℕ, Bool, true, false, not, ◌&&◌, ◌||◌, Option, none, some, List, [], ◌∷◌, ltb, leb, length, all,
  ◌==◌, if◌then◌else◌,
}
use ipgw_meta.Prelude.Results.{Result, ok, err}
use ipgw_meta.Text.{Bytes, codes, bytes_eq, trim_space}

pub record CredentialRef : Type 0 where
  pub provider : Bytes
  pub reference : Bytes

-- `network` is the `BindIP` of the source's `Network`.
pub record Profile : Type 0 where
  pub username : Bytes
  pub credential : CredentialRef
  pub bind_ip : Bytes
  pub switch : Bytes

pub record Config : Type 0 where
  pub schema_version : ℕ
  pub default_profile : Bytes
  pub profiles : List (Bytes × Profile)

pub data ConfigError : Type 0 where
  schema default_missing bad_name no_username spaced_username bad_reference bad_provider bad_switch
        bad_ip :
      ConfigError
  no_default no_profile : ConfigError

-- What `netip.ParseAddr` says of an address.
pub record Addr : Type 0 where
  pub is4 : Bool
  pub unspecified : Bool
  pub multicast : Bool

is_letter : ℕ → Bool
is_letter c = (leb b'A' c && leb c b'Z') || (leb b'a' c && leb c b'z')

is_digit : ℕ → Bool
is_digit c = leb b'0' c && leb c b'9'

-- `profileNamePattern`
unfoldable pub is_profile_name : Bytes → Bool
unfolding is_letter is_digit
is_profile_name [] = false
is_profile_name (c ∷ s) =
    (is_letter c || is_digit c)
    && leb (length s) 63
    && all (λ d. is_letter d || is_digit d || (d == b'.') || (d == b'_') || (d == b'-')) s

-- `envNamePattern`
unfoldable pub is_env_name : Bytes → Bool
unfolding is_letter is_digit
is_env_name [] = false
is_env_name (c ∷ s) =
    (is_letter c || (c == b'_')) && all (λ d. is_letter d || is_digit d || (d == b'_')) s

-- `CredentialRef.Validate`
unfoldable pub validate_ref : CredentialRef → Option ConfigError
validate_ref r =
    if bytes_eq r.provider (codes "env")
    then (if is_env_name r.reference then none else some bad_reference)
    else if bytes_eq r.provider (codes "file") || bytes_eq r.provider (codes "keyring")
    then (if bytes_eq (trim_space r.reference) [] then some bad_reference else none)
    else if bytes_eq r.provider (codes "prompt")
    then (if bytes_eq r.reference [] then none else some bad_reference)
    else some bad_provider

-- `Config.Profiles[name]`
unfoldable pub lookup : Bytes → List (Bytes × Profile) → Option Profile
lookup name [] = none
lookup name ((k, p) ∷ ps) = if bytes_eq k name then some p else lookup name ps

-- The profile of a name that is not empty.
unfoldable pub find_named : Config → Bytes → Result ConfigError (Profile × Bytes)
unfolding lookup
find_named cfg name =
    if bytes_eq name []
    then err no_default
    else elim (lookup name cfg.profiles) [ none ↦ err no_profile | some p ↦ ok (p, name) ]

-- `Config.Profile`
unfoldable pub find_profile : Config → Bytes → Result ConfigError (Profile × Bytes)
unfolding find_named
find_profile cfg name = find_named cfg (if bytes_eq name [] then cfg.default_profile else name)

unfoldable pub has_default : Config → Bool
has_default cfg = elim (lookup cfg.default_profile cfg.profiles) [ none ↦ false | some _ ↦ true ]

module _ (parse_addr : Bytes → Option Addr) where
  unfoldable pub usable_ip : Bytes → Bool
  usable_ip ip = elim (parse_addr ip) [
    | none ↦ false
    | some a ↦ a.is4 && not a.unspecified && not a.multicast
  ]

  -- The checks after those of the username.
  unfoldable pub validate_rest : Profile → Option ConfigError → Option ConfigError
  unfolding usable_ip
  validate_rest p (some e) = some e
  validate_rest p none =
      if not (bytes_eq p.switch [])
        && not (bytes_eq p.switch (codes "refuse"))
        && not (bytes_eq p.switch (codes "logout-current"))
      then some bad_switch
      else if not (bytes_eq p.bind_ip []) && not (usable_ip p.bind_ip)
      then some bad_ip
      else none

  -- `Profile.Validate`
  unfoldable pub validate_profile : Profile → Option ConfigError
  unfolding validate_rest
  validate_profile p =
      if bytes_eq p.username []
      then some no_username
      else if not (bytes_eq (trim_space p.username) p.username)
      then some spaced_username
      else validate_rest p (validate_ref p.credential)

  -- The loop of `Config.Validate`, in the order of the list.
  unfoldable pub validate_profiles : List (Bytes × Profile) → Option ConfigError
  validate_profiles [] = none
  validate_profiles ((name, p) ∷ ps) =
      let rest = validate_profiles ps in
      if not (is_profile_name name)
      then some bad_name
      else elim (validate_profile p) [ some e ↦ some e | none ↦ rest ]

  -- `Config.Validate`
  unfoldable pub validate : Config → Option ConfigError
  unfolding validate_profiles has_default
  validate cfg =
      if not (cfg.schema_version == 1)
      then some schema
      else if not (bytes_eq cfg.default_profile []) && not (has_default cfg)
      then some default_missing
      else validate_profiles cfg.profiles
