-- ===== src/App.antt =====
-- internal/app/service.go: which profile a login is for.
pub mod Laws
pub mod Tests
use ipgw_meta.Prelude.{
  ℕ, Bool, true, false, not, ◌&&◌, ◌||◌, Option, none, some, List, [], ◌∷◌, if◌then◌else◌,
}
use ipgw_meta.Prelude.Results.{Result, ok, err}
use ipgw_meta.Text.{Bytes, codes, bytes_eq}
use ipgw_meta.Config.{Config, Profile, ConfigError, find_profile}

pub data TargetError : Type 0 where
  config_required no_match ambiguous other_username : TargetError
  profile_error : ConfigError → TargetError

-- `LoginOptions`, as far as the selection reads it; the booleans say whether the caller gave a
-- credential provider.
pub record LoginOptions : Type 0 where
  pub profile : Bytes
  pub expected_username : Bytes
  pub has_credentials : Bool

pub record Target : Type 0 where
  pub name : Bytes
  pub profile : Profile
  pub has_credentials : Bool

-- The entries whose profile has the username.
unfoldable pub matches : Bytes → List (Bytes × Profile) → List (Bytes × Profile)
matches user [] = []
matches user ((name, p) ∷ ps) =
    let rest = matches user ps in if bytes_eq p.username user then (name, p) ∷ rest else rest

unfoldable pub only_match : List (Bytes × Profile) → Result TargetError (Profile × Bytes)
only_match [] = err no_match
only_match ((name, p) ∷ []) = ok (p, name)
only_match (_ ∷ _ ∷ _) = err ambiguous

unfoldable pub explicit_match :
    Bytes → Result ConfigError (Profile × Bytes) → Result TargetError (Profile × Bytes)
explicit_match user (err e) = err (profile_error e)
explicit_match user (ok (p, name)) =
    if not (bytes_eq user []) && not (bytes_eq p.username user)
    then err other_username
    else ok (p, name)

-- The default profile if it has the username, and else the only other one that has it.
unfoldable pub default_match :
    Config → Bytes → Result ConfigError (Profile × Bytes) → Result TargetError (Profile × Bytes)
unfolding only_match matches
default_match cfg user (err e) = err (profile_error e)
default_match cfg user (ok (p, name)) =
    if bytes_eq p.username user then ok (p, name) else only_match (matches user cfg.profiles)

unfoldable pub from_config :
    Result ConfigError (Profile × Bytes) → Result TargetError (Profile × Bytes)
from_config (err e) = err (profile_error e)
from_config (ok found) = ok found

-- `resolveConfiguredLoginProfile`
unfoldable pub resolve_profile : Config → Bytes → Bytes → Result TargetError (Profile × Bytes)
unfolding explicit_match default_match from_config
resolve_profile cfg explicit user =
    if not (bytes_eq explicit [])
    then explicit_match user (find_profile cfg explicit)
    else if bytes_eq user []
    then from_config (find_profile cfg [])
    else if not (bytes_eq cfg.default_profile [])
    then default_match cfg user (find_profile cfg cfg.default_profile)
    else only_match (matches user cfg.profiles)

unfoldable pub login_requires_config : LoginOptions → Bool
login_requires_config o = not o.has_credentials || bytes_eq o.expected_username []

unfoldable pub in_config : LoginOptions → Option Config → Result TargetError Target
unfolding resolve_profile
in_config o none = err config_required
in_config o (some cfg) = elim (resolve_profile cfg o.profile o.expected_username) [
  | err e ↦ err e
  | ok (p, name) ↦ ok (record { name = name; profile = p; has_credentials = o.has_credentials })
]

-- `resolveLoginTarget`
unfoldable pub resolve_target : Option Config → LoginOptions → Result TargetError Target
unfolding in_config login_requires_config
resolve_target cfg o =
    if login_requires_config o
    then in_config o cfg
    else ok (record {
      name = [];
      profile = record {
        username = o.expected_username;
        credential = record { provider = []; reference = [] };
        bind_ip = [];
        switch = codes "refuse";
      };
      has_credentials = o.has_credentials;
    })
