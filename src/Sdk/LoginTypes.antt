-- ===== src/Sdk/LoginTypes.antt =====
-- types.go and the head of `Login` in auth.go: a login request and its defaults.
use ipgw_meta.Prelude.{String, Bool, ◌||◌, str_eq, if◌then◌else◌}
use ipgw_meta.Text.{Bytes, trim_space}
use ipgw_meta.Sdk.Session.{Status}

-- `LoginRequest`: the two booleans say whether the caller gave a provider.
pub record LoginRequest : Type 0 where
  pub method : String
  pub expected_username : Bytes
  pub has_credentials : Bool
  pub switch : String
  pub has_interactions : Bool

pub data LoginOutcome : Type 0 where
  now_logged_in already_online : LoginOutcome

pub record LoginResult : Type 0 where
  pub outcome : LoginOutcome
  pub status : Status

abbrev pub default_to : String → String → String
default_to default value = if str_eq value "" then default else value

-- The request after the defaults have been filled in.
unfoldable pub prepare : LoginRequest → LoginRequest
prepare r = record r {
  method = default_to "password" r.method;
  expected_username = trim_space r.expected_username;
  switch = default_to "refuse" r.switch;
}

abbrev pub is_method : String → Bool
is_method m = str_eq m "password" || str_eq m "terminal_qr"

abbrev pub is_switch : String → Bool
is_switch s = str_eq s "refuse" || str_eq s "logout_existing"
