-- ===== src/Config/Tests.antt =====
-- The validation of a concrete configuration.
use ipgw_meta.Prelude.{refl, ◌≡◌, ◌⊎◌, [], ◌∷◌, none, some, Option, true, false, All}
use ipgw_meta.Text.{Bytes, codes, bytes_eq, trim_space}
use ipgw_meta.Config.{
  Config, Profile, Addr, is_profile_name, is_env_name, validate_ref, lookup, usable_ip, has_default,
  validate_rest, validate_profile, validate,
}
use ipgw_meta.Config.Laws.{IsProfile, validate_sound}

abbrev loopback : Bytes → Option Addr
loopback ip = some (record { is4 = true; unspecified = false; multicast = false })

abbrev office : Profile
office = record {
  username = codes "u";
  credential = record { provider = codes "env"; reference = codes "IPGW_1" };
  bind_ip = codes "127.0.0.1";
  switch = codes "refuse";
}

abbrev sample : Config
sample = record {
  schema_version = 1;
  default_profile = codes "office-1";
  profiles = (codes "office-1", office) ∷ [];
}

run_validate : validate loopback sample ≡ none
unfolding validate has_default lookup bytes_eq is_profile_name validate_profile trim_space
    validate_ref is_env_name validate_rest usable_ip
run_validate = refl

validate_sound_example :
    (sample.schema_version ≡ 1)
    × ((sample.default_profile ≡ []) ⊎ (has_default sample ≡ true))
    × All (λ e. (is_profile_name e.0 ≡ true) × IsProfile loopback e.1) sample.profiles
validate_sound_example = validate_sound loopback sample run_validate
