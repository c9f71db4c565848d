-- ===== src/App/Tests.antt =====
-- The selection of a profile, at concrete configurations.
use ipgw_meta.Prelude.{refl, ◌≡◌, [], ◌∷◌}
use ipgw_meta.Prelude.Results.{ok, err}
use ipgw_meta.Text.{Bytes, codes, bytes_eq}
use ipgw_meta.Config.{Config, Profile, find_profile}
use ipgw_meta.App.{ambiguous, matches, only_match, default_match, resolve_profile}
use ipgw_meta.App.Laws.{Selected, resolve_profile-Selected}

abbrev profile_of : Bytes → Profile
profile_of user = record {
  username = user;
  credential = record { provider = codes "prompt"; reference = [] };
  bind_ip = [];
  switch = [];
}

abbrev home : Config
home = record {
  schema_version = 1;
  default_profile = codes "a";
  profiles = (codes "a", profile_of (codes "u")) ∷ (codes "b", profile_of (codes "v")) ∷ [];
}

abbrev crowded : Config
crowded = record {
  schema_version = 1;
  default_profile = [];
  profiles = (codes "a", profile_of (codes "v")) ∷ (codes "b", profile_of (codes "v")) ∷ [];
}

run_select : resolve_profile home [] (codes "v") ≡ ok (profile_of (codes "v"), codes "b")
unfolding resolve_profile find_profile bytes_eq matches only_match default_match
run_select = refl

run_ambiguous : resolve_profile crowded [] (codes "v") ≡ err ambiguous
unfolding resolve_profile find_profile bytes_eq matches only_match default_match
run_ambiguous = refl

resolve_profile-Selected_example : Selected home [] (codes "v") (profile_of (codes "v")) (codes "b")
resolve_profile-Selected_example =
    resolve_profile-Selected home [] (codes "v") (codes "b") (profile_of (codes "v")) run_select
