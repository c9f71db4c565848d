-- ===== src/Config/Laws.antt =====
-- What a configuration that passes validation is.
use ipgw_meta.Prelude.{
  arith, ◌≡◌, ◌⊎◌, inl, inr, true, false, Option, none, some, List, [], ◌∷◌, All, Bool-cases,
  Option-cases,
}
use ipgw_meta.Text.{Bytes, codes, bytes_eq, trim_space}
use ipgw_meta.Text.Laws.{bytes_eq→eq}
use ipgw_meta.Config.{
  Config, Profile, CredentialRef, ConfigError, Addr, is_profile_name, is_env_name, validate_ref,
  usable_ip, validate_rest, validate_profile, validate_profiles, has_default, validate,
}

-- A reference says where a secret is, for a provider that is known.
abbrev pub IsRef : CredentialRef → Type 0
IsRef r =
    ((r.provider ≡ codes "env") × (is_env_name r.reference ≡ true))
    ⊎ ((((r.provider ≡ codes "file") ⊎ (r.provider ≡ codes "keyring"))
          × (bytes_eq (trim_space r.reference) [] ≡ false))
        ⊎ ((r.provider ≡ codes "prompt") × (r.reference ≡ [])))

validate_ref-IsRef : (r : CredentialRef) → validate_ref r ≡ none → IsRef r
unfolding validate_ref
validate_ref-IsRef r h = ground (
  arith,
  bytes_eq→eq r.provider (codes "env"),
  bytes_eq→eq r.provider (codes "file"),
  bytes_eq→eq r.provider (codes "keyring"),
  bytes_eq→eq r.provider (codes "prompt"),
  bytes_eq→eq r.reference [],
)

module _ (parse_addr : Bytes → Option Addr) where
  -- A profile has a trimmed username, a reference that fits its provider, one of the two policies
  -- or none, and a usable address or none.
  pub record IsProfile (p : Profile) : Type 0 where
    pub named : bytes_eq p.username [] ≡ false
    pub trimmed : trim_space p.username ≡ p.username
    pub credential : IsRef p.credential
    pub policy :
        (p.switch ≡ []) ⊎ ((p.switch ≡ codes "refuse") ⊎ (p.switch ≡ codes "logout-current"))
    pub ip : (p.bind_ip ≡ []) ⊎ (usable_ip parse_addr p.bind_ip ≡ true)

  validate_rest-eq-none :
      (p : Profile) (o : Option ConfigError)
      → validate_rest parse_addr p o ≡ none
      → (o ≡ none)
        × ((p.switch ≡ []) ⊎ ((p.switch ≡ codes "refuse") ⊎ (p.switch ≡ codes "logout-current")))
        × ((p.bind_ip ≡ []) ⊎ (usable_ip parse_addr p.bind_ip ≡ true))
  unfolding validate_rest
  validate_rest-eq-none p (some e) h = absurd (cc)
  validate_rest-eq-none p none h = ground (
    arith,
    bytes_eq→eq p.switch [],
    bytes_eq→eq p.switch (codes "refuse"),
    bytes_eq→eq p.switch (codes "logout-current"),
    bytes_eq→eq p.bind_ip [],
  )

  validate_profile-IsProfile : (p : Profile) → validate_profile parse_addr p ≡ none → IsProfile p
  unfolding validate_profile
  validate_profile-IsProfile p h = elim (Bool-cases (bytes_eq p.username [])) [
    | inl n ↦ absurd (let h' = rw n at h in cc h')
    | inr n ↦ elim (Bool-cases (bytes_eq (trim_space p.username) p.username)) [
      | inr t ↦ absurd (let h' = rw (n, t) at h in cc h')
      | inl t ↦
          let (r, s, i) = validate_rest-eq-none p (validate_ref p.credential) (rw (n, t) at h) in
          record {
            named = n;
            trimmed = bytes_eq→eq (trim_space p.username) p.username t;
            credential = validate_ref-IsRef p.credential r;
            policy = s;
            ip = i;
          }
    ]
  ]

  validate_profiles-All :
      (ps : List (Bytes × Profile))
      → validate_profiles parse_addr ps ≡ none
      → All (λ e. (is_profile_name e.0 ≡ true) × IsProfile e.1) ps
  unfolding validate_profiles
  validate_profiles-All [] h = tt
  validate_profiles-All ((name, p) ∷ ps) h = elim (Bool-cases (is_profile_name name)) [
    | inr n ↦ absurd (let h' = rw n at h in cc h')
    | inl n ↦ elim (Option-cases (validate_profile parse_addr p)) [
      | inr (e, x) ↦ absurd (let h' = rw (n, x) at h in cc h')
      | inl x ↦ ((n, validate_profile-IsProfile p x), validate_profiles-All ps (rw (n, x) at h))
    ]
  ]

  -- A configuration that passes validation has the schema version 1, a default profile that exists
  -- or none, and only profiles with a valid name, a trimmed username, a credential reference that
  -- fits its provider, a known switch policy and a usable address.
  pub validate_sound :
      (cfg : Config)
      → validate parse_addr cfg ≡ none
      → (cfg.schema_version ≡ 1)
        × ((cfg.default_profile ≡ []) ⊎ (has_default cfg ≡ true))
        × All (λ e. (is_profile_name e.0 ≡ true) × IsProfile e.1) cfg.profiles
  unfolding validate
  validate_sound cfg h =
      let split : (cfg.schema_version ≡ 1)
          × ((cfg.default_profile ≡ []) ⊎ (has_default cfg ≡ true))
          × (validate_profiles parse_addr cfg.profiles ≡ none) =
        ground (arith, bytes_eq→eq cfg.default_profile []) in
      (split.0, split.1, validate_profiles-All cfg.profiles split.2)
