-- ===== src/App/Laws.antt =====
-- The profile that a login is for is one of the configuration, and is not guessed.
use ipgw_meta.Prelude.{
  arith, ℕ, suc, ◌≡◌, refl, ◌⊎◌, inl, inr, Bool, true, false, Option, none, some, List, [], ◌∷◌,
  length, Bool-cases, if◌then◌else◌, sym, ap, ◌∙◌,
}
use ipgw_meta.Prelude.Results.{Result, ok, err}
use ipgw_meta.Text.{Bytes, bytes_eq}
use ipgw_meta.Text.Laws.{bytes_eq→eq}
use ipgw_meta.Config.{Config, Profile, ConfigError, no_profile, lookup, find_named, find_profile}
use ipgw_meta.App.{
  TargetError, matches, only_match, explicit_match, default_match, from_config, resolve_profile,
}

abbrev pub IsEntry : Bytes → Profile → List (Bytes × Profile) → Type 0
IsEntry name p [] = ⊥
IsEntry name p ((k, q) ∷ ps) = ((k ≡ name) × (q ≡ p)) ⊎ IsEntry name p ps

-- How many profiles have the username.
abbrev pub count_user : Bytes → List (Bytes × Profile) → ℕ
count_user user [] = 0
count_user user ((k, q) ∷ ps) =
    let rest = count_user user ps in if bytes_eq q.username user then suc rest else rest

length-matches :
    (user : Bytes) (ps : List (Bytes × Profile)) → length (matches user ps) ≡ count_user user ps
unfolding matches
length-matches user [] = refl
length-matches user ((k, q) ∷ ps) = ground (arith, length-matches user ps)

lookup-IsEntry :
    (name : Bytes) (ps : List (Bytes × Profile)) (p : Profile)
    → lookup name ps ≡ some p
    → IsEntry name p ps
unfolding lookup
lookup-IsEntry name [] p h = absurd (cc)
lookup-IsEntry name ((k, q) ∷ ps) p h = elim (Bool-cases (bytes_eq k name)) [
  | inl e ↦ inl (bytes_eq→eq k name e, ground arith)
  | inr e ↦ inr (lookup-IsEntry name ps p (ground arith))
]

matches-IsEntry :
    (user name : Bytes) (ps : List (Bytes × Profile)) (p : Profile)
    → IsEntry name p (matches user ps)
    → IsEntry name p ps × (p.username ≡ user)
unfolding matches
matches-IsEntry user name [] p h = absurd h
matches-IsEntry user name ((k, q) ∷ ps) p h = elim (Bool-cases (bytes_eq q.username user)) [
  | inl e ↦ at_head (bytes_eq→eq q.username user e) (matches-IsEntry user name ps p) (rw e at h)
  | inr e ↦ let (i, u) = matches-IsEntry user name ps p (rw e at h) in (inr i, u)
]
  where
    at_head :
        q.username ≡ user
        → (IsEntry name p (matches user ps) → IsEntry name p ps × (p.username ≡ user))
        → ((k ≡ name) × (q ≡ p)) ⊎ IsEntry name p (matches user ps)
        → IsEntry name p ((k, q) ∷ ps) × (p.username ≡ user)
    at_head e deeper (inl x) = (inl x, cc)
    at_head e deeper (inr i) = let (j, u) = deeper i in (inr j, u)

-- What a selected profile is: an entry of the configuration with the username that was asked for;
-- and unless it was named or is the default one, the only entry with that username.
pub record Selected (cfg : Config) (explicit user : Bytes) (p : Profile) (name : Bytes)
    : Type 0 where
  pub entry : IsEntry name p cfg.profiles
  pub username : (user ≡ []) ⊎ (p.username ≡ user)
  pub unique :
      (name ≡ explicit) ⊎ ((name ≡ cfg.default_profile) ⊎ (count_user user cfg.profiles ≡ 1))

found_as :
    (cfg : Config) (asked name : Bytes) (p : Profile) (o : Option Profile)
    → lookup asked cfg.profiles ≡ o
    → ◌≡◌ {A = Result ConfigError (Profile × Bytes)}
        (elim o [ none ↦ err no_profile | some q ↦ ok (q, asked) ])
        (ok (p, name))
    → IsEntry name p cfg.profiles × (name ≡ asked)
found_as cfg asked name p none e h = absurd (cc)
found_as cfg asked name p (some q) e h =
    let same : (q ≡ p) × (asked ≡ name) = ground arith in
    (rw (← same.1) (lookup-IsEntry asked cfg.profiles p (e ∙ ap some same.0)), sym same.1)

find_named-eq-ok :
    (cfg : Config) (asked name : Bytes) (p : Profile)
    → find_named cfg asked ≡ ok (p, name)
    → IsEntry name p cfg.profiles × (name ≡ asked)
unfolding find_named
find_named-eq-ok cfg asked name p h = elim (Bool-cases (bytes_eq asked [])) [
  | inl e ↦ absurd (let h' = rw e at h in cc h')
  | inr e ↦ found_as cfg asked name p _ refl (rw e at h)
]

either : (b : Bool) (x y z : Bytes) → z ≡ (if b then x else y) → (z ≡ y) ⊎ (z ≡ x)
either true x y z h = inr h
either false x y z h = inl h

find_profile-eq-ok :
    (cfg : Config) (asked name : Bytes) (p : Profile)
    → find_profile cfg asked ≡ ok (p, name)
    → IsEntry name p cfg.profiles × ((name ≡ asked) ⊎ (name ≡ cfg.default_profile))
unfolding find_profile
find_profile-eq-ok cfg asked name p h =
    let (i, n) = find_named-eq-ok cfg _ name p h in
    (i, either (bytes_eq asked []) cfg.default_profile asked name n)

only_match-eq-ok :
    (es : List (Bytes × Profile)) (name : Bytes) (p : Profile)
    → only_match es ≡ ok (p, name)
    → IsEntry name p es × (length es ≡ 1)
unfolding only_match
only_match-eq-ok [] name p h = absurd (cc)
only_match-eq-ok ((k, q) ∷ []) name p h = (inl (ground arith), refl)
only_match-eq-ok (_ ∷ _ ∷ _) name p h = absurd (cc)

only_match-Selected :
    (cfg : Config) (explicit user name : Bytes) (p : Profile)
    → only_match (matches user cfg.profiles) ≡ ok (p, name)
    → Selected cfg explicit user p name
only_match-Selected cfg explicit user name p h =
    let (i, l) = only_match-eq-ok (matches user cfg.profiles) name p h in
    let (j, u) = matches-IsEntry user name cfg.profiles p i in
    record {
      entry = j;
      username = inr u;
      unique = inr (inr (sym (length-matches user cfg.profiles) ∙ l));
    }

explicit_match-Selected :
    (cfg : Config) (explicit user name : Bytes) (p : Profile)
    (r : Result ConfigError (Profile × Bytes))
    → find_profile cfg explicit ≡ r
    → explicit_match user r ≡ ok (p, name)
    → Selected cfg explicit user p name
unfolding explicit_match
explicit_match-Selected cfg explicit user name p (err e) x h = absurd (cc)
explicit_match-Selected cfg explicit user name p (ok (q, n)) x h =
    let (i, u) = find_profile-eq-ok cfg explicit n q x in
    let same : (q ≡ p) × (n ≡ name) × ((user ≡ []) ⊎ (p.username ≡ user)) =
      ground (arith, bytes_eq→eq user [], bytes_eq→eq q.username user) in
    record {
      entry = rw (← same.1, ← same.0) i;
      username = same.2;
      unique = rw (← same.1) (by_name u);
    }
  where
    by_name :
        (n ≡ explicit) ⊎ (n ≡ cfg.default_profile)
        → (n ≡ explicit) ⊎ ((n ≡ cfg.default_profile) ⊎ (count_user user cfg.profiles ≡ 1))
    by_name (inl a) = inl a
    by_name (inr a) = inr (inl a)

default_match-Selected :
    (cfg : Config) (user name : Bytes) (p : Profile) (r : Result ConfigError (Profile × Bytes))
    → find_profile cfg cfg.default_profile ≡ r
    → default_match cfg user r ≡ ok (p, name)
    → Selected cfg [] user p name
unfolding default_match
default_match-Selected cfg user name p (err e) x h = absurd (cc)
default_match-Selected cfg user name p (ok (q, n)) x h =
    elim (Bool-cases (bytes_eq q.username user)) [
      | inl e ↦
          by_default (find_profile-eq-ok cfg cfg.default_profile n q x)
            (bytes_eq→eq q.username user e) (rw e at h)
      | inr e ↦ only_match-Selected cfg [] user name p (rw e at h)
    ]
  where
    by_default :
        IsEntry n q cfg.profiles × ((n ≡ cfg.default_profile) ⊎ (n ≡ cfg.default_profile))
        → q.username ≡ user
        → ◌≡◌ {A = Result TargetError (Profile × Bytes)} (ok (q, n)) (ok (p, name))
        → Selected cfg [] user p name
    by_default (i, d) u k =
        let same : (q ≡ p) × (n ≡ name) = ground arith in
        record {
          entry = rw (← same.1, ← same.0) i;
          username = inr (ap (λ x. x.username) (sym same.0) ∙ u);
          unique = inr (inl (sym same.1 ∙ elim d [ inl y ↦ y | inr y ↦ y ]));
        }

from_config-Selected :
    (cfg : Config) (name : Bytes) (p : Profile) (r : Result ConfigError (Profile × Bytes))
    → find_profile cfg [] ≡ r
    → from_config r ≡ ok (p, name)
    → Selected cfg [] [] p name
unfolding from_config
from_config-Selected cfg name p (err e) x h = absurd (cc)
from_config-Selected cfg name p (ok (q, n)) x h =
    let same : (q ≡ p) × (n ≡ name) = ground arith in
    let (i, u) = find_profile-eq-ok cfg [] n q x in
    record {
      entry = rw (← same.1, ← same.0) i;
      username = inl refl;
      unique = elim u [ inl y ↦ inl (sym same.1 ∙ y) | inr y ↦ inr (inl (sym same.1 ∙ y)) ];
    }

-- A profile that is selected is an entry of the configuration under the returned name, and has the
-- username if one was asked for. Unless it was named explicitly or is the default profile, no other
-- profile has that username.
pub resolve_profile-Selected :
    (cfg : Config) (explicit user name : Bytes) (p : Profile)
    → resolve_profile cfg explicit user ≡ ok (p, name)
    → Selected cfg explicit user p name
unfolding resolve_profile
resolve_profile-Selected cfg explicit user name p h = elim (Bool-cases (bytes_eq explicit [])) [
  | inr e ↦ explicit_match-Selected cfg explicit user name p _ refl (rw e at h)
  | inl e ↦ rw (bytes_eq→eq explicit [] e) (elim (Bool-cases (bytes_eq user [])) [
    | inl u ↦ rw (bytes_eq→eq user [] u) (from_config-Selected cfg name p _ refl (rw (e, u) at h))
    | inr u ↦ elim (Bool-cases (bytes_eq cfg.default_profile [])) [
      | inl d ↦ only_match-Selected cfg [] user name p (rw (e, u, d) at h)
      | inr d ↦ default_match-Selected cfg user name p _ refl (rw (e, u, d) at h)
    ]
  ])
]
