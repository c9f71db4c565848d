-- ===== src/Srun/Business/Laws.antt =====
-- When an activation and a logout count as done.
use ipgw_meta.Prelude.{
  arith, ◌≡◌, ◌⊎◌, ◌↔◌, refl, ap, Bool, true, false, Option, none, some, inl, inr, ==_iff,
}
use ipgw_meta.Prelude.Int.{ℤ, pos, negsuc}
use ipgw_meta.Text.{Bytes, codes, bytes_eq}
use ipgw_meta.Text.Laws.{bytes_eq→eq}
use ipgw_meta.WireJson.{Json, null, boolean, number, text, array, object, Object, raw}
use ipgw_meta.Srun.Business.{
  required_integer, required_string, same_bool, stated_success, agrees, consistent_success, is_zero,
  stated_result, activation_of, activation_object, logout_of, logout_object,
}

-- The optional field `success` is absent, or says `true`.
abbrev pub SaysSuccess : Object → Type 0
SaysSuccess obj =
    (raw (codes "success") obj ≡ none) ⊎ (raw (codes "success") obj ≡ some (boolean true))

agrees-true : (o : Option Json) → agrees true o ≡ true → (o ≡ none) ⊎ (o ≡ some (boolean true))
unfolding agrees stated_success
agrees-true none h = inl refl
agrees-true (some null) h = absurd (cc)
agrees-true (some (boolean true)) h = inr refl
agrees-true (some (boolean false)) h = absurd (cc)
agrees-true (some (number n)) h = absurd (cc)
agrees-true (some (text s)) h = absurd (cc)
agrees-true (some (array es)) h = absurd (cc)
agrees-true (some (object fs)) h = absurd (cc)

is_zero-eq : (z : ℤ) → is_zero z ≡ true → z ≡ pos 0
unfolding is_zero
is_zero-eq (pos n) h = ap pos ((==_iff n 0).0 h)
is_zero-eq (negsuc n) h = absurd (cc)

stated_result-eq :
    (obj : Object) (b c : Bool)
    → stated_result obj b ≡ some c
    → (b ≡ c) × (consistent_success obj b ≡ true)
unfolding stated_result
stated_result-eq obj b c h = ground arith

consistent-SaysSuccess : (obj : Object) → consistent_success obj true ≡ true → SaysSuccess obj
unfolding consistent_success
consistent-SaysSuccess obj h = agrees-true (raw (codes "success") obj) h

SaysSuccess-stated : (obj : Object) → SaysSuccess obj → stated_result obj true ≡ some true
unfolding stated_result consistent_success agrees stated_success
SaysSuccess-stated obj (inl e) = rw e refl
SaysSuccess-stated obj (inr e) = rw e refl

activation_of-true :
    (obj : Object) (code : Option ℤ) (message : Option Bytes)
    → activation_of obj code message ≡ some true
    → (code ≡ some (pos 0)) × (message ≡ some (codes "success")) × SaysSuccess obj
unfolding activation_of
activation_of-true obj none message h = absurd (cc)
activation_of-true obj (some z) none h = absurd (cc)
activation_of-true obj (some z) (some m) h =
    let tests : (stated_result obj (is_zero z) ≡ some true)
        × (same_bool (is_zero z) (bytes_eq m (codes "success")) ≡ true) =
      ground arith in
    let stated = stated_result-eq obj (is_zero z) true (tests.0) in
    let said : bytes_eq m (codes "success") ≡ true = rw (stated.0) at (tests.1) in
    (
      ap some (is_zero-eq z (stated.0)),
      ap some (bytes_eq→eq m (codes "success") said),
      consistent-SaysSuccess obj (rw (stated.0) at (stated.1)),
    )

-- An activation counts as done exactly if its code is the number zero, its message is `success`,
-- and its field `success` is absent or `true`.
pub activation_object_iff :
    (obj : Object)
    → (activation_object obj ≡ some true) ↔ (
        (required_integer (codes "code") obj ≡ some (pos 0))
        × (required_string (codes "message") obj ≡ some (codes "success"))
        × SaysSuccess obj)
unfolding activation_object
activation_object_iff obj = (
  activation_of-true obj (required_integer (codes "code") obj)
      (required_string (codes "message") obj),
  λ (code, message, said).
      rw (code, message) (unfold activation_of is_zero bytes_eq in SaysSuccess-stated obj said),
)

logout_of-true :
    (obj : Object) (code : Option ℤ)
    → logout_of obj code ≡ some true
    → (code ≡ some (pos 0)) × SaysSuccess obj
unfolding logout_of
logout_of-true obj none h = absurd (cc)
logout_of-true obj (some z) h =
    let stated = stated_result-eq obj (is_zero z) true h in
    (ap some (is_zero-eq z (stated.0)), consistent-SaysSuccess obj (rw (stated.0) at (stated.1)))

-- A logout counts as done exactly if its `ecode` is the number zero and its field `success` is
-- absent or `true`.
pub logout_object_iff :
    (obj : Object)
    → (logout_object obj ≡ some true)
      ↔ ((required_integer (codes "ecode") obj ≡ some (pos 0)) × SaysSuccess obj)
unfolding logout_object
logout_object_iff obj = (
  logout_of-true obj (required_integer (codes "ecode") obj),
  λ (code, said). rw code (unfold logout_of is_zero in SaysSuccess-stated obj said),
)
