-- ===== src/Srun/Business.antt =====
-- internal/srun/business.go: the results of an activation and of a logout. The outer `none` is
-- `ErrUnrecognized`.
pub mod Laws
use ipgw_meta.Prelude.{
  ℕ, Bool, true, false, not, ◌&&◌, ◌||◌, Option, none, some, List, [], ◌∷◌, leb, ◌==◌, all,
  if◌then◌else◌,
}
use ipgw_meta.Prelude.Int.{ℤ, pos, negsuc}
use ipgw_meta.Text.{Bytes, codes, bytes_eq}
use ipgw_meta.Text.Decimal.{is_digit, is_unsigned, parse_int64}
use ipgw_meta.WireJson.{
  Json, null, boolean, number, text, array, object, Object, raw, decode_object,
}
use ipgw_meta.Srun.Balance.{without_minus}
use ipgw_meta.Srun.Fields.{json_string}

-- `0|[1-9][0-9]*`
strict_digits : Bytes → Bool
strict_digits [] = false
strict_digits (c ∷ s) = if c == b'0' then bytes_eq s [] else all is_digit (c ∷ s)

-- `strictJSONInteger`
unfoldable pub strict_integer : Bytes → Bool
unfolding strict_digits without_minus
strict_integer s = strict_digits (without_minus s)

integer_of : Option Json → Option ℤ
integer_of none = none
integer_of (some null) = none
integer_of (some (boolean b)) = none
integer_of (some (number n)) = if strict_integer n then parse_int64 n else none
integer_of (some (text s)) = none
integer_of (some (array es)) = none
integer_of (some (object fs)) = none

unfoldable pub required_integer : Bytes → Object → Option ℤ
unfolding integer_of
required_integer name obj = integer_of (raw name obj)

unfoldable pub required_string : Bytes → Object → Option Bytes
required_string name obj = elim (raw name obj) [ none ↦ none | some j ↦ json_string j ]

abbrev same_bool : Bool → Bool → Bool
same_bool true b = b
same_bool false b = not b

-- What `json.Unmarshal` makes of a value for a Boolean.
stated_success : Json → Option Bool
stated_success null = some false
stated_success (boolean b) = some b
stated_success (number n) = none
stated_success (text s) = none
stated_success (array es) = none
stated_success (object fs) = none

agrees : Bool → Option Json → Bool
agrees expected none = true
agrees expected (some j) = elim (stated_success j) [
  | none ↦ false
  | some stated ↦ same_bool stated expected
]

-- `consistentOptionalSuccess`
unfoldable pub consistent_success : Object → Bool → Bool
unfolding agrees stated_success
consistent_success obj expected = agrees expected (raw (codes "success") obj)

unfoldable pub is_zero : ℤ → Bool
is_zero (pos n) = n == 0
is_zero (negsuc n) = false

stated_result : Object → Bool → Option Bool
stated_result obj success = if consistent_success obj success then some success else none

activation_of : Object → Option ℤ → Option Bytes → Option Bool
activation_of obj none message = none
activation_of obj (some code) none = none
activation_of obj (some code) (some message) =
    if same_bool (is_zero code) (bytes_eq message (codes "success"))
    then stated_result obj (is_zero code)
    else none

unfoldable pub activation_object : Object → Option Bool
unfolding activation_of stated_result
activation_object obj =
    activation_of obj (required_integer (codes "code") obj) (required_string (codes "message") obj)

logout_of : Object → Option ℤ → Option Bool
logout_of obj none = none
logout_of obj (some code) = stated_result obj (is_zero code)

unfoldable pub logout_object : Object → Option Bool
unfolding logout_of stated_result
logout_object obj = logout_of obj (required_integer (codes "ecode") obj)

-- `ParseActivationSuccess`
unfoldable pub parse_activation_success : (Bytes → Option Json) → Bytes → Option Bool
parse_activation_success parse_json s = elim (decode_object parse_json s) [
  | none ↦ none
  | some obj ↦ activation_object obj
]

-- `ParseLogoutSuccess`
unfoldable pub parse_logout_success : (Bytes → Option Json) → Bytes → Option Bool
parse_logout_success parse_json s = elim (decode_object parse_json s) [
  | none ↦ none
  | some obj ↦ logout_object obj
]
