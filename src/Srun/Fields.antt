-- ===== src/Srun/Fields.antt =====
-- internal/srun/status.go: the values of single fields, and a field that has several names. What
-- `json.Unmarshal` makes of a value is written out: `null` leaves the zero value as it is.
pub mod Laws
use ipgw_meta.Prelude.{
  ℕ, Bool, true, false, ◌&&◌, ◌||◌, ◌≤◌, Option, none, some, List, [], ◌∷◌, leb, ◌==◌, all, length,
  if◌then◌else◌,
}
use ipgw_meta.Text.{Bytes, bytes_eq}
use ipgw_meta.Text.Decimal.{is_unsigned, parse_uint64, parse_int64, itoa}
use ipgw_meta.Prelude.Int.{ℤ, pos, negsuc}
use ipgw_meta.WireJson.{Json, null, boolean, number, text, array, object, Object, raw}
use ipgw_meta.Srun.Balance.{parse_balance}

-- `parseJSONString`
unfoldable pub json_string : Json → Option Bytes
json_string null = some []
json_string (text s) = some s
json_string (boolean b) = none
json_string (number n) = none
json_string (array es) = none
json_string (object fs) = none

-- `rawNumber`, of a value that is no string.
unfoldable pub raw_number : Json → Option Bytes
raw_number null = some []
raw_number (number n) = some n
raw_number (text s) = none
raw_number (boolean b) = none
raw_number (array es) = none
raw_number (object fs) = none

unfoldable pub decimal_scalar : Json → Option Bytes
unfolding json_string raw_number
decimal_scalar j = elim (json_string j) [ some s ↦ some s | none ↦ raw_number j ]

normal_integer : Option Bytes → Option Bytes
normal_integer none = none
normal_integer (some n) =
    if is_unsigned n then elim (parse_uint64 n) [ none ↦ none | some k ↦ some (itoa k) ] else none

unfoldable pub parse_username : Json → Option Bytes
unfolding json_string raw_number normal_integer
parse_username j = elim (json_string j) [ some s ↦ some s | none ↦ normal_integer (raw_number j) ]

username_byte : ℕ → Bool
username_byte c =
    (leb b'a' c && leb c b'z')
    || (leb b'A' c && leb c b'Z')
    || (leb b'0' c && leb c b'9')
    || (c == b'.')
    || (c == b'_')
    || (c == b'@')
    || (c == b'-')

unfoldable pub valid_username : Bytes → Bool
unfolding username_byte
valid_username s = leb 1 (length s) && leb (length s) 128 && all username_byte s

size_of : ℤ → Option ℕ
size_of (pos n) = some n
size_of (negsuc n) = none

-- `parseNonNegativeIntegerText`
unfoldable pub parse_non_negative : Bytes → Option ℕ
unfolding size_of
parse_non_negative s =
    if is_unsigned s then elim (parse_int64 s) [ none ↦ none | some z ↦ size_of z ] else none

unfoldable pub non_negative_field : Json → Option ℕ
non_negative_field j = elim (decimal_scalar j) [ none ↦ none | some s ↦ parse_non_negative s ]

unfoldable pub balance_field : Json → Option ℤ
balance_field j = elim (decimal_scalar j) [ none ↦ none | some s ↦ parse_balance s ]

unfoldable pub agreeing : {T : Type 0} (same : T → T → Bool) → T → Option T → Option T
agreeing same v none = some v
agreeing same v (some r) = if same r v then some v else none

-- `aliased`: a field under several names, whose values have to agree. The outer `none` is the
-- error, the inner one a field that is absent.
module _ {T : Type 0} (same : T → T → Bool) (parse : Json → Option T) (obj : Object) where
  -- One name: `result` is what the names before it have given.
  alias_step : Option T → Option Json → Option (Option T)
  unfolding agreeing
  alias_step result none = some result
  alias_step result (some j) = elim (parse j) [
    | none ↦ none
    | some v ↦ elim (agreeing same v result) [ none ↦ none | some r ↦ some (some r) ]
  ]

  unfoldable pub aliased_from : Option T → List Bytes → Option (Option T)
  unfolding alias_step
  aliased_from result [] = some result
  aliased_from result (name ∷ names) = elim (alias_step result (raw name obj)) [
    | none ↦ none
    | some r ↦ aliased_from r names
  ]

  unfoldable pub aliased : List Bytes → Option (Option T)
  unfolding aliased_from
  aliased names = aliased_from none names
