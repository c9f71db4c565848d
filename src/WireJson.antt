-- ===== src/WireJson.antt =====
-- internal/wirejson/object.go: `DecodeObjectOrJSONP`, the JSON and JSONP envelopes. The text of a
-- JSON value is read by package encoding/json, which the model takes as a parameter `parse_json`.
pub mod Distinct
pub mod Envelope
pub mod Tests
use ipgw_meta.Prelude.{
  ℕ, Bool, true, false, not, ◌&&◌, ◌||◌, Option, none, some, List, [], ◌∷◌, ◌++◌, map, all, any,
  leb, ◌==◌, if◌then◌else◌,
}
use ipgw_meta.Text.{Bytes, bytes_eq, cut, trim_space}

-- A JSON value as it is written: the fields in their order, duplicates included; a number is its
-- text, a string is unescaped.
mutual
  pub data Json : Type 0 where
    null : Json
    boolean : Bool → Json
    number : Bytes → Json
    text : Bytes → Json
    array : Elems → Json
    object : Fields → Json

  pub data Elems : Type 0 where
    no_elems : Elems
    elem : Json → Elems → Elems

  pub data Fields : Type 0 where
    no_fields : Fields
    field : Bytes → Json → Fields → Fields

abbrev pub Object : Type 0
Object = Fields

abbrev pub seen_before : Bytes → List Bytes → Bool
seen_before name seen = any (bytes_eq name) seen

-- `validateValue`: no object in the value has a field twice.
unfoldable mutual
  pub validate_value : Json → Bool
  validate_value null = true
  validate_value (boolean b) = true
  validate_value (number n) = true
  validate_value (text s) = true
  validate_value (array es) = validate_elems es
  validate_value (object fs) = validate_fields [] fs

  pub validate_elems : Elems → Bool
  validate_elems no_elems = true
  validate_elems (elem j es) = validate_value j && validate_elems es

  pub validate_fields : List Bytes → Fields → Bool
  validate_fields seen no_fields = true
  validate_fields seen (field name j fs) =
      not (seen_before name seen) && validate_value j && validate_fields (name ∷ seen) fs

-- `validateObject`, of a payload whose text is one JSON value.
unfoldable pub validate_object : Json → Option Object
validate_object (object fs) = if validate_value (object fs) then some fs else none
validate_object null = none
validate_object (boolean b) = none
validate_object (number n) = none
validate_object (text s) = none
validate_object (array es) = none

unfoldable pub callback_initial : ℕ → Bool
callback_initial c =
    (c == b'_') || (c == b'$') || (leb b'a' c && leb c b'z') || (leb b'A' c && leb c b'Z')

unfoldable pub valid_callback : Bytes → Bool
unfolding callback_initial
valid_callback [] = false
valid_callback (c ∷ s) =
    callback_initial c && all (λ d. callback_initial d || (leb b'0' d && leb d b'9')) s

-- A text without its last byte, and that byte.
unfoldable pub cut_last : Bytes → Option (Bytes × ℕ)
cut_last [] = none
cut_last (c ∷ s) = elim (cut_last s) [ none ↦ some ([], c) | some (a, d) ↦ some (c ∷ a, d) ]

-- The text without its one trailing semicolon; `none` where another one stands before it.
without_semicolon_of : Bytes → Option (Bytes × ℕ) → Option Bytes
without_semicolon_of s none = none
without_semicolon_of s (some (front, d)) =
    if d == b';'
    then elim (cut_last (trim_space front)) [
      | none ↦ none
      | some (a, e) ↦ if e == b';' then none else some (trim_space front)
    ]
    else some s

unfoldable pub without_semicolon : Bytes → Option Bytes
unfolding without_semicolon_of
without_semicolon s = without_semicolon_of s (cut_last s)

unfoldable pub bare_object : Bytes → Option Bytes
bare_object [] = none
bare_object (c ∷ s) = if c == b'{' then some (c ∷ s) else none

-- What stands behind the first opening parenthesis ends with the closing one.
jsonp_arguments : Option (Bytes × ℕ) → Option Bytes
jsonp_arguments none = none
jsonp_arguments (some (inner, d)) = if d == b')' then bare_object (trim_space inner) else none

jsonp_of : Option (Bytes × Bytes) → Option Bytes
jsonp_of none = none
jsonp_of (some ([], rest)) = none
jsonp_of (some (c ∷ callback, rest)) =
    if valid_callback (trim_space (c ∷ callback)) then jsonp_arguments (cut_last rest) else none

unfoldable pub jsonp_payload : Bytes → Option Bytes
unfolding jsonp_of jsonp_arguments
jsonp_payload s = jsonp_of (cut b'(' s)

payload_of : Bytes → Option Bytes
payload_of [] = none
payload_of (c ∷ s) =
    if c == b'{'
    then some (c ∷ s)
    else elim (without_semicolon (c ∷ s)) [ none ↦ none | some call ↦ jsonp_payload call ]

-- `objectPayload`
unfoldable pub object_payload : Bytes → Option Bytes
unfolding payload_of
object_payload s = payload_of (trim_space s)

-- `Object.Raw`
unfoldable pub raw : Bytes → Object → Option Json
raw name no_fields = none
raw name (field key j fs) = if bytes_eq name key then some j else raw name fs

-- `DecodeObjectOrJSONP`
module _ (parse_json : Bytes → Option Json) where
  decode_payload : Option Bytes → Option Object
  decode_payload none = none
  decode_payload (some payload) = elim (parse_json payload) [
    | none ↦ none
    | some j ↦ validate_object j
  ]

  unfoldable pub decode_object : Bytes → Option Object
  unfolding decode_payload
  decode_object s = decode_payload (object_payload s)
