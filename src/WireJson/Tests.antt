-- ===== src/WireJson/Tests.antt =====
-- The theorems on JSON envelopes at small inputs.
use ipgw_meta.Prelude.{◌≡◌, ◌↔◌, inr, refl, true, false, none, some}
use ipgw_meta.Text.{Bytes, codes, bytes_eq, cut, trim_space, trim_left, trim_right}
use ipgw_meta.WireJson.{
  Json, number, object, field, no_fields, validate_value, valid_callback, bare_object,
  object_payload, without_semicolon, jsonp_payload, cut_last,
}
use ipgw_meta.WireJson.Distinct.{Distinct, validate_value_iff}
use ipgw_meta.WireJson.Envelope.{
  call_text, IsBare, object_payload-call_text, object_payload-two_semicolons,
}

abbrev twice : Json
twice =
    object
      (field (codes "a") (number (codes "1")) (field (codes "a") (number (codes "1")) no_fields))

validate_value_iff_example : (validate_value twice ≡ true) ↔ Distinct twice
validate_value_iff_example = validate_value_iff twice

twice_refused : validate_value twice ≡ false
unfolding validate_value bytes_eq
twice_refused = refl

abbrev payload : Bytes
payload = codes "{1}"

payload-IsBare : IsBare payload
unfolding trim_space trim_left trim_right bare_object
payload-IsBare = (refl, refl)

callback-valid : valid_callback (codes "cb") ≡ true
unfolding valid_callback
callback-valid = refl

object_payload-call_text_example :
    object_payload (call_text (codes "cb") payload (codes ";")) ≡ object_payload payload
object_payload-call_text_example =
    object_payload-call_text (codes "cb") payload (codes ";") callback-valid payload-IsBare
      (inr refl)

object_payload-two_semicolons_example : object_payload (codes "cb({1}); ; ") ≡ none
object_payload-two_semicolons_example =
    object_payload-two_semicolons (codes "cb({1}); ; ") (codes "cb({1}); ") (codes "cb({1})")
      (unfold trim_space trim_left trim_right bare_object in refl)
      (unfold trim_space trim_left trim_right in refl)
      (unfold trim_space trim_left trim_right in refl)

spaced_call : object_payload (codes " cb ( {1} ) ; ") ≡ some payload
unfolding object_payload without_semicolon jsonp_payload trim_space trim_left trim_right cut_last
    cut bare_object valid_callback
spaced_call = refl
