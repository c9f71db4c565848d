-- ===== src/Srun/Tests.antt =====
-- The gateway's answers, read at small inputs.
use ipgw_meta.Prelude.{◌≡◌, ◌↔◌, ◌⊎◌, refl, true, none, some, Option}
use ipgw_meta.Prelude.Int.{pos, negsuc}
use ipgw_meta.Text.{Bytes, codes, bytes_eq, trim_space, trim_left, trim_right, cut, contains_any}
use ipgw_meta.Text.Decimal.{bounded, fits_int64, parse_int64, is_unsigned, digits_from, itoa}
use ipgw_meta.Sdk.Machine.{SrunStatus, offline, online}
use ipgw_meta.WireJson.{
  Json, number, text, object, Object, field, no_fields, raw, validate_value, validate_object,
  decode_object, object_payload, without_semicolon, cut_last, jsonp_payload, bare_object,
}
use ipgw_meta.Srun.Balance.{
  parse_balance, is_decimal, without_minus, has_minus, parse_parts, minor_of, two_digits,
  minor_digits, trim_zeros,
}
use ipgw_meta.Srun.Balance.Exact.{Reads, parse_balance_exact}
use ipgw_meta.Srun.Balance.RoundTrip.{show_balance, parse_balance-show_balance}
use ipgw_meta.Srun.Address.{
  Addr, parse_ipv4, show_addr, usable, octet, next_octet, parse_online_ipv4,
}
use ipgw_meta.Srun.Csv.{csv_record}
use ipgw_meta.Srun.Fields.{
  json_string, decimal_scalar, parse_username, valid_username, parse_non_negative,
  non_negative_field, balance_field, aliased, agreeing, raw_number, aliased_from,
}
use ipgw_meta.Srun.Status.{
  parse_status, parse_status_object, parse_status_csv, addr_field, offline_identity_present,
  summary_fields, summary_of, column, csv_summary,
}
use ipgw_meta.Srun.Status.Laws.{IsSound, parse_status-IsSound}
use ipgw_meta.Srun.Status.Evidence.{OnlineEvidence, parse_status_object-online}
use ipgw_meta.Srun.Status.Offline.{OfflineEvidence, parse_status-offline}
use ipgw_meta.Srun.Business.{activation_object, logout_object, required_integer, required_string}
use ipgw_meta.Srun.Business.Laws.{SaysSuccess, activation_object_iff, logout_object_iff}

debt : parse_balance (codes "-12.340") ≡ some (negsuc 1233)
unfolding parse_balance is_decimal without_minus has_minus parse_parts minor_of two_digits
    minor_digits trim_zeros parse_int64 bounded fits_int64 is_unsigned bytes_eq cut
debt = refl

too_fine : parse_balance (codes "0.001") ≡ none
unfolding parse_balance is_decimal without_minus has_minus parse_parts minor_of two_digits
    is_unsigned bytes_eq cut
too_fine = refl

parse_balance_exact_example : Reads (codes "-12.340") (negsuc 1233)
parse_balance_exact_example = parse_balance_exact (codes "-12.340") (negsuc 1233) debt

parse_balance-show_balance_example : parse_balance (show_balance true 1205) ≡ bounded true 1205
parse_balance-show_balance_example = parse_balance-show_balance true 1205

abbrev host : Addr
host = record { a = 10; b = 0; c = 8; d = 255 }

abbrev session : Object
session = field (codes "error") (text (codes "ok")) (
    field (codes "user_name") (text (codes "u1")) (
      field (codes "username") (text (codes "u1")) (
        field (codes "online_ip") (text (codes "10.0.8.255")) (
          field (codes "sum_bytes") (number (codes "7")) (
            field (codes "sum_seconds") (text (codes "8"))
              (field (codes "user_balance") (text (codes "-12.340")) no_fields))))))

abbrev session_status : SrunStatus
session_status =
    online (codes "u1") (codes "10.0.8.255")
      (some record { traffic_bytes = 7; duration_seconds = 8; balance_minor = some (negsuc 1233) })

session_read : parse_status_object session ≡ some session_status
unfolding parse_status_object offline_identity_present summary_fields aliased aliased_from raw
    bytes_eq json_string parse_username valid_username addr_field parse_online_ipv4 parse_ipv4
    next_octet cut octet is_unsigned usable non_negative_field decimal_scalar parse_non_negative
    show_addr has_minus is_decimal minor_digits minor_of parse_balance parse_parts trim_zeros
    two_digits without_minus agreeing balance_field raw_number summary_of bounded digits_from
    fits_int64 itoa parse_int64
session_read = refl

parse_status_object-online_example : OnlineEvidence session (codes "u1") (codes "10.0.8.255")
parse_status_object-online_example =
    parse_status_object-online session (codes "u1") (codes "10.0.8.255")
      (some record { traffic_bytes = 7; duration_seconds = 8; balance_minor = some (negsuc 1233) })
      session_read

-- One of the two user fields says something else.
conflict_refused :
    parse_status_object (
      field (codes "error") (text (codes "ok")) (
        field
          (codes "user_name")
          (text (codes "u1"))
          (field (codes "user") (text (codes "u2")) no_fields)))
    ≡ none
unfolding parse_status_object offline_identity_present summary_fields aliased aliased_from raw
    bytes_eq json_string parse_username valid_username addr_field parse_online_ipv4 parse_ipv4
    next_octet cut octet is_unsigned usable non_negative_field decimal_scalar parse_non_negative
    show_addr has_minus is_decimal minor_digits minor_of parse_balance parse_parts trim_zeros
    two_digits without_minus agreeing balance_field raw_number summary_of bounded digits_from
    fits_int64 itoa parse_int64
conflict_refused = refl

-- A decoder that knows one answer.
abbrev knows : Object → Bytes → Option Json
knows obj s = some (object obj)

abbrev no_json : Bytes → Option Json
no_json s = none

session_line :
    parse_status no_json (codes " u1,a,b,c,d,e,7,8,10.0.8.255 ")
    ≡ some (
        online
          (codes "u1")
          (codes "10.0.8.255")
          (some record { traffic_bytes = 7; duration_seconds = 8; balance_minor = none }))
unfolding parse_status decode_object object_payload without_semicolon cut_last jsonp_payload
    bare_object trim_space trim_left trim_right contains_any parse_status_csv csv_record column
    csv_summary parse_status_object offline_identity_present summary_fields aliased aliased_from raw
    bytes_eq json_string parse_username valid_username addr_field parse_online_ipv4 parse_ipv4
    next_octet cut octet is_unsigned usable non_negative_field decimal_scalar parse_non_negative
    show_addr has_minus is_decimal minor_digits minor_of parse_balance parse_parts trim_zeros
    two_digits without_minus agreeing balance_field raw_number summary_of bounded digits_from
    fits_int64 itoa parse_int64
session_line = refl

parse_status-IsSound_example : IsSound (
    online
      (codes "u1")
      (codes "10.0.8.255")
      (some record { traffic_bytes = 7; duration_seconds = 8; balance_minor = none }))
parse_status-IsSound_example =
    parse_status-IsSound no_json (codes " u1,a,b,c,d,e,7,8,10.0.8.255 ")
      (online (codes "u1") (codes "10.0.8.255")
        (some record { traffic_bytes = 7; duration_seconds = 8; balance_minor = none }))
      session_line

abbrev nobody : Object
nobody = field (codes "res") (text (codes "not_online_error")) no_fields

nobody_read : parse_status (knows nobody) (codes "{}") ≡ some offline
unfolding parse_status decode_object object_payload without_semicolon cut_last jsonp_payload
    bare_object trim_space trim_left trim_right validate_object validate_value parse_status_object
    offline_identity_present summary_fields aliased aliased_from raw bytes_eq json_string
    parse_username valid_username addr_field parse_online_ipv4 parse_ipv4 next_octet cut octet
    is_unsigned usable non_negative_field decimal_scalar parse_non_negative show_addr has_minus
    is_decimal minor_digits minor_of parse_balance parse_parts trim_zeros two_digits without_minus
    agreeing balance_field raw_number summary_of bounded digits_from fits_int64 itoa parse_int64
nobody_read = refl

parse_status-offline_example :
    (trim_space (codes "{}") ≡ codes "not_online_error")
    ⊎ ((obj : Object) × (decode_object (knows nobody) (codes "{}") ≡ some obj)
        × OfflineEvidence obj)
parse_status-offline_example = parse_status-offline (knows nobody) (codes "{}") nobody_read

abbrev accepted : Object
accepted =
    field (codes "code") (number (codes "0"))
      (field (codes "message") (text (codes "success")) no_fields)

activation_object_iff_example : (activation_object accepted ≡ some true) ↔ (
    (required_integer (codes "code") accepted ≡ some (pos 0))
    × (required_string (codes "message") accepted ≡ some (codes "success"))
    × SaysSuccess accepted)
activation_object_iff_example = activation_object_iff accepted

logout_object_iff_example :
    (logout_object accepted ≡ some true)
    ↔ ((required_integer (codes "ecode") accepted ≡ some (pos 0)) × SaysSuccess accepted)
logout_object_iff_example = logout_object_iff accepted
