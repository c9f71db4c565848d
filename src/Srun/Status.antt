-- ===== src/Srun/Status.antt =====
-- internal/srun/status.go: `ParseStatus`, the session that the gateway reports. `none` is
-- `ErrUnrecognized`.
pub mod Laws
pub mod Evidence
pub mod Offline
use ipgw_meta.Prelude.{
  ℕ, Bool, true, false, not, ◌&&◌, ◌||◌, Option, none, some, List, [], ◌∷◌, ltb, leb, ◌==◌, length,
  any, get_elem?, if◌then◌else◌,
}
use ipgw_meta.Prelude.Int.{ℤ, pos, negsuc}
use ipgw_meta.Text.{Bytes, codes, bytes_eq, contains_any, trim_space}
use ipgw_meta.Sdk.Machine.{SrunStatus, offline, online, Summary}
use ipgw_meta.WireJson.{Json, Object, raw, decode_object}
use ipgw_meta.Srun.Balance.{parse_balance}
use ipgw_meta.Srun.Fields.{
  json_string, parse_username, valid_username, parse_non_negative, non_negative_field,
  balance_field, aliased,
}
use ipgw_meta.Srun.Address.{Addr, parse_online_ipv4, show_addr}
use ipgw_meta.Srun.Csv.{csv_record}

abbrev pub username_names : List Bytes
username_names = codes "user_name" ∷ codes "username" ∷ codes "user" ∷ []

abbrev pub traffic_names : List Bytes
traffic_names = codes "sum_bytes" ∷ codes "used_bytes" ∷ codes "traffic" ∷ []

abbrev pub duration_names : List Bytes
duration_names = codes "sum_seconds" ∷ codes "used_seconds" ∷ codes "duration" ∷ []

abbrev pub balance_names : List Bytes
balance_names = codes "user_balance" ∷ codes "balance" ∷ []

abbrev pub marker_names : List Bytes
marker_names = codes "error" ∷ codes "error_code" ∷ codes "res" ∷ []

abbrev pub ip_names : List Bytes
ip_names = codes "online_ip" ∷ []

abbrev pub not_online : Bytes
not_online = codes "not_online_error"

abbrev pub same_int : ℤ → ℤ → Bool
same_int (pos m) (pos n) = m == n
same_int (pos m) (negsuc n) = false
same_int (negsuc m) (pos n) = false
same_int (negsuc m) (negsuc n) = m == n

abbrev pub same_addr : Addr → Addr → Bool
same_addr x y = (x.a == y.a) && (x.b == y.b) && (x.c == y.c) && (x.d == y.d)

-- An address field: `parseOnlineIPv4`.
unfoldable pub addr_field : Json → Option Addr
addr_field j = elim (json_string j) [ none ↦ none | some s ↦ parse_online_ipv4 s ]

is_there : Option Bytes → Bool
is_there none = false
is_there (some s) = not (bytes_eq s [])

field_present : Object → List Bytes → Bool
field_present obj names = any (λ name. elim (raw name obj) [ none ↦ false | some j ↦ true ]) names

-- `offlineIdentityPresent`; `none` is the error.
unfoldable pub offline_identity_present : Object → Option Bool
unfolding is_there field_present
offline_identity_present obj = elim (aliased bytes_eq parse_username obj username_names) [
  | none ↦ none
  | some user ↦
      if is_there user then some true else elim (aliased bytes_eq json_string obj ip_names) [
        | none ↦ none
        | some ip ↦
            if is_there ip
            then some true
            else some (
                field_present obj traffic_names
                || field_present obj duration_names
                || field_present obj balance_names)
      ]
]

-- The three optional numbers, of which the balance needs the others.
unfoldable pub summary_of : Option ℕ → Option ℕ → Option ℤ → Option (Option Summary)
summary_of none none none = some none
summary_of none none (some b) = none
summary_of none (some d) b = none
summary_of (some t) none b = none
summary_of (some t) (some d) b =
    some (some record { traffic_bytes = t; duration_seconds = d; balance_minor = b })

unfoldable pub summary_fields : Object → Option (Option Summary)
unfolding summary_of
summary_fields obj = elim (aliased ◌==◌ non_negative_field obj traffic_names) [
  | none ↦ none
  | some traffic ↦ elim (aliased ◌==◌ non_negative_field obj duration_names) [
    | none ↦ none
    | some duration ↦ elim (aliased same_int balance_field obj balance_names) [
      | none ↦ none
      | some balance ↦ summary_of traffic duration balance
    ]
  ]
]

with_summary : Bytes → Addr → Option (Option Summary) → Option SrunStatus
with_summary user ip none = none
with_summary user ip (some summary) = some (online user (show_addr ip) summary)

with_ip : Object → Bytes → Option (Option Addr) → Option SrunStatus
with_ip obj user none = none
with_ip obj user (some none) = none
with_ip obj user (some (some ip)) = with_summary user ip (summary_fields obj)

online_status : Object → Option (Option Bytes) → Option SrunStatus
online_status obj none = none
online_status obj (some none) = none
online_status obj (some (some user)) =
    if valid_username user
    then with_ip obj user (aliased same_addr addr_field obj ip_names)
    else none

offline_status : Option Bool → Option SrunStatus
offline_status none = none
offline_status (some identity) = if identity then none else some offline

marked_status : Object → Option (Option Bytes) → Option SrunStatus
marked_status obj none = none
marked_status obj (some none) = none
marked_status obj (some (some marker)) =
    if bytes_eq marker not_online
    then offline_status (offline_identity_present obj)
    else if bytes_eq marker (codes "ok")
    then online_status obj (aliased bytes_eq parse_username obj username_names)
    else none

-- `parseStatusObject`
unfoldable pub parse_status_object : Object → Option SrunStatus
unfolding marked_status offline_status online_status with_ip with_summary
parse_status_object obj = marked_status obj (aliased bytes_eq json_string obj marker_names)

-- A column of the record, without white space around it; the record has the column.
unfoldable pub column : List Bytes → ℕ → Bytes
column row i = elim (get_elem? row i) [ none ↦ [] | some s ↦ trim_space s ]

csv_balance : ℕ → ℕ → Option ℤ → Option Summary
csv_balance traffic duration none = none
csv_balance traffic duration (some b) =
    some record { traffic_bytes = traffic; duration_seconds = duration; balance_minor = some b }

csv_numbers : Option ℕ → Option ℕ → Bytes → Option Summary
csv_numbers none duration balance = none
csv_numbers (some t) none balance = none
csv_numbers (some t) (some d) balance =
    if bytes_eq balance []
    then some record { traffic_bytes = t; duration_seconds = d; balance_minor = none }
    else csv_balance t d (parse_balance balance)

-- The numbers of a record: a record without them, or with a balance that is none, is still online.
unfoldable pub csv_summary : List Bytes → Option Summary
unfolding csv_numbers csv_balance
csv_summary row =
    csv_numbers (parse_non_negative (column row 6)) (parse_non_negative (column row 7))
      (if ltb 11 (length row) then column row 11 else [])

csv_online : List Bytes → Option Addr → Option SrunStatus
csv_online row none = none
csv_online row (some ip) = some (online (column row 0) (show_addr ip) (csv_summary row))

csv_status : Option (List Bytes) → Option SrunStatus
csv_status none = none
csv_status (some row) =
    if leb 9 (length row) && valid_username (column row 0)
    then csv_online row (parse_online_ipv4 (column row 8))
    else none

-- `parseStatusCSV`
unfoldable pub parse_status_csv : Bytes → Option SrunStatus
unfolding csv_status csv_online
parse_status_csv s = if contains_any s (13 ∷ 10 ∷ []) then none else csv_status (csv_record s)

abbrev pub structure_bytes : Bytes
structure_bytes = codes "<>{}()[]"

-- `ParseStatus`
unfoldable pub parse_status : (Bytes → Option Json) → Bytes → Option SrunStatus
parse_status parse_json s =
    if bytes_eq (trim_space s) not_online then some offline else elim (decode_object parse_json s) [
      | some obj ↦ parse_status_object obj
      | none ↦
          if bytes_eq (trim_space s) [] || contains_any (trim_space s) structure_bytes
          then none
          else parse_status_csv (trim_space s)
    ]
