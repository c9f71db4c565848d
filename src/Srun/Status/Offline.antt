-- ===== src/Srun/Status/Offline.antt =====
-- A status is offline only on explicit evidence.
use ipgw_meta.Prelude.{
  arith, ◌≡◌, ◌⊎◌, ◌≢◌, ap, ◌∙◌, false, Option, none, some, List, [], ◌∷◌, Bool-cases, inl, inr,
  Option-cases,
}
use ipgw_meta.Text.{Bytes, bytes_eq, trim_space}
use ipgw_meta.Text.Laws.{bytes_eq→eq}
use ipgw_meta.WireJson.{Json, Object, raw, decode_object}
use ipgw_meta.Sdk.Machine.{offline}
use ipgw_meta.Srun.Address.{Addr}
use ipgw_meta.Srun.Csv.{csv_record}
use ipgw_meta.Srun.Fields.{aliased, json_string, parse_username}
use ipgw_meta.Srun.Fields.Laws.{Absent, aliased-Absent}
use ipgw_meta.Srun.Status.Evidence.{Agreed, agreed_lem}
use ipgw_meta.Srun.Status.{
  username_names, traffic_names, duration_names, balance_names, marker_names, ip_names, not_online,
  same_addr, addr_field, is_there, field_present, offline_identity_present, summary_fields,
  with_summary, with_ip, online_status, offline_status, marked_status, parse_status_object,
  csv_online, csv_status, parse_status_csv, parse_status,
}

-- A field that no name has, or whose names agree on the empty text.
abbrev pub Missing : (Json → Option Bytes) → Object → List Bytes → Type 0
Missing parse obj names = Absent parse obj names ⊎ Agreed parse obj names []

-- What the object of an offline session says: every marker it has, and at least one, is
-- `not_online_error`, and it names no user, no address and no number.
pub record OfflineEvidence (obj : Object) : Type 0 where
  pub marker : Agreed json_string obj marker_names not_online
  pub no_user : Missing parse_username obj username_names
  pub no_address : Missing json_string obj ip_names
  pub no_traffic : Absent json_string obj traffic_names
  pub no_duration : Absent json_string obj duration_names
  pub no_balance : Absent json_string obj balance_names

field_present-false :
    (obj : Object) (names : List Bytes)
    → field_present obj names ≡ false
    → Absent json_string obj names
unfolding field_present
field_present-false obj [] h = tt
field_present-false obj (name ∷ names) h = elim (Option-cases (raw name obj)) [
  | inl e ↦ (e, field_present-false obj names (ground (arith, e)))
  | inr (j, e) ↦ absurd (ground (arith, e))
]

missing_lem :
    (parse : Json → Option Bytes) (obj : Object) (names : List Bytes) (o : Option Bytes)
    → aliased bytes_eq parse obj names ≡ some o
    → is_there o ≡ false
    → Missing parse obj names
unfolding is_there
missing_lem parse obj names none h e = inl (aliased-Absent bytes_eq bytes_eq→eq parse obj names h)
missing_lem parse obj names (some s) h e =
    let empty : s ≡ [] = bytes_eq→eq s [] (ground (arith, e)) in
    inr (
      agreed_lem bytes_eq bytes_eq→eq parse obj names []
        (h ∙ ap (λ (t : Bytes). some (some t)) empty))

offline_identity-Missing :
    (obj : Object)
    → offline_identity_present obj ≡ some false
    → (field_present obj traffic_names ≡ false)
      × (field_present obj duration_names ≡ false)
      × (field_present obj balance_names ≡ false)
      × Missing parse_username obj username_names
      × Missing json_string obj ip_names
unfolding offline_identity_present
offline_identity-Missing obj h =
    elim (Option-cases (aliased bytes_eq parse_username obj username_names)) [
      | inl e ↦ absurd (ground (arith, e))
      | inr (user, e) ↦ elim (Bool-cases (is_there user)) [
        | inl t ↦ absurd (ground (arith, e, t))
        | inr t ↦ elim (Option-cases (aliased bytes_eq json_string obj ip_names)) [
          | inl e' ↦ absurd (ground (arith, e, t, e'))
          | inr (ip, e') ↦ elim (Bool-cases (is_there ip)) [
            | inl t' ↦ absurd (ground (arith, e, t, e', t'))
            | inr t' ↦ (
              ground (arith, e, t, e', t'),
              ground (arith, e, t, e', t'),
              ground (arith, e, t, e', t'),
              missing_lem parse_username obj username_names user e t,
              missing_lem json_string obj ip_names ip e' t',
            )
          ]
        ]
      ]
    ]

with_ip-ne-offline :
    (obj : Object) (user : Bytes) (o : Option (Option Addr)) → with_ip obj user o ≢ some offline
unfolding with_ip with_summary
with_ip-ne-offline obj user none h = cc
with_ip-ne-offline obj user (some none) h = cc
with_ip-ne-offline obj user (some (some x)) h = elim (Option-cases (summary_fields obj)) [
  | inl e ↦ ground (arith, e)
  | inr (s, e) ↦ ground (arith, e)
]

online_status-ne-offline :
    (obj : Object) (o : Option (Option Bytes)) → online_status obj o ≢ some offline
unfolding online_status
online_status-ne-offline obj none h = cc
online_status-ne-offline obj (some none) h = cc
online_status-ne-offline obj (some (some u)) h =
    ground (arith, with_ip-ne-offline obj u (aliased same_addr addr_field obj ip_names))

csv_status-ne-offline : (o : Option (List Bytes)) → csv_status o ≢ some offline
unfolding csv_status csv_online
csv_status-ne-offline none h = cc
csv_status-ne-offline (some row) h = ground arith

parse_status_csv-ne-offline : (s : Bytes) → parse_status_csv s ≢ some offline
unfolding parse_status_csv
parse_status_csv-ne-offline s h = ground (arith, csv_status-ne-offline (csv_record s))

marked_status-offline :
    (obj : Object) (m : Option (Option Bytes))
    → marked_status obj m ≡ some offline
    → (m ≡ some (some not_online)) × (offline_identity_present obj ≡ some false)
unfolding marked_status offline_status
marked_status-offline obj none h = absurd (cc)
marked_status-offline obj (some none) h = absurd (cc)
marked_status-offline obj (some (some marker)) h =
    let others =
      online_status-ne-offline obj (aliased bytes_eq parse_username obj username_names) in
    elim (Bool-cases (bytes_eq marker not_online)) [
      | inl e ↦
          (ap (λ (w : Bytes). some (some w)) (bytes_eq→eq marker not_online e), ground (arith, e))
      | inr e ↦ absurd (ground (arith, e, others))
    ]

parse_status_object-offline :
    (obj : Object) → parse_status_object obj ≡ some offline → OfflineEvidence obj
unfolding parse_status_object
parse_status_object-offline obj h =
    let m = marked_status-offline obj (aliased bytes_eq json_string obj marker_names) h in
    let missing = offline_identity-Missing obj (m.1) in
    record {
      marker = agreed_lem bytes_eq bytes_eq→eq json_string obj marker_names not_online (m.0);
      no_user = missing.3;
      no_address = missing.4;
      no_traffic = field_present-false obj traffic_names (missing.0);
      no_duration = field_present-false obj duration_names (missing.1);
      no_balance = field_present-false obj balance_names (missing.2);
    }

-- A response is read as offline only if it is the text `not_online_error`, white space aside, or an
-- object whose markers all say so and which names no user, no address and no number.
pub parse_status-offline :
    (parse_json : Bytes → Option Json) (s : Bytes)
    → parse_status parse_json s ≡ some offline
    → (trim_space s ≡ not_online)
      ⊎ ((obj : Object) × (decode_object parse_json s ≡ some obj) × OfflineEvidence obj)
unfolding parse_status
parse_status-offline parse_json s h = elim (Bool-cases (bytes_eq (trim_space s) not_online)) [
  | inl e ↦ inl (bytes_eq→eq (trim_space s) not_online e)
  | inr e ↦ elim (Option-cases (decode_object parse_json s)) [
    | inl d ↦ absurd (ground (arith, e, d, parse_status_csv-ne-offline (trim_space s)))
    | inr (obj, d) ↦ inr (obj, d, parse_status_object-offline obj (ground (arith, e, d)))
  ]
]
