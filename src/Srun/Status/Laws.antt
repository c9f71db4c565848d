-- ===== src/Srun/Status/Laws.antt =====
-- What a status that the parser gives rests on.
use ipgw_meta.Prelude.{
  arith, ℕ, ◌≤◌, ◌≡◌, refl, ap, Bool, true, false, ◌&&◌, ◌||◌, Option, none, some, List, [], ◌∷◌,
  leb, ltb, ◌==◌, Bool-cases, inl, inr, if◌then◌else◌, Option-cases, ==_iff, length,
}
use mathlib.Core.Path.{subst}
use ipgw_meta.Prelude.Int.{ℤ, pos, negsuc}
use ipgw_meta.Text.{Bytes, codes, bytes_eq, trim_space, contains_any}
use ipgw_meta.Text.Decimal.{max_int64}
use ipgw_meta.WireJson.{Json, Object, decode_object}
use ipgw_meta.Sdk.Machine.{SrunStatus, offline, online, Summary}
use ipgw_meta.Srun.Balance.{parse_balance}
use ipgw_meta.Srun.Address.{Addr, parse_online_ipv4, show_addr, usable}
use ipgw_meta.Srun.Address.Laws.{IsAddr, parse_ipv4-IsAddr}
use ipgw_meta.Srun.Csv.{csv_record}
use ipgw_meta.Srun.Fields.{
  aliased, json_string, parse_username, valid_username, parse_non_negative, non_negative_field,
  balance_field,
}
use ipgw_meta.Srun.Fields.Laws.{
  aliased-eq, aliased-Present, Present-value, parse_non_negative-le, non_negative_field-le, InInt64,
  parse_balance-InInt64, balance_field-InInt64,
}
use ipgw_meta.Srun.Status.{
  username_names, traffic_names, duration_names, balance_names, marker_names, ip_names, not_online,
  same_int, same_addr, addr_field, offline_identity_present, summary_of, summary_fields,
  with_summary, with_ip, online_status, offline_status, marked_status, parse_status_object, column,
  csv_balance, csv_numbers, csv_summary, csv_online, csv_status, parse_status_csv, parse_status,
  structure_bytes,
}

-- An address of four bytes that a host on the campus network can have.
pub IsHost : Addr → Type 0
IsHost x = IsAddr x × (usable x ≡ true)

abbrev BalanceFits : Option ℤ → Type 0
BalanceFits none = Unit
BalanceFits (some z) = InInt64 z

-- Each number of a summary fits into 64 bits.
abbrev pub SummaryFits : Option Summary → Type 0
SummaryFits none = Unit
SummaryFits (some s) =
    (s.traffic_bytes ≤ max_int64) × (s.duration_seconds ≤ max_int64) × BalanceFits s.balance_minor

-- An online status has a user name of the accepted form, the address of a host and a summary
-- within 64 bits.
abbrev pub IsSound : SrunStatus → Type 0
IsSound offline = Unit
IsSound (online user ip summary) =
    (valid_username user ≡ true)
    × ((x : Addr) × (ip ≡ show_addr x) × IsHost x)
    × SummaryFits summary

parse_online_ipv4-IsHost : (s : Bytes) (x : Addr) → parse_online_ipv4 s ≡ some x → IsHost x
unfolding parse_online_ipv4 IsHost
parse_online_ipv4-IsHost s x h = grind (arith, parse_ipv4-IsAddr)

addr_field-IsHost : (j : Json) (x : Addr) → addr_field j ≡ some x → IsHost x
unfolding addr_field
addr_field-IsHost j x h = grind (arith, parse_online_ipv4-IsHost)

same_nat : (a b : ℕ) → (a == b) ≡ true → a ≡ b
same_nat a b h = (==_iff a b).0 h

same_int-eq : (a b : ℤ) → same_int a b ≡ true → a ≡ b
same_int-eq (pos m) (pos n) h = ap pos (same_nat m n h)
same_int-eq (pos m) (negsuc n) h = absurd (cc)
same_int-eq (negsuc m) (pos n) h = absurd (cc)
same_int-eq (negsuc m) (negsuc n) h = ap negsuc (same_nat m n h)

pub same_addr-eq : (x y : Addr) → same_addr x y ≡ true → x ≡ y
same_addr-eq x y h = ground arith

abbrev OptionAll : {T : Type 0} → (T → Type 0) → Option T → Type 0
OptionAll P none = Unit
OptionAll P (some v) = P v

-- What all values of a field have, the value that its names agree on has.
module _ {T : Type 0} (same : T → T → Bool) (sound : (a b : T) → same a b ≡ true → a ≡ b)
    (parse : Json → Option T) (obj : Object) (names : List Bytes) (P : T → Type 0)
    (each : (j : Json) (v : T) → parse j ≡ some v → P v) where
  aliased-each : (v : T) → aliased same parse obj names ≡ some (some v) → P v
  aliased-each v h =
      let found =
        Present-value parse obj names v (aliased-Present same sound parse obj names v h)
          (aliased-eq same sound parse obj names v h) in
      each (found.0) v (found.1)

  aliased-option : (o : Option T) → aliased same parse obj names ≡ some o → OptionAll P o
  aliased-option none h = tt
  aliased-option (some v) h = aliased-each v h

abbrev SizeFits : ℕ → Type 0
SizeFits n = n ≤ max_int64

summary_of-SummaryFits :
    (t d : Option ℕ) (b : Option ℤ) (s : Option Summary)
    → OptionAll SizeFits t
    → OptionAll SizeFits d
    → OptionAll InInt64 b
    → summary_of t d b ≡ some s
    → SummaryFits s
unfolding summary_of
summary_of-SummaryFits none none none s ht hd hb h = let e : none ≡ s = cc in subst SummaryFits e tt
summary_of-SummaryFits none none (some b) s ht hd hb h = absurd (cc)
summary_of-SummaryFits none (some d) b s ht hd hb h = absurd (cc)
summary_of-SummaryFits (some t) none b s ht hd hb h = absurd (cc)
summary_of-SummaryFits (some t) (some d) none s ht hd hb h =
    let e : some record { traffic_bytes = t; duration_seconds = d; balance_minor = none } ≡ s =
      cc in
    subst SummaryFits e (ht, hd, tt)
summary_of-SummaryFits (some t) (some d) (some b) s ht hd hb h =
    let e : some record { traffic_bytes = t; duration_seconds = d; balance_minor = some b } ≡ s =
      cc in
    subst SummaryFits e (ht, hd, hb)

summary_fields-SummaryFits :
    (obj : Object) (s : Option Summary) → summary_fields obj ≡ some s → SummaryFits s
unfolding summary_fields
summary_fields-SummaryFits obj s h =
    elim (Option-cases (aliased ◌==◌ non_negative_field obj traffic_names)) [
      | inl e ↦ absurd (ground (arith, e))
      | inr (t, e) ↦ elim (Option-cases (aliased ◌==◌ non_negative_field obj duration_names)) [
        | inl e' ↦ absurd (ground (arith, e, e'))
        | inr (d, e') ↦ elim (Option-cases (aliased same_int balance_field obj balance_names)) [
          | inl e'' ↦ absurd (ground (arith, e, e', e''))
          | inr (b, e'') ↦
              summary_of-SummaryFits t d b s
                (aliased-option ◌==◌ same_nat non_negative_field obj traffic_names SizeFits
                  non_negative_field-le t e)
                (aliased-option ◌==◌ same_nat non_negative_field obj duration_names SizeFits
                  non_negative_field-le d e')
                (aliased-option same_int same_int-eq balance_field obj balance_names InInt64
                  balance_field-InInt64 b e'')
                (ground (arith, e, e', e''))
        ]
      ]
    ]

with_ip-IsSound :
    (obj : Object) (user : Bytes) (ip : Option (Option Addr)) (st : SrunStatus)
    → valid_username user ≡ true
    → ((x : Addr) → ip ≡ some (some x) → IsHost x)
    → with_ip obj user ip ≡ some st
    → IsSound st
unfolding with_ip with_summary
with_ip-IsSound obj user none st v host h = absurd (cc)
with_ip-IsSound obj user (some none) st v host h = absurd (cc)
with_ip-IsSound obj user (some (some x)) st v host h = elim (Option-cases (summary_fields obj)) [
  | inl e ↦ absurd (ground (arith, e))
  | inr (s, e) ↦
      let shape : st ≡ online user (show_addr x) s = ground (arith, e) in
      rw shape (v, (x, refl, host x refl), summary_fields-SummaryFits obj s e)
]

online_status-IsSound :
    (obj : Object) (user : Option (Option Bytes)) (st : SrunStatus)
    → online_status obj user ≡ some st
    → IsSound st
unfolding online_status
online_status-IsSound obj none st h = absurd (cc)
online_status-IsSound obj (some none) st h = absurd (cc)
online_status-IsSound obj (some (some user)) st h = elim (Bool-cases (valid_username user)) [
  | inl v ↦
      with_ip-IsSound obj user (aliased same_addr addr_field obj ip_names) st v
        (aliased-each same_addr same_addr-eq addr_field obj ip_names IsHost addr_field-IsHost)
        (ground (arith, v))
  | inr v ↦ absurd (ground (arith, v))
]

offline_status-IsSound :
    (identity : Option Bool) (st : SrunStatus) → offline_status identity ≡ some st → IsSound st
unfolding offline_status
offline_status-IsSound none st h = absurd (cc)
offline_status-IsSound (some true) st h = absurd (cc)
offline_status-IsSound (some false) st h = let shape : offline ≡ st = cc in subst IsSound shape tt

marked_status-IsSound :
    (obj : Object) (marker : Option (Option Bytes)) (st : SrunStatus)
    → marked_status obj marker ≡ some st
    → IsSound st
unfolding marked_status
marked_status-IsSound obj none st h = absurd (cc)
marked_status-IsSound obj (some none) st h = absurd (cc)
marked_status-IsSound obj (some (some marker)) st h =
    elim (Bool-cases (bytes_eq marker not_online)) [
      | inl e ↦ offline_status-IsSound (offline_identity_present obj) st (ground (arith, e))
      | inr e ↦ elim (Bool-cases (bytes_eq marker (codes "ok"))) [
        | inl e' ↦
            online_status-IsSound obj (aliased bytes_eq parse_username obj username_names) st
              (ground (arith, e, e'))
        | inr e' ↦ absurd (ground (arith, e, e'))
      ]
    ]

csv_numbers-SummaryFits :
    (t d : Option ℕ) (balance : Bytes)
    → OptionAll SizeFits t
    → OptionAll SizeFits d
    → SummaryFits (csv_numbers t d balance)
unfolding csv_numbers csv_balance
csv_numbers-SummaryFits none d balance ht hd = tt
csv_numbers-SummaryFits (some t) none balance ht hd = tt
csv_numbers-SummaryFits (some t) (some d) balance ht hd = elim (Bool-cases (bytes_eq balance [])) [
  | inl e ↦ rw e (ht, hd, tt)
  | inr e ↦ elim (Option-cases (parse_balance balance)) [
    | inl p ↦ rw (e, p) tt
    | inr (z, p) ↦ rw (e, p) (ht, hd, parse_balance-InInt64 balance z p)
  ]
]

number_column : (s : Bytes) (o : Option ℕ) → parse_non_negative s ≡ o → OptionAll SizeFits o
number_column s none h = tt
number_column s (some n) h = parse_non_negative-le s n h

csv_summary-SummaryFits : (row : List Bytes) → SummaryFits (csv_summary row)
unfolding csv_summary
csv_summary-SummaryFits row =
    csv_numbers-SummaryFits (parse_non_negative (column row 6)) (parse_non_negative (column row 7))
      (if ltb 11 (length row) then column row 11 else [])
      (number_column (column row 6) (parse_non_negative (column row 6)) refl)
      (number_column (column row 7) (parse_non_negative (column row 7)) refl)

csv_status-IsSound :
    (o : Option (List Bytes)) (st : SrunStatus) → csv_status o ≡ some st → IsSound st
unfolding csv_status csv_online
csv_status-IsSound none st h = absurd (cc)
csv_status-IsSound (some row) st h =
    elim (Bool-cases (leb 9 (length row) && valid_username (column row 0))) [
      | inr e ↦ absurd (ground (arith, e))
      | inl e ↦ elim (Option-cases (parse_online_ipv4 (column row 8))) [
        | inl p ↦ absurd (ground (arith, e, p))
        | inr (x, p) ↦
            let shape : online (column row 0) (show_addr x) (csv_summary row) ≡ st =
              ground (arith, e, p) in
            subst IsSound shape (
              ground arith,
              (x, refl, parse_online_ipv4-IsHost (column row 8) x p),
              csv_summary-SummaryFits row,
            )
      ]
    ]

parse_status_csv-IsSound : (s : Bytes) (st : SrunStatus) → parse_status_csv s ≡ some st → IsSound st
unfolding parse_status_csv
parse_status_csv-IsSound s st h = elim (Bool-cases (contains_any s (13 ∷ 10 ∷ []))) [
  | inl e ↦ absurd (ground (arith, e))
  | inr e ↦ csv_status-IsSound (csv_record s) st (ground (arith, e))
]

-- Whatever bytes the gateway sends: a status that is read from them is offline, or it has a user
-- name of the accepted form, the address of a host and, if there is a summary, numbers of 64 bits.
pub parse_status-IsSound :
    (parse_json : Bytes → Option Json) (s : Bytes) (st : SrunStatus)
    → parse_status parse_json s ≡ some st
    → IsSound st
unfolding parse_status parse_status_object
parse_status-IsSound parse_json s st h = elim (Bool-cases (bytes_eq (trim_space s) not_online)) [
  | inl e ↦ let shape : offline ≡ st = ground (arith, e) in subst IsSound shape tt
  | inr e ↦ elim (Option-cases (decode_object parse_json s)) [
    | inl d ↦
        elim (Bool-cases
          (bytes_eq (trim_space s) [] || contains_any (trim_space s) structure_bytes)) [
            | inl e' ↦ absurd (ground (arith, e, d, e'))
            | inr e' ↦ parse_status_csv-IsSound (trim_space s) st (ground (arith, e, d, e'))
          ]
    | inr (obj, d) ↦
        marked_status-IsSound obj (aliased bytes_eq json_string obj marker_names) st
          (ground (arith, e, d))
  ]
]
