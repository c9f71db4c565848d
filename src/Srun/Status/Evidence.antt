-- ===== src/Srun/Status/Evidence.antt =====
-- The evidence that a status needs: an offline one as well as an online one.
use ipgw_meta.Prelude.{
  arith, ◌≡◌, refl, ap, Bool, true, Option, none, some, List, Bool-cases, inl, inr, Option-cases,
  All,
}
use ipgw_meta.Text.{Bytes, codes, bytes_eq}
use ipgw_meta.Text.Laws.{bytes_eq→eq}
use ipgw_meta.WireJson.{Json, Object}
use ipgw_meta.Sdk.Machine.{online, Summary}
use ipgw_meta.Srun.Address.{Addr, show_addr}
use ipgw_meta.Srun.Fields.{aliased, json_string, parse_username, valid_username}
use ipgw_meta.Srun.Fields.Laws.{Says, Present, aliased-eq, aliased-Present}
use ipgw_meta.Srun.Status.Laws.{same_addr-eq}
use ipgw_meta.Srun.Status.{
  username_names, marker_names, ip_names, not_online, same_addr, addr_field, summary_fields,
  with_summary, with_ip, online_status, offline_status, marked_status, parse_status_object,
}

-- At least one of the names has a value, and all that have one agree on `v`.
abbrev pub Agreed : {T : Type 0} → (Json → Option T) → Object → List Bytes → T → Type 0
Agreed parse obj names v = Present parse obj names × All (Says parse obj v) names

pub agreed_lem :
    {T : Type 0} (same : T → T → Bool) (sound : (a b : T) → same a b ≡ true → a ≡ b)
    (parse : Json → Option T) (obj : Object) (names : List Bytes) (v : T)
    → aliased same parse obj names ≡ some (some v)
    → Agreed parse obj names v
agreed_lem same sound parse obj names v h =
    (aliased-Present same sound parse obj names v h, aliased-eq same sound parse obj names v h)

-- What the object of an online session says.
pub record OnlineEvidence (obj : Object) (user ip : Bytes) : Type 0 where
  pub marker : Agreed json_string obj marker_names (codes "ok")
  pub name : Agreed parse_username obj username_names user
  pub addr : Addr
  pub shown : ip ≡ show_addr addr
  pub at_addr : Agreed addr_field obj ip_names addr

with_ip-online :
    (obj : Object) (u user ip : Bytes) (o : Option (Option Addr)) (s : Option Summary)
    → with_ip obj u o ≡ some (online user ip s)
    → (u ≡ user) × ((x : Addr) × (o ≡ some (some x)) × (ip ≡ show_addr x))
unfolding with_ip with_summary
with_ip-online obj u user ip none s h = absurd (cc)
with_ip-online obj u user ip (some none) s h = absurd (cc)
with_ip-online obj u user ip (some (some x)) s h = elim (Option-cases (summary_fields obj)) [
  | inl e ↦ absurd (ground (arith, e))
  | inr (summary, e) ↦ (ground (arith, e), (x, refl, ground (arith, e)))
]

online_status-online :
    (obj : Object) (user ip : Bytes) (o : Option (Option Bytes)) (s : Option Summary)
    → online_status obj o ≡ some (online user ip s)
    → (o ≡ some (some user))
      × ((x : Addr) × (aliased same_addr addr_field obj ip_names ≡ some (some x))
          × (ip ≡ show_addr x))
unfolding online_status
online_status-online obj user ip none s h = absurd (cc)
online_status-online obj user ip (some none) s h = absurd (cc)
online_status-online obj user ip (some (some u)) s h = elim (Bool-cases (valid_username u)) [
  | inl v ↦
      let found =
        with_ip-online obj u user ip (aliased same_addr addr_field obj ip_names) s
          (ground (arith, v)) in
      (ap (λ (w : Bytes). some (some w)) (found.0), found.1)
  | inr v ↦ absurd (ground (arith, v))
]

marked_status-online :
    (obj : Object) (m : Option (Option Bytes)) (user ip : Bytes) (s : Option Summary)
    → marked_status obj m ≡ some (online user ip s)
    → (m ≡ some (some (codes "ok")))
      × (online_status obj (aliased bytes_eq parse_username obj username_names)
          ≡ some (online user ip s))
unfolding marked_status offline_status
marked_status-online obj none user ip s h = absurd (cc)
marked_status-online obj (some none) user ip s h = absurd (cc)
marked_status-online obj (some (some marker)) user ip s h =
    elim (Bool-cases (bytes_eq marker not_online)) [
      | inl e ↦ absurd (ground (arith, e))
      | inr e ↦ elim (Bool-cases (bytes_eq marker (codes "ok"))) [
        | inl e' ↦ (
          ap (λ (w : Bytes). some (some w)) (bytes_eq→eq marker (codes "ok") e'),
          ground (arith, e, e'),
        )
        | inr e' ↦ absurd (ground (arith, e, e'))
      ]
    ]

-- An object is read as an online session only if each kind of evidence is there and agrees with
-- itself: every marker field it has says `ok`, every user field names the reported user, and every
-- address field the reported address.
pub parse_status_object-online :
    (obj : Object) (user ip : Bytes) (summary : Option Summary)
    → parse_status_object obj ≡ some (online user ip summary)
    → OnlineEvidence obj user ip
unfolding parse_status_object
parse_status_object-online obj user ip summary h =
    let m =
      marked_status-online obj (aliased bytes_eq json_string obj marker_names) user ip summary h in
    let u =
      online_status-online obj user ip (aliased bytes_eq parse_username obj username_names) summary
        (m.1) in
    let a = u.1 in
    record {
      marker = agreed_lem bytes_eq bytes_eq→eq json_string obj marker_names (codes "ok") (m.0);
      name = agreed_lem bytes_eq bytes_eq→eq parse_username obj username_names user (u.0);
      addr = a.0;
      shown = a.2;
      at_addr = agreed_lem same_addr same_addr-eq addr_field obj ip_names (a.0) (a.1);
    }
