-- ===== src/Sdk/Url/Laws.antt =====
-- Where the CAS redirect policy lets a client go.
use ipgw_meta.Prelude.{ℕ, ◌≤◌, ◌≡◌, refl, true, false, Option, none, some, [], arith}
use ipgw_meta.Text.{codes, to_lower}
use ipgw_meta.Text.Laws.{bytes_eq_refl, bytes_eq→eq}
use ipgw_meta.Sdk.Url.{
  Url, Capture, follow, stop, https, query_get, same_host, same_service_target, is_ac_id,
  validated_ticket, ticket_shape, ticket_decision, cas_redirect, same_hostname, normalized_port,
}

pub same_host_refl : (u : Url) → same_host u u ≡ true
unfolding same_host
same_host_refl u =
    ground (arith, bytes_eq_refl (to_lower u.hostname), bytes_eq_refl (normalized_port u))

pub same_hostname_refl : (u : Url) → same_hostname u u ≡ true
unfolding same_hostname
same_hostname_refl u = bytes_eq_refl (to_lower u.hostname)

-- The policy follows a redirect only to the host of the CAS over HTTPS, without credentials in the
-- URL, where its first parameter `ticket`, if there is one, is empty, and after at most ten requests.
pub cas_redirect-follow :
    (cas_login service target : Url) (via : ℕ)
    → cas_redirect cas_login service target via ≡ follow
    → (target.scheme ≡ https)
      × (same_host target cas_login ≡ true)
      × (target.has_user ≡ false)
      × (query_get (codes "ticket") target.query ≡ [])
      × (via ≤ 10)
unfolding cas_redirect
cas_redirect-follow cas_login service target via h = ground (
  arith,
  bytes_eq→eq target.scheme https,
  bytes_eq→eq (query_get (codes "ticket") target.query) [],
)

validated_ticket-eq-some :
    (target service : Url) (t : Capture)
    → validated_ticket target service ≡ some t
    → (t.ticket ≡ query_get (codes "ticket") target.query)
      × (ticket_shape t.ticket ≡ true)
      × (t.ac_id ≡ query_get (codes "ac_id") service.query)
      × (is_ac_id t.ac_id ≡ true)
unfolding validated_ticket
validated_ticket-eq-some target service t h = ground (
  arith,
  bytes_eq→eq (query_get (codes "ac_id") target.query) (query_get (codes "ac_id") service.query),
)

-- The policy hands out a ticket only from the registered service address, which is then not requested, and
-- only together with the access-controller ID that was asked for.
pub cas_redirect-stop :
    (cas_login service target : Url) (via : ℕ) (c : Option Capture)
    → cas_redirect cas_login service target via ≡ stop c
    → (t : Capture) × (c ≡ some t)
      × (same_service_target target service ≡ true)
      × (t.ticket ≡ query_get (codes "ticket") target.query)
      × (ticket_shape t.ticket ≡ true)
      × (t.ac_id ≡ query_get (codes "ac_id") service.query)
      × (is_ac_id t.ac_id ≡ true)
unfolding cas_redirect
cas_redirect-stop cas_login service target via c h =
    stopped (validated_ticket target service) refl (ground arith) (ground arith)
  where
    stopped :
        (o : Option Capture)
        → validated_ticket target service ≡ o
        → ticket_decision o ≡ stop c
        → same_service_target target service ≡ true
        → (t : Capture) × (c ≡ some t)
          × (same_service_target target service ≡ true)
          × (t.ticket ≡ query_get (codes "ticket") target.query)
          × (ticket_shape t.ticket ≡ true)
          × (t.ac_id ≡ query_get (codes "ac_id") service.query)
          × (is_ac_id t.ac_id ≡ true)
    stopped none e d same = absurd (cc)
    stopped (some t) e d same =
        let v = validated_ticket-eq-some target service t e in
        (t, ground arith, same, v.0, v.1, v.2, v.3)
