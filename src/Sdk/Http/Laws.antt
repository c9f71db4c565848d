-- ===== src/Sdk/Http/Laws.antt =====
-- Which requests the two ways to send one put on the wire, redirects included.
use ipgw_meta.Prelude.{arith, ℕ, zero, suc, ◌≡◌, refl, true, false, Option, none, some, []}
use ipgw_meta.Text.{codes}
use ipgw_meta.Sdk.Errors.{Fault}
use ipgw_meta.Sdk.Url.{Url, Decision, follow, stop, reject, https, query_get, same_host, is_https}
use ipgw_meta.Sdk.Url.Laws.{cas_redirect-follow}
use ipgw_meta.Sdk.Machine.{HttpRequest, Reply, Ports, Machine, Exec, Action, sent}
use ipgw_meta.Sdk.Machine.Keeps.{
  Keeps, Traced, Keeps-pure, Keeps-raise, Keeps-check, Keeps-bind, Keeps-catch_with, trace_rules,
}
use ipgw_meta.Sdk.Http.{
  Client, Policy, reject_all, stay, cas, HttpClient, Landing, decide, next_request, exchange, land,
  to_target, after_reply, max_rounds, do_rounds, client_do, request, do_cas_request,
}

-- A redirect that was followed: the jar is kept, and the policy agreed to the address.
pub record Followed (c : Client) (r r' : HttpRequest) : Type 0 where
  pub jar : r'.jar ≡ r.jar
  pub scheme : r'.url.scheme ≡ https
  pub host : same_host r'.url c.cas_login ≡ true
  pub no_user : r'.url.has_user ≡ false
  pub no_ticket : query_get (codes "ticket") r'.url.query ≡ []

next_request_lem :
    (r : HttpRequest) (status : ℕ) (target : Url)
    → ((next_request r status target).url ≡ target) × ((next_request r status target).jar ≡ r.jar)
unfolding next_request
next_request_lem r status target = ground arith

next_request-Followed :
    (c : Client) (r : HttpRequest) (status : ℕ) (target : Url)
    → (target.scheme ≡ https)
      × (same_host target c.cas_login ≡ true)
      × (target.has_user ≡ false)
      × (query_get (codes "ticket") target.query ≡ [])
    → Followed c r (next_request r status target)
next_request-Followed c r status target h =
    let (u, j) = next_request_lem r status target in
    record { jar = j; scheme = rw u h.0; host = rw u h.1; no_user = rw u h.2; no_ticket = rw u h.3 }

decide-follow :
    (p : Ports) (c : Client) (policy : Policy) (r : HttpRequest) (status : ℕ) (target : Url)
    (via : ℕ)
    → decide p c policy target via ≡ follow
    → Followed c r (next_request r status target)
unfolding decide
decide-follow p c (cas service) r status target via h =
    let f = cas_redirect-follow c.cas_login service target via h in
    next_request-Followed c r status target (f.0, f.1, f.2, f.3)
decide-follow p c reject_all r status target via h = absurd (cc)
decide-follow p c stay r status target via h = absurd (cc)

module _ (p : Ports) (c : Client) (Q : Action → Type 0)
    (onward : (r r' : HttpRequest) → Followed c r r' → Q (sent r) → Q (sent r')) where
  exchange-Keeps : (r : HttpRequest) → Q (sent r) → Keeps (Traced Q) (exchange p c r)
  unfolding exchange
  exchange-Keeps r q = search trace_rules

  land-Keeps :
      (d : Decision) (r : HttpRequest) (reply : Reply)
      (further : Exec (Machine p.World) Fault Landing)
      → (d ≡ follow → Keeps (Traced Q) further)
      → Keeps (Traced Q) (land p c d r reply further)
  unfolding land
  land-Keeps follow r reply further k = k refl
  land-Keeps (stop capture) r reply further k = Keeps-pure _
  land-Keeps reject r reply further k = Keeps-raise _

  to_target-Keeps :
      (o : Option Url) (policy : Policy) (via : ℕ) (r : HttpRequest) (reply : Reply)
      (further : HttpRequest → Exec (Machine p.World) Fault Landing)
      → Q (sent r)
      → ((r' : HttpRequest) → Q (sent r') → Keeps (Traced Q) (further r'))
      → Keeps (Traced Q) (to_target p c o policy via r reply further)
  unfolding to_target
  to_target-Keeps none policy via r reply further q k = Keeps-raise _
  to_target-Keeps (some target) policy via r reply further q k =
      land-Keeps (decide p c policy target via) r reply _
        (λ d. k _ (onward r _ (decide-follow p c policy r reply.status target via d) q))

  after_reply-Keeps :
      (policy : Policy) (via : ℕ) (r : HttpRequest) (reply : Reply)
      (further : HttpRequest → Exec (Machine p.World) Fault Landing)
      → Q (sent r)
      → ((r' : HttpRequest) → Q (sent r') → Keeps (Traced Q) (further r'))
      → Keeps (Traced Q) (after_reply p c policy via r reply further)
  unfolding after_reply
  after_reply-Keeps policy via r reply further q k = search (
    trace_rules,
    to_target-Keeps (p.parse_ref r.url reply.location) policy via r reply further q k,
  )

  do_rounds-Keeps :
      (n : ℕ) (policy : Policy) (via : ℕ) (r : HttpRequest)
      → Q (sent r)
      → Keeps (Traced Q) (do_rounds p c n policy via r)
  unfolding do_rounds
  do_rounds-Keeps zero policy via r q = Keeps-raise _
  do_rounds-Keeps (suc n) policy via r q = Keeps-bind _ _ (exchange-Keeps r q) (λ reply.
      after_reply-Keeps policy via r reply _ q (λ r' q'. do_rounds-Keeps n policy (suc via) r' q'))

  pub client_do-Keeps :
      (policy : Policy) (r : HttpRequest) → Q (sent r) → Keeps (Traced Q) (client_do p c policy r)
  unfolding client_do
  client_do-Keeps policy r q = do_rounds-Keeps max_rounds policy 1 r q

  pub request-Keeps :
      (client : HttpClient) (target : Url) (limit : ℕ)
      → Q (sent (record { method = "GET"; url = target; form = []; jar = client.jar }))
      → Keeps (Traced Q) (request p c client target limit)
  unfolding request
  request-Keeps client target limit q =
      Keeps-bind _ _ (Keeps-catch_with _ _ (client_do-Keeps client.policy _ q))
        (λ landing. search trace_rules)

  pub do_cas_request-Keeps :
      (policy : Policy) (r : HttpRequest)
      → (is_https r.url ≡ true → Q (sent r))
      → Keeps (Traced Q) (do_cas_request p c policy r)
  unfolding do_cas_request
  do_cas_request-Keeps policy r q = Keeps-check _ _ _ (λ s.
      Keeps-bind _ _ (Keeps-catch_with _ _ (client_do-Keeps policy r (q s)))
        (λ landing. search trace_rules))
