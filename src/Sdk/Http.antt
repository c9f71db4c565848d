-- ===== src/Sdk/Http.antt =====
-- client.go and auth.go: HTTP clients with a redirect policy, and the two ways to send a request.
pub mod Laws
pub mod Rounds
pub mod Clock
use ipgw_meta.Prelude.{
  ℕ, zero, suc, ◌+◌, String, Bool, true, false, not, ◌&&◌, ◌||◌, Option, none, some, List, [], ◌∷◌,
  ltb, leb, length, ◌==◌, str_eq, if◌then◌else◌,
}
use ipgw_meta.Prelude.Results.{Result, ok, err}
use ipgw_meta.Text.{Bytes, bytes_eq}
use ipgw_meta.Sdk.Errors.{
  Fault, redirect_rejected, response_too_large, other, GoError, sdk, raw, network, protocol_changed,
  new_error, wrap_error,
}
use ipgw_meta.Sdk.Url.{Url, Capture, Decision, follow, stop, reject, cas_redirect, is_https}
use ipgw_meta.Sdk.Machine.{
  HttpRequest, Reply, Ports, Machine, Exec, sent, pure, raise, lift, ◌>>=◌, ◌>>◌, catch_with, check,
  ask, note, new_jar,
}

-- `Client` with its `endpointSet`; durations are in milliseconds.
pub record Client : Type 0 where
  pub status : Url
  pub logout : Url
  pub captive : Url
  pub cas_login : Url
  pub service : Url
  pub activation : Url
  pub poll_interval : ℕ
  pub qr_lifetime : ℕ
  pub verify_delay : ℕ

pub data Policy : Type 0 where
  reject_all stay : Policy
  cas : Url → Policy

pub record HttpClient : Type 0 where
  pub policy : Policy
  pub jar : Option ℕ

-- Where a chain of redirects ended: the last reply, the URL that gave it, and a captured ticket.
pub record Landing : Type 0 where
  pub reply : Reply
  pub url : Url
  pub capture : Option Capture

abbrev pub status_response_limit : ℕ
status_response_limit = 262144

abbrev pub html_response_limit : ℕ
html_response_limit = 2097152

abbrev pub script_response_limit : ℕ
script_response_limit = 524288

abbrev pub api_response_limit : ℕ
api_response_limit = 262144

-- More rounds than any chain of redirects has: the CAS policy refuses the eleventh.
abbrev pub max_rounds : ℕ
max_rounds = 12

unfoldable pub is_redirect : ℕ → Bool
is_redirect status =
    (status == 301) || (status == 302) || (status == 303) || (status == 307) || (status == 308)

-- net/http: 301, 302 and 303 turn a POST into a GET, 307 and 308 repeat the request.
unfoldable pub next_request : HttpRequest → ℕ → Url → HttpRequest
next_request r status target =
    if (status == 307) || (status == 308) then record r { url = target } else record r {
      url = target;
      method = if str_eq r.method "HEAD" then "HEAD" else "GET";
      form = [];
    }

unfoldable pub is_success : ℕ → Bool
is_success status = leb 200 status && ltb status 300

unfoldable pub read_all : ℕ → Reply → Result Fault Bytes
read_all limit reply = elim reply.body [
  | err f ↦ err f
  | ok bytes ↦ if ltb limit (length bytes) then err response_too_large else ok bytes
]

-- `wrapError(code, message, retryable, err)` of an outside error.
unfoldable pub request_failed : Fault → GoError
request_failed f = sdk (wrap_error network "network request failed" true (some (raw f)))

is_too_large : Fault → Bool
is_too_large response_too_large = true
is_too_large _ = false

unfoldable pub read_failed : Fault → GoError
unfolding is_too_large
read_failed f =
    if is_too_large f
    then sdk
        (new_error protocol_changed "gateway response exceeded the safe limit" false (some (raw f)))
    else sdk (wrap_error network "could not read gateway response" true (some (raw f)))

unfoldable pub bad_status : String → ℕ → GoError
bad_status message status = sdk (new_error network message (leb 500 status) none)

-- `requireHTTPS`
unfoldable pub not_https : GoError
not_https =
    sdk
      (new_error protocol_changed "protocol attempted a non-HTTPS authenticated request" false none)

module _ (p : Ports) (c : Client) where
  open p use {World, round_trip, parse_ref}

  abbrev pub M : Type 0 → Type 0
  M A = Exec (Machine World) GoError A

  unfoldable pub decide : Policy → Url → ℕ → Decision
  decide reject_all target via = reject
  decide stay target via = stop none
  decide (cas service) target via = cas_redirect c.cas_login service target via

  -- `newHTTPClient`
  unfoldable pub new_client : Policy → M HttpClient
  new_client policy = do jar ← new_jar; pure (record { policy = policy; jar = some jar })

  unfoldable pub exchange : HttpRequest → Exec (Machine World) Fault Reply
  exchange r = do note (sent r); reply ← ask (round_trip r); lift reply

  unfoldable pub land :
      Decision
      → HttpRequest
      → Reply
      → Exec (Machine World) Fault Landing
      → Exec (Machine World) Fault Landing
  land follow r reply further = further
  land (stop capture) r reply further =
      pure (record { reply = reply; url = r.url; capture = capture })
  land reject r reply further = raise redirect_rejected

  unfoldable pub to_target :
      Option Url
      → Policy
      → ℕ
      → HttpRequest
      → Reply
      → (HttpRequest → Exec (Machine World) Fault Landing)
      → Exec (Machine World) Fault Landing
  unfolding land decide next_request
  to_target none policy via r reply further = raise other
  to_target (some target) policy via r reply further =
      land (decide policy target via) r reply (further (next_request r reply.status target))

  unfoldable pub after_reply :
      Policy
      → ℕ
      → HttpRequest
      → Reply
      → (HttpRequest → Exec (Machine World) Fault Landing)
      → Exec (Machine World) Fault Landing
  unfolding to_target is_redirect
  after_reply policy via r reply further =
      if is_redirect reply.status && not (bytes_eq reply.location [])
      then to_target (parse_ref r.url reply.location) policy via r reply further
      else pure (record { reply = reply; url = r.url; capture = none })

  -- `http.Client.Do`; `via` counts the requests made, this one included.
  unfoldable pub do_rounds : ℕ → Policy → ℕ → HttpRequest → Exec (Machine World) Fault Landing
  unfolding exchange after_reply
  do_rounds zero policy via r = raise other
  do_rounds (suc n) policy via r = do
    reply ← exchange r
    after_reply policy via r reply (λ r'. do_rounds n policy (suc via) r')

  unfoldable pub client_do : Policy → HttpRequest → Exec (Machine World) Fault Landing
  unfolding do_rounds
  client_do policy r = do_rounds max_rounds policy 1 r

  -- `request`, whose callers all send a GET
  unfoldable pub request : HttpClient → Url → ℕ → M Bytes
  unfolding client_do request_failed read_failed bad_status
  request client target limit = do
    landing ← catch_with request_failed (
        client_do client.policy
          (record { method = "GET"; url = target; form = []; jar = client.jar }))
    bytes ← catch_with read_failed (lift (read_all limit landing.reply))
    check (is_success landing.reply.status)
        (bad_status "gateway returned an unexpected HTTP status" landing.reply.status) (pure bytes)

  abbrev pub has_ticket : Landing → Bool
  has_ticket landing = elim landing.capture [ none ↦ false | some t ↦ not (bytes_eq t.ticket []) ]

  -- `doCASRequest`
  unfoldable pub do_cas_request : Policy → HttpRequest → M (Bytes × Landing)
  unfolding client_do bad_status not_https
  do_cas_request policy r = check (is_https r.url) not_https do
    landing ←
        catch_with (λ f. sdk (wrap_error network "CAS request failed" true (some (raw f))))
          (client_do policy r)
    bytes ←
        catch_with
          (λ f. sdk (wrap_error protocol_changed "CAS response is invalid" false (some (raw f))))
          (lift (read_all html_response_limit landing.reply))
    check (has_ticket landing || is_success landing.reply.status)
        (bad_status "CAS returned an unexpected HTTP status" landing.reply.status)
        (pure (bytes, landing))
