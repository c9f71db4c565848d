-- ===== src/Sdk/Tests.antt =====
-- Runs of the SDK, and the theorems at these runs.
use ipgw_meta.Prelude.{
  arith, ℕ, ◌≤◌, refl, ◌≡◌, [], ◌∷◌, none, some, Option, List, true, false, ◌⊎◌, inr, All, length,
}
use ipgw_meta.Prelude.Results.{ok}
use ipgw_meta.Text.{Bytes, codes, bytes_eq, trim_space}
use ipgw_meta.Sdk.Errors.{
  canceled, raw, sdk, network, wrap_error, code_of, InteractionDetails, interaction_error,
}
use ipgw_meta.Sdk.Errors.Laws.{
  IsRedacted, classified, code_of-wrap_error, interaction_error-IsRedacted,
}
use ipgw_meta.Sdk.Url.{
  Url, Capture, follow, stop, https, cas_redirect, same_host, same_hostname, same_service_target,
  query_get, ticket_shape, is_ac_id,
}
use ipgw_meta.Sdk.Url.Laws.{cas_redirect-stop, cas_redirect-follow}
use ipgw_meta.Sdk.Machine.{
  HttpRequest, Ports, pure, lift, catch_with, attempt, check, ask, look, note, new_jar, set_locked,
  is_locked, ◌>>=◌,
}
use ipgw_meta.Sdk.Http.{cas, reject_all, HttpClient, do_rounds, client_do}
use ipgw_meta.Sdk.Http.Rounds.{client_do_lem}
use ipgw_meta.Sdk.Discovery.{try_next, inspect, unique_ac_id}
use ipgw_meta.Sdk.Discovery.Laws.{inspect-try_next, unique_ac_id-agrees}
use ipgw_meta.Sdk.Session.{
  online_session, offline_session, Status, LogoutResult, logged_out, verify_status, mutating,
  logout_call,
}
use ipgw_meta.Sdk.Session.Results.{verify_status-expected, logout_call-logged_out}
use ipgw_meta.Sdk.Session.Lock.{mutating-unlocked}
use ipgw_meta.Prelude.{suc}
use ipgw_meta.Sdk.Password.{Attempt}
use ipgw_meta.Sdk.LoginTypes.{LoginRequest, LoginResult, now_logged_in}
use ipgw_meta.Sdk.Login.{login_call, login_body}
use ipgw_meta.Sdk.Login.Results.{login_call-logged_in}
use ipgw_meta.Sdk.Login.Wire.{OnWire, login_call-OnWire, logout_call-OnWire}
use ipgw_meta.Sdk.Login.Preflight.{first_look, settled, login_body-settled}
use ipgw_meta.Sdk.Scene.{
  answers, client, cas_address, service_address, ticket_address, captive_address, redirect_reply,
  login_replies, logout_replies, online_replies, fresh_machine, request_for,
}

abbrev online_at : ℕ → Status
online_at n = record {
  session = online_session;
  username = codes "u";
  online_ip = [];
  observed_at = n;
  summary = none;
}

abbrev logged_in : LoginResult
logged_in = record { outcome = now_logged_in; status = online_at 6 }

run_login :
    (login_call (answers login_replies) client (request_for " u " "") fresh_machine).0
    ≡ ok logged_in
unfolding ipgw_meta.Sdk.Login.login_call pure lift catch_with attempt check ask look note new_jar
    set_locked is_locked ◌>>=◌ ipgw_meta.Sdk.Http.is_success ipgw_meta.Sdk.Http.read_all
    ipgw_meta.Sdk.Http.new_client ipgw_meta.Sdk.Http.request ipgw_meta.Sdk.Http.do_cas_request
    ipgw_meta.Sdk.Session.logout_call ipgw_meta.Sdk.Discovery.find_ac_ids
    ipgw_meta.Sdk.Discovery.unique_ac_id ipgw_meta.Sdk.Discovery.discover_ac_id
    ipgw_meta.Sdk.Url.query_values ipgw_meta.Sdk.Url.query_get ipgw_meta.Sdk.Url.with_param
    ipgw_meta.Sdk.Url.key_count ipgw_meta.Sdk.Url.same_hostname ipgw_meta.Sdk.Url.is_https
    ipgw_meta.Sdk.Url.same_https_origin ipgw_meta.Sdk.Url.same_service_target
    ipgw_meta.Sdk.Url.is_ac_id ipgw_meta.Sdk.Url.ticket_shape ipgw_meta.Sdk.Url.validated_ticket
    ipgw_meta.Sdk.Url.cas_redirect ipgw_meta.Sdk.Form.single_form_value
    ipgw_meta.Sdk.Challenge.unless_challenged ipgw_meta.Sdk.Activation.finish_activation
    ipgw_meta.Sdk.Password.form_fields ipgw_meta.Sdk.Password.password_login ipgw_meta.Text.bytes_eq
    ipgw_meta.Text.contains_any ipgw_meta.Text.trim_space ipgw_meta.Text.to_lower
run_login = refl

login_call-logged_in_example :
    (logged_in.status.session ≡ online_session)
    × (logged_in.status.username ≡ trim_space (codes " u "))
login_call-logged_in_example =
    login_call-logged_in (answers login_replies) client (request_for " u " "") fresh_machine
      logged_in run_login

login_call-OnWire_example :
    All
      (OnWire client)
      (login_call (answers login_replies) client (request_for " u " "") fresh_machine).1.trace
login_call-OnWire_example =
    login_call-OnWire (answers login_replies) client (request_for " u " "") fresh_machine refl tt

logout_call-OnWire_example :
    All (OnWire client) (logout_call (answers logout_replies) client fresh_machine).1.trace
logout_call-OnWire_example = logout_call-OnWire (answers logout_replies) client fresh_machine tt

abbrev now_offline : LogoutResult
now_offline = record {
  outcome = logged_out;
  status = record {
    session = offline_session;
    username = [];
    online_ip = [];
    observed_at = 3;
    summary = none;
  };
}

run_logout : (logout_call (answers logout_replies) client fresh_machine).0 ≡ ok now_offline
unfolding pure lift catch_with attempt check ask look note new_jar set_locked is_locked ◌>>=◌
    ipgw_meta.Sdk.Http.is_success ipgw_meta.Sdk.Http.read_all ipgw_meta.Sdk.Http.new_client
    ipgw_meta.Sdk.Http.request ipgw_meta.Sdk.Session.logout_call ipgw_meta.Sdk.Url.is_https
    ipgw_meta.Text.bytes_eq
run_logout = refl

logout_call-logged_out_example : now_offline.status.session ≡ offline_session
logout_call-logged_out_example =
    logout_call-logged_out (answers logout_replies) client fresh_machine now_offline run_logout

abbrev http_client : HttpClient
http_client = record { policy = reject_all; jar = some 0 }

run_verify :
    (verify_status
      (answers online_replies)
      client
      http_client
      online_session
      (codes "u")
      fresh_machine).0
    ≡ ok (online_at 1)
unfolding pure lift catch_with check ask look note ◌>>=◌ ipgw_meta.Sdk.Http.is_success
    ipgw_meta.Sdk.Http.read_all ipgw_meta.Sdk.Http.request ipgw_meta.Sdk.Session.logout_call
    ipgw_meta.Sdk.Url.is_https ipgw_meta.Text.bytes_eq
run_verify = refl

verify_status-expected_example :
    ((online_at 1).session ≡ online_session)
    × ((codes "u" ≡ []) ⊎ ((online_at 1).username ≡ codes "u"))
verify_status-expected_example =
    verify_status-expected (answers online_replies) client http_client online_session (codes "u")
      fresh_machine (online_at 1) run_verify

abbrev other_user : LoginRequest
other_user = record (request_for "v" "password") { switch = "refuse" }

run_first_look : (first_look (answers online_replies) client fresh_machine).0 ≡ ok (online_at 1)
unfolding pure lift catch_with check ask look note ◌>>=◌ ipgw_meta.Sdk.Http.is_success
    ipgw_meta.Sdk.Http.read_all ipgw_meta.Sdk.Http.request ipgw_meta.Sdk.Session.logout_call
    ipgw_meta.Sdk.Url.is_https ipgw_meta.Text.bytes_eq
run_first_look = refl

login_body-settled_example : login_body (answers online_replies) client other_user fresh_machine ≡ (
  settled other_user (online_at 1),
  (first_look (answers online_replies) client fresh_machine).1,
)
unfolding bytes_eq
login_body-settled_example =
    login_body-settled (answers online_replies) client other_user fresh_machine (online_at 1) refl
      refl refl run_first_look refl (inr refl)

mutating-unlocked_example :
    (mutating
      (answers login_replies)
      client
      "login"
      "canceled"
      (login_body (answers login_replies) client (request_for "u" "password"))
      fresh_machine).1.locked
    ≡ false
mutating-unlocked_example =
    mutating-unlocked (answers login_replies) client "login" "canceled"
      (login_body (answers login_replies) client (request_for "u" "password")) fresh_machine refl

abbrev expected_service : Url
expected_service = record service_address { query = (codes "ac_id", codes "1") ∷ [] }

abbrev captured : Capture
captured = record { ticket = codes "ST-1"; ac_id = codes "1" }

run_stop : cas_redirect cas_address expected_service ticket_address 2 ≡ stop (some captured)
unfolding ipgw_meta.Sdk.Url.query_values ipgw_meta.Sdk.Url.query_get ipgw_meta.Sdk.Url.key_count
    ipgw_meta.Sdk.Url.same_service_target ipgw_meta.Sdk.Url.is_ac_id ipgw_meta.Sdk.Url.ticket_shape
    ipgw_meta.Sdk.Url.validated_ticket ipgw_meta.Sdk.Url.cas_redirect ipgw_meta.Text.bytes_eq
    ipgw_meta.Text.contains_any ipgw_meta.Text.to_lower
run_stop = refl

cas_redirect-stop_example :
    (t : Capture) × (◌≡◌ {A = Option Capture} (some captured) (some t))
    × (same_service_target ticket_address expected_service ≡ true)
    × (t.ticket ≡ query_get (codes "ticket") ticket_address.query)
    × (ticket_shape t.ticket ≡ true)
    × (t.ac_id ≡ query_get (codes "ac_id") expected_service.query)
    × (is_ac_id t.ac_id ≡ true)
cas_redirect-stop_example =
    cas_redirect-stop cas_address expected_service ticket_address 2 (some captured) run_stop

run_follow : cas_redirect cas_address expected_service cas_address 2 ≡ follow
unfolding ipgw_meta.Sdk.Url.query_get ipgw_meta.Sdk.Url.same_service_target
    ipgw_meta.Sdk.Url.cas_redirect ipgw_meta.Text.bytes_eq ipgw_meta.Text.to_lower
run_follow = refl

cas_redirect-follow_example :
    (cas_address.scheme ≡ https)
    × (same_host cas_address cas_address ≡ true)
    × (cas_address.has_user ≡ false)
    × (query_get (codes "ticket") cas_address.query ≡ [])
    × (2 ≤ 10)
cas_redirect-follow_example =
    cas_redirect-follow cas_address expected_service cas_address 2 run_follow

abbrev page_request : HttpRequest
page_request = record { method = "GET"; url = cas_address; form = []; jar = some 0 }

client_do_lem_example :
    do_rounds (answers login_replies) client 20 (cas expected_service) 1 page_request fresh_machine
    ≡ client_do (answers login_replies) client (cas expected_service) page_request fresh_machine
client_do_lem_example =
    client_do_lem (answers login_replies) client 20 (cas expected_service) page_request
      fresh_machine (omega arith)

abbrev next_address : Url
next_address = record captive_address { path = codes "/next" }

-- A portal whose first answer points to another page.
abbrev portal : Ports
portal = record (answers []) {
  parse_url = λ raw. some next_address;
  parse_ref = λ base raw. some next_address;
}

run_inspect :
    inspect portal client true (redirect_reply "N") captive_address ≡ ok (try_next next_address)
unfolding ipgw_meta.Sdk.Http.is_redirect ipgw_meta.Sdk.Http.read_all
    ipgw_meta.Sdk.Discovery.path_unescape ipgw_meta.Sdk.Discovery.valid_discovery_path
    ipgw_meta.Sdk.Discovery.clean_address ipgw_meta.Sdk.Discovery.valid_raw_location
    ipgw_meta.Sdk.Discovery.valid_discovery_port ipgw_meta.Sdk.Discovery.valid_discovery_target
    ipgw_meta.Sdk.Discovery.find_ac_ids ipgw_meta.Sdk.Discovery.unique_ac_id
    ipgw_meta.Sdk.Discovery.discover_ac_id ipgw_meta.Sdk.Url.query_values
    ipgw_meta.Sdk.Url.same_hostname ipgw_meta.Text.bytes_eq ipgw_meta.Text.has_prefix
    ipgw_meta.Text.contains_any ipgw_meta.Text.to_lower
run_inspect = refl

inspect-try_next_example : same_hostname next_address captive_address ≡ true
inspect-try_next_example =
    inspect-try_next portal client true (redirect_reply "N") captive_address next_address
      run_inspect

abbrev two_ids : List Bytes
two_ids = codes "1" ∷ codes "1" ∷ []

run_unique : unique_ac_id two_ids ≡ some (codes "1")
unfolding unique_ac_id bytes_eq
run_unique = refl

unique_ac_id-agrees_example :
    (two_ids ≡ []) ⊎ (All (λ y. y ≡ codes "1") two_ids × (length two_ids ≤ 32))
unique_ac_id-agrees_example = unique_ac_id-agrees two_ids (codes "1") run_unique

code_of-wrap_error_example :
    code_of (some (sdk (wrap_error network "failed" false (some (raw canceled)))))
    ≡ some (classified network (raw canceled))
code_of-wrap_error_example = code_of-wrap_error network "failed" false (raw canceled)

abbrev odd_details : InteractionDetails
odd_details = record {
  challenge = "sms_otp";
  origin_method = "";
  capability = "unknown" ∷ "unknown" ∷ "secret" ∷ [];
  session_binding = "token";
  resume_mode = "restart";
  tty_required = false;
  help_id = "AUTH-SMS-001";
}

interaction_error-IsRedacted_example :
    (r : InteractionDetails) × ((interaction_error "password" odd_details "m").details.interaction
      ≡ some r)
    × IsRedacted r
interaction_error-IsRedacted_example = interaction_error-IsRedacted "password" "m" odd_details

-- Surroundings in which a wait takes a millisecond.
abbrev ticking : Ports
ticking = record (answers login_replies) { wait = λ d n. (none, suc n) }

abbrev qr_attempt : Attempt
qr_attempt = record {
  method = "terminal_qr";
  username = codes "u";
  has_credentials = false;
  has_interactions = true;
  service = service_address;
  ac_id = codes "1";
}
