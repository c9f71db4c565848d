-- ===== src/Sdk/Login.antt =====
-- auth.go: `Login`.
pub mod Trace
pub mod Results
pub mod Wire
pub mod Preflight
use ipgw_meta.Prelude.{
  ℕ, zero, suc, ◌+◌, String, Bool, true, false, not, ◌&&◌, ◌||◌, Option, none, some, List, [], ◌∷◌,
  ◌++◌, ltb, leb, length, ◌==◌, str_eq, if◌then◌else◌,
}
use ipgw_meta.Prelude.Results.{Result, ok, err}
use ipgw_meta.Text.{Bytes, codes, bytes_eq}
use ipgw_meta.Sdk.Errors.{
  Fault, GoError, sdk, raw, other, invalid_argument, config, network, authentication,
  protocol_changed, unsupported, internal, interaction_error,
}
use ipgw_meta.Sdk.Url.{
  Url, Capture, query_get, with_param, same_hostname, same_https_origin, is_https,
  same_service_target, validated_ticket,
}
use ipgw_meta.Sdk.Machine.{
  HttpRequest, Challenge, Page, Poll, pending, expired, confirmed, challenged, Ports,
  read_credential, prompted, pure, raise, lift, ◌>>=◌, ◌>>◌, catch_with, attempt, check, some_or,
  none_or, ask, look, note,
}
use ipgw_meta.Sdk.Http.{
  Client, Policy, reject_all, cas, HttpClient, Landing, M, new_client, client_do, request,
  do_cas_request, not_https, read_all, is_success, bad_status, script_response_limit,
  api_response_limit,
}
use ipgw_meta.Sdk.Session.{
  SessionState, online_session, offline_session, Status, same_session, plain_error, conflict_error,
  observe, verify_status, logout_online, mutating,
}
use ipgw_meta.Sdk.Discovery.{discover_ac_id}
use ipgw_meta.Sdk.Form.{
  single_form_value, max_script_candidates, script_candidates, utf16_length, sibling_url,
}
use ipgw_meta.Sdk.LoginTypes.{
  LoginRequest, LoginResult, now_logged_in, already_online, prepare, is_method, is_switch,
}
use ipgw_meta.Sdk.Challenge.{
  wrap_fault, qr_details, qr_expired, is_context_error, challenge_error, unless_challenged,
  detected,
}
use ipgw_meta.Sdk.Activation.{finish_activation}
use ipgw_meta.Sdk.Password.{Attempt, password_login}
use ipgw_meta.Sdk.Qr.{qr_login}

abbrev pub service_url : Client → Bytes → Url
service_url c ac_id = with_param (codes "ac_id") ac_id c.service

unfoldable pub attempt_of : Client → LoginRequest → Bytes → Attempt
attempt_of c r ac_id = record {
  method = r.method;
  username = r.expected_username;
  has_credentials = r.has_credentials;
  has_interactions = r.has_interactions;
  service = service_url c ac_id;
  ac_id = ac_id;
}

module _ (p : Ports) (c : Client) where
  open p use {show_url, parse_page}

  abbrev pub login_url : Bytes → Url
  login_url ac_id = with_param (codes "service") (show_url (service_url c ac_id)) c.cas_login

  -- The login page, or a ticket that CAS gave at once.
  unfoldable pub with_page :
      HttpClient → Attempt → Bytes → Landing → Option Capture → M p c LoginResult
  unfolding plain_error
  with_page client a bytes landing (some t) =
      finish_activation p c client a.method a.username a.ac_id t.ticket
  with_page client a bytes landing none = do
    page ← lift (
        some_or (plain_error protocol_changed "CAS login page could not be parsed" false)
          (parse_page landing.url bytes))
    unless_challenged p c a.method page.challenge (
        if str_eq a.method "password"
        then password_login p c client a page bytes
        else qr_login p c client a page)

  -- From the discovery of the access controller on.
  unfoldable pub authenticate : LoginRequest → M p c LoginResult
  unfolding with_page attempt_of
  authenticate r = do
    ac_id ← discover_ac_id p c
    client ← new_client p c (cas (service_url c ac_id))
    answer ←
        do_cas_request p c client.policy
          (record { method = "GET"; url = login_url ac_id; form = []; jar = client.jar })
    with_page client (attempt_of c r ac_id) answer.0 answer.1 answer.1.capture

  -- What an online session means for the request: nothing to do, a conflict, or a logout first.
  unfoldable pub when_online : HttpClient → LoginRequest → Status → M p c LoginResult
  unfolding authenticate conflict_error
  when_online client r status =
      let replace : M p c LoginResult = (do
        _ ← logout_online p c client status.username
        authenticate r) in
      if bytes_eq status.username r.expected_username
      then pure (record { outcome = already_online; status = status })
      else if str_eq r.switch "refuse"
      then raise
          (conflict_error "another account is already online" r.expected_username status.username)
      else replace

  unfoldable pub with_status : HttpClient → LoginRequest → Status → M p c LoginResult
  unfolding when_online
  with_status client r status =
      if same_session status.session online_session
      then when_online client r status
      else authenticate r

  unfoldable pub login_body : LoginRequest → M p c LoginResult
  unfolding with_status plain_error
  login_body r =
      check (not (bytes_eq r.expected_username []))
        (plain_error invalid_argument "expected username is required" false)
        (check (is_method r.method)
          (plain_error unsupported "authentication method is not supported" false)
          (check (is_switch r.switch) (plain_error invalid_argument "invalid switch policy" false)
            do
              client ← new_client p c reject_all
              status ← observe p c client
              with_status client r status))

  -- `Login`
  unfoldable pub login_call : LoginRequest → M p c LoginResult
  unfolding mutating login_body prepare
  login_call r =
      mutating p c "login" "login was canceled while waiting for another session change"
        (login_body (prepare r))
