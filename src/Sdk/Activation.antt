-- ===== src/Sdk/Activation.antt =====
-- auth.go: `finishActivation`, which hands the ticket to the gateway and verifies the session.
pub mod Trace
use ipgw_meta.Prelude.{
  ℕ, zero, suc, ◌+◌, String, Bool, true, false, not, ◌&&◌, ◌||◌, Option, none, some, List, [], ◌∷◌,
  ◌++◌, ltb, leb, length, ◌==◌, str_eq, if◌then◌else◌,
}
use ipgw_meta.Prelude.Results.{Result, ok, err}
use ipgw_meta.Text.{Bytes, codes, bytes_eq}
use ipgw_meta.Sdk.Errors.{
  Fault, GoError, sdk, raw, other, invalid_argument, config, network, authentication,
  protocol_changed, unsupported, internal, interaction_error,
}
use ipgw_meta.Sdk.Url.{
  Url, Capture, query_get, with_param, same_hostname, same_https_origin, is_https,
  same_service_target, validated_ticket,
}
use ipgw_meta.Sdk.Machine.{
  HttpRequest, Challenge, Page, Poll, pending, expired, confirmed, challenged, Ports,
  read_credential, prompted, pure, raise, lift, ◌>>=◌, ◌>>◌, catch_with, attempt, check, some_or,
  none_or, ask, look, note,
}
use ipgw_meta.Sdk.Http.{
  Client, Policy, reject_all, cas, HttpClient, Landing, M, new_client, client_do, request,
  do_cas_request, not_https, read_all, is_success, bad_status, script_response_limit,
  api_response_limit,
}
use ipgw_meta.Sdk.Session.{
  SessionState, online_session, offline_session, Status, same_session, plain_error, conflict_error,
  observe, verify_status, logout_online, mutating,
}
use ipgw_meta.Sdk.Discovery.{discover_ac_id}
use ipgw_meta.Sdk.Form.{
  single_form_value, max_script_candidates, script_candidates, utf16_length, sibling_url,
}
use ipgw_meta.Sdk.LoginTypes.{
  LoginRequest, LoginResult, now_logged_in, already_online, prepare, is_method, is_switch,
}
use ipgw_meta.Sdk.Challenge.{
  wrap_fault, qr_details, qr_expired, is_context_error, challenge_error, unless_challenged,
  detected,
}

-- Where a ticket is handed in.
abbrev pub activation_request : Client → Option ℕ → Bytes → Bytes → HttpRequest
activation_request c jar ac_id ticket = record {
  method = "GET";
  url = with_param (codes "ticket") ticket (with_param (codes "ac_id") ac_id c.activation);
  form = [];
  jar = jar;
}

module _ (p : Ports) (c : Client) where
  open p use {parse_activation}

  -- The answer to an activation that was accepted as an HTTP response.
  unfoldable pub accept_activation : HttpClient → String → Bytes → Bytes → M p c LoginResult
  unfolding plain_error
  accept_activation client method expected bytes = do
    challenge ← detected p c bytes
    unless_challenged p c method challenge do
      success ← lift (
          some_or
            (plain_error protocol_changed "gateway activation response is not recognized" false)
            (parse_activation bytes))
      check success (plain_error authentication "gateway rejected activation" false) do
        status ← verify_status p c client online_session expected
        pure (record { outcome = now_logged_in; status = status })

  unfoldable pub finish_activation : HttpClient → String → Bytes → Bytes → Bytes → M p c LoginResult
  unfolding accept_activation wrap_fault bad_status
  finish_activation client method expected ac_id ticket = check (is_https c.activation) not_https (
      check (same_hostname c.activation c.service)
        (plain_error protocol_changed "activation endpoint does not match the service host" false)
        do
          fresh ← new_client p c reject_all
          landing ←
              catch_with (wrap_fault network "gateway activation request failed" true)
                (client_do p c reject_all (activation_request c client.jar ac_id ticket))
          bytes ←
              catch_with
                (wrap_fault protocol_changed "gateway activation response is invalid" false)
                (lift (read_all api_response_limit landing.reply))
          check (is_success landing.reply.status)
              (bad_status "gateway activation returned an unexpected HTTP status"
                landing.reply.status)
              (accept_activation (record fresh { jar = client.jar }) method expected bytes))
