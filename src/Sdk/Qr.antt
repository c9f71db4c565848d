-- ===== src/Sdk/Qr.antt =====
-- auth.go: `qrLogin` and `finishQRConfirmation`.
pub mod Trace
pub mod Rounds
use ipgw_meta.Prelude.{
  ℕ, zero, suc, ◌+◌, String, Bool, true, false, not, ◌&&◌, ◌||◌, Option, none, some, List, [], ◌∷◌,
  ◌++◌, ltb, leb, length, ◌==◌, str_eq, if◌then◌else◌,
}
use ipgw_meta.Prelude.Results.{Result, ok, err}
use ipgw_meta.Text.{Bytes, codes, bytes_eq}
use ipgw_meta.Sdk.Errors.{
  Fault, GoError, sdk, raw, other, invalid_argument, config, network, authentication,
  protocol_changed, unsupported, internal, interaction_error,
}
use ipgw_meta.Sdk.Url.{
  Url, Capture, query_get, with_param, same_hostname, same_https_origin, is_https,
  same_service_target, validated_ticket,
}
use ipgw_meta.Sdk.Machine.{
  HttpRequest, Challenge, Page, Poll, pending, expired, confirmed, challenged, Ports,
  read_credential, prompted, pure, raise, lift, ◌>>=◌, ◌>>◌, catch_with, attempt, check, some_or,
  none_or, ask, look, note,
}
use ipgw_meta.Sdk.Http.{
  Client, Policy, reject_all, cas, HttpClient, Landing, M, new_client, client_do, request,
  do_cas_request, not_https, read_all, is_success, bad_status, script_response_limit,
  api_response_limit,
}
use ipgw_meta.Sdk.Session.{
  SessionState, online_session, offline_session, Status, same_session, plain_error, conflict_error,
  observe, verify_status, logout_online, mutating,
}
use ipgw_meta.Sdk.Discovery.{discover_ac_id}
use ipgw_meta.Sdk.Form.{
  single_form_value, max_script_candidates, script_candidates, utf16_length, sibling_url,
}
use ipgw_meta.Sdk.LoginTypes.{
  LoginRequest, LoginResult, now_logged_in, already_online, prepare, is_method, is_switch,
}
use ipgw_meta.Sdk.Challenge.{
  wrap_fault, qr_details, qr_expired, is_context_error, challenge_error, unless_challenged,
  detected,
}
use ipgw_meta.Sdk.Activation.{finish_activation}
use ipgw_meta.Sdk.Password.{Attempt}

abbrev pub qr_missing : String → GoError
qr_missing method = sdk (
    interaction_error method
      (qr_details ("observed_anonymous" ∷ "synthetic_covered" ∷ "live_unverified" ∷ [])
        "retry_in_tty")
      "terminal QR login requires an interactive QR presenter")

abbrev pub qr_not_presented : String → GoError
qr_not_presented method = sdk (
    interaction_error method (qr_details ("live_unverified" ∷ []) "retry_in_tty")
      "the caller could not present the QR code")

prompt_failed : String → Fault → GoError
prompt_failed method f = if is_context_error (raw f) then raw f else qr_not_presented method

module _ (p : Ports) (c : Client) where
  open p use {
    now, wait, prompt_qr, random_uuid, parse_url, resolve, show_url, parse_page, parse_poll,
  }

  -- The identifier of the page, or a fresh one if the page supports the protocol.
  unfoldable pub qr_uuid : Page → M p c Bytes
  unfolding plain_error
  qr_uuid page =
      let fresh : M p c Bytes =
        check page.qr_supported
          (plain_error protocol_changed "CAS did not advertise the supported QR protocol" false)
          (do
            generated ← ask random_uuid
            lift (
                some_or (plain_error internal "could not create an ephemeral QR identifier" false)
                  generated)) in
      if bytes_eq page.qr_uuid [] then fresh else pure page.qr_uuid

  -- The landing of a confirmation inside CAS: a captured ticket, or the reason why there is none.
  unfoldable pub after_confirmation :
      HttpClient → Attempt → Bytes → Url → Option Capture → M p c LoginResult
  unfolding plain_error
  after_confirmation client a bytes base (some t) =
      finish_activation p c client a.method a.username a.ac_id t.ticket
  after_confirmation client a bytes base none = do
    page ← lift (
        some_or (plain_error protocol_changed "QR confirmation page could not be parsed" false)
          (parse_page base bytes))
    unless_challenged p c a.method page.challenge (
        raise (
          plain_error protocol_changed
            "QR confirmation did not produce a ticket or a recognized challenge" false))

  abbrev pub absolute : Url → Url
  absolute target = if bytes_eq target.scheme [] then resolve c.cas_login target else target

  -- A confirmation that points to another page of CAS.
  unfoldable pub confirm_in_cas : HttpClient → Attempt → Url → M p c LoginResult
  unfolding after_confirmation plain_error
  confirm_in_cas client a target =
      check (target.query_ok && bytes_eq (query_get (codes "ticket") target.query) [])
        (plain_error protocol_changed "QR confirmation returned an unsafe CAS redirect" false)
        (check (same_https_origin target c.cas_login)
          (plain_error protocol_changed "QR confirmation returned an unexpected redirect" false)
          do
            fresh ← new_client p c (cas a.service)
            answer ←
                do_cas_request p c (cas a.service)
                  (record { method = "GET"; url = target; form = []; jar = client.jar })
            after_confirmation (record fresh { jar = client.jar }) a answer.0 answer.1.url
                answer.1.capture)

  -- `finishQRConfirmation`; the three messages of `validatedTicket` are one.
  unfoldable pub finish_confirmation : HttpClient → Attempt → Bytes → M p c LoginResult
  unfolding confirm_in_cas plain_error
  finish_confirmation client a raw_redirect = do
    target ← lift (
        some_or (plain_error protocol_changed "QR confirmation returned an invalid redirect" false)
          (parse_url raw_redirect))
    let direct : M p c LoginResult = (do
      t ← lift (
          some_or
            (plain_error protocol_changed "CAS service redirect is missing required parameters"
              false)
            (validated_ticket target a.service))
      finish_activation p c client a.method a.username a.ac_id t.ticket)
    if same_service_target target a.service
        then direct
        else confirm_in_cas client a (absolute target)

  unfoldable pub on_poll : HttpClient → Attempt → M p c LoginResult → Poll → M p c LoginResult
  unfolding finish_confirmation challenge_error
  on_poll client a again (confirmed redirect) = finish_confirmation client a redirect
  on_poll client a again (challenged challenge) = challenge_error p c a.method challenge
  on_poll client a again expired = raise (qr_expired a.method)
  on_poll client a again pending = do
    fault ← ask (wait c.poll_interval)
    lift (none_or raw fault)
    again

  abbrev pub poll_url : Bytes → Bytes → Url
  poll_url uuid nonce =
      with_param (codes "random") nonce
        (with_param (codes "uuid") uuid (sibling_url (codes "checkQRCodeScan") c.cas_login))

  -- One poll before the deadline, and then `again` if the code is still pending.
  unfoldable pub poll_once : HttpClient → Attempt → Bytes → M p c LoginResult → M p c LoginResult
  unfolding on_poll plain_error
  poll_once client a uuid again = do
    nonce ← ask random_uuid
    fresh ←
        lift
          (some_or (plain_error internal "could not create a QR polling cache buster" false) nonce)
    bytes ← request p c client (poll_url uuid fresh) api_response_limit
    poll ← lift (
        some_or (plain_error protocol_changed "QR polling response is not recognized" false)
          (parse_poll bytes))
    on_poll client a again poll

  -- The polling loop, with the rounds that are left.
  unfoldable pub poll_rounds : ℕ → HttpClient → Attempt → Bytes → ℕ → M p c LoginResult
  unfolding poll_once
  poll_rounds zero client a uuid deadline = raise (raw other)
  poll_rounds (suc n) client a uuid deadline = do
    at ← look now
    check (ltb at deadline) (qr_expired a.method)
        (poll_once client a uuid (poll_rounds n client a uuid deadline))

  abbrev pub qr_url : Attempt → Bytes → Url
  qr_url a uuid =
      with_param (codes "service") (show_url a.service)
        (with_param (codes "uuid") uuid (sibling_url (codes "qyQrLogin") c.cas_login))

  -- One round for each millisecond of the lifetime, and one to see that it is over.
  unfoldable pub qr_login : HttpClient → Attempt → Page → M p c LoginResult
  unfolding qr_uuid poll_rounds plain_error prompt_failed
  qr_login client a page = check a.has_interactions (qr_missing a.method) do
    uuid ← qr_uuid page
    check (same_https_origin (qr_url a uuid) c.cas_login)
        (plain_error protocol_changed "CAS resource points outside the trusted HTTPS origin" false)
        do
          start ← look now
          note (prompted (show_url (qr_url a uuid)))
          fault ← ask (prompt_qr (show_url (qr_url a uuid)))
          lift (none_or (prompt_failed a.method) fault)
          poll_rounds (suc c.qr_lifetime) client a uuid (start + c.qr_lifetime)
