-- ===== src/Sdk/Password.antt =====
-- auth.go: `passwordLogin`.
pub mod Trace
use ipgw_meta.Prelude.{
  ℕ, zero, suc, ◌+◌, String, Bool, true, false, not, ◌&&◌, ◌||◌, Option, none, some, List, [], ◌∷◌,
  ◌++◌, ltb, leb, length, ◌==◌, str_eq, if◌then◌else◌,
}
use ipgw_meta.Prelude.Results.{Result, ok, err}
use ipgw_meta.Text.Decimal.{itoa}
use ipgw_meta.Text.{Bytes, codes, bytes_eq}
use ipgw_meta.Sdk.Errors.{
  Fault, GoError, sdk, raw, other, invalid_argument, config, network, authentication,
  protocol_changed, unsupported, internal, interaction_error,
}
use ipgw_meta.Sdk.Url.{
  Url, Capture, query_get, with_param, same_hostname, same_https_origin, is_https,
  same_service_target, validated_ticket,
}
use ipgw_meta.Sdk.Machine.{
  HttpRequest, Challenge, Page, Poll, pending, expired, confirmed, challenged, Ports,
  read_credential, prompted, pure, raise, lift, ◌>>=◌, ◌>>◌, catch_with, attempt, check, some_or,
  none_or, ask, look, note,
}
use ipgw_meta.Sdk.Http.{
  Client, Policy, reject_all, cas, HttpClient, Landing, M, new_client, client_do, request,
  do_cas_request, not_https, read_all, is_success, bad_status, script_response_limit,
  api_response_limit,
}
use ipgw_meta.Sdk.Session.{
  SessionState, online_session, offline_session, Status, same_session, plain_error, conflict_error,
  observe, verify_status, logout_online, mutating,
}
use ipgw_meta.Sdk.Discovery.{discover_ac_id}
use ipgw_meta.Sdk.Form.{
  single_form_value, max_script_candidates, script_candidates, utf16_length, sibling_url,
}
use ipgw_meta.Sdk.LoginTypes.{
  LoginRequest, LoginResult, now_logged_in, already_online, prepare, is_method, is_switch,
}
use ipgw_meta.Sdk.Challenge.{
  wrap_fault, qr_details, qr_expired, is_context_error, challenge_error, unless_challenged,
  detected,
}
use ipgw_meta.Sdk.Activation.{finish_activation}

-- What the password flow takes from the earlier steps of the login.
pub record Attempt : Type 0 where
  pub method : String
  pub username : Bytes
  pub has_credentials : Bool
  pub has_interactions : Bool
  pub service : Url
  pub ac_id : Bytes

-- The fields that the form must have.
pub record Fields : Type 0 where
  pub action : Url
  pub lt : Bytes
  pub execution : Bytes

unfoldable pub fields_from : Option Url → Option Bytes → Option Bytes → Option Fields
fields_from (some action) (some lt) (some execution) =
    some (record { action = action; lt = lt; execution = execution })
fields_from _ _ _ = none

unfoldable pub form_fields : Page → Option Fields
unfolding fields_from
form_fields page =
    fields_from page.action (single_form_value (codes "lt") page.hidden)
      (single_form_value (codes "execution") page.hidden)

unfoldable pub login_form : Fields → Bytes → Bytes → Bytes → List (Bytes × Bytes)
login_form f encrypted username password =
    (codes "rsa", encrypted)
    ∷ (codes "ul", itoa (utf16_length username))
    ∷ (codes "pl", itoa (utf16_length password))
    ∷ (codes "lt", f.lt)
    ∷ (codes "execution", f.execution)
    ∷ (codes "_eventId", codes "submit")
    ∷ []

module _ (p : Ports) (c : Client) where
  open p use {credential, encrypt, extract_public_key, detect_failure}

  -- One script: a context error ends the login, another failure or a script without a key does not.
  unfoldable pub try_script : Result GoError Bytes → M p c Bytes → M p c Bytes
  try_script (err e) rest = if is_context_error e then raise e else rest
  try_script (ok script) rest =
      let key = extract_public_key script in if bytes_eq key [] then rest else pure key

  unfoldable pub find_key : HttpClient → List Url → M p c Bytes
  unfolding try_script
  find_key client [] = pure []
  find_key client (u ∷ us) = do
    script ← attempt (request p c client u script_response_limit)
    try_script script (find_key client us)

  -- The key of the page, or else that of its scripts.
  unfoldable pub public_key : HttpClient → Page → M p c Bytes
  unfolding find_key plain_error
  public_key client page =
      let candidates = script_candidates c page.scripts in
      let search_scripts : M p c Bytes =
        check (leb (length candidates) max_script_candidates)
          (plain_error protocol_changed "CAS advertised too many dynamic login scripts" false)
          (find_key client candidates) in
      if bytes_eq page.public_key [] then search_scripts else pure page.public_key

  unfoldable pub require_key : String → Bytes → Bytes → M p c (Unit {0})
  unfolding plain_error
  require_key method page_data key =
      let missing : M p c (Unit {0}) = (do
        challenge ← detected p c page_data
        unless_challenged p c method challenge
            (raise (plain_error protocol_changed "CAS public key was not discovered" false))) in
      if bytes_eq key [] then missing else pure tt

  -- Asks the caller for the password, and encrypts it.
  unfoldable pub encrypted_credential : Bytes → Bytes → M p c (Bytes × Bytes)
  unfolding plain_error wrap_fault
  encrypted_credential username key = do
    note (read_credential username)
    given ← ask (credential username)
    password ← catch_with (wrap_fault config "credential provider failed" false) (lift given)
    check (not (bytes_eq password []))
        (plain_error config "credential provider returned an empty password" false)
        do
          cipher ← ask (encrypt username password key)
          encrypted ← lift (
              some_or
                (plain_error protocol_changed "CAS public key or encryption contract changed" false)
                cipher)
          pure (password, encrypted)

  -- The answer to the form: a captured ticket, or the reason why there is none.
  unfoldable pub after_post : HttpClient → Attempt → Bytes → Option Capture → M p c LoginResult
  unfolding plain_error
  after_post client a bytes (some t) =
      finish_activation p c client a.method a.username a.ac_id t.ticket
  after_post client a bytes none = do
    challenge ← detected p c bytes
    unless_challenged p c a.method challenge do
      failure ← lift (
          some_or
            (plain_error protocol_changed "CAS authentication response is not recognized" false)
            (detect_failure bytes))
      check (not failure) (plain_error authentication "CAS rejected the supplied credentials" false)
          (raise (
            plain_error protocol_changed
              "CAS did not return a service ticket or a recognized challenge" false))

  unfoldable pub submit_form : HttpClient → Attempt → Fields → Bytes → Bytes → M p c LoginResult
  unfolding after_post
  submit_form client a f password encrypted = do
    fresh ← new_client p c (cas a.service)
    answer ← do_cas_request p c (cas a.service) (record {
      method = "POST";
      url = f.action;
      form = login_form f encrypted a.username password;
      jar = client.jar;
    })
    after_post (record fresh { jar = client.jar }) a answer.0 answer.1.capture

  unfoldable pub password_login : HttpClient → Attempt → Page → Bytes → M p c LoginResult
  unfolding public_key require_key encrypted_credential submit_form plain_error
  password_login client a page page_data =
      check a.has_credentials
        (plain_error config "password login requires a credential provider" false)
        do
          f ← lift (
              some_or
                (plain_error protocol_changed "CAS login form is missing required fields" false)
                (form_fields page))
          check (same_https_origin f.action c.cas_login)
              (plain_error protocol_changed "CAS resource points outside the trusted HTTPS origin"
                false)
              do
                key ← public_key client page
                require_key a.method page_data key
                secret ← encrypted_credential a.username key
                submit_form client a f secret.0 secret.1
