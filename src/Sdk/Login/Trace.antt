-- ===== src/Sdk/Login/Trace.antt =====
-- What a login puts on the wire.
use ipgw_meta.Prelude.{ℕ, ◌≡◌, refl, Option, none, some}
use ipgw_meta.Text.{Bytes}
use ipgw_meta.Sdk.Url.{Capture, https, same_host, with_param}
use ipgw_meta.Sdk.Url.Laws.{same_host_refl}
use ipgw_meta.Sdk.Machine.{Ports, Action}
use ipgw_meta.Sdk.Machine.Keeps.{Keeps, Traced, Keeps-bind, trace_rules}
use ipgw_meta.Sdk.Http.{Client, HttpClient, Policy, Landing, do_cas_request}
use ipgw_meta.Sdk.Session.{Status}
use ipgw_meta.Sdk.Session.Trace.{
  Admits, get, do_cas_request-Traced, new_client-Traced, observe-Traced, logout_online-Traced,
  mutating-Traced,
}
use ipgw_meta.Sdk.Discovery.Laws.{discover_ac_id-Traced}
use ipgw_meta.Sdk.LoginTypes.{LoginRequest}
use ipgw_meta.Sdk.Password.{Attempt}
use ipgw_meta.Sdk.Login.{
  with_page, authenticate, when_online, with_status, login_body, login_call, login_url,
}
use ipgw_meta.Sdk.Activation.Trace.{unless_challenged-Traced, finish_activation-Traced}
use ipgw_meta.Sdk.Password.Trace.{password_login-Traced}
use ipgw_meta.Sdk.Qr.Trace.{cas_page, qr_login-Traced}

module _ (p : Ports) (c : Client) (Q : Action → Type 0) (admits : Admits c Q)
    (secure : c.cas_login.scheme ≡ https) where
  login_page-Traced :
      (policy : Policy) (jar : Option ℕ) (ac_id : Bytes)
      → Keeps (Traced Q) (do_cas_request p c policy (get (login_url p c ac_id) jar))
  unfolding with_param same_host
  login_page-Traced policy jar ac_id = do_cas_request-Traced p c Q admits policy _ (λ _.
      cas_page p c Q admits secure (get (login_url p c ac_id) jar) refl
        (same_host_refl c.cas_login))

  with_page-Traced :
      (client : HttpClient) (a : Attempt) (bytes : Bytes) (landing : Landing) (o : Option Capture)
      → Keeps (Traced Q) (with_page p c client a bytes landing o)
  unfolding with_page
  with_page-Traced client a bytes landing (some t) =
      finish_activation-Traced p c Q admits client _ _ _ _
  with_page-Traced client a bytes landing none = search (
    trace_rules,
    unless_challenged-Traced p c Q admits,
    password_login-Traced p c Q admits,
    qr_login-Traced p c Q admits secure,
  )

  authenticate-Traced : (r : LoginRequest) → Keeps (Traced Q) (authenticate p c r)
  unfolding authenticate
  authenticate-Traced r = Keeps-bind _ _ (discover_ac_id-Traced p c Q admits) (λ ac_id.
      Keeps-bind _ _ (new_client-Traced p c Q admits _) (λ client.
        Keeps-bind _ _ (login_page-Traced _ _ ac_id)
          (λ answer. with_page-Traced client _ answer.0 answer.1 answer.1.capture)))

  when_online-Traced :
      (client : HttpClient) (r : LoginRequest) (status : Status)
      → Keeps (Traced Q) (when_online p c client r status)
  unfolding when_online
  when_online-Traced client r status =
      search (trace_rules, logout_online-Traced p c Q admits, authenticate-Traced)

  login_body-Traced : (r : LoginRequest) → Keeps (Traced Q) (login_body p c r)
  unfolding login_body with_status
  login_body-Traced r =
      search
        (
          trace_rules,
          new_client-Traced p c Q admits,
          observe-Traced p c Q admits,
          when_online-Traced,
          authenticate-Traced,
        )
        depth 10

  pub login_call-Traced : (r : LoginRequest) → Keeps (Traced Q) (login_call p c r)
  unfolding login_call
  login_call-Traced r = mutating-Traced p c Q admits _ _ _ (login_body-Traced _)
