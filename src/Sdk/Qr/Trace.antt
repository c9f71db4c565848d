-- ===== src/Sdk/Qr/Trace.antt =====
-- What the login by QR code puts on the wire.
use ipgw_meta.Prelude.{ℕ, zero, suc, ◌≡◌, refl, ◌∙◌, true, Option, none, some}
use ipgw_meta.Text.{Bytes}
use ipgw_meta.Sdk.Url.{Url, Capture, https, same_host, with_param}
use ipgw_meta.Sdk.Url.Laws.{same_host_refl}
use ipgw_meta.Sdk.Machine.{
  HttpRequest, Page, Poll, pending, expired, confirmed, challenged, Ports, Action, sent,
}
use ipgw_meta.Sdk.Machine.Keeps.{
  Keeps, Traced, Keeps-bind, Keeps-lift, Keeps-raise, Keeps-check, Traced-ask, Traced-look,
  trace_rules,
}
use ipgw_meta.Sdk.Http.{Client, HttpClient, M, request}
use ipgw_meta.Sdk.Session.Trace.{
  Admits, get, request-Traced, do_cas_request-Traced, new_client-Traced,
}
use ipgw_meta.Sdk.Form.{sibling_url}
use ipgw_meta.Sdk.LoginTypes.{LoginResult}
use ipgw_meta.Sdk.Password.{Attempt}
use ipgw_meta.Sdk.Qr.{
  qr_uuid, after_confirmation, confirm_in_cas, finish_confirmation, on_poll, poll_url, poll_rounds,
  qr_login,
}
use ipgw_meta.Sdk.Activation.Trace.{
  same_https_origin-parts, challenge_error-Traced, unless_challenged-Traced,
  finish_activation-Traced,
}

module _ (p : Ports) (c : Client) (Q : Action → Type 0) (admits : Admits c Q)
    (secure : c.cas_login.scheme ≡ https) where
  -- A request to an address with the origin of the login page.
  pub cas_page :
      (r : HttpRequest)
      → r.url.scheme ≡ c.cas_login.scheme
      → same_host r.url c.cas_login ≡ true
      → Q (sent r)
  cas_page r s h = admits.cas_sent r (s ∙ secure) h

  qr_uuid-Traced : (page : Page) → Keeps (Traced Q) (qr_uuid p c page)
  unfolding qr_uuid
  qr_uuid-Traced page = search trace_rules

  after_confirmation-Traced :
      (client : HttpClient) (a : Attempt) (bytes : Bytes) (base : Url) (o : Option Capture)
      → Keeps (Traced Q) (after_confirmation p c client a bytes base o)
  unfolding after_confirmation
  after_confirmation-Traced client a bytes base (some t) =
      finish_activation-Traced p c Q admits client _ _ _ _
  after_confirmation-Traced client a bytes base none =
      search (trace_rules, unless_challenged-Traced p c Q admits)

  confirm_in_cas-Traced :
      (client : HttpClient) (a : Attempt) (target : Url)
      → Keeps (Traced Q) (confirm_in_cas p c client a target)
  unfolding confirm_in_cas
  confirm_in_cas-Traced client a target = Keeps-check _ _ _ (λ _. Keeps-check _ _ _ (λ h.
      let (s, o) = same_https_origin-parts target c.cas_login h in
      Keeps-bind _ _ (new_client-Traced p c Q admits _) (λ fresh.
        Keeps-bind _ _ (do_cas_request-Traced p c Q admits _ _ (λ _. admits.cas_sent _ s o))
          (λ answer. after_confirmation-Traced _ a answer.0 answer.1.url answer.1.capture))))

  finish_confirmation-Traced :
      (client : HttpClient) (a : Attempt) (raw_redirect : Bytes)
      → Keeps (Traced Q) (finish_confirmation p c client a raw_redirect)
  unfolding finish_confirmation
  finish_confirmation-Traced client a raw_redirect =
      search (trace_rules, finish_activation-Traced p c Q admits, confirm_in_cas-Traced)

  on_poll-Traced :
      (client : HttpClient) (a : Attempt) (again : M p c LoginResult) (poll : Poll)
      → Keeps (Traced Q) again
      → Keeps (Traced Q) (on_poll p c client a again poll)
  unfolding on_poll
  on_poll-Traced client a again (confirmed redirect) k =
      finish_confirmation-Traced client a redirect
  on_poll-Traced client a again (challenged ch) k = challenge_error-Traced p c Q admits a.method ch
  on_poll-Traced client a again expired k = Keeps-raise _
  on_poll-Traced client a again pending k =
      Keeps-bind _ _ (Traced-ask _) (λ fault. Keeps-bind _ _ (Keeps-lift _) (λ _. k))

  poll_request-Traced :
      (client : HttpClient) (uuid nonce : Bytes) (limit : ℕ)
      → Keeps (Traced Q) (request p c client (poll_url p c uuid nonce) limit)
  unfolding sibling_url with_param same_host
  poll_request-Traced client uuid nonce limit =
      request-Traced p c Q admits client (poll_url p c uuid nonce) limit
        (cas_page (get (poll_url p c uuid nonce) client.jar) refl (same_host_refl c.cas_login))

  poll_rounds-Traced :
      (n : ℕ) (client : HttpClient) (a : Attempt) (uuid : Bytes) (deadline : ℕ)
      → Keeps (Traced Q) (poll_rounds p c n client a uuid deadline)
  unfolding poll_rounds
  poll_rounds-Traced zero client a uuid deadline = Keeps-raise _
  poll_rounds-Traced (suc n) client a uuid deadline = Keeps-bind _ _ (Traced-look _) (λ at.
      Keeps-check _ _ _ (λ _. Keeps-bind _ _ (Traced-ask _) (λ nonce.
        Keeps-bind _ _ (Keeps-lift _) (λ fresh.
          Keeps-bind _ _ (poll_request-Traced client uuid fresh _) (λ bytes.
            Keeps-bind _ _ (Keeps-lift _) (λ poll.
              on_poll-Traced client a _ poll (poll_rounds-Traced n client a uuid deadline)))))))

  pub qr_login-Traced :
      (client : HttpClient) (a : Attempt) (page : Page)
      → Keeps (Traced Q) (qr_login p c client a page)
  unfolding qr_login
  qr_login-Traced client a page =
      search (trace_rules, qr_uuid-Traced, poll_rounds-Traced, admits.prompt) depth 14
