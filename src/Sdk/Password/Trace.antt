-- ===== src/Sdk/Password/Trace.antt =====
-- What the password login puts on the wire.
use ipgw_meta.Prelude.{arith, ◌≡◌, String, true, Option, none, some, List, [], ◌∷◌, All}
use ipgw_meta.Prelude.Results.{Result, ok, err}
use ipgw_meta.Text.{Bytes}
use ipgw_meta.Sdk.Errors.{GoError}
use ipgw_meta.Sdk.Url.{Url, Capture, https, same_host, same_https_origin}
use ipgw_meta.Sdk.Machine.{Page, Ports, Action}
use ipgw_meta.Sdk.Machine.Keeps.{Keeps, Traced, Keeps-bind, Keeps-attempt, trace_rules}
use ipgw_meta.Sdk.Http.{Client, HttpClient, M}
use ipgw_meta.Sdk.Session.Trace.{
  Admits, get, request-Traced, do_cas_request-Traced, new_client-Traced,
}
use ipgw_meta.Sdk.Form.{is_script, script_candidates}
use ipgw_meta.Sdk.Password.{
  Attempt, Fields, try_script, find_key, public_key, require_key, encrypted_credential, after_post,
  submit_form, password_login,
}
use ipgw_meta.Sdk.Activation.Trace.{
  same_https_origin-parts, unless_challenged-Traced, finish_activation-Traced,
}

-- A script that is fetched stands on the CAS origin.
script_candidates-origin :
    (c : Client) (us : List Url)
    → All (λ u. (u.scheme ≡ https) × (same_host u c.cas_login ≡ true)) (script_candidates c us)
unfolding script_candidates is_script
script_candidates-origin c [] = tt
script_candidates-origin c (u ∷ us) =
    ground (arith, script_candidates-origin c us, same_https_origin-parts u c.cas_login)

module _ (p : Ports) (c : Client) (Q : Action → Type 0) (admits : Admits c Q) where
  try_script-Traced :
      (r : Result GoError Bytes) (rest : M p c Bytes)
      → Keeps (Traced Q) rest
      → Keeps (Traced Q) (try_script p c r rest)
  unfolding try_script
  try_script-Traced (err e) rest k = search (trace_rules, k)
  try_script-Traced (ok script) rest k = search (trace_rules, k)

  find_key-Traced :
      (client : HttpClient) (us : List Url)
      → All (λ u. (u.scheme ≡ https) × (same_host u c.cas_login ≡ true)) us
      → Keeps (Traced Q) (find_key p c client us)
  unfolding find_key
  find_key-Traced client [] h = search trace_rules
  find_key-Traced client (u ∷ us) h =
      Keeps-bind _ _
        (Keeps-attempt _
          (request-Traced p c Q admits client u _ (admits.cas_sent (get u client.jar) h.0.0 h.0.1)))
        (λ script. try_script-Traced script _ (find_key-Traced client us h.1))

  public_key-Traced :
      (client : HttpClient) (page : Page) → Keeps (Traced Q) (public_key p c client page)
  unfolding public_key
  public_key-Traced client page =
      search (trace_rules, find_key-Traced client _ (script_candidates-origin c page.scripts))

  require_key-Traced :
      (method : String) (page_data key : Bytes)
      → Keeps (Traced Q) (require_key p c method page_data key)
  unfolding require_key
  require_key-Traced method page_data key =
      search (trace_rules, unless_challenged-Traced p c Q admits)

  encrypted_credential-Traced :
      (username key : Bytes) → Keeps (Traced Q) (encrypted_credential p c username key)
  unfolding encrypted_credential
  encrypted_credential-Traced username key =
      search (trace_rules, admits.credential username) depth 12

  after_post-Traced :
      (client : HttpClient) (a : Attempt) (bytes : Bytes) (o : Option Capture)
      → Keeps (Traced Q) (after_post p c client a bytes o)
  unfolding after_post
  after_post-Traced client a bytes (some t) = finish_activation-Traced p c Q admits client _ _ _ _
  after_post-Traced client a bytes none =
      search (trace_rules, unless_challenged-Traced p c Q admits)

  submit_form-Traced :
      (client : HttpClient) (a : Attempt) (f : Fields) (password encrypted : Bytes)
      → same_https_origin f.action c.cas_login ≡ true
      → Keeps (Traced Q) (submit_form p c client a f password encrypted)
  unfolding submit_form
  submit_form-Traced client a f password encrypted h =
      let (s, o) = same_https_origin-parts f.action c.cas_login h in
      Keeps-bind _ _ (new_client-Traced p c Q admits _) (λ fresh.
        Keeps-bind _ _ (do_cas_request-Traced p c Q admits _ _ (λ _. admits.cas_sent _ s o))
          (λ answer. after_post-Traced _ a answer.0 answer.1.capture))

  pub password_login-Traced :
      (client : HttpClient) (a : Attempt) (page : Page) (page_data : Bytes)
      → Keeps (Traced Q) (password_login p c client a page page_data)
  unfolding password_login
  password_login-Traced client a page page_data =
      search
        (
          trace_rules, public_key-Traced, require_key-Traced, encrypted_credential-Traced,
          submit_form-Traced,
        )
        depth 12
