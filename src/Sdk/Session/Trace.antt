-- ===== src/Sdk/Session/Trace.antt =====
-- What the status and logout operations put on the wire.
use ipgw_meta.Prelude.{ℕ, zero, suc, ◌≡◌, String, true, Option, none, some, []}
use ipgw_meta.Prelude.Results.{Result}
use ipgw_meta.Text.{Bytes, codes}
use ipgw_meta.Sdk.Errors.{GoError, Fault}
use ipgw_meta.Sdk.Url.{Url, https, same_host, same_hostname, is_https, with_param}
use ipgw_meta.Sdk.Machine.{HttpRequest, Ports, Action, sent, emitted, read_credential, prompted}
use ipgw_meta.Sdk.Machine.Keeps.{
  Keeps, Traced, Keeps-lift, Keeps-bind, Keeps-check, Keeps-attempt, Traced-ask, Traced-look,
  Traced-set_locked, Traced-is_locked, Keeps-catch_with, trace_rules,
}
use ipgw_meta.Sdk.Http.{Client, HttpClient, M, new_client, request, do_cas_request, Policy}
use ipgw_meta.Sdk.Http.Laws.{Followed, request-Keeps, do_cas_request-Keeps}
use ipgw_meta.Sdk.Session.{
  SessionState, Status, emit, observe, verify_again, verify_status, logout_online, unlocking,
  late_check, lock_context, locked, reporting, mutating, after_logout_status, logout_call,
}

abbrev pub get : Url → Option ℕ → HttpRequest
get url jar = record { method = "GET"; url = url; form = []; jar = jar }

abbrev pub logout_url : Client → Bytes → Url
logout_url c username =
    with_param (codes "username") username (with_param (codes "action") (codes "logout") c.logout)

abbrev pub activation_url : Client → Bytes → Bytes → Url
activation_url c ac_id ticket =
    with_param (codes "ticket") ticket (with_param (codes "ac_id") ac_id c.activation)

-- A property of actions that everything the SDK may do has.
pub record Admits (c : Client) (Q : Action → Type 0) : Type 0 where
  pub event : (name operation phase outcome : String) → Q (emitted name operation phase outcome)
  pub credential : (username : Bytes) → Q (read_credential username)
  pub prompt : (payload : Bytes) → Q (prompted payload)
  pub status_sent : (jar : Option ℕ) → is_https c.status ≡ true → Q (sent (get c.status jar))
  pub logout_sent :
      (jar : Option ℕ) (username : Bytes)
      → is_https c.logout ≡ true
      → Q (sent (get (logout_url c username) jar))
  pub activation_sent :
      (jar : Option ℕ) (ac_id ticket : Bytes)
      → is_https c.activation ≡ true
      → Q (sent (get (activation_url c ac_id ticket) jar))
  pub cas_sent :
      (r : HttpRequest) → r.url.scheme ≡ https → same_host r.url c.cas_login ≡ true → Q (sent r)
  pub discovery_sent : (url : Url) → same_hostname url c.captive ≡ true → Q (sent (get url none))

module _ (p : Ports) (c : Client) (Q : Action → Type 0) (admits : Admits c Q) where
  pub onward : (r r' : HttpRequest) → Followed c r r' → Q (sent r) → Q (sent r')
  onward r r' f _ = admits.cas_sent r' f.scheme f.host

  pub request-Traced :
      (client : HttpClient) (target : Url) (limit : ℕ)
      → Q (sent (get target client.jar))
      → Keeps (Traced Q) (request p c client target limit)
  request-Traced = request-Keeps p c Q onward

  pub do_cas_request-Traced :
      (policy : Policy) (r : HttpRequest)
      → (is_https r.url ≡ true → Q (sent r))
      → Keeps (Traced Q) (do_cas_request p c policy r)
  do_cas_request-Traced = do_cas_request-Keeps p c Q onward

  pub emit-Traced :
      (name operation phase outcome : String)
      → Keeps (Traced Q) (emit p c name operation phase outcome)
  unfolding emit
  emit-Traced name operation phase outcome =
      search (trace_rules, admits.event name operation phase outcome)

  pub new_client-Traced : (policy : Policy) → Keeps (Traced Q) (new_client p c policy)
  unfolding new_client
  new_client-Traced policy = search trace_rules

  pub observe-Traced : (client : HttpClient) → Keeps (Traced Q) (observe p c client)
  unfolding observe
  observe-Traced client = Keeps-check _ _ _ (λ s.
      Keeps-bind _ _ (request-Traced client c.status _ (admits.status_sent client.jar s))
        (λ bytes. search trace_rules))

  verify_again-Traced :
      (n : ℕ) (client : HttpClient) (expected : SessionState) (username : Bytes) (last : Status)
      → Keeps (Traced Q) (verify_again p c n client expected username last)
  unfolding verify_again
  verify_again-Traced zero client expected username last = search trace_rules
  verify_again-Traced (suc n) client expected username last =
      search (trace_rules, observe-Traced, verify_again-Traced n client expected username)

  pub verify_status-Traced :
      (client : HttpClient) (expected : SessionState) (username : Bytes)
      → Keeps (Traced Q) (verify_status p c client expected username)
  unfolding verify_status
  verify_status-Traced client expected username =
      search (trace_rules, observe-Traced, verify_again-Traced)

  pub logout_online-Traced :
      (client : HttpClient) (username : Bytes)
      → Keeps (Traced Q) (logout_online p c client username)
  unfolding logout_online
  logout_online-Traced client username = Keeps-check _ _ _ (λ s.
      Keeps-bind _ _
        (request-Traced client (logout_url c username) _ (admits.logout_sent client.jar username s))
        (λ bytes. search (trace_rules, verify_status-Traced)))

  unlocking-Traced : {A : Type 0} (r : Result GoError A) → Keeps (Traced Q) (unlocking p c r)
  unfolding unlocking
  unlocking-Traced r = search trace_rules

  late_check-Traced : (late : Option Fault) → Keeps (Traced Q) (late_check p c late)
  unfolding late_check
  late_check-Traced none = search trace_rules
  late_check-Traced (some fault) = search trace_rules

  lock_context-Traced : Keeps (Traced Q) (lock_context p c)
  unfolding lock_context
  lock_context-Traced = Keeps-bind _ _ (Traced-look _) (λ early. Keeps-bind _ _ (Keeps-lift _) (λ _.
      Keeps-bind _ _ Traced-is_locked (λ taken. Keeps-bind _ _ (Traced-ask _) (λ fault.
        Keeps-bind _ _ (Keeps-lift _) (λ _.
          Keeps-bind _ _ (Traced-set_locked true)
            (λ _. Keeps-bind _ _ (Traced-look _) late_check-Traced))))))

  locked-Traced :
      {A : Type 0} (canceled : String) (body : M p c A)
      → Keeps (Traced Q) body
      → Keeps (Traced Q) (locked p c canceled body)
  unfolding locked
  locked-Traced canceled body k =
      Keeps-bind _ _ (Keeps-catch_with _ _ lock_context-Traced)
        (λ _. Keeps-bind _ _ (Keeps-attempt _ k) unlocking-Traced)

  reporting-Traced :
      {A : Type 0} (operation : String) (r : Result GoError A)
      → Keeps (Traced Q) (reporting p c operation r)
  unfolding reporting
  reporting-Traced operation r = search (trace_rules, emit-Traced)

  pub mutating-Traced :
      {A : Type 0} (operation canceled : String) (body : M p c A)
      → Keeps (Traced Q) body
      → Keeps (Traced Q) (mutating p c operation canceled body)
  unfolding mutating
  mutating-Traced operation canceled body k = Keeps-bind _ _ (emit-Traced _ _ _ _) (λ _.
      Keeps-bind _ _ (Keeps-attempt _ (locked-Traced canceled body k)) (reporting-Traced operation))

  pub logout_call-Traced : Keeps (Traced Q) (logout_call p c)
  unfolding logout_call after_logout_status
  logout_call-Traced =
      mutating-Traced _ _ _
        (search (trace_rules, new_client-Traced, observe-Traced, logout_online-Traced))
