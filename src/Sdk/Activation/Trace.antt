-- ===== src/Sdk/Activation/Trace.antt =====
-- What challenges and the activation put on the wire.
use ipgw_meta.Prelude.{arith, ◌≡◌, String, true, Option, none, some}
use ipgw_meta.Text.{Bytes}
use ipgw_meta.Text.Laws.{bytes_eq→eq}
use ipgw_meta.Sdk.Url.{Url, https, same_host, same_https_origin, is_https}
use ipgw_meta.Sdk.Machine.{Challenge, Ports, Action}
use ipgw_meta.Sdk.Machine.Keeps.{
  Keeps, Traced, Keeps-bind, Keeps-lift, Keeps-raise, Keeps-check, Keeps-catch_with, trace_rules,
}
use ipgw_meta.Sdk.Http.{Client, reject_all, HttpClient, M}
use ipgw_meta.Sdk.Http.Laws.{client_do-Keeps}
use ipgw_meta.Sdk.Session.Trace.{
  Admits, onward, emit-Traced, new_client-Traced, verify_status-Traced,
}
use ipgw_meta.Sdk.Challenge.{challenge_error, unless_challenged}
use ipgw_meta.Sdk.Activation.{accept_activation, finish_activation}

pub is_https-scheme : (u : Url) → is_https u ≡ true → u.scheme ≡ https
unfolding is_https
is_https-scheme u h = ground (arith, bytes_eq→eq u.scheme https)

pub same_https_origin-parts :
    (u v : Url) → same_https_origin u v ≡ true → (u.scheme ≡ https) × (same_host u v ≡ true)
unfolding same_https_origin
same_https_origin-parts u v h = ground (arith, bytes_eq→eq u.scheme https)

module _ (p : Ports) (c : Client) (Q : Action → Type 0) (admits : Admits c Q) where
  pub challenge_error-Traced :
      {A : Type 0} (method : String) (ch : Challenge)
      → Keeps (Traced Q) (challenge_error p c {A = A} method ch)
  unfolding challenge_error
  challenge_error-Traced method ch =
      Keeps-bind _ _ (emit-Traced p c Q admits _ _ _ _) (λ _. Keeps-raise _)

  pub unless_challenged-Traced :
      {A : Type 0} (method : String) (o : Option Challenge) (rest : M p c A)
      → Keeps (Traced Q) rest
      → Keeps (Traced Q) (unless_challenged p c method o rest)
  unfolding unless_challenged
  unless_challenged-Traced method none rest k = k
  unless_challenged-Traced method (some ch) rest k = challenge_error-Traced method ch

  accept_activation-Traced :
      (client : HttpClient) (method : String) (expected bytes : Bytes)
      → Keeps (Traced Q) (accept_activation p c client method expected bytes)
  unfolding accept_activation
  accept_activation-Traced client method expected bytes = Keeps-bind _ _ (Keeps-lift _) (λ ch.
      unless_challenged-Traced method ch _
        (search (trace_rules, verify_status-Traced p c Q admits)))

  pub finish_activation-Traced :
      (client : HttpClient) (method : String) (expected ac_id ticket : Bytes)
      → Keeps (Traced Q) (finish_activation p c client method expected ac_id ticket)
  unfolding finish_activation
  finish_activation-Traced client method expected ac_id ticket = Keeps-check _ _ _ (λ s.
      Keeps-check _ _ _ (λ _. Keeps-bind _ _ (new_client-Traced p c Q admits reject_all) (λ fresh.
        Keeps-bind _ _
          (Keeps-catch_with _ _ (
            client_do-Keeps p c Q (onward p c Q admits) reject_all _
              (admits.activation_sent client.jar ac_id ticket s)))
          (λ landing. search (trace_rules, accept_activation-Traced)))))
