-- ===== src/Sdk/Http/Clock.antt =====
-- Time does not run backwards while a request is made.
use ipgw_meta.Prelude.{arith, ℕ, zero, suc, ◌≤◌, Option, none, some}
use ipgw_meta.Sdk.Errors.{Fault}
use ipgw_meta.Sdk.Url.{Url, Decision, follow, stop, reject}
use ipgw_meta.Sdk.Machine.{HttpRequest, Reply, Ports, Machine, Exec, Action, ask, note}
use ipgw_meta.Sdk.Machine.Keeps.{
  Keeps, Keeps-pure, Keeps-raise, Keeps-lift, Keeps-bind, Keeps-catch_with, keeps_rules,
}
use ipgw_meta.Sdk.Http.{
  Client, Policy, HttpClient, Landing, decide, exchange, land, to_target, after_reply, max_rounds,
  do_rounds, client_do, request,
}

-- The clock shows at least `t`.
abbrev pub IsAfter : (p : Ports) → ℕ → Machine p.World → Type 0
IsAfter p t m = t ≤ p.now m.world

module _ (p : Ports) {E : Type 0} (t : ℕ) where
  note-IsAfter : (a : Action) → Keeps {E = E} (IsAfter p t) (note a)
  unfolding note
  note-IsAfter a = record { at = λ m h. h }

  pub ask-IsAfter :
      {A : Type 0} (f : p.World → A × p.World)
      → ((w : p.World) → p.now w ≤ p.now (f w).1)
      → Keeps {E = E} (IsAfter p t) (ask f)
  unfolding ask
  ask-IsAfter f k = record { at = λ m h. let l = k m.world in omega arith }

module _ (p : Ports) (c : Client) (t : ℕ)
    (forward : (r : HttpRequest) (w : p.World) → p.now w ≤ p.now (p.round_trip r w).1) where
  exchange-IsAfter : (r : HttpRequest) → Keeps (IsAfter p t) (exchange p c r)
  unfolding exchange
  exchange-IsAfter r =
      Keeps-bind _ _ (note-IsAfter p t _)
        (λ _. Keeps-bind _ _ (ask-IsAfter p t _ (forward r)) (λ reply. Keeps-lift _))

  land-IsAfter :
      (d : Decision) (r : HttpRequest) (reply : Reply)
      (further : Exec (Machine p.World) Fault Landing)
      → Keeps (IsAfter p t) further
      → Keeps (IsAfter p t) (land p c d r reply further)
  unfolding land
  land-IsAfter follow r reply further k = k
  land-IsAfter (stop capture) r reply further k = Keeps-pure _
  land-IsAfter reject r reply further k = Keeps-raise _

  to_target-IsAfter :
      (o : Option Url) (policy : Policy) (via : ℕ) (r : HttpRequest) (reply : Reply)
      (further : HttpRequest → Exec (Machine p.World) Fault Landing)
      → ((r' : HttpRequest) → Keeps (IsAfter p t) (further r'))
      → Keeps (IsAfter p t) (to_target p c o policy via r reply further)
  unfolding to_target
  to_target-IsAfter none policy via r reply further k = Keeps-raise _
  to_target-IsAfter (some target) policy via r reply further k =
      land-IsAfter (decide p c policy target via) r reply _ (k _)

  after_reply-IsAfter :
      (policy : Policy) (via : ℕ) (r : HttpRequest) (reply : Reply)
      (further : HttpRequest → Exec (Machine p.World) Fault Landing)
      → ((r' : HttpRequest) → Keeps (IsAfter p t) (further r'))
      → Keeps (IsAfter p t) (after_reply p c policy via r reply further)
  unfolding after_reply
  after_reply-IsAfter policy via r reply further k = search (
    keeps_rules,
    to_target-IsAfter (p.parse_ref r.url reply.location) policy via r reply further k,
  )

  do_rounds-IsAfter :
      (n : ℕ) (policy : Policy) (via : ℕ) (r : HttpRequest)
      → Keeps (IsAfter p t) (do_rounds p c n policy via r)
  unfolding do_rounds
  do_rounds-IsAfter zero policy via r = Keeps-raise _
  do_rounds-IsAfter (suc n) policy via r = Keeps-bind _ _ (exchange-IsAfter r) (λ reply.
      after_reply-IsAfter policy via r reply _ (λ r'. do_rounds-IsAfter n policy (suc via) r'))

  pub request-IsAfter :
      (client : HttpClient) (target : Url) (limit : ℕ)
      → Keeps (IsAfter p t) (request p c client target limit)
  unfolding request client_do
  request-IsAfter client target limit =
      Keeps-bind _ _ (Keeps-catch_with _ _ (do_rounds-IsAfter max_rounds client.policy 1 _))
        (λ landing. search keeps_rules)
