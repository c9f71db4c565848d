-- ===== src/Sdk/Http/Rounds.antt =====
-- The rounds that `http.Client.Do` is given are more than it ever uses.
use ipgw_meta.Prelude.{
  arith, ℕ, zero, suc, ◌+◌, ◌≤◌, ◌≡◌, refl, Bool, true, false, not, ◌&&◌, Option, none, some, [],
  if◌then◌else◌,
}
use ipgw_meta.Sdk.Errors.{Fault}
use ipgw_meta.Text.{bytes_eq}
use ipgw_meta.Sdk.Url.{Url, Decision, follow, stop, reject}
use ipgw_meta.Sdk.Url.Laws.{cas_redirect-follow}
use ipgw_meta.Sdk.Machine.{HttpRequest, Reply, Ports, Machine, Exec}
use ipgw_meta.Sdk.Machine.Steps.{bind_cong}
use ipgw_meta.Sdk.Http.{
  Client, Policy, reject_all, stay, cas, Landing, decide, land, to_target, after_reply, max_rounds,
  do_rounds, client_do, is_redirect,
}

decide-via :
    (p : Ports) (c : Client) (policy : Policy) (target : Url) (via : ℕ)
    → decide p c policy target via ≡ follow
    → via ≤ 10
unfolding decide
decide-via p c (cas service) target via h = (cas_redirect-follow c.cas_login service target via h).4
decide-via p c reject_all target via h = absurd (cc)
decide-via p c stay target via h = absurd (cc)

if_cong :
    {S A : Type 0} (b : Bool) (f g h : S → A) (s : S)
    → f s ≡ g s
    → (if b then f else h) s ≡ (if b then g else h) s
if_cong true f g h s e = e
if_cong false f g h s e = refl

module _ (p : Ports) (c : Client) where
  land_cong :
      (d : Decision) (r : HttpRequest) (reply : Reply) (f g : Exec (Machine p.World) Fault Landing)
      (m : Machine p.World)
      → (d ≡ follow → f m ≡ g m)
      → land p c d r reply f m ≡ land p c d r reply g m
  unfolding land
  land_cong follow r reply f g m h = h refl
  land_cong (stop capture) r reply f g m h = refl
  land_cong reject r reply f g m h = refl

  to_target_cong :
      (o : Option Url) (policy : Policy) (via : ℕ) (r : HttpRequest) (reply : Reply)
      (f g : HttpRequest → Exec (Machine p.World) Fault Landing) (m : Machine p.World)
      → (via ≤ 10 → (r' : HttpRequest) → f r' m ≡ g r' m)
      → to_target p c o policy via r reply f m ≡ to_target p c o policy via r reply g m
  unfolding to_target
  to_target_cong none policy via r reply f g m h = refl
  to_target_cong (some target) policy via r reply f g m h =
      land_cong (decide p c policy target via) r reply _ _ m
        (λ d. h (decide-via p c policy target via d) _)

  after_reply_cong :
      (policy : Policy) (via : ℕ) (r : HttpRequest) (reply : Reply)
      (f g : HttpRequest → Exec (Machine p.World) Fault Landing)
      → (via ≤ 10 → (r' : HttpRequest) (m : Machine p.World) → f r' m ≡ g r' m)
      → (m : Machine p.World)
      → after_reply p c policy via r reply f m ≡ after_reply p c policy via r reply g m
  unfolding after_reply
  after_reply_cong policy via r reply f g h m =
      if_cong (is_redirect reply.status && not (bytes_eq reply.location [])) _ _ _ m (
        to_target_cong (p.parse_ref r.url reply.location) policy via r reply f g m
          (λ v r'. h v r' m))

  -- With fuel for the requests up to the eleventh, more fuel changes nothing.
  do_rounds_mono :
      (n n' : ℕ) (policy : Policy) (via : ℕ) (r : HttpRequest) (m : Machine p.World)
      → n ≤ n'
      → 11 ≤ n + via
      → do_rounds p c (suc n') policy via r m ≡ do_rounds p c (suc n) policy via r m
  unfolding do_rounds
  do_rounds_mono zero n' policy via r m l e =
      bind_cong _ _ _ (λ reply. after_reply_cong policy via r reply _ _ (λ v. absurd (omega arith)))
        m
  do_rounds_mono (suc n) zero policy via r m l e = absurd (omega arith)
  do_rounds_mono (suc n) (suc n') policy via r m l e =
      bind_cong _ _ _
        (λ reply.
          after_reply_cong policy via r reply _ _
            (λ _ r' m'. do_rounds_mono n n' policy (suc via) r' m' (omega arith) (omega arith)))
        m

  -- The rounds of a client are enough: with any number of rounds from `max_rounds` on, a request and
  -- its redirects have the same result and the same effects, under every policy.
  pub client_do_lem :
      (n : ℕ) (policy : Policy) (r : HttpRequest) (m : Machine p.World)
      → max_rounds ≤ n
      → do_rounds p c n policy 1 r m ≡ client_do p c policy r m
  unfolding client_do
  client_do_lem zero policy r m l = absurd (omega arith)
  client_do_lem (suc n) policy r m l = do_rounds_mono 11 n policy 1 r m (omega arith) (omega arith)
