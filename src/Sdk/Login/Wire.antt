-- ===== src/Sdk/Login/Wire.antt =====
-- Where the requests of a login may go.
use ipgw_meta.Prelude.{◌≡◌, refl, true, none, [], ◌⊎◌, inl, inr, All}
use ipgw_meta.Text.{Bytes}
use ipgw_meta.Sdk.Url.{Url, https, same_host, same_hostname, with_param}
use ipgw_meta.Sdk.Url.Laws.{same_host_refl}
use ipgw_meta.Sdk.Machine.{
  HttpRequest, Ports, Machine, Action, sent, emitted, read_credential, prompted,
}
use ipgw_meta.Sdk.Http.{Client}
use ipgw_meta.Sdk.Session.{logout_call}
use ipgw_meta.Sdk.Session.Trace.{Admits, logout_url, activation_url, logout_call-Traced}
use ipgw_meta.Sdk.LoginTypes.{LoginRequest}
use ipgw_meta.Sdk.Activation.Trace.{is_https-scheme}
use ipgw_meta.Sdk.Login.{login_call}
use ipgw_meta.Sdk.Login.Trace.{login_call-Traced}

-- An address of the gateway that takes part in a session.
abbrev pub IsGateway : Client → Url → Type 0
IsGateway c u =
    (same_host u c.status ≡ true)
    ⊎ ((same_host u c.logout ≡ true) ⊎ (same_host u c.activation ≡ true))

-- A request is for CAS over HTTPS; or has no form and is for the gateway over HTTPS; or has neither
-- a form nor cookies and is for the portal.
abbrev pub IsTrusted : Client → HttpRequest → Type 0
IsTrusted c r =
    ((r.url.scheme ≡ https) × (same_host r.url c.cas_login ≡ true))
    ⊎ (((r.url.scheme ≡ https) × (r.form ≡ []) × IsGateway c r.url)
        ⊎ ((r.form ≡ []) × (r.jar ≡ none) × (same_hostname r.url c.captive ≡ true)))

abbrev pub OnWire : Client → Action → Type 0
OnWire c (sent r) = IsTrusted c r
OnWire c (emitted _ _ _ _) = Unit
OnWire c (read_credential _) = Unit
OnWire c (prompted _) = Unit

logout_url-host :
    (c : Client) (username : Bytes) → same_host (logout_url c username) c.logout ≡ true
unfolding same_host with_param
logout_url-host c username = same_host_refl c.logout

logout_url-scheme :
    (c : Client) (username : Bytes) → (logout_url c username).scheme ≡ c.logout.scheme
unfolding with_param
logout_url-scheme c username = refl

activation_url-host :
    (c : Client) (ac_id ticket : Bytes)
    → same_host (activation_url c ac_id ticket) c.activation ≡ true
unfolding same_host with_param
activation_url-host c ac_id ticket = same_host_refl c.activation

activation_url-scheme :
    (c : Client) (ac_id ticket : Bytes)
    → (activation_url c ac_id ticket).scheme ≡ c.activation.scheme
unfolding with_param
activation_url-scheme c ac_id ticket = refl

OnWire-Admits : (c : Client) → Admits c (OnWire c)
OnWire-Admits c = record {
  event = λ name operation phase outcome. tt;
  credential = λ username. tt;
  prompt = λ payload. tt;
  status_sent =
      λ jar s. inr (inl (is_https-scheme c.status s, refl, inl (same_host_refl c.status)));
  logout_sent = λ jar username s. inr (
      inl (
        rw (logout_url-scheme c username) (is_https-scheme c.logout s),
        refl,
        inr (inl (logout_url-host c username)),
      ));
  activation_sent = λ jar ac_id ticket s. inr (
      inl (
        rw (activation_url-scheme c ac_id ticket) (is_https-scheme c.activation s),
        refl,
        inr (inr (activation_url-host c ac_id ticket)),
      ));
  cas_sent = λ r s h. inl (s, h);
  discovery_sent = λ url h. inr (inr (refl, refl, h));
}

-- With a login page over HTTPS, and if it held of the actions before: whatever the replies and the
-- redirects say, a login sends every request to the CAS host over HTTPS, or, without a form, to a
-- host of the gateway over HTTPS, or, without form and cookies, to the host of the portal.
pub login_call-OnWire :
    (p : Ports) (c : Client) (r : LoginRequest) (m : Machine p.World)
    → c.cas_login.scheme ≡ https
    → All (OnWire c) m.trace
    → All (OnWire c) (login_call p c r m).1.trace
login_call-OnWire p c r m secure h =
    (login_call-Traced p c (OnWire c) (OnWire-Admits c) secure r).at m h

-- If it held of the actions before, a logout sends every request to the CAS host over HTTPS, or
-- without a form to a host of the gateway over HTTPS, or without form and cookies to the portal.
pub logout_call-OnWire :
    (p : Ports) (c : Client) (m : Machine p.World)
    → All (OnWire c) m.trace
    → All (OnWire c) (logout_call p c m).1.trace
logout_call-OnWire p c m h = (logout_call-Traced p c (OnWire c) (OnWire-Admits c)).at m h
