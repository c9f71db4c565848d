-- ===== src/Sdk/Scene.antt =====
-- Values for the tests: a gateway, a CAS, and what they answer to one login.
use ipgw_meta.Prelude.{String, ℕ, zero, suc, true, false, none, some, List, [], ◌∷◌, if◌then◌else◌}
use ipgw_meta.Prelude.Results.{Result, ok, err}
use ipgw_meta.Text.{Bytes, codes, bytes_eq}
use ipgw_meta.Sdk.Errors.{Fault, other}
use ipgw_meta.Sdk.Url.{Url, https}
use ipgw_meta.Sdk.Machine.{Reply, Page, Ports, Machine, offline, online, pending}
use ipgw_meta.Sdk.Http.{Client}
use ipgw_meta.Sdk.LoginTypes.{LoginRequest}

abbrev pub address : Bytes → String → String → Url
address scheme host path = record {
  scheme = scheme;
  opaque = [];
  has_user = false;
  hostname = codes host;
  port = [];
  path = codes path;
  query = [];
  query_ok = true;
  raw_query = false;
  fragment = [];
}

abbrev pub service_address : Url
service_address = address https "gw" "/srun"

abbrev pub ticket_address : Url
ticket_address = record service_address {
  query = (codes "ac_id", codes "1") ∷ (codes "ticket", codes "ST-1") ∷ [];
  raw_query = true;
}

abbrev pub cas_address : Url
cas_address = address https "cas" "/cas/login"

abbrev pub captive_address : Url
captive_address = address (codes "http") "gw" "/"

abbrev pub client : Client
client = record {
  status = address https "gw" "/status";
  logout = address https "gw" "/logout";
  captive = captive_address;
  cas_login = cas_address;
  service = service_address;
  activation = address https "gw" "/activate";
  poll_interval = 2;
  qr_lifetime = 6;
  verify_delay = 1;
}

abbrev pub plain_reply : String → Reply
plain_reply body = record { status = 200; location = []; body = ok (codes body) }

abbrev pub redirect_reply : String → Reply
redirect_reply location = record { status = 302; location = codes location; body = ok [] }

-- The answers to a login by password, in their order; the world counts them.
abbrev pub login_replies : List Reply
login_replies =
    plain_reply "off"
    ∷ plain_reply "?ac_id=1"
    ∷ plain_reply "page"
    ∷ redirect_reply "T"
    ∷ plain_reply "ok"
    ∷ plain_reply "on"
    ∷ []

-- An account that is online, and then is not.
abbrev pub logout_replies : List Reply
logout_replies = plain_reply "on" ∷ plain_reply "ok" ∷ plain_reply "off" ∷ []

abbrev pub online_replies : List Reply
online_replies = plain_reply "on" ∷ []

abbrev pub nth_reply : ℕ → List Reply → Result Fault Reply
nth_reply n [] = err other
nth_reply zero (r ∷ rs) = ok r
nth_reply (suc n) (r ∷ rs) = nth_reply n rs

abbrev pub login_page : Page
login_page = record {
  action = some cas_address;
  hidden = (codes "lt", codes "L") ∷ (codes "execution", codes "E") ∷ [];
  scripts = [];
  public_key = codes "K";
  challenge = none;
  qr_uuid = [];
  qr_supported = false;
}

abbrev pub answers : List Reply → Ports
answers replies = record {
  World = ℕ;
  round_trip = λ r n. (nth_reply n replies, suc n);
  ctx_err = λ n. none;
  acquire = λ taken n. (none, n);
  wait = λ d n. (none, n);
  now = λ n. n;
  has_observer = false;
  credential = λ user n. (ok (codes "pw"), n);
  prompt_qr = λ payload n. (none, n);
  random_uuid = λ n. (some (codes "U"), n);
  encrypt = λ user password key n. (some (codes "C"), n);
  parse_url = λ raw. some ticket_address;
  resolve = λ base target. target;
  parse_ref = λ base raw. some ticket_address;
  show_url = λ u. u.path;
  parse_status =
      λ raw. some (if bytes_eq raw (codes "on") then online (codes "u") [] none else offline);
  parse_activation = λ raw. some true;
  parse_logout = λ raw. some true;
  parse_page = λ base raw. some login_page;
  extract_public_key = λ raw. [];
  parse_poll = λ raw. some pending;
  detect_challenge = λ raw. some none;
  detect_failure = λ raw. some false;
}

abbrev pub fresh_machine : Machine ℕ
fresh_machine = record { world = 0; trace = []; locked = false; jars = 0 }

abbrev pub request_for : String → String → LoginRequest
request_for user method = record {
  method = method;
  expected_username = codes user;
  has_credentials = true;
  switch = "";
  has_interactions = false;
}
