-- ===== src/Sdk/Url.antt =====
-- auth.go and client.go: URLs in parsed form, and the checks on their origin. Host names are ASCII.
pub mod Laws
use ipgw_meta.Prelude.{
  ℕ, zero, suc, ◌≤◌, Bool, true, false, not, ◌&&◌, ◌||◌, Option, none, some, List, [], ◌∷◌, ◌++◌,
  ltb, leb, length, ◌==◌, all, any, if◌then◌else◌,
}
use ipgw_meta.Text.{Bytes, codes, bytes_eq, to_lower, contains_any}

-- `query` holds the pairs that decode, in order, and `query_ok` says that all of them did.
pub record Url : Type 0 where
  pub scheme : Bytes
  pub opaque : Bytes
  pub has_user : Bool
  pub hostname : Bytes
  pub port : Bytes
  pub path : Bytes  -- escaped
  pub query : List (Bytes × Bytes)
  pub query_ok : Bool
  pub raw_query : Bool  -- a query is present, if only a `?`
  pub fragment : Bytes

-- `query[key]`
unfoldable pub query_values : Bytes → List (Bytes × Bytes) → List Bytes
query_values key [] = []
query_values key ((k, v) ∷ q) =
    let rest = query_values key q in if bytes_eq k key then v ∷ rest else rest

-- `query.Get(key)`
unfoldable pub query_get : Bytes → List (Bytes × Bytes) → Bytes
query_get key [] = []
query_get key ((k, v) ∷ q) = if bytes_eq k key then v else query_get key q

without_key : Bytes → List (Bytes × Bytes) → List (Bytes × Bytes)
without_key key [] = []
without_key key ((k, v) ∷ q) =
    let rest = without_key key q in if bytes_eq k key then rest else (k, v) ∷ rest

-- `query.Set(key, value)` and the encoding back into the URL.
unfoldable pub with_param : Bytes → Bytes → Url → Url
unfolding without_key
with_param key value u = record u {
  query = without_key key u.query ++ ((key, value) ∷ []);
  query_ok = true;
  raw_query = true;
}

-- `len(query)`: the number of different keys.
unfoldable pub key_count : List Bytes → List (Bytes × Bytes) → ℕ
key_count seen [] = 0
key_count seen ((k, v) ∷ q) =
    let known = any (bytes_eq k) seen in
    let rest = key_count (if known then seen else k ∷ seen) q in if known then rest else suc rest

unfoldable pub equal_fold : Bytes → Bytes → Bool
equal_fold a b = bytes_eq (to_lower a) (to_lower b)

abbrev pub https : Bytes
https = codes "https"

unfoldable pub normalized_port : Url → Bytes
normalized_port u =
    if bytes_eq u.port []
    then (if bytes_eq u.scheme https
        then codes "443"
        else if bytes_eq u.scheme (codes "http")
        then codes "80"
        else [])
    else u.port

unfoldable pub same_hostname : Url → Url → Bool
unfolding equal_fold
same_hostname left right = equal_fold left.hostname right.hostname

unfoldable pub same_host : Url → Url → Bool
unfolding equal_fold normalized_port
same_host left right =
    equal_fold left.hostname right.hostname
    && bytes_eq (normalized_port left) (normalized_port right)

-- `requireHTTPS`
unfoldable pub is_https : Url → Bool
is_https u =
    bytes_eq u.scheme https && not (bytes_eq u.hostname [] && bytes_eq u.port []) && not u.has_user

-- `validateSameHTTPSOrigin`
unfoldable pub same_https_origin : Url → Url → Bool
unfolding same_host
same_https_origin target expected =
    bytes_eq target.scheme https && not target.has_user && same_host target expected

unfoldable pub same_service_target : Url → Url → Bool
unfolding same_host
same_service_target target expected =
    bytes_eq target.scheme expected.scheme
    && same_host target expected
    && bytes_eq target.path expected.path
    && not target.has_user
    && bytes_eq target.fragment []

-- `acIDPattern`: one to ten digits.
unfoldable pub is_ac_id : Bytes → Bool
is_ac_id s = all (λ c. leb b'0' c && leb c b'9') s && leb 1 (length s) && leb (length s) 10

pub record Capture : Type 0 where
  pub ticket : Bytes
  pub ac_id : Bytes

abbrev is_single : List Bytes → Bool
is_single (_ ∷ []) = true
is_single _ = false

unfoldable pub ticket_shape : Bytes → Bool
ticket_shape ticket =
    not (bytes_eq ticket [])
    && leb (length ticket) 4096
    && not (contains_any ticket (codes "\r\n\t "))

-- `validatedTicket`
unfoldable pub validated_ticket : Url → Url → Option Capture
validated_ticket target expected =
    let q = target.query in
    let ticket = query_get (codes "ticket") q in
    let ac_id = query_get (codes "ac_id") q in
    if target.query_ok
      && (key_count [] q == 2)
      && is_single (query_values (codes "ticket") q)
      && is_single (query_values (codes "ac_id") q)
      && ticket_shape ticket
      && bytes_eq ac_id (query_get (codes "ac_id") expected.query)
      && is_ac_id ac_id
    then some (record { ticket = ticket; ac_id = ac_id })
    else none

-- What a redirect policy answers for the next request.
pub data Decision : Type 0 where
  follow : Decision
  stop : Option Capture → Decision
  reject : Decision

ticket_decision : Option Capture → Decision
ticket_decision none = reject
ticket_decision (some c) = stop (some c)

-- `casRedirectPolicy`, with the number of requests made so far.
unfoldable pub cas_redirect : Url → Url → Url → ℕ → Decision
unfolding ticket_decision
cas_redirect cas_login service target via =
    if ltb 10 via
    then reject
    else if same_service_target target service
    then ticket_decision (validated_ticket target service)
    else if not (bytes_eq (query_get (codes "ticket") target.query) [])
    then reject
    else if bytes_eq target.scheme https && same_host target cas_login && not target.has_user
    then follow
    else reject
