-- ===== src/Sdk/Discovery.antt =====
-- auth.go: `discoverACID`, which asks the captive portal for the access-controller ID without
-- cookies and follows at most one redirect, which it checks first.
pub mod Laws
use ipgw_meta.Prelude.{
  ℕ, zero, suc, ◌+◌, ◌-◌, ◌*◌, ◌++◌, String, Bool, true, false, not, ◌&&◌, ◌||◌, Option, none, some,
  List, [], ◌∷◌, ltb, leb, length, all, any, ◌==◌, if◌then◌else◌,
}
use ipgw_meta.Prelude.Results.{Result, ok, err}
use ipgw_meta.Text.{Bytes, codes, bytes_eq, has_prefix, strip_prefix, contains_byte, to_lower}
use ipgw_meta.Sdk.Errors.{
  Fault, response_too_large, GoError, sdk, raw, network, protocol_changed, new_error, wrap_error,
}
use ipgw_meta.Sdk.Url.{Url, https, same_hostname, query_values, is_ac_id}
use ipgw_meta.Sdk.Machine.{
  HttpRequest, Reply, Ports, pure, raise, lift, ◌>>=◌, ◌>>◌, catch_with, check, some_or,
}
use ipgw_meta.Sdk.Http.{
  Client, Policy, stay, M, client_do, is_redirect, read_all, status_response_limit,
}
use ipgw_meta.Sdk.Session.{emit, plain_error}

-- `strings.Split(path, "/")`
unfoldable pub split_on : ℕ → Bytes → Bytes → List Bytes
split_on c cur [] = cur ∷ []
split_on c cur (x ∷ s) =
    let closed = cur ∷ split_on c [] s in
    let longer = split_on c (cur ++ (x ∷ [])) s in if x == c then closed else longer

unfoldable pub is_control : ℕ → Bool
is_control c = ltb c 0x20 || (c == 0x7f)

unfoldable pub is_dots : Bytes → Bool
is_dots segment = bytes_eq segment (codes ".") || bytes_eq segment (codes "..")

hex_value : ℕ → Option ℕ
hex_value c =
    if leb b'0' c && leb c b'9'
    then some (c - b'0')
    else if leb b'a' c && leb c b'f'
    then some (c - b'a' + 10)
    else if leb b'A' c && leb c b'F'
    then some (c - b'A' + 10)
    else none

cons_hex : Option ℕ → Option ℕ → Option Bytes → Option Bytes
cons_hex (some h) (some l) (some rest) = some ((16 * h + l) ∷ rest)
cons_hex _ _ _ = none

cons_plain : ℕ → Option Bytes → Option Bytes
cons_plain c none = none
cons_plain c (some rest) = some (c ∷ rest)

-- `url.PathUnescape`
unfoldable pub path_unescape : Bytes → Option Bytes
unfolding hex_value cons_hex cons_plain
path_unescape [] = some []
path_unescape (a ∷ []) = if a == b'%' then none else some (a ∷ [])
path_unescape (a ∷ b ∷ []) =
    let rest = path_unescape (b ∷ []) in if a == b'%' then none else cons_plain a rest
path_unescape (a ∷ b ∷ c ∷ s) =
    let after = path_unescape s in
    let next = path_unescape (b ∷ c ∷ s) in
    if a == b'%' then cons_hex (hex_value b) (hex_value c) after else cons_plain a next

valid_plain_path : Option Bytes → Bool
unfolding split_on is_control is_dots
valid_plain_path none = false
valid_plain_path (some path) =
    leb 1 (length path)
    && leb (length path) 256
    && has_prefix path (codes "/")
    && not (contains_byte b'\\' path)
    && not (any is_control path)
    && not (any is_dots (split_on b'/' [] path))

-- `validACIDDiscoveryPath`, of the escaped path.
unfoldable pub valid_discovery_path : Bytes → Bool
unfolding valid_plain_path
valid_discovery_path escaped = leb (length escaped) 768 && valid_plain_path (path_unescape escaped)

unfoldable pub clean_address : Url → Bool
clean_address u = bytes_eq u.opaque [] && not u.has_user && bytes_eq u.fragment []

-- `validRawACIDDiscoveryLocation`, of the parsed reference.
unfoldable pub valid_raw_location : Url → Bool
valid_raw_location u = clean_address u && (bytes_eq u.path [] || valid_discovery_path u.path)

unfoldable pub valid_discovery_port : Url → Bool
valid_discovery_port u =
    let scheme = to_lower u.scheme in
    (bytes_eq scheme (codes "http") && (bytes_eq u.port [] || bytes_eq u.port (codes "80")))
    || (bytes_eq scheme https && (bytes_eq u.port [] || bytes_eq u.port (codes "443")))

-- `validACIDDiscoveryTarget`
unfoldable pub valid_discovery_target : Url → Url → Bool
valid_discovery_target target gateway =
    clean_address target
    && same_hostname target gateway
    && valid_discovery_port target
    && valid_discovery_path target.path

abbrev pub max_body_candidates : ℕ
max_body_candidates = 32

is_word : ℕ → Bool
is_word c =
    (leb b'0' c && leb c b'9')
    || (leb b'a' c && leb c b'z')
    || (leb b'A' c && leb c b'Z')
    || (c == b'_')

-- At most so many digits from the front.
leading_digits : ℕ → Bytes → Bytes
leading_digits zero s = []
leading_digits (suc n) [] = []
leading_digits (suc n) (c ∷ s) =
    let rest = leading_digits n s in if leb b'0' c && leb c b'9' then c ∷ rest else []

match_here : Bool → Option Bytes → Bytes
match_here true after = []
match_here false none = []
match_here false (some after) = leading_digits 10 after

add_match : Bytes → List Bytes → List Bytes
add_match [] found = found
add_match (d ∷ ds) found = (d ∷ ds) ∷ found

-- `acIDBodyPattern`: the digits behind each `ac_id=` that no word character stands before.
unfoldable pub find_ac_ids : Bool → Bytes → List Bytes
unfolding is_word leading_digits match_here add_match strip_prefix
find_ac_ids in_word [] = []
find_ac_ids in_word (c ∷ s) =
    add_match (match_here in_word (strip_prefix (c ∷ s) (codes "ac_id=")))
      (find_ac_ids (is_word c) s)

-- `uniqueACIDFromBody`, of the matches of the pattern in the body: all of them must agree.
unfoldable pub unique_ac_id : List Bytes → Option Bytes
unique_ac_id [] = some []
unique_ac_id (x ∷ xs) =
    if ltb max_body_candidates (length (x ∷ xs))
    then none
    else if all (bytes_eq x) xs
    then some x
    else none

abbrev pub not_allowed : GoError
not_allowed = plain_error protocol_changed "gateway discovery redirect is not allowed" false

-- What one discovery response says: an ID and where it was found, or where to look next.
pub data Finding : Type 0 where
  found : Bytes → String → Finding
  try_next : Url → Finding
  nothing : Finding

-- The ID that a redirect carries in its query.
unfoldable pub location_id : List Bytes → Bool → Url → Result GoError Finding
location_id [] may_follow location =
    if may_follow && not location.raw_query then ok (try_next location) else ok nothing
location_id (v ∷ []) may_follow location =
    if is_ac_id v
    then ok (found v "redirect")
    else err
        (plain_error protocol_changed "gateway discovery access-controller ID is invalid" false)
location_id (_ ∷ _ ∷ _) may_follow location =
    err (plain_error protocol_changed "gateway discovery access-controller ID is invalid" false)

unfoldable pub discovery_read_failed : Fault → GoError
discovery_read_failed response_too_large = sdk (
    new_error protocol_changed "gateway discovery response exceeded the safe limit" false
      (some (raw response_too_large)))
discovery_read_failed f =
    sdk (wrap_error network "gateway discovery response failed" true (some (raw f)))

unfoldable pub body_finding : Finding → Option Bytes → Result GoError Finding
body_finding next none =
    err (plain_error protocol_changed "gateway discovery response is ambiguous" false)
body_finding next (some []) = ok next
body_finding next (some (c ∷ ac_id)) = ok (found (c ∷ ac_id) "body")

module _ (p : Ports) (c : Client) where
  open p use {parse_url, parse_ref}

  -- The checks of a Location header, and the ID in it.
  unfoldable pub check_location : Bool → ℕ → Option Url → Option Url → Result GoError Finding
  unfolding location_id
  check_location may_follow status none location = err not_allowed
  check_location may_follow status (some raw_location) none = err not_allowed
  check_location may_follow status (some raw_location) (some location) =
      if is_redirect status
        && valid_raw_location raw_location
        && valid_discovery_target location c.captive
        && location.query_ok
      then location_id (query_values (codes "ac_id") location.query) may_follow location
      else err not_allowed

  unfoldable pub inspect_location : Bool → Reply → Url → Result GoError Finding
  unfolding check_location
  inspect_location may_follow reply base =
      if bytes_eq reply.location []
      then ok nothing
      else check_location may_follow reply.status (parse_url reply.location)
          (parse_ref base reply.location)

  -- What is left of `inspectACIDDiscoveryResponse` when the redirect carries no ID: the body.
  unfoldable pub inspect_body : Reply → Finding → Result GoError Finding
  unfolding discovery_read_failed body_finding
  inspect_body reply (found ac_id where_from) = ok (found ac_id where_from)
  inspect_body reply next = elim (read_all status_response_limit reply) [
    | err f ↦ err (discovery_read_failed f)
    | ok bytes ↦ body_finding next (unique_ac_id (find_ac_ids false bytes))
  ]

  unfoldable pub inspect : Bool → Reply → Url → Result GoError Finding
  unfolding inspect_location inspect_body
  inspect may_follow reply base = elim (inspect_location may_follow reply base) [
    | err e ↦ err e
    | ok next ↦ inspect_body reply next
  ]

  unfoldable pub conclude : Finding → (Url → M p c Bytes) → M p c Bytes
  unfolding emit
  conclude (found ac_id where_from) further = do
    emit p c "protocol_discovered" "login" "ac_id" where_from
    pure ac_id
  conclude (try_next url) further = further url
  conclude nothing further = raise (
      plain_error protocol_changed "the active gateway access-controller ID could not be discovered"
        true)

  -- At most so many responses as the first argument says; only the first may lead to another.
  unfoldable pub discover_from : ℕ → Bool → Url → M p c Bytes
  unfolding conclude inspect
  discover_from zero first target = raise (
      plain_error protocol_changed "the active gateway access-controller ID could not be discovered"
        true)
  discover_from (suc n) first target = do
    landing ←
        catch_with
          (λ f. sdk (wrap_error network "gateway discovery request failed" true (some (raw f))))
          (client_do p c stay (record { method = "GET"; url = target; form = []; jar = none }))
    finding ← lift (inspect first landing.reply landing.url)
    conclude finding (discover_from n false)

  -- `discoverACID`; the cache is never read, since `networkKey` is empty.
  unfoldable pub discover_ac_id : M p c Bytes
  unfolding discover_from
  discover_ac_id = discover_from 2 true c.captive
