-- ===== src/Sdk/Discovery/Laws.antt =====
-- What the discovery puts on the wire: requests without cookies to the host of the portal.
use ipgw_meta.Prelude.{
  arith, zero, suc, ℕ, ◌≡◌, refl, Bool, true, false, Option, none, some, List, [], ◌∷◌, ap, ◌∙◌,
  ◌⊎◌, inl, inr, All, all, length, ◌≤◌,
}
use ipgw_meta.Prelude.Results.{Result, ok, err}
use ipgw_meta.Text.{Bytes, codes, bytes_eq}
use ipgw_meta.Text.Laws.{bytes_eq→eq}
use ipgw_meta.Sdk.Errors.{GoError, Fault}
use ipgw_meta.Sdk.Url.{Url, same_hostname, query_values}
use ipgw_meta.Sdk.Url.Laws.{same_hostname_refl}
use ipgw_meta.Sdk.Machine.{Reply, Ports, Action}
use ipgw_meta.Sdk.Machine.Keeps.{
  Keeps, Traced, Keeps-bind, Keeps-bind-Yields, Keeps-lift, Keeps-raise, Keeps-catch_with,
  trace_rules,
}
use ipgw_meta.Sdk.Machine.Yields.{Yields-lift}
use ipgw_meta.Sdk.Http.{Client, stay, M, read_all, status_response_limit}
use ipgw_meta.Sdk.Http.Laws.{client_do-Keeps}
use ipgw_meta.Sdk.Session.Trace.{Admits, onward, emit-Traced}
use ipgw_meta.Sdk.Discovery.{
  Finding, found, try_next, nothing, valid_discovery_target, location_id, body_finding,
  check_location, unique_ac_id, find_ac_ids, discovery_read_failed, inspect_location, inspect_body,
  inspect, conclude, discover_from, discover_ac_id,
}

location_id-try_next :
    (values : List Bytes) (may_follow : Bool) (location u : Url)
    → location_id values may_follow location ≡ ok (try_next u)
    → location ≡ u
unfolding location_id
location_id-try_next values may_follow location u e = ground arith

valid_discovery_target-host :
    (target gateway : Url)
    → valid_discovery_target target gateway ≡ true
    → same_hostname target gateway ≡ true
unfolding valid_discovery_target
valid_discovery_target-host target gateway h = ground arith

body_finding-try_next :
    (next : Finding) (o : Option Bytes) (u : Url)
    → body_finding next o ≡ ok (try_next u)
    → next ≡ try_next u
unfolding body_finding
body_finding-try_next next none u h = absurd (cc)
body_finding-try_next next (some []) u h = ground arith
body_finding-try_next next (some (c ∷ o)) u h = absurd (cc)

module _ (p : Ports) (c : Client) where
  check_location-try_next :
      (may_follow : Bool) (status : ℕ) (o l : Option Url) (u : Url)
      → check_location p c may_follow status o l ≡ ok (try_next u)
      → same_hostname u c.captive ≡ true
  unfolding check_location
  check_location-try_next may_follow status none l u h = absurd (cc)
  check_location-try_next may_follow status (some r) none u h = absurd (cc)
  check_location-try_next may_follow status (some r) (some location) u h = ground (
    arith,
    location_id-try_next (query_values (codes "ac_id") location.query) may_follow location u,
    valid_discovery_target-host location c.captive,
  )

  inspect_location-try_next :
      (may_follow : Bool) (reply : Reply) (base u : Url)
      → inspect_location p c may_follow reply base ≡ ok (try_next u)
      → same_hostname u c.captive ≡ true
  unfolding inspect_location
  inspect_location-try_next may_follow reply base u h = ground (
    arith,
    check_location-try_next may_follow reply.status (p.parse_url reply.location)
        (p.parse_ref base reply.location) u,
  )

  inspect_body-try_next :
      (reply : Reply) (next : Finding) (u : Url)
      → inspect_body p c reply next ≡ ok (try_next u)
      → next ≡ try_next u
  unfolding inspect_body
  inspect_body-try_next reply (found ac_id w) u h = absurd (cc)
  inspect_body-try_next reply (try_next v) u h = read_next (read_all status_response_limit reply) h
    where
      read_next :
          (r : Result Fault Bytes)
          → ◌≡◌ {A = Result GoError Finding}
              (elim r [
                | err f ↦ err (discovery_read_failed f)
                | ok bytes ↦ body_finding (try_next v) (unique_ac_id (find_ac_ids false bytes))
              ])
              (ok (try_next u))
          → try_next v ≡ try_next u
      read_next (err f) k = absurd (cc)
      read_next (ok bytes) k = body_finding-try_next (try_next v) _ u k
  inspect_body-try_next reply nothing u h = read_next (read_all status_response_limit reply) h
    where
      read_next :
          (r : Result Fault Bytes)
          → ◌≡◌ {A = Result GoError Finding}
              (elim r [
                | err f ↦ err (discovery_read_failed f)
                | ok bytes ↦ body_finding nothing (unique_ac_id (find_ac_ids false bytes))
              ])
              (ok (try_next u))
          → nothing ≡ try_next u
      read_next (err f) k = absurd (cc)
      read_next (ok bytes) k = body_finding-try_next nothing _ u k

  -- A discovery response leads on only to the host of the portal.
  pub inspect-try_next :
      (may_follow : Bool) (reply : Reply) (base u : Url)
      → inspect p c may_follow reply base ≡ ok (try_next u)
      → same_hostname u c.captive ≡ true
  unfolding inspect
  inspect-try_next may_follow reply base u h =
      cases (inspect_location p c may_follow reply base) refl h
    where
      cases :
          (r : Result GoError Finding)
          → inspect_location p c may_follow reply base ≡ r
          → ◌≡◌ {A = Result GoError Finding}
              (elim r [ err e ↦ err e | ok next ↦ inspect_body p c reply next ])
              (ok (try_next u))
          → same_hostname u c.captive ≡ true
      cases (err e) x k = absurd (cc)
      cases (ok next) x k =
          inspect_location-try_next may_follow reply base u
            (x ∙ ap ok (inspect_body-try_next reply next u k))

module _ (p : Ports) (c : Client) (Q : Action → Type 0) (admits : Admits c Q) where
  conclude-Traced :
      (f : Finding) (further : Url → M p c Bytes)
      → ((u : Url) → f ≡ try_next u → Keeps (Traced Q) (further u))
      → Keeps (Traced Q) (conclude p c f further)
  unfolding conclude
  conclude-Traced (found ac_id w) further k = search (trace_rules, emit-Traced p c Q admits)
  conclude-Traced (try_next u) further k = k u refl
  conclude-Traced nothing further k = Keeps-raise _

  discover_from-Traced :
      (n : ℕ) (first : Bool) (target : Url)
      → same_hostname target c.captive ≡ true
      → Keeps (Traced Q) (discover_from p c n first target)
  unfolding discover_from
  discover_from-Traced zero first target h = Keeps-raise _
  discover_from-Traced (suc n) first target h =
      Keeps-bind _ _
        (Keeps-catch_with _ _
          (client_do-Keeps p c Q (onward p c Q admits) stay _ (admits.discovery_sent target h)))
        (λ landing.
          Keeps-bind-Yields (λ f. inspect p c first landing.reply landing.url ≡ ok f) _ _
            (Keeps-lift _) (Yields-lift _ (λ f e. e))
            (λ f e. conclude-Traced f _ (λ u x.
              discover_from-Traced n false u
                (inspect-try_next p c first landing.reply landing.url u (e ∙ ap ok x)))))

  pub discover_ac_id-Traced : Keeps (Traced Q) (discover_ac_id p c)
  unfolding discover_ac_id
  discover_ac_id-Traced = discover_from-Traced 2 true c.captive (same_hostname_refl c.captive)

all_equal :
    (x y : Bytes) (ys : List Bytes) → y ≡ x → all (bytes_eq y) ys ≡ true → All (λ z. z ≡ x) ys
all_equal x y [] e h = tt
all_equal x y (z ∷ zs) e h =
    let (same, others) = split_all y z zs h in
    (ground (arith, bytes_eq→eq y z same, e), all_equal x y zs e others)
  where
    split_all :
        (y z : Bytes) (zs : List Bytes)
        → all (bytes_eq y) (z ∷ zs) ≡ true
        → (bytes_eq y z ≡ true) × (all (bytes_eq y) zs ≡ true)
    split_all y z zs h = ground arith

-- If the candidates that were found in a body yield an ID, there are none of them, or they are at
-- most 32 and all of them are this ID.
pub unique_ac_id-agrees :
    (xs : List Bytes) (x : Bytes)
    → unique_ac_id xs ≡ some x
    → (xs ≡ []) ⊎ (All (λ y. y ≡ x) xs × (length xs ≤ 32))
unfolding unique_ac_id
unique_ac_id-agrees [] x h = inl refl
unique_ac_id-agrees (y ∷ ys) x h =
    let same : (all (bytes_eq y) ys ≡ true) × (y ≡ x) × (length (y ∷ ys) ≤ 32) = ground arith in
    inr ((same.1, all_equal x y ys same.1 same.0), same.2)
