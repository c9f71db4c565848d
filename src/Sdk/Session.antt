-- ===== src/Sdk/Session.antt =====
-- status.go and the logout half of auth.go: one status observation, the verification after a
-- change, `Status` and `Logout`.
pub mod Trace
pub mod Results
pub mod Lock
use ipgw_meta.Prelude.{
  ℕ, zero, suc, ◌+◌, String, Bool, true, false, not, ◌&&◌, ◌||◌, Option, none, some, List, [], ◌∷◌,
  ltb, ◌==◌, if◌then◌else◌,
}
use ipgw_meta.Prelude.Results.{Result, ok, err}
use ipgw_meta.Text.{Bytes, codes, bytes_eq}
use ipgw_meta.Sdk.Errors.{
  Fault, GoError, sdk, raw, ErrorCode, network, authentication, session_conflict, protocol_changed,
  ErrorDetails, no_details, new_error, wrap_error, code_of,
}
use ipgw_meta.Sdk.Url.{Url, is_https, with_param}
use ipgw_meta.Sdk.Machine.{
  Summary, SrunStatus, offline, online, Ports, Machine, Exec, emitted, pure, raise, lift, ◌>>=◌,
  ◌>>◌, catch_with, attempt, check, some_or, none_or, ask, look, note, set_locked, is_locked,
}
use ipgw_meta.Sdk.Http.{
  Client, HttpClient, reject_all, M, new_client, request, not_https, status_response_limit,
  api_response_limit,
}

pub data SessionState : Type 0 where
  online_session offline_session : SessionState

pub record Status : Type 0 where
  pub session : SessionState
  pub username : Bytes
  pub online_ip : Bytes
  pub observed_at : ℕ
  pub summary : Option Summary

pub data LogoutOutcome : Type 0 where
  logged_out already_offline : LogoutOutcome

pub record LogoutResult : Type 0 where
  pub outcome : LogoutOutcome
  pub status : Status

abbrev pub same_session : SessionState → SessionState → Bool
same_session online_session online_session = true
same_session offline_session offline_session = true
same_session _ _ = false

abbrev pub session_name : SessionState → String
session_name online_session = "online"
session_name offline_session = "offline"

abbrev pub code_name : ErrorCode → String
code_name ErrorCode.invalid_argument = "invalid_argument"
code_name ErrorCode.config = "config"
code_name ErrorCode.network = "network"
code_name ErrorCode.authentication = "authentication"
code_name ErrorCode.session_conflict = "session_conflict"
code_name ErrorCode.protocol_changed = "protocol_changed"
code_name ErrorCode.interaction_required = "interaction_required"
code_name ErrorCode.unsupported = "unsupported"
code_name ErrorCode.internal = "internal"

-- The `Status` of a parsed answer.
unfoldable pub status_of : ℕ → SrunStatus → Status
status_of at offline = record {
  session = offline_session;
  username = [];
  online_ip = [];
  observed_at = at;
  summary = none;
}
status_of at (online username ip summary) = record {
  session = online_session;
  username = username;
  online_ip = ip;
  observed_at = at;
  summary = summary;
}

unfoldable pub unknown_status_format : GoError
unknown_status_format =
    sdk (record (new_error protocol_changed "gateway status format is not recognized" false none) {
      details = record no_details { protocol_part = "gateway_status" };
    })

unfoldable pub plain_error : ErrorCode → String → Bool → GoError
plain_error code message retryable = sdk (new_error code message retryable none)

-- A conflict names both accounts.
unfoldable pub conflict_error : String → Bytes → Bytes → GoError
conflict_error message expected actual =
    sdk (record (new_error session_conflict message false none) {
      details = record no_details { expected_user = expected; actual_user = actual };
    })

-- Whether an observation is the one that a change was to bring about.
unfoldable pub is_expected : SessionState → Bytes → Status → Bool
is_expected expected username status =
    same_session status.session expected
    && (bytes_eq username [] || bytes_eq status.username username)

unfoldable pub verify_failure : SessionState → Bytes → Status → GoError
unfolding conflict_error plain_error
verify_failure expected username last =
    if same_session expected online_session
      && same_session last.session online_session
      && not (bytes_eq last.username username)
    then conflict_error "gateway activated a different account" username last.username
    else plain_error authentication "gateway did not reach the expected session state" true

-- `observerOutcome`
unfoldable pub observer_outcome {ℓ} : {A : Type ℓ} → Result GoError A → String
observer_outcome (ok _) = "ok"
observer_outcome (err e) = elim (code_of (some e)) [ none ↦ "" | some code ↦ code_name code ]

module _ (p : Ports) (c : Client) where
  open p use {World, ctx_err, acquire, wait, now, has_observer, parse_status, parse_logout}

  unfoldable pub emit : String → String → String → String → M p c (Unit {0})
  emit name operation phase outcome =
      if has_observer then note (emitted name operation phase outcome) else pure tt

  -- `status`
  unfoldable pub observe : HttpClient → M p c Status
  unfolding not_https unknown_status_format status_of
  observe client = check (is_https c.status) not_https do
    bytes ← request p c client c.status status_response_limit
    parsed ← lift (some_or unknown_status_format (parse_status bytes))
    at ← look now
    pure (status_of at parsed)

  -- The rounds of `verifyStatus` after the first observation, with the last one made.
  unfoldable pub verify_again : ℕ → HttpClient → SessionState → Bytes → Status → M p c Status
  unfolding is_expected verify_failure
  verify_again zero client expected username last =
      check (is_expected expected username last) (verify_failure expected username last) (pure last)
  verify_again (suc n) client expected username last =
      let again : M p c Status = (do
        fault ← ask (wait c.verify_delay)
        lift (none_or raw fault)
        status ← observe client
        verify_again n client expected username status) in
      if is_expected expected username last then pure last else again

  -- `verifyStatus`: at most three observations.
  unfoldable pub verify_status : HttpClient → SessionState → Bytes → M p c Status
  unfolding verify_again
  verify_status client expected username = do
    status ← observe client
    verify_again 2 client expected username status

  -- `Status`
  unfoldable pub finish_status : Result GoError Status → M p c Status
  unfolding emit
  finish_status (err e) = do emit "operation_finished" "status" "request" "error"; raise e
  finish_status (ok status) = do
    emit "operation_finished" "status" "request" (session_name status.session)
    pure status

  unfoldable pub status_call : M p c Status
  unfolding emit observe finish_status
  status_call = do
    emit "operation_started" "status" "request" ""
    client ← new_client p c reject_all
    result ← attempt (observe client)
    finish_status result

  -- `logoutOnline`
  unfoldable pub logout_online : HttpClient → Bytes → M p c LogoutResult
  unfolding not_https plain_error verify_status
  logout_online client username =
      let target =
        with_param (codes "username") username
          (with_param (codes "action") (codes "logout") c.logout) in
      check (is_https c.logout) not_https do
        bytes ← request p c client target api_response_limit
        success ← lift (
            some_or (plain_error protocol_changed "gateway logout response is not recognized" false)
              (parse_logout bytes))
        check success (plain_error authentication "gateway rejected logout" false) do
          status ← verify_status client offline_session []
          pure (record { outcome = logged_out; status = status })

  unfoldable pub unlocking : {A : Type 0} → Result GoError A → M p c A
  unlocking result = do set_locked false; lift result

  -- The token has been taken; it is put back if the context has ended meanwhile.
  unfoldable pub late_check : Option Fault → M p c (Unit {0})
  late_check none = pure tt
  late_check (some fault) = do set_locked false; raise (raw fault)

  -- `LockContext`
  unfoldable pub lock_context : M p c (Unit {0})
  unfolding late_check
  lock_context = do
    early ← look ctx_err
    lift (none_or raw early)
    taken ← is_locked
    fault ← ask (acquire taken)
    lift (none_or raw fault)
    set_locked true
    late ← look ctx_err
    late_check late

  -- A body under the lock, which is given back however the body ends.
  unfoldable pub locked : {A : Type 0} → String → M p c A → M p c A
  unfolding unlocking lock_context
  locked canceled body = do
    catch_with (λ e. sdk (wrap_error network canceled true (some e))) lock_context
    result ← attempt body
    unlocking result

  unfoldable pub reporting : {A : Type 0} → String → Result GoError A → M p c A
  unfolding emit observer_outcome
  reporting operation result = do
    emit "operation_finished" operation "complete" (observer_outcome result)
    lift result

  -- A call that changes the session, with the two events round it.
  unfoldable pub mutating : {A : Type 0} → String → String → M p c A → M p c A
  unfolding emit locked reporting
  mutating operation canceled body = do
    emit "operation_started" operation "preflight" ""
    result ← attempt (locked canceled body)
    reporting operation result

  unfoldable pub after_logout_status : HttpClient → Status → M p c LogoutResult
  unfolding logout_online
  after_logout_status client status =
      if same_session status.session offline_session
      then pure (record { outcome = already_offline; status = status })
      else logout_online client status.username

  -- `Logout`
  unfoldable pub logout_call : M p c LogoutResult
  unfolding mutating observe after_logout_status
  logout_call = mutating "logout" "logout was canceled while waiting for another session change" do
    client ← new_client p c reject_all
    status ← observe client
    after_logout_status client status
