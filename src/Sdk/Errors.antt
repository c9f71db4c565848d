-- ===== src/Sdk/Errors.antt =====
-- errors.go: the public error contract. A Go `error` is an SDK error or one from outside, of
-- which the code only ever asks whether it is a context error or a refused redirect.
pub mod Laws
use ipgw_meta.Prelude.{
  String, Bool, true, false, ◌||◌, Option, none, some, List, [], ◌∷◌, any, str_eq, if◌then◌else◌,
}
use ipgw_meta.Text.{Bytes}

pub data ErrorCode : Type 0 where
  invalid_argument config network authentication session_conflict protocol_changed : ErrorCode
  interaction_required unsupported internal : ErrorCode

pub data Fault : Type 0 where
  canceled deadline_exceeded redirect_rejected response_too_large other : Fault

pub record InteractionDetails : Type 0 where
  pub challenge : String
  pub origin_method : String
  pub capability : List String
  pub session_binding : String
  pub resume_mode : String
  pub tty_required : Bool
  pub help_id : String

pub record ErrorDetails : Type 0 where
  pub interaction : Option InteractionDetails
  pub expected_user : Bytes
  pub actual_user : Bytes
  pub protocol_part : String

abbrev pub no_details : ErrorDetails
no_details = record { interaction = none; expected_user = []; actual_user = []; protocol_part = "" }

pub record Error : Type 0 where
  pub code : ErrorCode
  pub message : String
  pub retryable : Bool
  pub details : ErrorDetails
  pub cause : Option Fault

pub data GoError : Type 0 where
  sdk : Error → GoError
  raw : Fault → GoError

abbrev pub sentinel_of : Fault → Option Fault
sentinel_of canceled = some canceled
sentinel_of deadline_exceeded = some deadline_exceeded
sentinel_of _ = none

-- `contextSentinel`; `errors.Is` looks through the cause of an SDK error.
unfoldable pub context_sentinel : Option GoError → Option Fault
context_sentinel none = none
context_sentinel (some (raw f)) = sentinel_of f
context_sentinel (some (sdk e)) = elim e.cause [ none ↦ none | some f ↦ sentinel_of f ]

unfoldable pub new_error : ErrorCode → String → Bool → Option GoError → Error
unfolding context_sentinel
new_error code message retryable cause = record {
  code = code;
  message = message;
  retryable = retryable;
  details = no_details;
  cause = context_sentinel cause;
}

-- `errors.Is(err, errRedirectRejected)`
unfoldable pub is_redirect_rejected : GoError → Bool
is_redirect_rejected (raw redirect_rejected) = true
is_redirect_rejected (raw _) = false
is_redirect_rejected (sdk e) = elim e.cause [ some redirect_rejected ↦ true | _ ↦ false ]

wrap_plain : ErrorCode → String → Bool → GoError → Error
unfolding new_error is_redirect_rejected
wrap_plain code message retryable cause =
    if is_redirect_rejected cause
    then new_error protocol_changed "gateway attempted an unexpected redirect" false none
    else new_error code message retryable none

wrap_with : ErrorCode → String → Bool → GoError → Option Fault → Error
unfolding wrap_plain
wrap_with code message retryable cause (some f) = new_error network message true (some (raw f))
wrap_with code message retryable cause none = wrap_plain code message retryable cause

unfoldable pub wrap_error : ErrorCode → String → Bool → Option GoError → Error
unfolding wrap_with
wrap_error code message retryable none = new_error code message retryable none
wrap_error code message retryable (some cause) =
    wrap_with code message retryable cause (context_sentinel (some cause))

is_context : Option Fault → Bool
is_context none = false
is_context (some _) = true

own_code : GoError → ErrorCode
own_code (raw f) = internal
own_code (sdk e) = e.code

-- `CodeOf`; the empty code of a nil error is `none`.
unfoldable pub code_of : Option GoError → Option ErrorCode
unfolding is_redirect_rejected context_sentinel is_context own_code
code_of none = none
code_of (some err) =
    if is_redirect_rejected err
    then some protocol_changed
    else if is_context (context_sentinel (some err))
    then some network
    else some (own_code err)

unfoldable pub is_auth_method : String → Bool
is_auth_method method = str_eq method "password" || str_eq method "terminal_qr"

unfoldable pub one_of : List String → String → Bool
one_of [] s = false
one_of (x ∷ xs) s = str_eq s x || one_of xs s

abbrev pub challenge_kinds : List String
challenge_kinds =
    "sms_otp" ∷ "device_verification" ∷ "account_setup" ∷ "qr_approval" ∷ "unknown" ∷ []

abbrev pub capability_statuses : List String
capability_statuses =
    "observed_anonymous" ∷ "synthetic_covered" ∷ "live_unverified" ∷ "live_verified" ∷ "supported"
    ∷ "detected_only" ∷ "unknown" ∷ []

abbrev pub resume_modes : List String
resume_modes = "" ∷ "retry_in_tty" ∷ "restart" ∷ "official_portal" ∷ []

abbrev pub help_ids : List String
help_ids = "" ∷ "AUTH-QR-001" ∷ "AUTH-CHALLENGE-001" ∷ "AUTH-SMS-001" ∷ []

-- The loop over the capabilities: unknown ones and those seen before are dropped.
unfoldable pub known_capabilities : List String → List String → List String
unfolding one_of
known_capabilities seen [] = []
known_capabilities seen (c ∷ cs) =
    let kept = c ∷ known_capabilities (c ∷ seen) cs in
    let dropped = known_capabilities seen cs in
    if one_of capability_statuses c then (if one_of seen c then dropped else kept) else dropped

unfoldable pub normalize_details : InteractionDetails → InteractionDetails
unfolding is_auth_method known_capabilities
normalize_details d = record {
  challenge = if one_of challenge_kinds d.challenge then d.challenge else "unknown";
  origin_method = if is_auth_method d.origin_method then d.origin_method else "";
  capability = known_capabilities [] d.capability;
  session_binding =
      if one_of ("" ∷ "cas_session" ∷ []) d.session_binding then d.session_binding else "";
  resume_mode = if one_of resume_modes d.resume_mode then d.resume_mode else "";
  tty_required = d.tty_required;
  help_id = if one_of help_ids d.help_id then d.help_id else "";
}

unfoldable pub interaction_error : String → InteractionDetails → String → Error
unfolding normalize_details
interaction_error method details message = record {
  code = interaction_required;
  message = message;
  retryable = false;
  details = record no_details {
    interaction = some (normalize_details (record details { origin_method = method }));
  };
  cause = none;
}
