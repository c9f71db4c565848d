-- ===== src/Sdk/Errors/Laws.antt =====
-- What the error constructors guarantee to a caller.
use ipgw_meta.Prelude.{
  String, ◌≡◌, refl, ◌⊎◌, inl, inr, Bool, true, false, Option, none, some, List, [], ◌∷◌, arith,
  All, Bool-cases, if◌then◌else◌,
}
use ipgw_meta.Sdk.Errors.{
  ErrorCode, network, protocol_changed, Fault, canceled, deadline_exceeded, InteractionDetails,
  GoError, sdk, raw, no_details, context_sentinel, is_redirect_rejected, wrap_error, code_of,
  one_of, is_auth_method, challenge_kinds, capability_statuses, resume_modes, help_ids,
  known_capabilities, normalize_details, interaction_error,
}

abbrev pub IsContextCause : Option Fault → Type 0
IsContextCause none = Unit {0}
IsContextCause (some f) = (f ≡ canceled) ⊎ (f ≡ deadline_exceeded)

-- Whatever error is wrapped, the result keeps as its cause nothing but a context error, and carries
-- no details; a context error makes it a retryable network error, a refused redirect a protocol
-- error that is not to be retried, and any other error has the given classification.
pub wrap_error_lem :
    (code : ErrorCode) (message : String) (retryable : Bool) (err : GoError)
    → let e = wrap_error code message retryable (some err) in
      IsContextCause e.cause
      × (e.details ≡ no_details)
      × ((f : Fault)
          → context_sentinel (some err) ≡ some f
          → (e.code ≡ network) × (e.retryable ≡ true) × (e.cause ≡ some f))
      × (context_sentinel (some err) ≡ none
          → is_redirect_rejected err ≡ true
          → (e.code ≡ protocol_changed) × (e.retryable ≡ false))
      × (context_sentinel (some err) ≡ none
          → is_redirect_rejected err ≡ false
          → (e.code ≡ code) × (e.retryable ≡ retryable))
unfolding wrap_error is_redirect_rejected
wrap_error_lem code message retryable (raw f) = ground arith
wrap_error_lem code message retryable (sdk e) = ground arith

-- The code that an error has for a caller of the SDK, where it is wrapped with `code`.
abbrev pub classified : ErrorCode → GoError → ErrorCode
classified code e = elim (context_sentinel (some e)) [
  | some f ↦ network
  | none ↦ if is_redirect_rejected e then protocol_changed else code
]

-- What `CodeOf` reads from a wrapped error: a context error is a network error and a refused redirect
-- is a protocol error, whatever code was asked for; any other error has the code that was asked for.
pub code_of-wrap_error :
    (code : ErrorCode) (message : String) (retryable : Bool) (err : GoError)
    → code_of (some (sdk (wrap_error code message retryable (some err))))
      ≡ some (classified code err)
unfolding wrap_error code_of is_redirect_rejected context_sentinel
code_of-wrap_error code message retryable (raw f) = ground arith
code_of-wrap_error code message retryable (sdk e) = ground arith

abbrev pub Distinct : List String → List String → Type 0
Distinct seen [] = Unit {0}
Distinct seen (c ∷ cs) = (one_of seen c ≡ false) × Distinct (c ∷ seen) cs

-- Details that are fit to be shown: every word is one of the published ones, and no capability is
-- listed twice.
pub record IsRedacted (d : InteractionDetails) : Type 0 where
  pub challenge : one_of challenge_kinds d.challenge ≡ true
  pub method : one_of ("" ∷ "password" ∷ "terminal_qr" ∷ []) d.origin_method ≡ true
  pub known : All (λ c. one_of capability_statuses c ≡ true) d.capability
  pub distinct : Distinct [] d.capability
  pub binding : one_of ("" ∷ "cas_session" ∷ []) d.session_binding ≡ true
  pub resume : one_of resume_modes d.resume_mode ≡ true
  pub help : one_of help_ids d.help_id ≡ true

known_capabilities-known :
    (cs seen : List String)
    → All (λ c. one_of capability_statuses c ≡ true) (known_capabilities seen cs)
unfolding known_capabilities
known_capabilities-known [] seen = tt
known_capabilities-known (c ∷ cs) seen = elim (Bool-cases (one_of capability_statuses c)) [
  | inl k ↦ elim (Bool-cases (one_of seen c)) [
    | inl d ↦ rw (k, d) (known_capabilities-known cs seen)
    | inr d ↦ rw (k, d) (k, known_capabilities-known cs (c ∷ seen))
  ]
  | inr k ↦ rw k (known_capabilities-known cs seen)
]

known_capabilities-Distinct : (cs seen : List String) → Distinct seen (known_capabilities seen cs)
unfolding known_capabilities
known_capabilities-Distinct [] seen = tt
known_capabilities-Distinct (c ∷ cs) seen = elim (Bool-cases (one_of capability_statuses c)) [
  | inl k ↦ elim (Bool-cases (one_of seen c)) [
    | inl d ↦ rw (k, d) (known_capabilities-Distinct cs seen)
    | inr d ↦ rw (k, d) (d, known_capabilities-Distinct cs (c ∷ seen))
  ]
  | inr k ↦ rw k (known_capabilities-Distinct cs seen)
]

kept_or_default :
    (words : List String) (s default : String)
    → one_of words default ≡ true
    → one_of words (if one_of words s then s else default) ≡ true
kept_or_default words s default h = elim (Bool-cases (one_of words s)) [
  | inl k ↦ rw k k
  | inr k ↦ rw k h
]

method_kept :
    (s : String)
    → one_of ("" ∷ "password" ∷ "terminal_qr" ∷ []) (if is_auth_method s then s else "") ≡ true
unfolding is_auth_method one_of
method_kept s = elim (Bool-cases (is_auth_method s)) [
  | inl k ↦ rw k (ground arith)
  | inr k ↦ rw k refl
]

-- Whatever details the SDK was about to report, those of an interaction error are redacted.
pub interaction_error-IsRedacted :
    (method message : String) (d : InteractionDetails)
    → (r : InteractionDetails) × ((interaction_error method d message).details.interaction ≡ some r)
      × IsRedacted r
unfolding interaction_error normalize_details
interaction_error-IsRedacted method message d = (
  _,
  refl,
  record {
    challenge = kept_or_default challenge_kinds d.challenge "unknown" (unfold one_of in refl);
    method = method_kept method;
    known = known_capabilities-known d.capability [];
    distinct = known_capabilities-Distinct d.capability [];
    binding =
        kept_or_default ("" ∷ "cas_session" ∷ []) d.session_binding "" (unfold one_of in refl);
    resume = kept_or_default resume_modes d.resume_mode "" (unfold one_of in refl);
    help = kept_or_default help_ids d.help_id "" (unfold one_of in refl);
  },
)
