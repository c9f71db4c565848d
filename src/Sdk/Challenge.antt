-- ===== src/Sdk/Challenge.antt =====
-- auth.go: the errors that ask for an interactive step.
use ipgw_meta.Prelude.{String, Bool, true, false, Option, none, some, List, [], ◌∷◌}
use ipgw_meta.Text.{Bytes}
use ipgw_meta.Sdk.Errors.{
  Fault, GoError, sdk, raw, protocol_changed, InteractionDetails, wrap_error, context_sentinel,
  ErrorCode, interaction_error,
}
use ipgw_meta.Sdk.Machine.{
  Challenge, sms_otp, device, setup, unknown, Ports, raise, lift, ◌>>◌, some_or,
}
use ipgw_meta.Sdk.Http.{Client, M}
use ipgw_meta.Sdk.Session.{emit, plain_error}

unfoldable pub wrap_fault : ErrorCode → String → Bool → Fault → GoError
wrap_fault code message retryable f = sdk (wrap_error code message retryable (some (raw f)))

-- `challengeError`: what is said of a challenge, and the words for its kind.
unfoldable pub challenge_kind : Challenge → String
challenge_kind sms_otp = "sms_otp"
challenge_kind device = "device_verification"
challenge_kind setup = "account_setup"
challenge_kind unknown = "unknown"

unfoldable pub challenge_capability : Challenge → List String
challenge_capability sms_otp = "observed_anonymous" ∷ "detected_only" ∷ []
challenge_capability device = "detected_only" ∷ []
challenge_capability setup = "detected_only" ∷ []
challenge_capability unknown = "unknown" ∷ []

unfoldable pub challenge_help : Challenge → String
challenge_help sms_otp = "AUTH-SMS-001"
challenge_help _ = "AUTH-CHALLENGE-001"

unfoldable pub challenge_details : String → Challenge → InteractionDetails
challenge_details method challenge = record {
  challenge = challenge_kind challenge;
  origin_method = method;
  capability = challenge_capability challenge;
  session_binding = "cas_session";
  resume_mode = "official_portal";
  tty_required = false;
  help_id = challenge_help challenge;
}

unfoldable pub qr_details : List String → String → InteractionDetails
qr_details capability resume = record {
  challenge = "qr_approval";
  origin_method = "";
  capability = capability;
  session_binding = "cas_session";
  resume_mode = resume;
  tty_required = true;
  help_id = "AUTH-QR-001";
}

-- `terminalQRExpiredError`
unfoldable pub qr_expired : String → GoError
unfolding qr_details
qr_expired method =
    sdk
      (record (interaction_error method (qr_details ("live_unverified" ∷ []) "restart")
        "terminal QR code expired") { retryable = true })

is_some_fault : Option Fault → Bool
is_some_fault none = false
is_some_fault (some _) = true

-- `errors.Is(err, context.Canceled) || errors.Is(err, context.DeadlineExceeded)`
unfoldable pub is_context_error : GoError → Bool
unfolding is_some_fault
is_context_error e = is_some_fault (context_sentinel (some e))

module _ (p : Ports) (c : Client) where
  open p use {
    now, wait, credential, prompt_qr, random_uuid, encrypt, parse_url, resolve, show_url,
    parse_activation, parse_page, extract_public_key, parse_poll, detect_challenge, detect_failure,
  }

  unfoldable pub challenge_error : {A : Type 0} → String → Challenge → M p c A
  unfolding emit
  challenge_error method challenge = do
    emit p c "interaction_required" "login" "challenge" (challenge_kind challenge)
    raise (
        sdk (
          interaction_error method (challenge_details method challenge)
            "login requires an additional interactive verification step"))

  -- The rest, unless a challenge stands in the way.
  unfoldable pub unless_challenged : {A : Type 0} → String → Option Challenge → M p c A → M p c A
  unfolding challenge_error
  unless_challenged method none rest = rest
  unless_challenged method (some challenge) rest = challenge_error method challenge

  abbrev pub detected : Bytes → M p c (Option Challenge)
  detected bytes = lift (
      some_or
        (plain_error protocol_changed "authentication challenge response is not recognized" false)
        (detect_challenge bytes))
