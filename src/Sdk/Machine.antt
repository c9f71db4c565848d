-- ===== src/Sdk/Machine.antt =====
-- The state that a call of the SDK works on, what surrounds it, and the monad of its operations:
-- they change the state and may fail, and what was done before a failure stays done.
pub mod Keeps
pub mod Yields
pub mod Steps
use ipgw_meta.Prelude.{
  ℕ, suc, String, Bool, true, false, Option, none, some, List, [], ◌∷◌, ◌++◌, if◌then◌else◌,
}
use ipgw_meta.Prelude.Results.{Result, ok, err}
use ipgw_meta.Prelude.Int.{ℤ}
use ipgw_meta.Text.{Bytes}
use ipgw_meta.Sdk.Errors.{Fault, GoError}
use ipgw_meta.Sdk.Url.{Url}

-- A request on the wire; `jar` is the cookie jar of the client that sends it, if it has one.
pub record HttpRequest : Type 0 where
  pub method : String
  pub url : Url
  pub form : List (Bytes × Bytes)
  pub jar : Option ℕ

pub record Reply : Type 0 where
  pub status : ℕ
  pub location : Bytes
  pub body : Result Fault Bytes

pub data Challenge : Type 0 where
  sms_otp device setup unknown : Challenge

pub record Page : Type 0 where
  pub action : Option Url
  pub hidden : List (Bytes × Bytes)
  pub scripts : List Url
  pub public_key : Bytes
  pub challenge : Option Challenge
  pub qr_uuid : Bytes
  pub qr_supported : Bool

pub data Poll : Type 0 where
  pending expired : Poll
  confirmed : Bytes → Poll
  challenged : Challenge → Poll

pub record Summary : Type 0 where
  pub traffic_bytes : ℕ
  pub duration_seconds : ℕ
  pub balance_minor : Option ℤ

-- srun.Status: offline, or online with a user, an address and perhaps a summary.
pub data SrunStatus : Type 0 where
  offline : SrunStatus
  online : Bytes → Bytes → Option Summary → SrunStatus

-- What the SDK is given: the transport, the context, the clock, the caller's providers, and the
-- parsers of the packages srun and cas.
pub record Ports : Type 1 where
  pub World : Type 0
  pub round_trip : HttpRequest → World → Result Fault Reply × World
  pub ctx_err : World → Option Fault
  pub acquire : (taken : Bool) → World → Option Fault × World
  pub wait : ℕ → World → Option Fault × World
  pub now : World → ℕ
  pub has_observer : Bool
  pub credential : Bytes → World → Result Fault Bytes × World
  pub prompt_qr : Bytes → World → Option Fault × World
  pub random_uuid : World → Option Bytes × World
  pub encrypt : Bytes → Bytes → Bytes → World → Option Bytes × World
  pub parse_url : Bytes → Option Url
  pub resolve : Url → Url → Url
  pub parse_ref : Url → Bytes → Option Url
  pub show_url : Url → Bytes
  pub parse_status : Bytes → Option SrunStatus
  pub parse_activation : Bytes → Option Bool
  pub parse_logout : Bytes → Option Bool
  pub parse_page : Url → Bytes → Option Page
  pub extract_public_key : Bytes → Bytes
  pub parse_poll : Bytes → Option Poll
  pub detect_challenge : Bytes → Option (Option Challenge)
  pub detect_failure : Bytes → Option Bool

pub data Action : Type 0 where
  emitted : String → String → String → String → Action
  sent : HttpRequest → Action
  read_credential : Bytes → Action
  prompted : Bytes → Action

-- `locked` is the token of `Client.mutating`; `jars` counts the cookie jars handed out.
pub record Machine (W : Type 0) : Type 0 where
  pub world : W
  pub trace : List Action
  pub locked : Bool
  pub jars : ℕ

abbrev pub Exec : Type 0 → Type 0 → Type 0 → Type 0
Exec S E A = S → Result E A × S

module _ {S E A : Type 0} where
  unfoldable pub pure : A → Exec S E A
  pure a s = (ok a, s)

  unfoldable pub raise : E → Exec S E A
  raise e s = (err e, s)

  unfoldable pub lift : Result E A → Exec S E A
  lift r s = (r, s)

module _ {S E A B : Type 0} where
  abbrev pub continue : Result E A → (A → Exec S E B) → Exec S E B
  continue (ok a) f s = f a s
  continue (err e) f s = (err e, s)

  infixl 5 ◌>>=◌ ◌>>◌
  unfoldable pub ◌>>=◌ : Exec S E A → (A → Exec S E B) → Exec S E B
  ◌>>=◌ m f s = let (r, s') = m s in continue r f s'

  abbrev pub ◌>>◌ : Exec S E A → Exec S E B → Exec S E B
  m >> n = m >>= λ _. n

abbrev pub recast {ℓ} : {A E E' : Type ℓ} → (E → E') → Result E A → Result E' A
recast f (ok a) = ok a
recast f (err e) = err (f e)

-- `value, ok := …; if !ok { return e }`
abbrev pub some_or {ℓ} : {A E : Type ℓ} → E → Option A → Result E A
some_or e none = err e
some_or e (some a) = ok a

-- `if err := …; err != nil { return err }`
abbrev pub none_or {ℓ} : {E E' : Type ℓ} → (E → E') → Option E → Result E' (Unit {ℓ})
none_or f none = ok tt
none_or f (some e) = err (f e)

module _ {S A E E' : Type 0} where
  -- `if err != nil { return wrapError(…) }`
  unfoldable pub catch_with : (E → E') → Exec S E A → Exec S E' A
  catch_with f m s = let (r, s') = m s in (recast f r, s')

  -- The action with its error as a value.
  unfoldable pub attempt : Exec S E A → Exec S E' (Result E A)
  attempt m s = let (r, s') = m s in (ok r, s')

module _ {S A E : Type 0} where
  -- `if !test { return e }` before the rest.
  unfoldable pub check : Bool → E → Exec S E A → Exec S E A
  check test e rest = if test then rest else raise e

-- A call on the world, without and with an entry in the trace.
module _ {W A E : Type 0} where
  unfoldable pub ask : (W → A × W) → Exec (Machine W) E A
  ask f m = let (a, w) = f m.world in (ok a, record m { world = w })

  unfoldable pub look : (W → A) → Exec (Machine W) E A
  look f m = (ok (f m.world), m)

module _ {W E : Type 0} where
  unfoldable pub note : Action → Exec (Machine W) E (Unit {0})
  note a m = (ok tt, record m { trace = m.trace ++ (a ∷ []) })

  -- `newHTTPClient`: every client gets a jar of its own.
  unfoldable pub new_jar : Exec (Machine W) E ℕ
  new_jar m = (ok m.jars, record m { jars = suc m.jars })

  unfoldable pub is_locked : Exec (Machine W) E Bool
  is_locked m = (ok m.locked, m)

  unfoldable pub set_locked : Bool → Exec (Machine W) E (Unit {0})
  set_locked b m = (ok tt, record m { locked = b })
