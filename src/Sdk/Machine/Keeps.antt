-- ===== src/Sdk/Machine/Keeps.antt =====
-- Invariants of actions, one rule for each way to build one.
use ipgw_meta.Prelude.{◌≡◌, refl, Bool, true, false, if◌then◌else◌, [], ◌∷◌, All, All-append}
use ipgw_meta.Prelude.Results.{Result, ok, err}
use ipgw_meta.Sdk.Machine.{
  Exec, Machine, Action, pure, raise, lift, continue, ◌>>=◌, catch_with, attempt, check, ask, look,
  note, new_jar, set_locked, is_locked,
}
use ipgw_meta.Sdk.Machine.Yields.{Yields}

-- `m` keeps `P`, whether it returns or fails.
pub record Keeps {S E A : Type 0} (P : S → Type 0) (m : Exec S E A) : Type 0 where
  pub at : (s : S) → P s → P (m s).1

module _ {S E A : Type 0} {P : S → Type 0} where
  pub Keeps-if :
      (test : Bool) (first second : Exec S E A)
      → (test ≡ true → Keeps P first)
      → (test ≡ false → Keeps P second)
      → Keeps P (if test then first else second)
  Keeps-if false first second kf ks = ks refl
  Keeps-if true first second kf ks = kf refl

  pub Keeps-pure : (a : A) → Keeps {E = E} P (pure a)
  unfolding pure
  Keeps-pure a = record { at = λ s h. h }

  pub Keeps-raise : (e : E) → Keeps {A = A} P (raise e)
  unfolding raise
  Keeps-raise e = record { at = λ s h. h }

  pub Keeps-lift : (r : Result E A) → Keeps P (lift r)
  unfolding lift
  Keeps-lift r = record { at = λ s h. h }

  -- The rest may use that the test passed.
  pub Keeps-check :
      (b : Bool) (e : E) (m : Exec S E A) → (b ≡ true → Keeps P m) → Keeps P (check b e m)
  unfolding check
  Keeps-check true e m km = km refl
  Keeps-check false e m km = Keeps-raise e

module _ {S E A B : Type 0} {P : S → Type 0} where
  Keeps-continue :
      (f : A → Exec S E B) (r : Result E A) (s : S)
      → ((a : A) → r ≡ ok a → Keeps P (f a))
      → P s
      → P (continue r f s).1
  Keeps-continue f (ok a) s kf h = (kf a refl).at s h
  Keeps-continue f (err e) s kf h = h

  pub Keeps-bind :
      (m : Exec S E A) (f : A → Exec S E B)
      → Keeps P m
      → ((a : A) → Keeps P (f a))
      → Keeps P (m >>= f)
  unfolding ◌>>=◌
  Keeps-bind m f km kf = record {
    at = λ s h. Keeps-continue f (m s).0 (m s).1 (λ a _. kf a) (km.at s h);
  }

  -- The rest may use what the first action promises of its result.
  pub Keeps-bind-Yields :
      (Q : A → Type 0) (m : Exec S E A) (f : A → Exec S E B)
      → Keeps P m
      → Yields Q m
      → ((a : A) → Q a → Keeps P (f a))
      → Keeps P (m >>= f)
  unfolding ◌>>=◌
  Keeps-bind-Yields Q m f km q kf = record {
    at = λ s h. Keeps-continue f (m s).0 (m s).1 (λ a e. kf a (q.at s a e)) (km.at s h);
  }

module _ {S A E E' : Type 0} {P : S → Type 0} where
  pub Keeps-catch_with : (f : E → E') (m : Exec S E A) → Keeps P m → Keeps P (catch_with f m)
  unfolding catch_with
  Keeps-catch_with f m km = record { at = km.at }

  pub Keeps-attempt : (m : Exec S E A) → Keeps P m → Keeps {E = E'} P (attempt m)
  unfolding attempt
  Keeps-attempt m km = record { at = km.at }

pub ruleset keeps_rules = (
  Keeps-pure, Keeps-raise, Keeps-lift, Keeps-if, Keeps-check, Keeps-bind, Keeps-catch_with,
  Keeps-attempt,
)

-- Every action that was ever taken satisfies `Q`.
abbrev pub Traced : {W : Type 0} → (Action → Type 0) → Machine W → Type 0
Traced Q m = All Q m.trace

module _ {W E : Type 0} {Q : Action → Type 0} where
  pub Traced-note : (a : Action) → Q a → Keeps {E = E} (Traced {W = W} Q) (note a)
  unfolding note
  Traced-note a q = record { at = λ m h. All-append Q m.trace (a ∷ []) h (q, tt) }

  pub Traced-new_jar : Keeps {E = E} (Traced {W = W} Q) new_jar
  unfolding new_jar
  Traced-new_jar = record { at = λ m h. h }

  pub Traced-is_locked : Keeps {E = E} (Traced {W = W} Q) is_locked
  unfolding is_locked
  Traced-is_locked = record { at = λ m h. h }

  pub Traced-set_locked : (b : Bool) → Keeps {E = E} (Traced {W = W} Q) (set_locked b)
  unfolding set_locked
  Traced-set_locked b = record { at = λ m h. h }

module _ {W A E : Type 0} {Q : Action → Type 0} where
  pub Traced-ask : (f : W → A × W) → Keeps {E = E} (Traced {W = W} Q) (ask f)
  unfolding ask
  Traced-ask f = record { at = λ m h. h }

  pub Traced-look : (f : W → A) → Keeps {E = E} (Traced {W = W} Q) (look f)
  unfolding look
  Traced-look f = record { at = λ m h. h }

pub ruleset trace_rules =
    (keeps_rules, Traced-note, Traced-new_jar, Traced-set_locked, Traced-ask, Traced-look)
