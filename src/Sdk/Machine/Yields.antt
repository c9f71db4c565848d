-- ===== src/Sdk/Machine/Yields.antt =====
-- What an action promises of its result, if it returns one.
use ipgw_meta.Prelude.{◌≡◌, refl, ◌∙◌, Bool, true, false, if◌then◌else◌, arith}
use ipgw_meta.Prelude.Results.{Result, ok, err}
use ipgw_meta.Sdk.Machine.{
  Exec, pure, raise, lift, continue, ◌>>=◌, recast, catch_with, check, attempt,
}

pub record Yields {S E A : Type 0} (Q : A → Type 0) (m : Exec S E A) : Type 0 where
  pub at : (s : S) (a : A) → (m s).0 ≡ ok a → Q a

module _ {S E A : Type 0} {Q : A → Type 0} where
  pub Yields-pure : (a : A) → Q a → Yields {S = S} {E = E} Q (pure a)
  unfolding pure
  Yields-pure a q = record { at = λ s b e. ground (arith, q) }

  pub Yields-raise : (e : E) → Yields {S = S} {E = E} Q (raise e)
  unfolding raise
  Yields-raise e = record { at = λ s b h. absurd (cc) }

  pub Yields-if :
      (b : Bool) (m n : Exec S E A)
      → (b ≡ true → Yields Q m)
      → (b ≡ false → Yields Q n)
      → Yields Q (if b then m else n)
  Yields-if true m n km kn = km refl
  Yields-if false m n km kn = kn refl

  pub Yields-check :
      (b : Bool) (e : E) (m : Exec S E A) → (b ≡ true → Yields Q m) → Yields Q (check b e m)
  unfolding check
  Yields-check true e m km = km refl
  Yields-check false e m km = Yields-raise e

module _ {S E A B : Type 0} {Q : B → Type 0} where
  Yields-continue :
      (f : A → Exec S E B) (r : Result E A) (s : S) (b : B)
      → ((a : A) → r ≡ ok a → Yields Q (f a))
      → (continue r f s).0 ≡ ok b
      → Q b
  Yields-continue f (ok a) s b kf h = (kf a refl).at s b h
  Yields-continue f (err e) s b kf h = absurd (cc)

  -- The first action matters only for what it hands on.
  pub Yields-bind :
      (m : Exec S E A) (f : A → Exec S E B) → ((a : A) → Yields Q (f a)) → Yields Q (m >>= f)
  unfolding ◌>>=◌
  Yields-bind m f kf = record { at = λ s b h. Yields-continue f (m s).0 (m s).1 b (λ a _. kf a) h }

  pub Yields-bind-Yields :
      (P : A → Type 0) (m : Exec S E A) (f : A → Exec S E B)
      → Yields P m
      → ((a : A) → P a → Yields Q (f a))
      → Yields Q (m >>= f)
  unfolding ◌>>=◌
  Yields-bind-Yields P m f p kf = record {
    at = λ s b h. Yields-continue f (m s).0 (m s).1 b (λ a e. kf a (p.at s a e)) h;
  }

ok-injective : {A E : Type 0} (a b : A) → ◌≡◌ {A = Result E A} (ok a) (ok b) → a ≡ b
ok-injective a b h = ground arith

recast-eq-ok :
    {A E E' : Type 0} (f : E → E') (r : Result E A) (a : A) → recast f r ≡ ok a → r ≡ ok a
recast-eq-ok f (ok b) a h = ground arith
recast-eq-ok f (err e) a h = absurd (cc)

module _ {S A E E' : Type 0} {Q : A → Type 0} where
  pub Yields-catch_with : (f : E → E') (m : Exec S E A) → Yields Q m → Yields Q (catch_with f m)
  unfolding catch_with
  Yields-catch_with f m km = record { at = λ s a h. km.at s a (recast-eq-ok f (m s).0 a h) }

module _ {S A E : Type 0} {Q : A → Type 0} where
  pub Yields-lift : (r : Result E A) → ((a : A) → r ≡ ok a → Q a) → Yields {S = S} Q (lift r)
  unfolding lift
  Yields-lift r h = record { at = λ s a e. h a e }

  pub Yields-mono :
      (P : A → Type 0) (m : Exec S E A) → Yields P m → ((a : A) → P a → Q a) → Yields Q m
  Yields-mono P m p h = record { at = λ s a e. h a (p.at s a e) }

module _ {S A E E' : Type 0} {Q : A → Type 0} where
  pub Yields-attempt :
      (m : Exec S E A)
      → Yields Q m
      → Yields {E = E'} (λ (r : Result E A). (a : A) → r ≡ ok a → Q a) (attempt m)
  unfolding attempt
  Yields-attempt m q = record { at = λ s r e a h. q.at s a (ok-injective _ _ e ∙ h) }

pub ruleset yields_rules =
    (Yields-pure, Yields-raise, Yields-if, Yields-check, Yields-bind, Yields-catch_with)
