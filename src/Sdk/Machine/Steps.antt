-- ===== src/Sdk/Machine/Steps.antt =====
-- Actions that agree at every state, and the state that an action leaves whatever it started from.
use ipgw_meta.Prelude.{ℕ, suc, ◌≡◌, refl, Bool, true, false}
use ipgw_meta.Prelude.Results.{Result, ok, err}
use ipgw_meta.Sdk.Machine.{
  Exec, Machine, lift, continue, ◌>>=◌, ◌>>◌, attempt, ask, is_locked, catch_with, recast,
  set_locked, note, Action, pure, raise, check, new_jar, look,
}
use ipgw_meta.Sdk.Machine.Keeps.{Keeps}

module _ {S E A B : Type 0} where
  continue_cong :
      (r : Result E A) (f g : A → Exec S E B)
      → ((a : A) (s : S) → f a s ≡ g a s)
      → (s : S) → continue r f s ≡ continue r g s
  continue_cong (ok a) f g h s = h a s
  continue_cong (err e) f g h s = refl

  pub bind_cong :
      (m : Exec S E A) (f g : A → Exec S E B)
      → ((a : A) (s : S) → f a s ≡ g a s)
      → (s : S) → (m >>= f) s ≡ (m >>= g) s
  unfolding ◌>>=◌
  bind_cong m f g h s = continue_cong (m s).0 f g h (m s).1

  -- After a first action that returned, the rest goes on from the state that it left.
  pub bind-eq :
      (m : Exec S E A) (f : A → Exec S E B) (s t : S) (a : A)
      → ◌≡◌ {A = Result E A × S} (m s) (ok a, t)
      → (m >>= f) s ≡ f a t
  unfolding ◌>>=◌
  bind-eq m f s t a h = rw h refl

  pub bind-ok :
      (m : Exec S E A) (f : A → Exec S E B) (s : S) (a : A)
      → (m s).0 ≡ ok a
      → (m >>= f) s ≡ f a (m s).1
  unfolding ◌>>=◌
  bind-ok m f s a h = rw h refl

-- `m` leaves `P`, from whatever state.
pub record Leaves {S E A : Type 0} (P : S → Type 0) (m : Exec S E A) : Type 0 where
  pub at : (s : S) → P (m s).1

module _ {W A B E E' : Type 0} {P : Machine W → Type 0} where
  pub Leaves-attempt :
      (m : Exec (Machine W) E A) (f : Result E A → Exec (Machine W) E' B)
      → ((r : Result E A) → Leaves P (f r))
      → Leaves P (attempt m >>= f)
  unfolding ◌>>=◌ attempt
  Leaves-attempt m f k = record { at = λ s. (k (m s).0).at (m s).1 }

module _ {W B E : Type 0} {P : Machine W → Type 0} where
  pub Leaves-set_locked :
      (b : Bool) (m : Exec (Machine W) E B) → Leaves P m → Leaves P (set_locked b >> m)
  unfolding ◌>>=◌ set_locked
  Leaves-set_locked b m k = record { at = λ s. k.at (record s { locked = b }) }

  pub Leaves-Keeps : (m : Exec (Machine W) E B) → Leaves P m → Keeps P m
  Leaves-Keeps m k = record { at = λ s _. k.at s }

-- Where an action fails, the state that it leaves has the property, if the state it found has it.
module _ {S E A : Type 0} (P : S → Type 0) where
  abbrev pub FailsAt : Result E A × S → Type 0
  FailsAt (ok a, s) = Unit {0}
  FailsAt (err e, s) = P s

  pub record Fails (m : Exec S E A) : Type 0 where
    pub at : (s : S) → P s → FailsAt (m s)

  fails_keeps : (o : Result E A × S) → P (o.1) → FailsAt o
  fails_keeps (ok a, s) k = tt
  fails_keeps (err e, s) k = k

  pub Fails-Keeps : (m : Exec S E A) → Keeps P m → Fails m
  Fails-Keeps m k = record { at = λ s h. fails_keeps (m s) (k.at s h) }

module _ {S E E' A : Type 0} (P : S → Type 0) where
  fails_recast : (f : E → E') (o : Result E A × S) → FailsAt P o → FailsAt P (recast f (o.0), o.1)
  fails_recast f (ok a, s) k = tt
  fails_recast f (err e, s) k = k

module _ {S E E' A : Type 0} {P : S → Type 0} where
  pub Fails-catch_with : (f : E → E') (m : Exec S E A) → Fails P m → Fails P (catch_with f m)
  unfolding catch_with
  Fails-catch_with f m k = record { at = λ s h. fails_recast P f (m s) (k.at s h) }

module _ {S E A B : Type 0} {P : S → Type 0} where
  Fails-after :
      (f : A → Exec S E B) (o : Result E A × S)
      → ((a : A) → Fails P (f a))
      → P (o.1)
      → FailsAt P (continue (o.0) f (o.1))
  Fails-after f (ok a, s) k h = (k a).at s h
  Fails-after f (err e, s) k h = h

  pub Fails-bind :
      (m : Exec S E A) (f : A → Exec S E B)
      → Keeps P m
      → ((a : A) → Fails P (f a))
      → Fails P (m >>= f)
  unfolding ◌>>=◌
  Fails-bind m f km kf = record { at = λ s h. Fails-after f (m s) kf (km.at s h) }

  leaves_after :
      (f : A → Exec S E B) (o : Result E A × S)
      → ((a : A) → Leaves P (f a))
      → FailsAt P o
      → P ((continue (o.0) f (o.1)).1)
  leaves_after f (ok a, s) k h = (k a).at s
  leaves_after f (err e, s) k h = h

  -- If the action only has to keep the property where it fails, what follows has to restore it.
  pub Keeps-bind-Leaves :
      (m : Exec S E A) (f : A → Exec S E B)
      → Fails P m
      → ((a : A) → Leaves P (f a))
      → Keeps P (m >>= f)
  unfolding ◌>>=◌
  Keeps-bind-Leaves m f km kf = record { at = λ s h. leaves_after f (m s) kf (km.at s h) }

abbrev pub Unlocked : {W : Type 0} → Machine W → Type 0
Unlocked m = m.locked ≡ false

module _ {W A E : Type 0} where
  pub Unlocked-unlock : (r : Result E A) → Leaves (Unlocked {W = W}) (set_locked false >> lift r)
  unfolding ◌>>=◌ set_locked lift
  Unlocked-unlock r = record { at = λ s. refl }

  pub Unlocked-look : (f : W → A) → Keeps {E = E} (Unlocked {W = W}) (look f)
  unfolding look
  Unlocked-look f = record { at = λ s h. h }

  pub Unlocked-ask : (f : W → A × W) → Keeps {E = E} (Unlocked {W = W}) (ask f)
  unfolding ask
  Unlocked-ask f = record { at = λ s h. h }

module _ {W E : Type 0} where
  pub Unlocked-is_locked : Keeps {E = E} (Unlocked {W = W}) is_locked
  unfolding is_locked
  Unlocked-is_locked = record { at = λ s h. h }

  pub Unlocked-note : (a : Action) → Keeps {E = E} (Unlocked {W = W}) (note a)
  unfolding note
  Unlocked-note a = record { at = λ s h. h }

module _ {S E A : Type 0} where
  pub pure_lem : (a : A) (s : S) → ◌≡◌ {A = Result E A × S} (pure a s) (ok a, s)
  unfolding pure
  pure_lem a s = refl

  pub raise_lem : (e : E) (s : S) → ◌≡◌ {A = Result E A × S} (raise e s) (err e, s)
  unfolding raise
  raise_lem e s = refl

  pub check-true : (b : Bool) (e : E) (m : Exec S E A) (s : S) → b ≡ true → check b e m s ≡ m s
  unfolding check
  check-true true e m s h = refl
  check-true false e m s h = absurd (cc)

module _ {W E : Type 0} where
  pub new_jar_lem :
      (m : Machine W)
      → ◌≡◌ {A = Result E ℕ × Machine W} (new_jar m) (ok m.jars, record m { jars = suc m.jars })
  unfolding new_jar
  new_jar_lem m = refl

module _ {S E A B : Type 0} where
  continue_cong_at :
      (P : S → Type 0) (r : Result E A) (f g : A → Exec S E B)
      → ((a : A) (s : S) → P s → f a s ≡ g a s)
      → (s : S) → P s
      → continue r f s ≡ continue r g s
  continue_cong_at P (ok a) f g h s q = h a s q
  continue_cong_at P (err e) f g h s q = refl

  -- The rests need to agree only where an invariant of the first action holds.
  pub bind_cong_at :
      (P : S → Type 0) (m : Exec S E A) (f g : A → Exec S E B)
      → Keeps P m
      → ((a : A) (s : S) → P s → f a s ≡ g a s)
      → (s : S) → P s
      → (m >>= f) s ≡ (m >>= g) s
  unfolding ◌>>=◌
  bind_cong_at P m f g k h s q = continue_cong_at P (m s).0 f g h (m s).1 (k.at s q)

module _ {W E A B : Type 0} where
  pub look-bind :
      (f : W → A) (g : A → Exec (Machine W) E B) (m : Machine W)
      → (look f >>= g) m ≡ g (f m.world) m
  unfolding ◌>>=◌ look
  look-bind f g m = refl

  pub ask-bind :
      (f : W → A × W) (g : A → Exec (Machine W) E B) (m : Machine W)
      → (ask f >>= g) m ≡ g (f m.world).0 (record m { world = (f m.world).1 })
  unfolding ◌>>=◌ ask
  ask-bind f g m = refl

module _ {S E A : Type 0} where
  pub check-false :
      (b : Bool) (e : E) (m : Exec S E A) (s : S) → b ≡ false → check b e m s ≡ raise e s
  unfolding check
  check-false true e m s h = absurd (cc)
  check-false false e m s h = refl
