-- ===== src/Migration/Logic.antt =====
-- Triples for actions that may fail or be stopped at any access: what holds of the disk when the
-- action returns, and what holds when it fails or stops. Where `L` is inhabited, the action fails
-- or stops only if an access does.
use mathlib.Core.Path.{subst}
use ipgw_meta.Prelude.{
  ◌⊎◌, inl, inr, sym, ◌≡◌, ◌≢◌, refl, Bool, true, false, List, [], ◌∷◌, if◌then◌else◌,
}
use ipgw_meta.Migration.Disk.{
  Disk, State, Out, done, failed, stopped, Fate, works, fails, fails_late, stops, M, pure, refuse,
  continue, ◌>>=◌, rescue, on_failure, meet_next, effect, look, check,
}

module _ {J : Type 0} {A : Type 0} where
  abbrev pub Ends :
      (L : Type 0)
      → (A → Disk J → Type 0)
      → (Disk J → Type 0)
      → List Fate
      → Out A × State J
      → Type 0
  Ends L Q E fates (done a, s) = Q a s.disk × (fates ≡ [] → s.fates ≡ [])
  Ends L Q E fates (failed, s) = E s.disk × (L → fates ≢ []) × (fates ≡ [] → s.fates ≡ [])
  Ends L Q E fates (stopped, s) = E s.disk × (L → fates ≢ []) × (fates ≡ [] → s.fates ≡ [])

  pub record Triple (L : Type 0) (P : Disk J → Type 0) (m : M J A) (Q : A → Disk J → Type 0)
      (E : Disk J → Type 0) : Type 0 where
    pub at : (s : State J) → P s.disk → Ends L Q E s.fates (m s)

  Ends-weaken :
      (L : Type 0) (Q Q' : A → Disk J → Type 0) (E E' : Disk J → Type 0) (fates : List Fate)
      (o : Out A × State J)
      → ((a : A) (d : Disk J) → Q a d → Q' a d)
      → ((d : Disk J) → E d → E' d)
      → Ends L Q E fates o
      → Ends L Q' E' fates o
  Ends-weaken L Q Q' E E' fates (done a, s) hq he (q, c) = (hq a s.disk q, c)
  Ends-weaken L Q Q' E E' fates (failed, s) hq he (e, c, k) = (he s.disk e, c, k)
  Ends-weaken L Q Q' E E' fates (stopped, s) hq he (e, c, k) = (he s.disk e, c, k)

  -- An ending of what comes later is one of the whole, whose fates came before.
  Ends-later :
      (L : Type 0) (Q : A → Disk J → Type 0) (E : Disk J → Type 0) (before later : List Fate)
      (o : Out A × State J)
      → (before ≡ [] → later ≡ [])
      → Ends L Q E later o
      → Ends L Q E before o
  Ends-later L Q E before later (done a, s) h (q, c) = (q, λ e. c (h e))
  Ends-later L Q E before later (failed, s) h (q, c, k) = (q, (λ l e. c l (h e)), λ e. k (h e))
  Ends-later L Q E before later (stopped, s) h (q, c, k) = (q, (λ l e. c l (h e)), λ e. k (h e))

module _ {J : Type 0} {A : Type 0} {L : Type 0} {P : Disk J → Type 0} {Q : A → Disk J → Type 0}
    {E : Disk J → Type 0} where
  pub Triple-weaken :
      {P' : Disk J → Type 0} {Q' : A → Disk J → Type 0} {E' : Disk J → Type 0} {m : M J A}
      → ((d : Disk J) → P' d → P d)
      → ((a : A) (d : Disk J) → Q a d → Q' a d)
      → ((d : Disk J) → E d → E' d)
      → Triple L P m Q E
      → Triple L P' m Q' E'
  Triple-weaken {Q' = Q'} {E' = E'} {m = m} hp hq he t = record {
    at = λ s h. Ends-weaken L Q Q' E E' s.fates (m s) hq he (t.at s (hp s.disk h));
  }

  pub Triple-pure : (a : A) → ((d : Disk J) → P d → Q a d) → Triple L P (pure a) Q E
  unfolding pure
  Triple-pure a h = record { at = λ s p. (h s.disk p, λ e. e) }

  pub Triple-refuse : ((d : Disk J) → P d → E d × (L → ⊥)) → Triple L P refuse Q E
  unfolding refuse
  Triple-refuse h = record {
    at = λ s p. let r = h s.disk p in (r.0, (λ l. absurd (r.1 l)), λ e. e);
  }

  pub Triple-look : (f : Disk J → A) → ((d : Disk J) → P d → Q (f d) d) → Triple L P (look f) Q E
  unfolding look
  Triple-look f h = record { at = λ s p. (h s.disk p, λ e. e) }

module _ {J : Type 0} {A : Type 0} where
  rescue_end :
      (L : Type 0) (Q : A → Disk J → Type 0) (E : Disk J → Type 0) (h : M J A) (fates : List Fate)
      (o : Out A × State J)
      → Triple L E h Q E
      → Ends L Q E fates o
      → Ends L Q E fates (rescue (o.0) h (o.1))
  rescue_end L Q E h fates (done a, s) t e = e
  rescue_end L Q E h fates (failed, s) t (e, c, k) =
      Ends-later L Q E fates s.fates (h s) k (t.at s e)
  rescue_end L Q E h fates (stopped, s) t e = e

module _ {J : Type 0} {A : Type 0} {L : Type 0} {P : Disk J → Type 0} {Q : A → Disk J → Type 0}
    {E : Disk J → Type 0} where
  pub Triple-on_failure :
      {m h : M J A} → Triple L P m Q E → Triple L E h Q E → Triple L P (on_failure m h) Q E
  unfolding on_failure
  Triple-on_failure {m} {h} tm th = record {
    at = λ s p. rescue_end L Q E h s.fates (m s) th (tm.at s p);
  }

module _ {J : Type 0} {A B : Type 0} where
  bind_end :
      (L : Type 0) (R : A → Disk J → Type 0) (Q : B → Disk J → Type 0) (E : Disk J → Type 0)
      (f : A → M J B) (fates : List Fate) (o : Out A × State J)
      → ((a : A) → Triple L (R a) (f a) Q E)
      → Ends L R E fates o
      → Ends L Q E fates (continue (o.0) f (o.1))
  bind_end L R Q E f fates (done a, s) t (r, c) =
      Ends-later L Q E fates s.fates (f a s) c ((t a).at s r)
  bind_end L R Q E f fates (failed, s) t e = e
  bind_end L R Q E f fates (stopped, s) t e = e

module _ {J : Type 0} {A B : Type 0} {L : Type 0} {P : Disk J → Type 0} {R : A → Disk J → Type 0}
    {Q : B → Disk J → Type 0} {E : Disk J → Type 0} where
  pub Triple-bind :
      {m : M J A} {f : A → M J B}
      → Triple L P m R E
      → ((a : A) → Triple L (R a) (f a) Q E)
      → Triple L P (m >>= f) Q E
  unfolding ◌>>=◌
  Triple-bind {m} {f} tm tf = record { at = λ s p. bind_end L R Q E f s.fates (m s) tf (tm.at s p) }

module _ {J : Type 0} where
  effect_end :
      (L : Type 0) (Q : Unit {0} → Disk J → Type 0) (E : Disk J → Type 0) (f : Disk J → Disk J)
      (fates : List Fate) (d : Disk J)
      → Q tt (f d)
      → E d
      → E (f d)
      → Ends L Q E fates (meet_next fates f d)
  effect_end L Q E f [] d q e e' = (q, λ c. refl)
  effect_end L Q E f (works ∷ fates) d q e e' = (q, λ c. absurd (cc))
  effect_end L Q E f (fails ∷ fates) d q e e' = (e, (λ l c. cc), λ c. absurd (cc))
  effect_end L Q E f (fails_late ∷ fates) d q e e' = (e', (λ l c. cc), λ c. absurd (cc))
  effect_end L Q E f (stops ∷ fates) d q e e' = (e, (λ l c. cc), λ c. absurd (cc))

module _ {J : Type 0} {L : Type 0} {P : Disk J → Type 0} {Q : Unit {0} → Disk J → Type 0}
    {E : Disk J → Type 0} where
  pub Triple-effect :
      (f : Disk J → Disk J)
      → ((d : Disk J) → P d → Q tt (f d) × E d × E (f d))
      → Triple L P (effect f) Q E
  unfolding effect
  Triple-effect f h = record {
    at = λ s p. let r = h s.disk p in effect_end L Q E f s.fates s.disk (r.0) (r.1) (r.2);
  }

module _ {J : Type 0} {L : Type 0} {P : Disk J → Type 0} {E : Disk J → Type 0} where
  pub Triple-check :
      (b : Bool)
      → ((d : Disk J) → P d → E d × (L → b ≡ true))
      → Triple L P (check b) (λ u d. P d × (b ≡ true)) E
  unfolding check pure refuse
  Triple-check true h = record { at = λ s p. ((p, refl), λ e. e) }
  Triple-check false h = record {
    at = λ s p. let r = h s.disk p in (r.0, (λ l. absurd (cc (r.1 l))), λ e. e);
  }

module _ {J : Type 0} {A : Type 0} {L : Type 0} {P : Disk J → Type 0} {Q : A → Disk J → Type 0}
    {E : Disk J → Type 0} where
  pub Triple-if :
      (b : Bool) {m n : M J A}
      → (b ≡ true → Triple L P m Q E)
      → (b ≡ false → Triple L P n Q E)
      → Triple L P (if b then m else n) Q E
  Triple-if true t e = t refl
  Triple-if false t e = e refl

  -- A value that is known is put in.
  pub Triple-known :
      {B : Type 0} (b : B) (f : B → M J A) (a : B)
      → Triple L P (f b) Q E
      → Triple L (λ d. P d × (a ≡ b)) (f a) Q E
  Triple-known b f a t = record {
    at = λ s p. subst (λ c. Ends L Q E s.fates (f c s)) (sym (p.1)) (t.at s (p.0));
  }

  pub Triple-or :
      (R : Disk J → Type 0) {m : M J A}
      → Triple L P m Q E
      → Triple L R m Q E
      → Triple L (λ d. P d ⊎ R d) m Q E
  Triple-or R {m} t u = record { at = λ s p. or_end s p }
    where
      or_end : (s : State J) → P s.disk ⊎ R s.disk → Ends L Q E s.fates (m s)
      or_end s (inl p) = t.at s p
      or_end s (inr r) = u.at s r

module _ {J : Type 0} {A : Type 0} {L : Type 0} {Q : A → Disk J → Type 0}
    {E : Disk J → Type 0} where
  pub Triple-exists :
      {B : Type 0} (R : B → Disk J → Type 0) {m : M J A}
      → ((b : B) → Triple L (R b) m Q E)
      → Triple L (λ d. (b : B) × R b d) m Q E
  Triple-exists R t = record { at = λ s p. (t (p.0)).at s (p.1) }
