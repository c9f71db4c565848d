-- ===== src/Sdk/Session/Lock.antt =====
-- `Client.mutating`, the lock of the calls that change the session.
use ipgw_meta.Prelude.{◌≡◌, Option, none, some, refl, String, true, false}
use ipgw_meta.Prelude.Results.{Result}
use ipgw_meta.Sdk.Errors.{GoError, Fault}
use ipgw_meta.Sdk.Machine.{Ports, Machine, look, set_locked, ◌>>=◌, pure, raise}
use ipgw_meta.Sdk.Machine.Keeps.{Keeps, Keeps-bind, Keeps-lift, Keeps-attempt, keeps_rules}
use ipgw_meta.Sdk.Machine.Steps.{
  Leaves-attempt, Fails, Fails-bind, Fails-catch_with, Keeps-bind-Leaves, Unlocked-look,
  Unlocked-is_locked, Unlocked, Unlocked-unlock, Unlocked-ask, Unlocked-note,
}
use ipgw_meta.Sdk.Http.{Client, M}
use ipgw_meta.Sdk.Session.{emit, unlocking, late_check, lock_context, locked, reporting, mutating}

module _ (p : Ports) (c : Client) where
  emit-Unlocked : (a b o e : String) → Keeps Unlocked (emit p c a b o e)
  unfolding emit
  emit-Unlocked a b o e = search (keeps_rules, Unlocked-note)

  -- The token is put back where the context turns out to have ended after it was taken.
  late_check-Unlocked :
      (late : Option Fault) → Fails Unlocked (set_locked true >>= λ _. late_check p c late)
  unfolding late_check set_locked ◌>>=◌ pure raise
  late_check-Unlocked none = record { at = λ m h. tt }
  late_check-Unlocked (some fault) = record { at = λ m h. refl }

  taking-Unlocked :
      Fails Unlocked (set_locked true >>= λ _. look p.ctx_err >>= λ late. late_check p c late)
  unfolding look set_locked ◌>>=◌
  taking-Unlocked = record {
    at = λ m h. unfold set_locked ◌>>=◌ in (late_check-Unlocked (p.ctx_err m.world)).at m h;
  }

  lock_context-Unlocked : Fails Unlocked (lock_context p c)
  unfolding lock_context
  lock_context-Unlocked = Fails-bind _ _ (Unlocked-look _) (λ early.
      Fails-bind _ _ (Keeps-lift _) (λ _. Fails-bind _ _ Unlocked-is_locked (λ taken.
        Fails-bind _ _ (Unlocked-ask _)
          (λ fault. Fails-bind _ _ (Keeps-lift _) (λ _. taking-Unlocked)))))

  locked-Unlocked :
      {A : Type 0} (canceled : String) (body : M p c A) → Keeps Unlocked (locked p c canceled body)
  unfolding locked unlocking
  locked-Unlocked canceled body =
      Keeps-bind-Leaves _ _ (Fails-catch_with _ _ lock_context-Unlocked)
        (λ _. Leaves-attempt body _ (λ r. Unlocked-unlock r))

  reporting-Unlocked :
      {A : Type 0} (operation : String) (r : Result GoError A)
      → Keeps Unlocked (reporting p c operation r)
  unfolding reporting
  reporting-Unlocked operation r = search (keeps_rules, emit-Unlocked)

  mutating-Unlocked :
      {A : Type 0} (operation canceled : String) (body : M p c A)
      → Keeps Unlocked (mutating p c operation canceled body)
  unfolding mutating
  mutating-Unlocked operation canceled body = Keeps-bind _ _ (emit-Unlocked _ _ _ _) (λ _.
      Keeps-bind _ _ (Keeps-attempt _ (locked-Unlocked canceled body))
        (reporting-Unlocked operation))

  -- A call that changes the session and finds the lock free leaves it free, however the call ends and
  -- whatever its body does.
  pub mutating-unlocked :
      {A : Type 0} (operation canceled : String) (body : M p c A) (m : Machine p.World)
      → m.locked ≡ false
      → (mutating p c operation canceled body m).1.locked ≡ false
  mutating-unlocked operation canceled body m h = (mutating-Unlocked operation canceled body).at m h
