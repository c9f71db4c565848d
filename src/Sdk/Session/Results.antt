-- ===== src/Sdk/Session/Results.antt =====
-- What the status and logout operations promise when they succeed.
use ipgw_meta.Prelude.{arith, ℕ, zero, suc, ◌≡◌, refl, String, true, [], ◌⊎◌}
use ipgw_meta.Prelude.Results.{ok}
use ipgw_meta.Text.{Bytes}
use ipgw_meta.Text.Laws.{bytes_eq→eq}
use ipgw_meta.Sdk.Machine.{Ports, Machine}
use ipgw_meta.Sdk.Machine.Yields.{
  Yields, Yields-pure, Yields-check, Yields-bind, Yields-bind-Yields, Yields-lift, Yields-mono,
  Yields-attempt, yields_rules,
}
use ipgw_meta.Sdk.Http.{Client, HttpClient, M}
use ipgw_meta.Sdk.Session.{
  SessionState, online_session, offline_session, Status, LogoutResult, logged_out, is_expected,
  verify_again, verify_status, logout_online, unlocking, locked, reporting, mutating,
  after_logout_status, logout_call, same_session,
}

pub same_session→eq : (s t : SessionState) → same_session s t ≡ true → s ≡ t
same_session→eq online_session online_session h = refl
same_session→eq offline_session offline_session h = refl
same_session→eq online_session offline_session h = absurd (cc)
same_session→eq offline_session online_session h = absurd (cc)

-- The test of `verifyStatus`, read as what it means.
pub is_expected_sound :
    (expected : SessionState) (username : Bytes) (status : Status)
    → is_expected expected username status ≡ true
    → (status.session ≡ expected) × ((username ≡ []) ⊎ (status.username ≡ username))
unfolding is_expected
is_expected_sound online_session username status h =
    ground (arith, bytes_eq→eq username [], bytes_eq→eq status.username username)
is_expected_sound offline_session username status h =
    ground (arith, bytes_eq→eq username [], bytes_eq→eq status.username username)

module _ (p : Ports) (c : Client) where
  abbrev pub IsExpected : SessionState → Bytes → Status → Type 0
  IsExpected expected username status = is_expected expected username status ≡ true

  verify_again-Yields :
      (n : ℕ) (client : HttpClient) (expected : SessionState) (username : Bytes) (last : Status)
      → Yields (IsExpected expected username) (verify_again p c n client expected username last)
  unfolding verify_again
  verify_again-Yields zero client expected username last = search yields_rules
  verify_again-Yields (suc n) client expected username last =
      search (yields_rules, verify_again-Yields n client expected username)

  pub verify_status-Yields :
      (client : HttpClient) (expected : SessionState) (username : Bytes)
      → Yields (IsExpected expected username) (verify_status p c client expected username)
  unfolding verify_status
  verify_status-Yields client expected username = search (yields_rules, verify_again-Yields)

  -- If `verifyStatus` returns a status, it shows the expected state, and the expected user where one
  -- was named.
  pub verify_status-expected :
      (client : HttpClient) (expected : SessionState) (username : Bytes) (m : Machine p.World)
      (status : Status)
      → (verify_status p c client expected username m).0 ≡ ok status
      → (status.session ≡ expected) × ((username ≡ []) ⊎ (status.username ≡ username))
  verify_status-expected client expected username m status h =
      is_expected_sound expected username status
        ((verify_status-Yields client expected username).at m status h)

  pub logout_online-Yields :
      (client : HttpClient) (username : Bytes)
      → Yields
          (λ (r : LogoutResult). (r.outcome ≡ logged_out) × (r.status.session ≡ offline_session))
          (logout_online p c client username)
  unfolding logout_online
  logout_online-Yields client username = Yields-check _ _ _ (λ _. Yields-bind _ _ (λ _.
      Yields-bind _ _ (λ _. Yields-check _ _ _ (λ _.
        Yields-bind-Yields _ _ _ (verify_status-Yields client offline_session [])
          (λ status e. Yields-pure _ (refl, (is_expected_sound offline_session [] status e).0))))))

  -- A body under the lock and the events promises what it promised alone.
  locked-Yields :
      {A : Type 0} (R : A → Type 0) (canceled : String) (body : M p c A)
      → Yields R body
      → Yields R (locked p c canceled body)
  unfolding locked unlocking
  locked-Yields R canceled body y = Yields-bind _ _ (λ _.
      Yields-bind-Yields _ _ _ (Yields-attempt body y)
        (λ r k. Yields-bind _ _ (λ _. Yields-lift r k)))

  pub mutating-Yields :
      {A : Type 0} (R : A → Type 0) (operation canceled : String) (body : M p c A)
      → Yields R body
      → Yields R (mutating p c operation canceled body)
  unfolding mutating reporting
  mutating-Yields R operation canceled body y = Yields-bind _ _ (λ _.
      Yields-bind-Yields _ _ _ (Yields-attempt _ (locked-Yields R canceled body y))
        (λ r k. Yields-bind _ _ (λ _. Yields-lift r k)))

  after_logout_status-Yields :
      (client : HttpClient) (status : Status)
      → Yields
          (λ (r : LogoutResult). r.status.session ≡ offline_session)
          (after_logout_status p c client status)
  unfolding after_logout_status
  after_logout_status-Yields client status = search (
    yields_rules,
    same_session→eq,
    Yields-mono _ _ (logout_online-Yields client status.username) (λ r h. h.1),
  )

  logout_call-Yields :
      Yields (λ (r : LogoutResult). r.status.session ≡ offline_session) (logout_call p c)
  unfolding logout_call
  logout_call-Yields =
      mutating-Yields _ _ _ _
        (Yields-bind _ _ (λ client. Yields-bind _ _ (after_logout_status-Yields client)))

  -- If `Logout` succeeds, its status shows the session offline.
  pub logout_call-logged_out :
      (m : Machine p.World) (l : LogoutResult)
      → (logout_call p c m).0 ≡ ok l
      → l.status.session ≡ offline_session
  logout_call-logged_out m l h = logout_call-Yields.at m l h
