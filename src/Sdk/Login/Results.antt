-- ===== src/Sdk/Login/Results.antt =====
-- What a login promises when it succeeds.
use ipgw_meta.Prelude.{
  arith, ℕ, zero, suc, ◌≡◌, refl, String, true, not, Option, none, some, [], ◌⊎◌, inl, inr, ◌∙◌,
}
use ipgw_meta.Prelude.Results.{ok}
use ipgw_meta.Text.{Bytes, bytes_eq, trim_space}
use ipgw_meta.Text.Laws.{bytes_eq→eq, bytes_eq_refl}
use ipgw_meta.Sdk.Url.{Url, Capture}
use ipgw_meta.Sdk.Machine.{
  Challenge, Page, Poll, pending, expired, confirmed, challenged, Ports, Machine,
}
use ipgw_meta.Sdk.Machine.Yields.{
  Yields, Yields-pure, Yields-raise, Yields-if, Yields-check, Yields-bind, Yields-bind-Yields,
  Yields-mono, yields_rules,
}
use ipgw_meta.Sdk.Http.{Client, HttpClient, Landing, M}
use ipgw_meta.Sdk.Session.{online_session, Status}
use ipgw_meta.Sdk.Session.Results.{
  is_expected_sound, same_session→eq, verify_status-Yields, mutating-Yields,
}
use ipgw_meta.Sdk.LoginTypes.{LoginRequest, LoginResult, prepare}
use ipgw_meta.Sdk.Challenge.{challenge_error, unless_challenged}
use ipgw_meta.Sdk.Activation.{accept_activation, finish_activation}
use ipgw_meta.Sdk.Password.{Attempt, after_post, submit_form, password_login}
use ipgw_meta.Sdk.Qr.{
  after_confirmation, confirm_in_cas, finish_confirmation, on_poll, poll_rounds, qr_login,
}
use ipgw_meta.Sdk.Login.{
  attempt_of, with_page, authenticate, when_online, with_status, login_body, login_call,
}

-- The session of a result is online, for the user that was asked for.
abbrev pub LoggedIn : Bytes → LoginResult → Type 0
LoggedIn user r = (r.status.session ≡ online_session) × ((user ≡ []) ⊎ (r.status.username ≡ user))

module _ (p : Ports) (c : Client) (user : Bytes) where
  challenge_error-Yields :
      (method : String) (ch : Challenge) → Yields (LoggedIn user) (challenge_error p c method ch)
  unfolding challenge_error
  challenge_error-Yields method ch = search yields_rules

  unless_challenged-Yields :
      (method : String) (o : Option Challenge) (rest : M p c LoginResult)
      → Yields (LoggedIn user) rest
      → Yields (LoggedIn user) (unless_challenged p c method o rest)
  unfolding unless_challenged
  unless_challenged-Yields method none rest y = y
  unless_challenged-Yields method (some ch) rest y = challenge_error-Yields method ch

  accept_activation-Yields :
      (client : HttpClient) (method : String) (expected bytes : Bytes)
      → expected ≡ user
      → Yields (LoggedIn user) (accept_activation p c client method expected bytes)
  unfolding accept_activation
  accept_activation-Yields client method expected bytes e = Yields-bind _ _ (λ ch.
      unless_challenged-Yields method ch _ (
        Yields-bind _ _ (λ success. Yields-check _ _ _ (λ _.
          Yields-bind-Yields _ _ _ (verify_status-Yields p c client online_session expected)
            (λ status h.
              Yields-pure _ (rw (← e) (is_expected_sound online_session expected status h)))))))

  finish_activation-Yields :
      (client : HttpClient) (method : String) (expected ac_id ticket : Bytes)
      → expected ≡ user
      → Yields (LoggedIn user) (finish_activation p c client method expected ac_id ticket)
  unfolding finish_activation
  finish_activation-Yields client method expected ac_id ticket e =
      search (yields_rules, accept_activation-Yields) depth 14

  after_post-Yields :
      (client : HttpClient) (a : Attempt) (bytes : Bytes) (o : Option Capture)
      → a.username ≡ user
      → Yields (LoggedIn user) (after_post p c client a bytes o)
  unfolding after_post
  after_post-Yields client a bytes (some t) e = finish_activation-Yields client _ _ _ _ e
  after_post-Yields client a bytes none e = search (yields_rules, unless_challenged-Yields) depth 10

  password_login-Yields :
      (client : HttpClient) (a : Attempt) (page : Page) (page_data : Bytes)
      → a.username ≡ user
      → Yields (LoggedIn user) (password_login p c client a page page_data)
  unfolding password_login submit_form
  password_login-Yields client a page page_data e =
      search (yields_rules, after_post-Yields) depth 14

  after_confirmation-Yields :
      (client : HttpClient) (a : Attempt) (bytes : Bytes) (base : Url) (o : Option Capture)
      → a.username ≡ user
      → Yields (LoggedIn user) (after_confirmation p c client a bytes base o)
  unfolding after_confirmation
  after_confirmation-Yields client a bytes base (some t) e =
      finish_activation-Yields client _ _ _ _ e
  after_confirmation-Yields client a bytes base none e =
      search (yields_rules, unless_challenged-Yields) depth 10

  finish_confirmation-Yields :
      (client : HttpClient) (a : Attempt) (redirect : Bytes)
      → a.username ≡ user
      → Yields (LoggedIn user) (finish_confirmation p c client a redirect)
  unfolding finish_confirmation confirm_in_cas
  finish_confirmation-Yields client a redirect e =
      search (yields_rules, finish_activation-Yields, after_confirmation-Yields) depth 14

  on_poll-Yields :
      (client : HttpClient) (a : Attempt) (again : M p c LoginResult) (poll : Poll)
      → a.username ≡ user
      → Yields (LoggedIn user) again
      → Yields (LoggedIn user) (on_poll p c client a again poll)
  unfolding on_poll
  on_poll-Yields client a again (confirmed redirect) e y =
      finish_confirmation-Yields client a redirect e
  on_poll-Yields client a again (challenged ch) e y = challenge_error-Yields a.method ch
  on_poll-Yields client a again expired e y = Yields-raise _
  on_poll-Yields client a again pending e y = Yields-bind _ _ (λ _. Yields-bind _ _ (λ _. y))

  poll_rounds-Yields :
      (n : ℕ) (client : HttpClient) (a : Attempt) (uuid : Bytes) (deadline : ℕ)
      → a.username ≡ user
      → Yields (LoggedIn user) (poll_rounds p c n client a uuid deadline)
  unfolding poll_rounds
  poll_rounds-Yields zero client a uuid deadline e = Yields-raise _
  poll_rounds-Yields (suc n) client a uuid deadline e = Yields-bind _ _ (λ at.
      Yields-check _ _ _ (λ _. Yields-bind _ _ (λ nonce. Yields-bind _ _ (λ fresh.
        Yields-bind _ _ (λ bytes. Yields-bind _ _ (λ poll.
          on_poll-Yields client a _ poll e (poll_rounds-Yields n client a uuid deadline e)))))))

  qr_login-Yields :
      (client : HttpClient) (a : Attempt) (page : Page)
      → a.username ≡ user
      → Yields (LoggedIn user) (qr_login p c client a page)
  unfolding qr_login
  qr_login-Yields client a page e = search (yields_rules, poll_rounds-Yields) depth 14

  with_page-Yields :
      (client : HttpClient) (a : Attempt) (bytes : Bytes) (landing : Landing) (o : Option Capture)
      → a.username ≡ user
      → Yields (LoggedIn user) (with_page p c client a bytes landing o)
  unfolding with_page
  with_page-Yields client a bytes landing (some t) e = finish_activation-Yields client _ _ _ _ e
  with_page-Yields client a bytes landing none e =
      search (yields_rules, unless_challenged-Yields, password_login-Yields, qr_login-Yields) depth
        10

  authenticate-Yields :
      (r : LoginRequest) → r.expected_username ≡ user → Yields (LoggedIn user) (authenticate p c r)
  unfolding authenticate attempt_of
  authenticate-Yields r e = Yields-bind _ _ (λ ac_id. Yields-bind _ _ (λ client.
      Yields-bind _ _ (λ answer. with_page-Yields client _ answer.0 answer.1 answer.1.capture e)))

  with_status-Yields :
      (client : HttpClient) (r : LoginRequest) (status : Status)
      → r.expected_username ≡ user
      → Yields (LoggedIn user) (with_status p c client r status)
  unfolding with_status when_online
  with_status-Yields client r status e =
      Yields-if _ _ _
        (λ o.
          Yields-if _ _ _
            (λ h. Yields-pure _ (
              same_session→eq status.session online_session o,
              inr (bytes_eq→eq status.username r.expected_username h ∙ e),
            ))
            (λ _. search (yields_rules, authenticate-Yields)))
        (λ _. authenticate-Yields r e)

  login_body-Yields :
      (r : LoginRequest)
      → r.expected_username ≡ user
      → Yields
          (λ (l : LoginResult). (l.status.session ≡ online_session) × (l.status.username ≡ user))
          (login_body p c r)
  unfolding login_body
  login_body-Yields r e = Yields-check _ _ _ (λ n. Yields-check _ _ _ (λ _. Yields-check _ _ _ (λ _.
      Yields-bind _ _ (λ client.
        Yields-bind _ _
          (λ status. Yields-mono _ _ (with_status-Yields client r status e) (named n))))))
    where
      named :
          not (bytes_eq r.expected_username []) ≡ true
          → (l : LoginResult) → LoggedIn user l
          → (l.status.session ≡ online_session) × (l.status.username ≡ user)
      named n l h = (h.0, by_user h.1)
        where
          by_user : (user ≡ []) ⊎ (l.status.username ≡ user) → l.status.username ≡ user
          by_user (inl x) = absurd (ground (arith, bytes_eq_refl r.expected_username, x, e, n))
          by_user (inr x) = x

module _ (p : Ports) (c : Client) where
  login_call-Yields :
      (r : LoginRequest)
      → Yields
          (λ (l : LoginResult).
            (l.status.session ≡ online_session)
            × (l.status.username ≡ trim_space r.expected_username))
          (login_call p c r)
  unfolding login_call prepare
  login_call-Yields r =
      mutating-Yields p c _ _ _ _
        (login_body-Yields p c (trim_space r.expected_username) (prepare r) refl)

  -- If `Login` succeeds, its status shows the session online for the user that was asked for, whose
  -- name is taken without the white space round it.
  pub login_call-logged_in :
      (r : LoginRequest) (m : Machine p.World) (l : LoginResult)
      → (login_call p c r m).0 ≡ ok l
      → (l.status.session ≡ online_session) × (l.status.username ≡ trim_space r.expected_username)
  login_call-logged_in r m l h = (login_call-Yields r).at m l h
