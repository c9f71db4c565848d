-- ===== src/Sdk/Login/Preflight.antt =====
-- What `Login` does when its first look finds the gateway online.
use ipgw_meta.Prelude.{
  suc, ◌≡◌, refl, ◌∙◌, Bool, true, false, not, some, ◌⊎◌, inl, inr, if◌then◌else◌, [],
}
use ipgw_meta.Prelude.Results.{Result, ok, err}
use ipgw_meta.Text.{bytes_eq}
use ipgw_meta.Sdk.Errors.{GoError}
use ipgw_meta.Sdk.Machine.{Ports, Machine}
use ipgw_meta.Sdk.Machine.Steps.{bind-eq, bind-ok, pure_lem, raise_lem, check-true, new_jar_lem}
use ipgw_meta.Sdk.Http.{Client, HttpClient, reject_all, new_client}
use ipgw_meta.Sdk.Session.{online_session, Status, conflict_error, observe}
use ipgw_meta.Sdk.LoginTypes.{LoginRequest, LoginResult, already_online, is_method, is_switch}
use ipgw_meta.Sdk.Login.{when_online, with_status, login_body}

-- The first look at the gateway: an observation by a client of its own.
abbrev pub first_look :
    (p : Ports) → Client → Machine p.World → Result GoError Status × Machine p.World
first_look p c m =
    observe p c (record { policy = reject_all; jar = some m.jars }) (record m { jars = suc m.jars })

-- What an online session decides: the same user needs nothing, another one is a conflict.
abbrev pub settled : LoginRequest → Status → Result GoError LoginResult
settled r status =
    if bytes_eq status.username r.expected_username
    then ok (record { outcome = already_online; status = status })
    else err
        (conflict_error "another account is already online" r.expected_username status.username)

module _ (p : Ports) (c : Client) (r : LoginRequest) where
  new_client_lem :
      (m : Machine p.World)
      → new_client p c reject_all m
        ≡ (ok (record { policy = reject_all; jar = some m.jars }), record m { jars = suc m.jars })
  unfolding new_client
  new_client_lem m = bind-eq _ _ m _ m.jars (new_jar_lem m) ∙ pure_lem _ _

  when_online-settled :
      (client : HttpClient) (status : Status) (m : Machine p.World)
      → (bytes_eq status.username r.expected_username ≡ true) ⊎ (r.switch ≡ "refuse")
      → when_online p c client r status m ≡ (settled r status, m)
  unfolding when_online
  when_online-settled client status m h =
      by_user (bytes_eq status.username r.expected_username) refl
    where
      by_user :
          (b : Bool)
          → bytes_eq status.username r.expected_username ≡ b
          → when_online p c client r status m ≡ (settled r status, m)
      by_user true e = rw e (pure_lem _ m)
      by_user false e = refused h
        where
          refused :
              (bytes_eq status.username r.expected_username ≡ true) ⊎ (r.switch ≡ "refuse")
              → when_online p c client r status m ≡ (settled r status, m)
          refused (inl x) = absurd (cc)
          refused (inr x) = rw e (rw x (raise_lem _ m))

  with_status-online :
      (client : HttpClient) (status : Status) (m : Machine p.World)
      → status.session ≡ online_session
      → with_status p c client r status m ≡ when_online p c client r status m
  unfolding with_status
  with_status-online client status m online = rw online refl

  -- Let a request name a user, a method and a switch policy that exist, and let its first look show
  -- the session online, for that user or else under the policy to refuse. Then the login ends in the
  -- state that the first look left: for that user with this status, and else with the conflict of
  -- both names. So nothing more is sent, and no credential is read.
  pub login_body-settled :
      (m : Machine p.World) (status : Status)
      → not (bytes_eq r.expected_username []) ≡ true
      → is_method r.method ≡ true
      → is_switch r.switch ≡ true
      → (first_look p c m).0 ≡ ok status
      → status.session ≡ online_session
      → (bytes_eq status.username r.expected_username ≡ true) ⊎ (r.switch ≡ "refuse")
      → login_body p c r m ≡ (settled r status, (first_look p c m).1)
  unfolding login_body
  login_body-settled m status named method switch looked online h =
      check-true _ _ _ m named
      ∙ check-true _ _ _ m method
      ∙ check-true _ _ _ m switch
      ∙ bind-eq _ _ m _ _ (new_client_lem m)
      ∙ bind-ok _ _ _ status looked
      ∙ with_status-online _ status _ online
      ∙ when_online-settled _ status _ h
