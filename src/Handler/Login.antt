-- ===== src/Handler/Login.antt =====
-- Logging in: internal/handler/auth.go, with the challenges of internal/auth and the users and
-- sessions of internal/model. The password check (package bcrypt), the decoder and the HMAC of
-- one-time codes, the codes sent by email and random bytes are arguments; messages that are sent
-- and the audit log are left out.
mod State
mod Factors
mod Sound
mod Tokens
mod Logout
mod Examples
use domus.Prelude.{
  ℕ, Text, codes, str_eq, is_empty, Bool, true, false, not, ◌&&◌, ◌||◌, Option, none, some, List,
  [], ◌∷◌, ◌++◌, ◌⊎◌, inl, inr, if◌then◌else◌,
}
use domus.Model.Result.{Result, ok, err}
use domus.Model.User.{User, UserRepo, get_by_id, get_by_username}
use domus.Model.Session
use domus.Model.Session.{SessionRepo}
use domus.Auth.Challenge.{
  ChallengeManager, LoginChallenge, create_login_challenge, get_login_challenge,
  delete_login_challenge, check_login_locked, record_login_failure, clear_login_attempts,
  mark_otp_used, is_otp_used,
}
use domus.Auth.Totp.{validate_totp}
use domus.Middleware.Guard.{session_cookie_name, legacy_session_cookie_name}
pub use domus.Handler.Login.State.{
  Server, Clock, LoginReply, too_many_attempts, refused, token_given, session_issued,
}
unfoldable pub use domus.Handler.Login.State.{
  is_member, check_locked, session_created, issue_session, failure_recorded, record_failure,
  login_fail, challenge_created, create_challenge_for_user, second_methods, password_accepted,
}

abbrev pub dummy_response : LoginReply
dummy_response = token_given (codes "dummy") (codes "email" ∷ [])

-- The same answer's shape, whatever `CreateLoginChallenge` returns.
unfoldable email_challenge : LoginReply × Server → LoginReply × Server
email_challenge (refused status code, s) = (dummy_response, s)
email_challenge (reply, s) = (reply, s)

-- What follows `GetByUsername` with an email.
unfoldable email_checked :
    Text → Result (List ℕ) → Clock → Server → Result User → LoginReply × Server
email_checked generated random t s (err _) = (dummy_response, s)
email_checked generated random t s (ok user) =
    if is_empty user.email
    then (dummy_response, s)
    else email_challenge (create_challenge_for_user user (codes "email" ∷ []) generated random t s)

unfoldable verify_email_request :
    Text → Text → Text → Result (List ℕ) → Clock → Server → LoginReply × Server
verify_email_request ip username generated random t s =
    let (locked, cm) =
      check_login_locked ip (codes "email") username t.locked_get t.locked s.challenges in
    let s' = record s { challenges = cm } in
    if locked
    then (dummy_response, s')
    else email_checked generated random t s' (get_by_username username s.users)

module _ (check_password : Text → Text → Bool) where
  -- What follows `GetByUsername`.
  unfoldable pub password_checked :
      Text
      → Text
      → Text
      → Text
      → Result (List ℕ)
      → Clock
      → Server
      → Result User
      → LoginReply × Server
  password_checked ip username password generated random t s (err _) =
      login_fail ip (codes "password") username t s
  password_checked ip username password generated random t s (ok user) =
      if not (check_password user.password_hash password)
      then login_fail ip (codes "password") username t s
      else password_accepted user generated random t s

  -- `generated` is the code that is sent by email.
  unfoldable pub verify_password :
      Text → Text → Text → Text → Result (List ℕ) → Clock → Server → LoginReply × Server
  verify_password ip username password generated random t s =
      password_checked ip username password generated random t
        (check_locked ip (codes "password") username t s) (get_by_username username s.users)

module _ (decode : Text → Option (List ℕ)) (hmac : List ℕ → List ℕ → List ℕ) where
  -- What follows `GetByUsername` with a one-time code.
  unfoldable otp_checked :
      Text → Text → Text → Result (List ℕ) → Clock → Server → Result User → LoginReply × Server
  otp_checked ip username code random t s (err _) = login_fail ip (codes "otp") username t s
  otp_checked ip username code random t s (ok user) =
      if not user.totp_enabled
      then login_fail ip (codes "otp") username t s
      else let (used, cm) = is_otp_used user.id code t.otp_used s.challenges in
        let s' = record s { challenges = cm } in
        if used
        then (refused 401 (codes "otp_already_used"), s')
        else if not (validate_totp decode hmac user.totp_secret code t.otp_unix)
        then login_fail ip (codes "otp") username t s'
        else create_challenge_for_user user [] [] random t
            (record s { challenges = mark_otp_used user.id code t.otp_mark cm })

  unfoldable verify_otp :
      Text → Text → Text → Result (List ℕ) → Clock → Server → LoginReply × Server
  verify_otp ip username code random t s =
      otp_checked ip username code random t (check_locked ip (codes "otp") username t s)
        (get_by_username username s.users)

  -- The check of the second factor: `inl` goes on, `inr` answers.
  unfoldable pub second_factor :
      Text → LoginChallenge → User → Text → Text → Clock → Server → Server ⊎ (LoginReply × Server)
  second_factor ip ch user code method t s =
      if str_eq method (codes "email")
      then (if not (str_eq ch.email_code code)
          then inr (record_failure (codes "invalid_code") ip (codes "email") ch.username t s)
          else inl s)
      else if str_eq method (codes "otp")
      then (let (used, cm) = is_otp_used user.id code t.otp_used s.challenges in
          let s' = record s { challenges = cm } in
          if used
          then inr (refused 401 (codes "otp_already_used"), s')
          else if not (validate_totp decode hmac user.totp_secret code t.otp_unix)
          then inr (record_failure (codes "invalid_code") ip (codes "otp") ch.username t s')
          else inl (record s { challenges = mark_otp_used user.id code t.otp_mark cm }))
      else inr (refused 400 (codes "invalid_method"), s)

  -- What follows the second factor.
  unfoldable pub factor_checked :
      Text
      → Text
      → User
      → Text
      → Result (List ℕ)
      → Clock
      → Server ⊎ (LoginReply × Server)
      → LoginReply × Server
  factor_checked ip token user method random t (inr answer) = answer
  factor_checked ip token user method random t (inl s) =
      issue_session ip user method random t
        (record s { challenges = delete_login_challenge token s.challenges })

  -- What follows `GetByID` with a second factor, and without one.
  unfoldable pub login_user :
      Text
      → Text
      → LoginChallenge
      → Text
      → Text
      → Result (List ℕ)
      → Clock
      → Server
      → Result User
      → LoginReply × Server
  login_user ip token ch code method random t s (err _) = (
    refused 500 (codes "internal_error"),
    record s { challenges = delete_login_challenge token s.challenges },
  )
  login_user ip token ch code method random t s (ok user) =
      factor_checked ip token user method random t (second_factor ip ch user code method t s)

  unfoldable pub direct_user :
      Text → Result (List ℕ) → Clock → Server → Result User → LoginReply × Server
  direct_user ip random t s (err _) = (refused 500 (codes "internal_error"), s)
  direct_user ip random t s (ok user) = issue_session ip user (codes "password") random t s

  unfoldable pub direct_login :
      Text → Text → LoginChallenge → Text → Result (List ℕ) → Clock → Server → LoginReply × Server
  direct_login ip token ch code random t s =
      if not (is_empty code)
      then (refused 400 (codes "code_not_expected"), s)
      else direct_user ip random t
          (record s { challenges = delete_login_challenge token s.challenges })
          (get_by_id ch.user_id s.users)

  unfoldable pub second_login :
      Text
      → Text
      → LoginChallenge
      → Text
      → Text
      → Result (List ℕ)
      → Clock
      → Server
      → LoginReply × Server
  second_login ip token ch code method random t s =
      if is_empty code || is_empty method
      then (refused 400 (codes "code_required"), s)
      else let s' = check_locked ip method ch.username t s in
        if not (is_member method ch.methods)
        then (refused 400 (codes "method_not_available"), s')
        else login_user ip token ch code method random t s' (get_by_id ch.user_id s.users)

  -- `hasMethods`
  unfoldable pub methods_read :
      Text
      → Text
      → LoginChallenge
      → Text
      → Text
      → Result (List ℕ)
      → Clock
      → Server
      → List Text
      → LoginReply × Server
  methods_read ip token ch code method random t s [] = direct_login ip token ch code random t s
  methods_read ip token ch code method random t s (m ∷ ms) =
      second_login ip token ch code method random t s

  -- What follows `GetLoginChallenge`.
  unfoldable pub challenge_read :
      Text
      → Text
      → Text
      → Text
      → Result (List ℕ)
      → Clock
      → Server
      → Option LoginChallenge
      → LoginReply × Server
  challenge_read ip token code method random t s none = (refused 401 (codes "token_expired"), s)
  challenge_read ip token code method random t s (some ch) =
      methods_read ip token ch code method random t s ch.methods

  unfoldable pub handle_login :
      Text → Text → Text → Text → Result (List ℕ) → Clock → Server → LoginReply × Server
  handle_login ip token code method random t s =
      let (found, cm) = get_login_challenge token t.challenge s.challenges in
      challenge_read ip token code method random t (record s { challenges = cm }) found

module _ (check_password : Text → Text → Bool) (decode : Text → Option (List ℕ))
    (hmac : List ℕ → List ℕ → List ℕ) where
  unfoldable handle_verify :
      Text
      → Text
      → Text
      → Text
      → Text
      → Text
      → Result (List ℕ)
      → Clock
      → Server
      → LoginReply × Server
  handle_verify ip username password otp method generated random t s =
      if is_empty username
      then (refused 400 (codes "username_required"), s)
      else if not (is_empty password)
      then verify_password check_password ip username password generated random t s
      else if not (is_empty otp)
      then verify_otp decode hmac ip username otp random t s
      else if str_eq method (codes "email")
      then verify_email_request ip username generated random t s
      else (refused 400 (codes "credentials_required"), s)

-- The sessions that are left, and the cookies that the browser is told to drop.
unfoldable pub handle_logout : Text → SessionRepo → SessionRepo × List Text
handle_logout session_id sessions =
    (Session.remove session_id sessions, session_cookie_name ∷ legacy_session_cookie_name ∷ [])
