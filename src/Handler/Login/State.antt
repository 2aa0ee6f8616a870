-- ===== src/Handler/Login/State.antt =====
-- The state of the handlers of internal/handler/auth.go, and what several of them call: sessions,
-- failures, the lock and challenges.
use domus.Prelude.{
  ℕ, Text, codes, str_eq, is_empty, Bool, false, not, ◌&&◌, ◌||◌, List, [], ◌∷◌, ◌++◌,
  if◌then◌else◌,
}
use domus.Model.Result.{Result, ok, err}
use domus.Model.User.{User, UserRepo}
use domus.Model.Session
use domus.Model.Session.{SessionRepo}
use domus.Auth.Challenge.{
  ChallengeManager, create_login_challenge, check_login_locked, record_login_failure,
  clear_login_attempts,
}

-- `status` is the status that the answer has so far: a refusal sets its own, and an answer with a
-- token or a session keeps it.
pub record Server : Type 0 where
  pub users : UserRepo
  pub sessions : SessionRepo
  pub challenges : ChallengeManager
  pub status : ℕ

-- The readings of the clock, one for each place that reads it.
pub record Clock : Type 0 where
  pub challenge : ℕ
  pub locked_get : ℕ
  pub locked : ℕ
  pub fail_get : ℕ
  pub fail_check : ℕ
  pub fail_lock : ℕ
  pub fail_set : ℕ
  pub failed : ℕ
  pub otp_used : ℕ
  pub otp_unix : ℕ
  pub otp_mark : ℕ
  pub session : ℕ

-- The answer of a handler: an error, a token with the methods that may follow, or a session's id.
pub data LoginReply : Type 0 where
  refused : ℕ → Text → LoginReply
  token_given : Text → List Text → LoginReply
  session_issued : Text → User → LoginReply

abbrev pub too_many_attempts : LoginReply
too_many_attempts = refused 429 (codes "too_many_attempts")

unfoldable pub is_member : Text → List Text → Bool
is_member m [] = false
is_member m (x ∷ xs) = let rest = is_member m xs in str_eq x m || rest

-- `checkLocked` writes its answer 429 and returns what `c.JSON` of the web framework returns for a
-- text and a number, nil. So its caller goes on, and what it writes next replaces the body.
unfoldable pub check_locked : Text → Text → Text → Clock → Server → Server
check_locked ip method username t s =
    let (locked, cm) = check_login_locked ip method username t.locked_get t.locked s.challenges in
    record s { challenges = cm; status = if locked then 429 else s.status }

-- What follows `Sessions.Create`.
unfoldable pub session_created : User → Server → Result (Text × SessionRepo) → LoginReply × Server
session_created user s (err _) = (refused 500 (codes "session_creation_failed"), s)
session_created user s (ok (id, sessions)) =
    (session_issued id user, record s { sessions = sessions })

unfoldable pub issue_session :
    Text → User → Text → Result (List ℕ) → Clock → Server → LoginReply × Server
issue_session ip user method random t s =
    let s' = record s { challenges = clear_login_attempts ip method user.username s.challenges } in
    session_created user s'
      (Session.create user.id user.username user.role random t.session s.sessions)

-- What follows `RecordLoginFailure`: the error's code when there is no lock yet.
unfoldable pub failure_recorded : Text → Server → Bool × ChallengeManager → LoginReply × Server
failure_recorded code s (locked, cm) =
    ((if locked then too_many_attempts else refused 401 code), record s { challenges = cm })

unfoldable pub record_failure : Text → Text → Text → Text → Clock → Server → LoginReply × Server
record_failure code ip method username t s = failure_recorded code s (
    record_login_failure ip method username t.fail_get t.fail_check t.fail_lock t.fail_set t.failed
      s.challenges)

unfoldable pub login_fail : Text → Text → Text → Clock → Server → LoginReply × Server
login_fail ip method username t s =
    record_failure (codes "invalid_credentials") ip method username t s

-- What follows `CreateLoginChallenge`.
unfoldable pub challenge_created :
    List Text → Server → Result (Text × ChallengeManager) → LoginReply × Server
challenge_created methods s (err _) = (refused 500 (codes "internal_error"), s)
challenge_created methods s (ok (token, cm)) =
    (token_given token methods, record s { challenges = cm })

unfoldable pub create_challenge_for_user :
    User → List Text → Text → Result (List ℕ) → Clock → Server → LoginReply × Server
create_challenge_for_user user methods email_code random t s = challenge_created methods s (
    create_login_challenge
      (record {
        user_id = user.id;
        username = user.username;
        role = user.role;
        methods = methods;
        email_code = email_code;
      })
      random t.challenge s.challenges)

-- The methods that must follow a password.
unfoldable pub second_methods : User → List Text
second_methods user =
    (if not (is_empty user.email) then codes "email" ∷ [] else [])
    ++ (if user.totp_enabled then codes "otp" ∷ [] else [])

unfoldable pub password_accepted :
    User → Text → Result (List ℕ) → Clock → Server → LoginReply × Server
password_accepted user generated random t s =
    let has_email = not (is_empty user.email) in
    if not has_email && not user.totp_enabled
    then create_challenge_for_user user [] [] random t s
    else create_challenge_for_user user (second_methods user) (if has_email then generated else [])
        random t s
