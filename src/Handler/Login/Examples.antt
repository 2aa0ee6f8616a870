-- ===== src/Handler/Login/Examples.antt =====
-- Logging in (internal/handler/auth.go) with a password and a code sent by email.
use domus.Prelude.{
  ℕ, pos, Text, codes, str_eq, Bool, Option, none, some, List, [], ◌∷◌, ◌≤◌, ◌+◌, ◌*◌, ◌≡◌, ◌↔◌,
  ◌⊎◌, refl, true, false, arith,
}
use domus.Model.Result.{Result, ok}
use domus.Model.User.{User, get_by_id, get_by_username}
use domus.Model.Session
use domus.Auth.Challenge.{
  LoginChallenge, minute, login_attempt_key, new_challenge_manager, get_login_challenge,
  check_login_locked, is_otp_used,
}
use domus.Auth.Totp.{validate_totp}
use domus.Handler.Login.{
  handle_logout, Server, Clock, token_given, session_issued, is_member, second_methods,
  verify_password, handle_login,
}
use domus.Middleware.Guard.{next, auth_required}
use domus.Handler.Login.Logout.{auth_required-handle_logout}
use domus.Handler.Login.Sound.{handle_login_sound}
use domus.Handler.Login.Tokens.{AsksFor, verify_password_sound, verify_password-locked}

abbrev ann : User
ann = record {
  id = codes "u1";
  username = codes "ann";
  display_name = [];
  password_hash = codes "hash";
  role = codes "user";
  email = codes "a@b";
  totp_secret = [];
  totp_enabled = false;
  wrapped_kek = codes "kek";
  created_at = 10;
}

abbrev server : Server
server = record {
  users = (codes "u1", ann) ∷ [];
  sessions = record { entries = []; populate_kek = none };
  challenges = new_challenge_manager;
  status = 200;
}

abbrev at : ℕ → Clock
at now = record {
  challenge = now;
  locked_get = now;
  locked = now;
  fail_get = now;
  fail_check = now;
  fail_lock = now;
  fail_set = now;
  failed = now;
  otp_used = now;
  otp_unix = now;
  otp_mark = now;
  session = now;
}

abbrev check_password : Text → Text → Bool
check_password hash password = str_eq password (codes "pw")

abbrev decode : Text → Option (List ℕ)
decode s = none

abbrev hmac : List ℕ → List ℕ → List ℕ
hmac key message = []

abbrev random : Result (List ℕ)
random = ok (1 ∷ [])

abbrev verified : Server
verified =
    (verify_password check_password (codes "ip") (codes "ann") (codes "pw") (codes "123456") random
      (at 10) server).1

token_ok :
    verify_password check_password
      (codes "ip")
      (codes "ann")
      (codes "pw")
      (codes "123456")
      random
      (at 10)
      server
    ≡ (token_given (codes "01") (codes "email" ∷ []), verified)
unfolding verify_password check_login_locked domus.Auth.Timed.get domus.Dict.lookup
    new_challenge_manager domus.Handler.Login.password_checked get_by_username domus.Dict.find
    str_eq domus.Handler.Login.password_accepted domus.Prelude.is_empty
    domus.Handler.Login.create_challenge_for_user domus.Handler.Login.challenge_created
    domus.Auth.Challenge.create_login_challenge domus.Auth.Challenge.generate_token
    Session.hex_encode second_methods
token_ok = refl

verify_password_sound_example :
    (u : User) × (get_by_username (codes "ann") server.users ≡ ok u)
    × (check_password u.password_hash (codes "pw") ≡ true)
    × AsksFor u.email u.totp_enabled (codes "email" ∷ [])
    × ((later : ℕ)
        → later ≤ 10 + 300000000000
        → (ch : LoginChallenge) × ((get_login_challenge (codes "01") later verified.challenges).0
            ≡ some ch)
          × (ch.user_id ≡ u.id)
          × (ch.methods ≡ codes "email" ∷ []))
verify_password_sound_example =
    verify_password_sound check_password (codes "ip") (codes "ann") (codes "pw") (codes "123456")
      (codes "01") (codes "email" ∷ []) random (at 10) server verified token_ok

abbrev logged_in : Server
logged_in =
    (handle_login decode hmac (codes "ip") (codes "01") (codes "123456") (codes "email") random
      (at 20) verified).1

session_ok :
    handle_login decode hmac
      (codes "ip")
      (codes "01")
      (codes "123456")
      (codes "email")
      random
      (at 20)
      verified
    ≡ (session_issued (codes "01") ann, logged_in)
unfolding handle_login domus.Handler.Login.challenge_read get_login_challenge domus.Auth.Timed.get
    domus.Dict.lookup verify_password domus.Handler.Login.check_locked check_login_locked
    new_challenge_manager domus.Handler.Login.password_checked get_by_username domus.Dict.find
    str_eq domus.Handler.Login.password_accepted domus.Prelude.is_empty
    domus.Handler.Login.create_challenge_for_user domus.Handler.Login.challenge_created
    domus.Auth.Challenge.create_login_challenge domus.Auth.Challenge.clear_login_attempts
    domus.Auth.Challenge.delete_login_challenge domus.Auth.Challenge.generate_token
    domus.Auth.Challenge.login_attempt_key domus.Auth.Timed.remove domus.Auth.Timed.set
    domus.Dict.delete domus.Dict.insert domus.Handler.Login.factor_checked is_member
    domus.Handler.Login.issue_session domus.Handler.Login.login_user
    domus.Handler.Login.methods_read domus.Handler.Login.second_factor
    domus.Handler.Login.second_login second_methods domus.Handler.Login.session_created
    Session.create Session.hex_digit Session.hex_encode Session.session_lifetime get_by_id
session_ok = refl

handle_login_sound_example :
    (ch : LoginChallenge) × ((get_login_challenge (codes "01") 20 verified.challenges).0 ≡ some ch)
    × (get_by_id ch.user_id verified.users ≡ ok ann)
    × (Session.create ann.id ann.username ann.role random 20 verified.sessions
        ≡ ok (codes "01", logged_in.sessions))
    × ((later : ℕ) → (get_login_challenge (codes "01") later logged_in.challenges).0 ≡ none)
    × ((ch.methods ≡ [])
        ⊎ ((is_member (codes "email") ch.methods ≡ true)
            × (((codes "email" ≡ codes "email") × (codes "123456" ≡ ch.email_code))
                ⊎ ((codes "email" ≡ codes "otp")
                    × ((is_otp_used ann.id (codes "123456") 20 verified.challenges).0 ≡ false)
                    × (validate_totp decode hmac ann.totp_secret (codes "123456") 20 ≡ true)))))
handle_login_sound_example =
    handle_login_sound decode hmac (codes "ip") (codes "01") (codes "123456") (codes "email")
      (codes "01") ann random (at 20) verified logged_in session_ok

-- Under a lock until 100.
abbrev locked : Server
locked = record server {
  challenges = record new_challenge_manager {
    login_attempts =
        (
          login_attempt_key (codes "ip") (codes "password") (codes "ann"),
          record { value = record { fail_count = pos 3; locked_until = 100 }; expires_at = 100 },
        )
        ∷ [];
  };
}

ann_found : get_by_username (codes "ann") locked.users ≡ ok ann
unfolding get_by_username domus.Dict.find str_eq
ann_found = refl

holds :
    (check_login_locked (codes "ip") (codes "password") (codes "ann") 10 10 locked.challenges).0
    ≡ true
unfolding check_login_locked domus.Auth.Timed.get domus.Dict.lookup str_eq login_attempt_key
holds = refl

right_password : check_password ann.password_hash (codes "pw") ≡ true
unfolding str_eq
right_password = refl

verify_password-locked_example :
    ((verify_password check_password
        (codes "ip")
        (codes "ann")
        (codes "pw")
        (codes "123456")
        random
        (at 10)
        locked).0
      ≡ token_given (Session.hex_encode (1 ∷ [])) (second_methods ann))
    × ((verify_password check_password
          (codes "ip")
          (codes "ann")
          (codes "pw")
          (codes "123456")
          random
          (at 10)
          locked).1.status
        ≡ 429)
verify_password-locked_example =
    verify_password-locked check_password (codes "ip") (codes "ann") (codes "pw") (codes "123456")
      (1 ∷ []) (at 10) locked ann ann_found right_password holds

abbrev mac : Text → Text
mac s = codes "00"

abbrev cookies : Text → Text
cookies name = codes "01.00"

auth_required-handle_logout_example :
    (auth_required mac cookies 30 (handle_logout (codes "01") logged_in.sessions).0
      ≡ next
          (record {
            user_id = codes "u1";
            username = codes "ann";
            role = codes "user";
            created_at = 20;
            kek = [];
          })
          (codes "01")
          none)
    ↔ ((str_eq (codes "01") (codes "01") ≡ false)
        × (auth_required mac cookies 30 logged_in.sessions
            ≡ next
                (record {
                  user_id = codes "u1";
                  username = codes "ann";
                  role = codes "user";
                  created_at = 20;
                  kek = [];
                })
                (codes "01")
                none))
auth_required-handle_logout_example =
    auth_required-handle_logout mac cookies 30 logged_in.sessions
      (record {
        user_id = codes "u1";
        username = codes "ann";
        role = codes "user";
        created_at = 20;
        kek = [];
      })
      (codes "01") (codes "01") none
