-- ===== src/Auth/Challenge.antt =====
-- `ChallengeManager` of internal/auth/challenge.go: login challenges, codes that bind an email
-- address, pending TOTP secrets, the limit on failed logins and the one-time codes already used.
-- Random tokens (package crypto/rand) and the clock's readings are arguments.
pub mod Codes
pub mod Lockout
use domus.Prelude.{
  ℕ, ◌+◌, ◌*◌, ◌^◌, ◌==◌, ltb, Text, codes, str_eq, ℤ, pos, int_lt, int64_succ, Bool, true, false,
  not, ◌&&◌, ◌||◌, ◌++◌, Option, none, some, List, [], ◌∷◌, if◌then◌else◌,
}
use domus.Model.Result.{Result, ok, err}
use domus.Model.Session.{hex_encode}
use domus.Auth.Timed
use domus.Auth.Timed.{TimedStore}

pub record LoginChallenge : Type 0 where
  pub user_id : Text
  pub username : Text
  pub role : Text
  pub methods : List Text
  pub email_code : Text

pub record EmailBindEntry : Type 0 where
  pub email : Text
  pub code : Text

-- A zero `locked_until` is the zero time: never locked.
pub record LoginAttempt : Type 0 where
  pub fail_count : ℤ
  pub locked_until : ℕ

pub record ChallengeManager : Type 0 where
  pub login_challenges : TimedStore LoginChallenge
  pub email_bind_codes : TimedStore EmailBindEntry
  pub pending_totps : TimedStore Text
  pub login_attempts : TimedStore LoginAttempt
  pub used_otp_codes : TimedStore Bool

-- time.Second and time.Minute
abbrev pub second : ℕ
second = 10 ^ 9

abbrev pub minute : ℕ
minute = 60 * 10 ^ 9

abbrev pub max_login_attempts : ℕ
max_login_attempts = 3

abbrev pub lockout_duration : ℕ
lockout_duration = 5 * minute

unfoldable pub new_challenge_manager : ChallengeManager
new_challenge_manager = record {
  login_challenges = [];
  email_bind_codes = [];
  pending_totps = [];
  login_attempts = [];
  used_otp_codes = [];
}

-- `random` is what `rand.Read` fills the 32 bytes with, or its error.
unfoldable pub generate_token : Result (List ℕ) → Result Text
generate_token (ok b) = ok (hex_encode b)
generate_token (err e) = err e

unfoldable pub create_login_challenge :
    LoginChallenge → Result (List ℕ) → ℕ → ChallengeManager → Result (Text × ChallengeManager)
create_login_challenge ch random now cm = elim (generate_token random) [
  | err e ↦ err e
  | ok token ↦ ok (
    token,
    record cm { login_challenges = Timed.set token ch (5 * minute) now cm.login_challenges },
  )
]

unfoldable pub get_login_challenge :
    Text → ℕ → ChallengeManager → Option LoginChallenge × ChallengeManager
get_login_challenge token now cm =
    let (ch, s) = Timed.get token now cm.login_challenges in
    (ch, record cm { login_challenges = s })

unfoldable pub delete_login_challenge : Text → ChallengeManager → ChallengeManager
delete_login_challenge token cm = record cm {
  login_challenges = Timed.remove token cm.login_challenges;
}

unfoldable pub store_email_bind_code : Text → Text → Text → ℕ → ChallengeManager → ChallengeManager
store_email_bind_code user_id email code now cm = record cm {
  email_bind_codes =
      Timed.set user_id (record { email = email; code = code }) (5 * minute) now
        cm.email_bind_codes;
}

-- hmac.Equal compares bytes, in constant time.
unfoldable pub verify_email_bind_code :
    Text → Text → Text → ℕ → ChallengeManager → Bool × ChallengeManager
verify_email_bind_code user_id email code now cm =
    let (found, s) = Timed.get user_id now cm.email_bind_codes in
    elim found [
      | none ↦ (false, record cm { email_bind_codes = s })
      | some e ↦
          if str_eq e.email email && str_eq e.code code
          then (true, record cm { email_bind_codes = Timed.remove user_id s })
          else (false, record cm { email_bind_codes = s })
    ]

unfoldable store_pending_totp : Text → Text → ℕ → ChallengeManager → ChallengeManager
store_pending_totp user_id secret now cm = record cm {
  pending_totps = Timed.set user_id secret (10 * minute) now cm.pending_totps;
}

-- The empty text if there is none.
unfoldable get_pending_totp : Text → ℕ → ChallengeManager → Text × ChallengeManager
get_pending_totp user_id now cm =
    let (found, s) = Timed.get user_id now cm.pending_totps in
    (elim found [ none ↦ [] | some secret ↦ secret ], record cm { pending_totps = s })

unfoldable delete_pending_totp : Text → ChallengeManager → ChallengeManager
delete_pending_totp user_id cm = record cm { pending_totps = Timed.remove user_id cm.pending_totps }

unfoldable pub login_attempt_key : Text → Text → Text → Text
login_attempt_key ip method username = ip ++ (codes ":" ++ (username ++ (codes ":" ++ method)))

-- The clock is read by `Get` and for the answer.
unfoldable pub check_login_locked :
    Text → Text → Text → ℕ → ℕ → ChallengeManager → Bool × ChallengeManager
check_login_locked ip method username t_get t_now cm =
    let (found, s) = Timed.get (login_attempt_key ip method username) t_get cm.login_attempts in
    (
      elim found [ none ↦ false | some a ↦ ltb t_now a.locked_until ],
      record cm { login_attempts = s },
    )

abbrev pub or_zero : Option LoginAttempt → LoginAttempt
or_zero none = record { fail_count = pos 0; locked_until = 0 }
or_zero (some a) = a

-- One more failure: the third and every later one locks, unless a lock still holds at `t_check`.
-- The new lock runs from `t_lock`.
unfoldable pub count_failure : ℕ → ℕ → LoginAttempt → LoginAttempt
count_failure t_check t_lock a =
    let n = int64_succ a.fail_count in
    record {
      fail_count = n;
      locked_until =
          if not (int_lt n (pos max_login_attempts))
            && (a.locked_until == 0 || ltb a.locked_until t_check)
          then t_lock + lockout_duration
          else a.locked_until;
    }

-- The clock is read by `Get`, for the lock that holds, for the new lock, by `Set`, and for the
-- answer, in this order.
unfoldable pub record_login_failure :
    Text → Text → Text → ℕ → ℕ → ℕ → ℕ → ℕ → ChallengeManager → Bool × ChallengeManager
record_login_failure ip method username t_get t_check t_lock t_set t_now cm =
    let key = login_attempt_key ip method username in
    let (found, s) = Timed.get key t_get cm.login_attempts in
    let a = count_failure t_check t_lock (or_zero found) in
    (
      ltb t_now a.locked_until,
      record cm { login_attempts = Timed.set key a (lockout_duration + minute) t_set s },
    )

unfoldable pub clear_login_attempts : Text → Text → Text → ChallengeManager → ChallengeManager
clear_login_attempts ip method username cm = record cm {
  login_attempts = Timed.remove (login_attempt_key ip method username) cm.login_attempts;
}

unfoldable pub otp_key : Text → Text → Text
otp_key user_id code = user_id ++ (codes ":" ++ code)

unfoldable pub mark_otp_used : Text → Text → ℕ → ChallengeManager → ChallengeManager
mark_otp_used user_id code now cm = record cm {
  used_otp_codes = Timed.set (otp_key user_id code) true (90 * second) now cm.used_otp_codes;
}

unfoldable pub is_otp_used : Text → Text → ℕ → ChallengeManager → Bool × ChallengeManager
is_otp_used user_id code now cm =
    let (found, s) = Timed.get (otp_key user_id code) now cm.used_otp_codes in
    (elim found [ none ↦ false | some _ ↦ true ], record cm { used_otp_codes = s })

-- Each store reads the clock for itself.
unfoldable clean_all_expired_entries : ℕ → ℕ → ℕ → ℕ → ℕ → ChallengeManager → ChallengeManager
clean_all_expired_entries t1 t2 t3 t4 t5 cm = record {
  login_challenges = Timed.clean t1 cm.login_challenges;
  email_bind_codes = Timed.clean t2 cm.email_bind_codes;
  pending_totps = Timed.clean t3 cm.pending_totps;
  login_attempts = Timed.clean t4 cm.login_attempts;
  used_otp_codes = Timed.clean t5 cm.used_otp_codes;
}
