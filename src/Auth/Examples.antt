-- ===== src/Auth/Examples.antt =====
-- Challenges and one-time codes (internal/auth) at concrete times.
use domus.Prelude.{
  ℕ, ◌++◌, Text, codes, str_eq, ◌+◌, ◌*◌, ◌≡◌, ◌↔◌, true, false, refl, [], ◌∷◌, List, Option, none,
  some, arith,
}
use domus.Model.Keys.{NoColon}
use domus.Auth.Challenge.{
  ChallengeManager, new_challenge_manager, second, login_attempt_key, store_email_bind_code,
  verify_email_bind_code, check_login_locked, mark_otp_used, is_otp_used,
}
use domus.Auth.Challenge.Lockout.{Readings, attempt, fail, three_failures_lock}
use domus.Auth.Totp.{
  compute_totp, validate_totp, validate_totp_iff, totp_no_replay, InWindow, epoch,
}
use domus.Auth.Timed.Refines.{Call, sets, gets, removes, cleans, spec_run, store_run, store_refines}

abbrev empty : ChallengeManager
empty = new_challenge_manager

abbrev at : ℕ → Readings
at t = record { t_get = t; t_check = t; t_lock = t; t_set = t; t_now = t }

abbrev failed : ℕ → ChallengeManager → ChallengeManager
failed t cm = (fail (codes "ip") (codes "password") (codes "ann") (at t) cm).1

nothing_yet :
    attempt (login_attempt_key (codes "ip") (codes "password") (codes "ann")) 10 empty ≡ none
unfolding domus.Auth.Timed.get domus.Dict.lookup new_challenge_manager
nothing_yet = refl

three_failures_lock_example :
    ((fail (codes "ip") (codes "password") (codes "ann") (at 10) empty).0 ≡ false)
    × ((fail (codes "ip") (codes "password") (codes "ann") (at 20) (failed 10 empty)).0 ≡ false)
    × ((fail (codes "ip") (codes "password") (codes "ann") (at 30) (failed 20 (failed 10 empty))).0
        ≡ true)
    × ((check_login_locked
          (codes "ip")
          (codes "password")
          (codes "ann")
          40
          40
          (failed 30 (failed 20 (failed 10 empty)))).0
        ≡ true)
three_failures_lock_example =
    three_failures_lock (codes "ip") (codes "password") (codes "ann") (at 10) (at 20) (at 30) 40 40
      empty nothing_yet (omega arith) (omega arith) (omega arith) (omega arith) (omega arith)
      (omega arith)

abbrev pending : ChallengeManager
pending = store_email_bind_code (codes "u1") (codes "a@b") (codes "123456") 10 empty

accepted : (verify_email_bind_code (codes "u1") (codes "a@b") (codes "123456") 20 pending).0 ≡ true
unfolding verify_email_bind_code domus.Auth.Timed.get domus.Dict.lookup store_email_bind_code
    domus.Auth.Timed.set domus.Dict.insert new_challenge_manager str_eq
accepted = refl

u1-NoColon : NoColon (codes "u1")
u1-NoColon = (omega arith, (omega arith, tt))

-- One second before and after the half minute with the number 10.
abbrev early : ℕ
early = (epoch + 299) * second

abbrev late : ℕ
late = (epoch + 359) * second

totp_no_replay_example :
    (is_otp_used
      (codes "u1")
      (codes "123456")
      late
      (mark_otp_used (codes "u1") (codes "123456") early empty)).0
    ≡ true
totp_no_replay_example =
    totp_no_replay (codes "u1") (codes "123456") 10 early late empty u1-NoColon (omega arith)
      (omega arith) (omega arith, omega arith) (omega arith, omega arith)

-- Decoding and authentication in the shape of base32 and HMAC-SHA1.
abbrev decoded : Text → Option (List ℕ)
decoded s = some s

abbrev digest : List ℕ → List ℕ → List ℕ
digest key bytes = key ++ (bytes ++ (0 ∷ 1 ∷ 2 ∷ 3 ∷ 4 ∷ 5 ∷ 6 ∷ 7 ∷ 8 ∷ 9 ∷ 0 ∷ []))

validate_totp_iff_example :
    (validate_totp decoded digest (codes "K") (codes "123456") 300 ≡ true) ↔ (
      (key : List ℕ) × (decoded (codes "K") ≡ some key)
      × ((c : ℕ) × InWindow c 300 × (compute_totp (digest key) c ≡ codes "123456")))
validate_totp_iff_example =
    validate_totp_iff decoded digest (codes "K") (codes "123456") 300 (omega arith) (omega arith)

abbrev calls : List (Call ℕ × ℕ)
calls =
    (sets (codes "k") 7 5, 10)
    ∷ (gets (codes "k"), 12)
    ∷ (cleans, 20)
    ∷ (gets (codes "k"), 21)
    ∷ (removes (codes "k"), 22)
    ∷ []

store_refines_example : store_run calls [] ≡ spec_run calls (λ k. none)
store_refines_example =
    store_refines calls 0
      (omega arith, (omega arith, (omega arith, (omega arith, (omega arith, tt)))))
