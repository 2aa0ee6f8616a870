-- ===== src/Auth/Challenge/Codes.antt =====
-- Codes and tokens of internal/auth/challenge.go: valid once, and for a time.
use mathlib.Core.Bool.{false≢true}
use domus.Prelude.{
  ℕ, ◌+◌, ◌*◌, ltb, Text, str_eq, str_eq_refl, eq_iff, true, false, not, ◌&&◌, ◌≡◌, ◌↔◌, sym, ◌∙◌,
  Option, Option-cases, Bool-cases, none, some, List, arith, if◌then◌else◌, inl, inr,
}
use domus.Model.Result.{Result, ok, err}
use domus.Model.Keys.{NoColon, colon-injective}
use domus.Model.Session.{hex_encode}
use domus.Auth.Timed
use domus.Auth.Timed.{TimedStore}
use domus.Auth.Timed.Laws.{get-set, get-remove}
use domus.Auth.Challenge.{
  LoginChallenge, EmailBindEntry, ChallengeManager, minute, second, generate_token,
  create_login_challenge, get_login_challenge, delete_login_challenge, verify_email_bind_code,
  otp_key, mark_otp_used, is_otp_used,
}

abbrev pub pending_email : Text → ℕ → ChallengeManager → Option EmailBindEntry
pending_email user_id now cm = (Timed.get user_id now cm.email_bind_codes).0

-- A code is accepted exactly when the user has a pending entry that has not expired, of that
-- email address and with that code.
verify_email_bind_code_iff :
    (user_id email code : Text) (now : ℕ) (cm : ChallengeManager)
    → ((verify_email_bind_code user_id email code now cm).0 ≡ true)
      ↔ (pending_email user_id now cm ≡ some (record { email = email; code = code }))
unfolding verify_email_bind_code
verify_email_bind_code_iff user_id email code now cm =
    elim (Option-cases (pending_email user_id now cm)) [
      | inl n ↦ ((λ h. absurd (ground arith)), λ h. absurd (ground arith))
      | inr (e, s) ↦ (
        (λ h. ground (arith, s, eq_iff e.email email, eq_iff e.code code)),
        λ h. ground (arith, s, eq_iff e.email email, eq_iff e.code code),
      )
    ]

nothing_pending :
    (user_id email code : Text) (now : ℕ) (cm : ChallengeManager)
    → pending_email user_id now cm ≡ none
    → (verify_email_bind_code user_id email code now cm).0 ≡ false
unfolding verify_email_bind_code
nothing_pending user_id email code now cm n = ground arith

used_up :
    (user_id email code : Text) (now later : ℕ) (cm : ChallengeManager)
    → (verify_email_bind_code user_id email code now cm).0 ≡ true
    → pending_email user_id later (verify_email_bind_code user_id email code now cm).1 ≡ none
unfolding verify_email_bind_code
used_up user_id email code now later cm h = ground (
  arith,
  get-remove user_id user_id later (Timed.get user_id now cm.email_bind_codes).1,
  str_eq_refl user_id,
)

-- An accepted code is used up: right after it no code is accepted for that user at any time.
email_code_single_use :
    (user_id email code email' code' : Text) (now later : ℕ) (cm : ChallengeManager)
    → (verify_email_bind_code user_id email code now cm).0 ≡ true
    → (verify_email_bind_code user_id email' code' later
        (verify_email_bind_code user_id email code now cm).1).0
      ≡ false
email_code_single_use user_id email code email' code' now later cm h =
    nothing_pending user_id email' code' later _ (used_up user_id email code now later cm h)

-- A login token that was made is good for five minutes, for the challenge that it was made for,
-- and no longer once it is deleted.
login_token_lifetime :
    (ch : LoginChallenge) (random : Result (List ℕ)) (now later : ℕ) (cm : ChallengeManager)
    {token : Text} {cm' : ChallengeManager}
    → create_login_challenge ch random now cm ≡ ok (token, cm')
    → ((get_login_challenge token later cm').0
        ≡ (if ltb (now + 5 * minute) later then none else some ch))
      × ((get_login_challenge token later (delete_login_challenge token cm')).0 ≡ none)
unfolding create_login_challenge get_login_challenge delete_login_challenge
login_token_lifetime ch (err e) now later cm {token} {cm'} h =
    absurd (unfold generate_token in ground arith)
login_token_lifetime ch (ok b) now later cm {token} {cm'} h =
    unfold generate_token in
    (
      ground (
        arith,
        get-set (hex_encode b) (hex_encode b) ch (5 * minute) now later cm.login_challenges,
        str_eq_refl (hex_encode b),
      ),
      ground (arith, get-remove token token later cm'.login_challenges, str_eq_refl token),
    )

-- Keys of used codes are equal exactly for one user and one code.
otp_key_eq :
    (u v c d : Text)
    → NoColon u
    → NoColon v
    → str_eq (otp_key u c) (otp_key v d) ≡ (str_eq u v && str_eq c d)
unfolding otp_key
otp_key_eq u v c d a b = elim (Bool-cases (str_eq (otp_key u c) (otp_key v d))) [
  | inl t ↦
      let (s, e) = colon-injective u v c d a b ((eq_iff _ _).0 t) in
      rw t (rw (s, e) (rw (str_eq_refl v, str_eq_refl d)))
  | inr f ↦ rw f (elim (Bool-cases (str_eq u v)) [
    | inr g ↦ rw g
    | inl s ↦ elim (Bool-cases (str_eq c d)) [
      | inr g ↦ rw (s, g)
      | inl e ↦ absurd (false≢true (sym f ∙ same ((eq_iff u v).0 s) ((eq_iff c d).0 e)))
    ]
  ])
]
  where
    same : u ≡ v → c ≡ d → str_eq (otp_key u c) (otp_key v d) ≡ true
    same s e = rw (s, e) (str_eq_refl (otp_key v d))

-- A one-time code that was marked counts as used for 90 seconds, for that user only: codes of
-- other users and other codes of the user are as they were.
pub is_otp_used-mark_otp_used :
    (u v c d : Text) (now later : ℕ) (cm : ChallengeManager)
    → NoColon u
    → NoColon v
    → (is_otp_used v d later (mark_otp_used u c now cm)).0 ≡ (
        if str_eq u v && str_eq c d
        then not (ltb (now + 90 * second) later)
        else (is_otp_used v d later cm).0)
unfolding is_otp_used mark_otp_used
is_otp_used-mark_otp_used u v c d now later cm a b = ground (
  arith,
  get-set (otp_key u c) (otp_key v d) true (90 * second) now later cm.used_otp_codes,
  otp_key_eq u v c d a b,
)
