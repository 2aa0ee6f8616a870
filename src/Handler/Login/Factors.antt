-- ===== src/Handler/Login/Factors.antt =====
-- When `handleLogin` of internal/handler/auth.go issues a session.
use domus.Prelude.{
  ℕ, Text, codes, str_eq, str_eq_refl, eq_iff, is_empty, Bool, true, false, not, ◌||◌, Option, none,
  List, [], ◌⊎◌, inl, inr, if◌then◌else◌, ◌≡◌, ◌≢◌, refl, sym, ap, subst, ◌∙◌, arith, Bool-cases,
}
use domus.Model.Result.{Result, ok, err}
use domus.Model.User.{User, get_by_id}
use domus.Model.Session
use domus.Model.Session.{SessionRepo}
use domus.Auth.Timed.Laws.{get-remove}
use domus.Auth.Challenge.{
  ChallengeManager, LoginChallenge, get_login_challenge, delete_login_challenge, check_login_locked,
  clear_login_attempts, is_otp_used,
}
use domus.Auth.Totp.{validate_totp}
use domus.Handler.Login.{
  Server, Clock, LoginReply, refused, session_issued, is_member, check_locked, session_created,
  issue_session, failure_recorded, record_failure, second_factor, factor_checked, login_user,
  direct_user, direct_login, second_login,
}

-- A session was issued for a user: `Create` made it, and the challenge's token is used up.
unfoldable pub Issued :
    Text → Text → User → User → Result (List ℕ) → Clock → Server → Server → Type 0
Issued token id user u random t s s' =
    (u ≡ user)
    × (Session.create user.id user.username user.role random t.session s.sessions
        ≡ ok (id, s'.sessions))
    × ((later : ℕ) → (get_login_challenge token later s'.challenges).0 ≡ none)

issued_id : LoginReply → Text
issued_id (session_issued id u) = id
issued_id _ = []

session_created_some :
    (user u : User) (id : Text) (s s' : Server) (res : Result (Text × SessionRepo))
    → session_created user s res ≡ (session_issued id u, s')
    → (u ≡ user) × (res ≡ ok (id, s'.sessions)) × (s'.challenges ≡ s.challenges)
unfolding session_created issued_id
session_created_some user u id s s' (err x) h = absurd (clash (ap (λ p. p.0) h))
  where
    clash : refused 500 (codes "session_creation_failed") ≡ session_issued id u → ⊥
    clash c = cc
session_created_some user u id s s' (ok (i, ss)) h = (
  issued_user (ap (λ p. p.0) h),
  ap (λ p. ok (issued_id p.0, p.1.sessions)) h,
  sym (ap (λ p. p.1.challenges) h),
)
  where
    issued_user : session_issued i user ≡ session_issued id u → u ≡ user
    issued_user c = cc

deleted_token :
    (token ip method username : Text) (later : ℕ) (cm : ChallengeManager)
    → (get_login_challenge token later
        (clear_login_attempts ip method username (delete_login_challenge token cm))).0
      ≡ none
unfolding get_login_challenge clear_login_attempts delete_login_challenge
deleted_token token ip method username later cm =
    get-remove token token later cm.login_challenges ∙ rw (str_eq_refl token) refl

issue_session_some :
    (ip token : Text) (user u : User) (method id : Text) (random : Result (List ℕ)) (t : Clock)
    (s s' : Server)
    → issue_session ip user method random t
        (record s { challenges = delete_login_challenge token s.challenges })
      ≡ (session_issued id u, s')
    → Issued token id user u random t s s'
unfolding issue_session Issued
issue_session_some ip token user u method id random t s s' h =
    let (e, c, k) = session_created_some user u id _ s' _ h in
    (
      e,
      c,
      λ later.
          ap (λ cm. (get_login_challenge token later cm).0) k
          ∙ deleted_token token ip method user.username later s.challenges,
    )

pub not-false : (b : Bool) → not b ≡ false → b ≡ true
not-false true h = refl
not-false false h = cc

-- An answer that is not a session.
unfoldable pub NoSession : LoginReply → Type 0
NoSession a = (id : Text) (u : User) → a ≢ session_issued id u

pub refused-NoSession : (status : ℕ) (code : Text) → NoSession (refused status code)
unfolding NoSession
refused-NoSession status code id u h = cc

failure-NoSession :
    (code : Text) (s : Server) (f : Bool × ChallengeManager)
    → NoSession (failure_recorded code s f).0
unfolding failure_recorded
failure-NoSession code s (true, cm) = refused-NoSession 429 (codes "too_many_attempts")
failure-NoSession code s (false, cm) = refused-NoSession 401 code

pub not_issued :
    (a : LoginReply × Server) (id : Text) (u : User) (s : Server)
    → NoSession a.0
    → a ≡ (session_issued id u, s)
    → ⊥
unfolding NoSession
not_issued a id u s n h = n id u (ap (λ p. p.0) h)

-- A refusal that was passed by.
unrefused :
    (b : Bool) (status : ℕ) (code : Text) (s₁ : Server) (y : LoginReply × Server) (id : Text)
    (u : User) (s' : Server)
    → (if b then (refused status code, s₁) else y) ≡ (session_issued id u, s')
    → (b ≡ false) × (y ≡ (session_issued id u, s'))
unrefused true status code s₁ y id u s' h =
    absurd (not_issued (refused status code, s₁) id u s' (refused-NoSession status code) h)
unrefused false status code s₁ y id u s' h = (refl, h)

module _ (decode : Text → Option (List ℕ)) (hmac : List ℕ → List ℕ → List ℕ) where
  -- The second factor of a challenge: the code that was sent by email, or a valid one-time code
  -- that was not used before.
  unfoldable pub Proved : LoginChallenge → User → Text → Text → Clock → ChallengeManager → Type 0
  Proved ch user code method t cm =
      ((method ≡ codes "email") × (code ≡ ch.email_code))
      ⊎ ((method ≡ codes "otp")
          × ((is_otp_used user.id code t.otp_used cm).0 ≡ false)
          × (validate_totp decode hmac user.totp_secret code t.otp_unix ≡ true))

  -- What the check leaves: a proof, or an answer that is not a session.
  Checked :
      LoginChallenge → User → Text → Text → Clock → Server → Server ⊎ (LoginReply × Server) → Type 0
  Checked ch user code method t s (inl s₁) =
      Proved ch user code method t s.challenges × (s₁.sessions ≡ s.sessions)
  Checked ch user code method t s (inr a) = NoSession a.0

  second_factor-Checked :
      (ip : Text) (ch : LoginChallenge) (user : User) (code method : Text) (t : Clock) (s : Server)
      → Checked ch user code method t s (second_factor decode hmac ip ch user code method t s)
  unfolding second_factor Proved Checked record_failure
  second_factor-Checked ip ch user code method t s =
      elim (Bool-cases (str_eq method (codes "email"))) [
        | inl e ↦ elim (Bool-cases (not (str_eq ch.email_code code))) [
          | inl w ↦ rw (e, w) (failure-NoSession (codes "invalid_code") s _)
          | inr r ↦ rw (e, r) (inl ((eq_iff method (codes "email")).0 e, same_code r), refl)
        ]
        | inr e ↦ elim (Bool-cases (str_eq method (codes "otp"))) [
          | inr o ↦ rw (e, o) (refused-NoSession 400 (codes "invalid_method"))
          | inl o ↦ elim (Bool-cases (is_otp_used user.id code t.otp_used s.challenges).0) [
            | inl d ↦ rw (e, o, d) (refused-NoSession 401 (codes "otp_already_used"))
            | inr d ↦
                elim (Bool-cases
                  (not (validate_totp decode hmac user.totp_secret code t.otp_unix))) [
                    | inl v ↦ rw (e, o, d, v) (failure-NoSession (codes "invalid_code") _ _)
                    | inr v ↦
                        rw (e, o, d, v)
                          (inr ((eq_iff method (codes "otp")).0 o, d, not-false _ v), refl)
                  ]
          ]
        ]
      ]
    where
      same_code : not (str_eq ch.email_code code) ≡ false → code ≡ ch.email_code
      same_code r = ground (arith, r, eq_iff ch.email_code code)

  factor_some :
      (ip token : Text) (ch : LoginChallenge) (user u : User) (code method id : Text)
      (random : Result (List ℕ)) (t : Clock) (s s' : Server) (x : Server ⊎ (LoginReply × Server))
      → Checked ch user code method t s x
      → factor_checked decode hmac ip token user method random t x ≡ (session_issued id u, s')
      → Issued token id user u random t s s' × Proved ch user code method t s.challenges
  unfolding factor_checked Checked Issued
  factor_some ip token ch user u code method id random t s s' (inr a) n h =
      absurd (not_issued a id u s' n h)
  factor_some ip token ch user u code method id random t s s' (inl s₁) (p, same) h =
      let (e, c, l) = issue_session_some ip token user u method id random t s₁ s' h in
      (
        (
          e,
          ap (λ x. Session.create user.id user.username user.role random t.session x) (sym same)
              ∙ c,
          l,
        ),
        p,
      )

  user_some :
      (ip token : Text) (ch : LoginChallenge) (u : User) (code method id : Text)
      (random : Result (List ℕ)) (t : Clock) (s s' : Server) (res : Result User)
      → login_user decode hmac ip token ch code method random t s res ≡ (session_issued id u, s')
      → (res ≡ ok u) × Issued token id u u random t s s' × Proved ch u code method t s.challenges
  unfolding login_user
  user_some ip token ch u code method id random t s s' (err x) h =
      absurd (not_issued _ id u s' (refused-NoSession 500 (codes "internal_error")) h)
  user_some ip token ch u code method id random t s s' (ok user) h =
      let (i, p) =
        factor_some ip token ch user u code method id random t s s' _
          (second_factor-Checked ip ch user code method t s) h in
      let same : u ≡ user = unfold Issued in i.0 in
      (
        ap ok (sym same),
        subst (λ x. Issued token id x u random t s s') (sym same) i,
        subst (λ x. Proved ch x code method t s.challenges) (sym same) p,
      )

  -- What a second factor needs besides: a method that the challenge names.
  pub second_some :
      (ip token : Text) (ch : LoginChallenge) (u : User) (code method id : Text)
      (random : Result (List ℕ)) (t : Clock) (s s' : Server)
      → second_login decode hmac ip token ch code method random t s ≡ (session_issued id u, s')
      → (get_by_id ch.user_id s.users ≡ ok u)
        × Issued token id u u random t s s'
        × (is_member method ch.methods ≡ true)
        × Proved ch u code method t s.challenges
  unfolding second_login check_locked check_login_locked is_otp_used Proved Issued
  second_some ip token ch u code method id random t s s' h =
      let (a, h₁) =
        unrefused (is_empty code || is_empty method) 400 (codes "code_required") s _ id u s' h in
      let (m, h₂) =
        unrefused (not (is_member method ch.methods)) 400 (codes "method_not_available") _ _ id u s'
          h₁ in
      let (r, i, p) =
        user_some ip token ch u code method id random t (check_locked ip method ch.username t s) s'
          (get_by_id ch.user_id s.users) h₂ in
      (r, i, not-false _ m, p)

  direct_user_some :
      (ip token : Text) (ch : LoginChallenge) (u : User) (id : Text) (random : Result (List ℕ))
      (t : Clock) (s s' : Server) (res : Result User)
      → direct_user decode hmac ip random t
          (record s { challenges = delete_login_challenge token s.challenges })
          res
        ≡ (session_issued id u, s')
      → (res ≡ ok u) × Issued token id u u random t s s'
  unfolding direct_user
  direct_user_some ip token ch u id random t s s' (err x) h =
      absurd (not_issued _ id u s' (refused-NoSession 500 (codes "internal_error")) h)
  direct_user_some ip token ch u id random t s s' (ok user) h =
      let i : Issued token id user u random t s s' =
        issue_session_some ip token user u (codes "password") id random t s s' h in
      let same : u ≡ user = unfold Issued in i.0 in
      (ap ok (sym same), subst (λ x. Issued token id x u random t s s') (sym same) i)

  pub direct_some :
      (ip token : Text) (ch : LoginChallenge) (u : User) (code id : Text) (random : Result (List ℕ))
      (t : Clock) (s s' : Server)
      → direct_login decode hmac ip token ch code random t s ≡ (session_issued id u, s')
      → (get_by_id ch.user_id s.users ≡ ok u) × Issued token id u u random t s s'
  unfolding direct_login
  direct_some ip token ch u code id random t s s' h =
      let (a, k) = unrefused (not (is_empty code)) 400 (codes "code_not_expected") s _ id u s' h in
      direct_user_some ip token ch u id random t s s' (get_by_id ch.user_id s.users) k
