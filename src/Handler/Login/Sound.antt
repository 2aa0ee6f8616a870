-- ===== src/Handler/Login/Sound.antt =====
-- What a session that `handleLogin` of internal/handler/auth.go issues rests on.
use domus.Prelude.{
  ℕ, Text, codes, true, false, Option, none, some, List, [], ◌∷◌, ◌⊎◌, inl, inr, ◌≡◌, refl,
}
use domus.Model.Result.{Result, ok}
use domus.Model.User.{User, get_by_id}
use domus.Model.Session
use domus.Model.Session.{SessionRepo}
use domus.Auth.Challenge.{
  ChallengeManager, LoginChallenge, get_login_challenge, check_login_locked, is_otp_used,
}
use domus.Auth.Totp.{validate_totp}
use domus.Handler.Login.{
  Server, Clock, session_issued, is_member, methods_read, challenge_read, handle_login,
}
use domus.Handler.Login.Factors.{
  Issued, Proved, second_some, direct_some, not_issued, refused-NoSession,
}

module _ (decode : Text → Option (List ℕ)) (hmac : List ℕ → List ℕ → List ℕ) where
  -- What a challenge asks for: nothing more after a password without a second factor or a one-time
  -- code; or else a proof by one of its methods.
  Satisfied : Text → LoginChallenge → User → Text → Text → Clock → ChallengeManager → Type 0
  Satisfied ip ch u code method t cm =
      (ch.methods ≡ [])
      ⊎ ((is_member method ch.methods ≡ true) × Proved decode hmac ch u code method t cm)

  methods_some :
      (ip token code method id : Text) (u : User) (random : Result (List ℕ)) (t : Clock)
      (s s' : Server) (ch : LoginChallenge) (ms : List Text)
      → ch.methods ≡ ms
      → methods_read decode hmac ip token ch code method random t s ms ≡ (session_issued id u, s')
      → (get_by_id ch.user_id s.users ≡ ok u)
        × Issued token id u u random t s s'
        × Satisfied ip ch u code method t s.challenges
  unfolding methods_read Satisfied
  methods_some ip token code method id u random t s s' ch [] e h =
      let (g, i) = direct_some decode hmac ip token ch u code id random t s s' h in (g, i, inl e)
  methods_some ip token code method id u random t s s' ch (m ∷ ms) e h =
      let (g, i, a, p) = second_some decode hmac ip token ch u code method id random t s s' h in
      (g, i, inr (a, p))

  read_some :
      (ip token code method id : Text) (u : User) (random : Result (List ℕ)) (t : Clock)
      (s s' : Server) (found : Option LoginChallenge)
      → challenge_read decode hmac ip token code method random t s found ≡ (session_issued id u, s')
      → (ch : LoginChallenge) × (found ≡ some ch)
        × (get_by_id ch.user_id s.users ≡ ok u)
        × Issued token id u u random t s s'
        × Satisfied ip ch u code method t s.challenges
  unfolding challenge_read
  read_some ip token code method id u random t s s' none h =
      absurd (not_issued _ id u s' (refused-NoSession 401 (codes "token_expired")) h)
  read_some ip token code method id u random t s s' (some ch) h =
      let (g, i, a) = methods_some ip token code method id u random t s s' ch ch.methods refl h in
      (ch, refl, g, i, a)

  -- A session is issued only for the user of the live challenge that the token names; the user
  -- is read again, the session is the one that `Create` returns, and the challenge is used up:
  -- later reads of the token find none. If the challenge names methods, the request's method is
  -- one of them and is proved: by the code that was sent by email, or by a valid one-time code
  -- of the user that was not used before.
  pub handle_login_sound :
      (ip token code method id : Text) (u : User) (random : Result (List ℕ)) (t : Clock)
      (s s' : Server)
      → handle_login decode hmac ip token code method random t s ≡ (session_issued id u, s')
      → (ch : LoginChallenge) × ((get_login_challenge token t.challenge s.challenges).0 ≡ some ch)
        × (get_by_id ch.user_id s.users ≡ ok u)
        × (Session.create u.id u.username u.role random t.session s.sessions ≡ ok (id, s'.sessions))
        × ((later : ℕ) → (get_login_challenge token later s'.challenges).0 ≡ none)
        × ((ch.methods ≡ [])
            ⊎ ((is_member method ch.methods ≡ true)
                × (((method ≡ codes "email") × (code ≡ ch.email_code))
                    ⊎ ((method ≡ codes "otp")
                        × ((is_otp_used u.id code t.otp_used s.challenges).0 ≡ false)
                        × (validate_totp decode hmac u.totp_secret code t.otp_unix ≡ true)))))
  unfolding handle_login Satisfied Proved Issued get_login_challenge is_otp_used check_login_locked
  handle_login_sound ip token code method id u random t s s' h =
      let (ch, f, g, i, a) =
        read_some ip token code method id u random t
          (record s { challenges = (get_login_challenge token t.challenge s.challenges).1 }) s'
          (get_login_challenge token t.challenge s.challenges).0 h in
      (ch, f, g, i.1, i.2, a)
