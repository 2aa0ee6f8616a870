-- ===== src/Handler/Login/Tokens.antt =====
-- The challenge behind a token that `verifyPassword` of internal/handler/auth.go gives.
use domus.Prelude.{
  ◌≢◌, ℕ, ◌+◌, ◌*◌, ◌≤◌, ltb, Text, codes, str_eq_refl, is_empty, Bool, true, false, not, ◌&&◌,
  some, List, [], ◌∷◌, ◌++◌, if◌then◌else◌, ◌≡◌, refl, sym, ap, subst, ◌∙◌, arith, Bool-cases, inl,
  inr, ◌⊎◌,
}
use domus.Model.Result.{Result, ok, err}
use domus.Model.User.{User, get_by_username}
use domus.Model.Session.{hex_encode}
use domus.Auth.Timed
use domus.Auth.Timed.Laws.{get-set}
use domus.Auth.Challenge.{
  ChallengeManager, LoginChallenge, minute, generate_token, create_login_challenge,
  get_login_challenge, check_login_locked,
}
use domus.Handler.Login.Factors.{not-false}
use domus.Handler.Login.{
  Server, Clock, LoginReply, refused, token_given, failure_recorded, record_failure, login_fail,
  challenge_created, create_challenge_for_user, second_methods, password_accepted, password_checked,
  check_locked, verify_password,
}

-- A token was given for a user: for five minutes it names a challenge of that user with the
-- methods of the answer.
Given : Text → List Text → User → Clock → Server → Type 0
Given token ms user t s' =
    (later : ℕ)
    → later ≤ t.challenge + 5 * minute
    → (ch : LoginChallenge) × ((get_login_challenge token later s'.challenges).0 ≡ some ch)
      × (ch.user_id ≡ user.id)
      × (ch.methods ≡ ms)

no_token :
    (status : ℕ) (code token : Text) (ms : List Text) (s s' : Server)
    → ◌≡◌ {A = LoginReply × Server} (refused status code, s) (token_given token ms, s')
    → ⊥
no_token status code token ms s s' h = clash (ap (λ p. p.0) h)
  where
    clash : refused status code ≡ token_given token ms → ⊥
    clash c = cc

token_of : LoginReply → Text
token_of (token_given token ms) = token
token_of _ = []

methods_of : LoginReply → List Text
methods_of (token_given token ms) = ms
methods_of _ = []

Given-of :
    (token : Text) (ms : List Text) (user : User) (t : Clock) (s s' : Server) (ch : LoginChallenge)
    → ch.user_id ≡ user.id
    → ch.methods ≡ ms
    → Timed.set token ch (5 * minute) t.challenge s.challenges.login_challenges
      ≡ s'.challenges.login_challenges
    → Given token ms user t s'
unfolding Given get_login_challenge
Given-of token ms user t s s' ch e f stored later l = (ch, found, e, f)
  where
    in_time : ltb (t.challenge + 5 * minute) later ≡ false
    in_time = ground (arith, l)

    found : (Timed.get token later s'.challenges.login_challenges).0 ≡ some ch
    found =
        ap (λ m. (Timed.get token later m).0) (sym stored)
        ∙ (get-set token token ch (5 * minute) t.challenge later s.challenges.login_challenges
            ∙ rw (str_eq_refl token, in_time) refl)

created-Given :
    (user : User) (ms : List Text) (email_code token : Text) (ms' : List Text)
    (random : Result (List ℕ)) (t : Clock) (s s' : Server)
    → create_challenge_for_user user ms email_code random t s ≡ (token_given token ms', s')
    → (ms' ≡ ms) × Given token ms user t s'
unfolding create_challenge_for_user challenge_created create_login_challenge generate_token token_of
    methods_of
created-Given user ms email_code token ms' (err x) t s s' h =
    absurd (no_token 500 (codes "internal_error") token ms' s s' h)
created-Given user ms email_code token ms' (ok bytes) t s s' h = (
  sym (ap (λ p. methods_of p.0) h),
  subst (λ x. Given x ms user t s') (ap (λ p. token_of p.0) h) given,
)
  where
    ch : LoginChallenge
    ch = record {
      user_id = user.id;
      username = user.username;
      role = user.role;
      methods = ms;
      email_code = email_code;
    }

    stored :
        Timed.set (hex_encode bytes) ch (5 * minute) t.challenge s.challenges.login_challenges
        ≡ s'.challenges.login_challenges
    stored = ap (λ p. p.1.challenges.login_challenges) h

    given : Given (hex_encode bytes) ms user t s'
    given = Given-of (hex_encode bytes) ms user t s s' ch refl refl stored

either :
    (b : Bool) (x y z : LoginReply × Server)
    → (if b then x else y) ≡ z
    → ((b ≡ true) × (x ≡ z)) ⊎ ((b ≡ false) × (y ≡ z))
either true x y z h = inl (refl, h)
either false x y z h = inr (refl, h)

no_methods :
    (e o : Bool) (a b : Text)
    → (not e && not o) ≡ true
    → (if e then a ∷ [] else []) ++ (if o then b ∷ [] else []) ≡ []
no_methods true o a b h = cc
no_methods false true a b h = cc
no_methods false false a b h = refl

password-Given :
    (user : User) (generated token : Text) (ms : List Text) (random : Result (List ℕ)) (t : Clock)
    (s s' : Server)
    → password_accepted user generated random t s ≡ (token_given token ms, s')
    → (ms ≡ second_methods user) × Given token (second_methods user) user t s'
unfolding password_accepted second_methods
password-Given user generated token ms random t s s' h =
    elim (either (not (not (is_empty user.email)) && not user.totp_enabled) _ _ _ h) [
      | inl (b, k) ↦
          let (e, g) = created-Given user [] [] token ms random t s s' k in
          let none_set : [] ≡ second_methods user = sym (
            no_methods (not (is_empty user.email)) user.totp_enabled (codes "email") (codes "otp")
              b) in
          (e ∙ none_set, subst (λ x. Given token x user t s') none_set g)
      | inr (b, k) ↦ created-Given user (second_methods user) _ token ms random t s s' k
    ]

failure_no_token :
    (code token : Text) (ms : List Text) (s s' : Server) (f : Bool × ChallengeManager)
    → failure_recorded code s f ≡ (token_given token ms, s')
    → ⊥
unfolding failure_recorded
failure_no_token code token ms s s' (true, cm) =
    no_token 429 (codes "too_many_attempts") token ms _ s'
failure_no_token code token ms s s' (false, cm) = no_token 401 code token ms _ s'

checked-Given :
    (check_password : Text → Text → Bool) (ip username password generated token : Text)
    (ms : List Text) (random : Result (List ℕ)) (t : Clock) (s s' : Server) (res : Result User)
    → password_checked check_password ip username password generated random t s res
      ≡ (token_given token ms, s')
    → (u : User) × (res ≡ ok u)
      × (check_password u.password_hash password ≡ true)
      × (ms ≡ second_methods u)
      × Given token (second_methods u) u t s'
unfolding password_checked login_fail record_failure
checked-Given check_password ip username password generated token ms random t s s' (err x) h =
    absurd (failure_no_token (codes "invalid_credentials") token ms s s' _ h)
checked-Given check_password ip username password generated token ms random t s s' (ok u) h =
    elim (either (not (check_password u.password_hash password)) _ _ _ h) [
      | inl (b, k) ↦ absurd (failure_no_token (codes "invalid_credentials") token ms s s' _ k)
      | inr (b, k) ↦
          let (e, g) = password-Given u generated token ms random t s s' k in
          (u, refl, not-false _ b, e, g)
    ]

-- What is asked for after the password of a user with this address who has one-time codes or not:
-- nothing, or each of the two that the user has.
abbrev pub AsksFor : Text → Bool → List Text → Type 0
AsksFor email has_codes ms =
    ((email ≡ []) × (has_codes ≡ false) × (ms ≡ []))
    ⊎ (((email ≢ []) × (has_codes ≡ false) × (ms ≡ codes "email" ∷ []))
        ⊎ (((email ≡ []) × (has_codes ≡ true) × (ms ≡ codes "otp" ∷ []))
            ⊎ ((email ≢ []) × (has_codes ≡ true) × (ms ≡ codes "email" ∷ codes "otp" ∷ []))))

second_methods-AsksFor : (u : User) → AsksFor u.email u.totp_enabled (second_methods u)
unfolding second_methods is_empty
second_methods-AsksFor u = go u.email u.totp_enabled
  where
    go :
        (email : Text) (has_codes : Bool)
        → AsksFor email has_codes (
            (if not (is_empty email) then codes "email" ∷ [] else [])
            ++ (if has_codes then codes "otp" ∷ [] else []))
    go [] false = inl (refl, refl, refl)
    go (c ∷ s) false = inr (inl ((λ e. absurd cc), refl, refl))
    go [] true = inr (inr (inl (refl, refl, refl)))
    go (c ∷ s) true = inr (inr (inr ((λ e. absurd cc), refl, refl)))

-- A password gives a token only for the user of that name whose password it is; for five minutes
-- the token names a challenge of that user, whose methods are those of the answer: none if the
-- user has neither an address nor one-time codes, else exactly those of `email` and `otp` that
-- the user has.
pub verify_password_sound :
    (check_password : Text → Text → Bool) (ip username password generated token : Text)
    (ms : List Text) (random : Result (List ℕ)) (t : Clock) (s s' : Server)
    → verify_password check_password ip username password generated random t s
      ≡ (token_given token ms, s')
    → (u : User) × (get_by_username username s.users ≡ ok u)
      × (check_password u.password_hash password ≡ true)
      × AsksFor u.email u.totp_enabled ms
      × ((later : ℕ)
          → later ≤ t.challenge + 300000000000
          → (ch : LoginChallenge) × ((get_login_challenge token later s'.challenges).0 ≡ some ch)
            × (ch.user_id ≡ u.id)
            × (ch.methods ≡ ms))
unfolding verify_password Given
verify_password_sound check_password ip username password generated token ms random t s s' h =
    let (u, found, p, e, g) =
      checked-Given check_password ip username password generated token ms random t _ s'
        (get_by_username username s.users) h in
    (
      u,
      found,
      p,
      subst (AsksFor u.email u.totp_enabled) (sym e) (second_methods-AsksFor u),
      λ later l. let (ch, live, id, m) = g later l in (ch, live, id, m ∙ sym e),
    )

accepted_token :
    (user : User) (generated : Text) (bytes : List ℕ) (t : Clock) (s : Server)
    → ((password_accepted user generated (ok bytes) t s).0
        ≡ token_given (hex_encode bytes) (second_methods user))
      × ((password_accepted user generated (ok bytes) t s).1.status ≡ s.status)
unfolding password_accepted create_challenge_for_user challenge_created create_login_challenge
    generate_token second_methods
accepted_token user generated bytes t s =
    elim (Bool-cases (not (not (is_empty user.email)) && not user.totp_enabled)) [
      | inl b ↦ rw b (
        ap (token_given (hex_encode bytes)) (
            sym (
              no_methods (not (is_empty user.email)) user.totp_enabled (codes "email") (codes "otp")
                b)),
        refl,
      )
      | inr b ↦ rw b (refl, refl)
    ]

-- While the account is locked for passwords, the right password of a user still gives a token
-- with the user's methods, where random bytes can be read; only the answer's status is 429.
pub verify_password-locked :
    (check_password : Text → Text → Bool) (ip username password generated : Text) (bytes : List ℕ)
    (t : Clock) (s : Server) (u : User)
    → get_by_username username s.users ≡ ok u
    → check_password u.password_hash password ≡ true
    → (check_login_locked ip (codes "password") username t.locked_get t.locked s.challenges).0
      ≡ true
    → ((verify_password check_password ip username password generated (ok bytes) t s).0
        ≡ token_given (hex_encode bytes) (second_methods u))
      × ((verify_password check_password ip username password generated (ok bytes) t s).1.status
          ≡ 429)
unfolding verify_password password_checked check_locked
verify_password-locked check_password ip username password generated bytes t s u g p l =
    let (a, k) =
      accepted_token u generated bytes t (check_locked ip (codes "password") username t s) in
    rw (g, p) (a, k ∙ rw l refl)
