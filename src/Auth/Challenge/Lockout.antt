-- ===== src/Auth/Challenge/Lockout.antt =====
-- The limit on failed logins (internal/auth/challenge.go): when an account is locked and how long.
use domus.Prelude.{
  ℕ, ◌+◌, ◌≤◌, ◌<◌, ltb, lt→ltb, Text, str_eq, str_eq_refl, pos, int_lt, int64_succ, Bool, true,
  false, ◌≡◌, refl, ◌∙◌, ap, Option, none, some, arith, if◌then◌else◌,
}
use domus.Auth.Timed
use domus.Auth.Timed.{TimedStore}
use domus.Auth.Timed.Laws.{get-set, get-remove}
use domus.Auth.Challenge.{
  LoginAttempt, ChallengeManager, minute, lockout_duration, login_attempt_key, check_login_locked,
  or_zero, count_failure, record_login_failure, clear_login_attempts,
}

-- What the store shows at a key.
abbrev pub attempt : Text → ℕ → ChallengeManager → Option LoginAttempt
attempt key now cm = (Timed.get key now cm.login_attempts).0

-- The clock's readings of one recorded failure, in order.
pub record Readings : Type 0 where
  pub t_get : ℕ
  pub t_check : ℕ
  pub t_lock : ℕ
  pub t_set : ℕ
  pub t_now : ℕ

abbrev pub fail : Text → Text → Text → Readings → ChallengeManager → Bool × ChallengeManager
fail ip method username t cm =
    record_login_failure ip method username t.t_get t.t_check t.t_lock t.t_set t.t_now cm

abbrev pub attempt_ttl : ℕ
attempt_ttl = lockout_duration + minute

-- After a recorded failure the store shows, for six minutes, the attempt with that failure counted,
-- and every other key what it did.
attempt-fail :
    (ip method username : Text) (t : Readings) (later : ℕ) (cm : ChallengeManager)
    → later ≤ t.t_set + attempt_ttl
    → attempt (login_attempt_key ip method username) later (fail ip method username t cm).1
      ≡ some (
          count_failure t.t_check t.t_lock
            (or_zero (attempt (login_attempt_key ip method username) t.t_get cm)))
unfolding record_login_failure
attempt-fail ip method username t later cm h =
    get-set (login_attempt_key ip method username) (login_attempt_key ip method username) _
      attempt_ttl t.t_set later _
    ∙ rw (str_eq_refl (login_attempt_key ip method username)) (ground arith)

-- The answer, and what the store shows next, from what it showed before.
fail_answer :
    (ip method username : Text) (t : Readings) (cm : ChallengeManager) (o : Option LoginAttempt)
    (b : LoginAttempt)
    → attempt (login_attempt_key ip method username) t.t_get cm ≡ o
    → count_failure t.t_check t.t_lock (or_zero o) ≡ b
    → (fail ip method username t cm).0 ≡ ltb t.t_now b.locked_until
unfolding record_login_failure
fail_answer ip method username t cm o b e c =
    ap (λ x. ltb t.t_now (count_failure t.t_check t.t_lock (or_zero x)).locked_until) e
    ∙ ap (λ (x : LoginAttempt). ltb t.t_now x.locked_until) c

fail_next :
    (ip method username : Text) (t : Readings) (later : ℕ) (cm : ChallengeManager)
    (o : Option LoginAttempt) (b : LoginAttempt)
    → attempt (login_attempt_key ip method username) t.t_get cm ≡ o
    → count_failure t.t_check t.t_lock (or_zero o) ≡ b
    → later ≤ t.t_set + attempt_ttl
    → attempt (login_attempt_key ip method username) later (fail ip method username t cm).1 ≡ some b
fail_next ip method username t later cm o b e c h =
    attempt-fail ip method username t later cm h
    ∙ (ap (λ x. some (count_failure t.t_check t.t_lock (or_zero x))) e ∙ ap some c)

locked_of_attempt :
    (ip method username : Text) (t_get t_now : ℕ) (cm : ChallengeManager) (b : LoginAttempt)
    → attempt (login_attempt_key ip method username) t_get cm ≡ some b
    → (check_login_locked ip method username t_get t_now cm).0 ≡ ltb t_now b.locked_until
unfolding check_login_locked
locked_of_attempt ip method username t_get t_now cm b e = ground (arith, e)

-- The first two failures do not lock.
count_failure_first :
    (t s : ℕ) → count_failure t s (or_zero none) ≡ record { fail_count = pos 1; locked_until = 0 }
unfolding count_failure int64_succ int_lt
count_failure_first t s = refl

count_failure_second :
    (t s : ℕ)
    → count_failure t s (record { fail_count = pos 1; locked_until = 0 })
      ≡ record { fail_count = pos 2; locked_until = 0 }
unfolding count_failure int64_succ int_lt
count_failure_second t s = refl

count_failure_third :
    (t s : ℕ)
    → count_failure t s (record { fail_count = pos 2; locked_until = 0 })
      ≡ record { fail_count = pos 3; locked_until = s + lockout_duration }
unfolding count_failure int64_succ int_lt
count_failure_third t s = refl

module _ (ip method username : Text) where
  -- Three failures in a row on an account without attempts, each read within six minutes of the
  -- one before and the third answered within five minutes: the first two report that it is not
  -- locked, the third that it is, and the account is locked at every time up to five minutes
  -- after the third.
  pub three_failures_lock :
      (t1 t2 t3 : Readings) (t_get t_now : ℕ) (cm : ChallengeManager)
      → attempt (login_attempt_key ip method username) t1.t_get cm ≡ none
      → t2.t_get ≤ t1.t_set + attempt_ttl
      → t3.t_get ≤ t2.t_set + attempt_ttl
      → t3.t_lock ≤ t3.t_set
      → t3.t_now < t3.t_lock + lockout_duration
      → t_get ≤ t_now
      → t_now < t3.t_lock + lockout_duration
      → let r1 = fail ip method username t1 cm in
        let r2 = fail ip method username t2 r1.1 in
        let r3 = fail ip method username t3 r2.1 in
        (r1.0 ≡ false)
        × (r2.0 ≡ false)
        × (r3.0 ≡ true)
        × ((check_login_locked ip method username t_get t_now r3.1).0 ≡ true)
  three_failures_lock t1 t2 t3 t_get t_now cm n h2 h3 o now g l =
      let c1 = count_failure_first t1.t_check t1.t_lock in
      let c2 = count_failure_second t2.t_check t2.t_lock in
      let c3 = count_failure_third t3.t_check t3.t_lock in
      let r1 = (fail ip method username t1 cm).1 in
      let r2 = (fail ip method username t2 r1).1 in
      let r3 = (fail ip method username t3 r2).1 in
      let s1 = fail_next ip method username t1 t2.t_get cm none _ n c1 h2 in
      let s2 = fail_next ip method username t2 t3.t_get r1 _ _ s1 c2 h3 in
      let s3 = fail_next ip method username t3 t_get r2 _ _ s2 c3 (omega arith) in
      (
        fail_answer ip method username t1 cm none _ n c1 ∙ (ground arith),
        fail_answer ip method username t2 r1 _ _ s1 c2 ∙ (ground arith),
        fail_answer ip method username t3 r2 _ _ s2 c3 ∙ lt→ltb _ _ now,
        locked_of_attempt ip method username t_get t_now r3 _ s3 ∙ lt→ltb _ _ l,
      )

  -- A failure while the account is locked does not prolong the lock.
  lock_not_prolonged :
      (t : Readings) (later : ℕ) (cm : ChallengeManager) (a : LoginAttempt)
      → attempt (login_attempt_key ip method username) t.t_get cm ≡ some a
      → 0 < a.locked_until
      → t.t_check ≤ a.locked_until
      → later ≤ t.t_set + attempt_ttl
      → (b : LoginAttempt) × (attempt
            (login_attempt_key ip method username)
            later
            (fail ip method username t cm).1
          ≡ some b)
        × (b.locked_until ≡ a.locked_until)
        × (b.fail_count ≡ int64_succ a.fail_count)
  unfolding count_failure
  lock_not_prolonged t later cm a s p c h = (
    count_failure t.t_check t.t_lock a,
    fail_next ip method username t later cm (some a) _ s refl h,
    ground arith,
    refl,
  )

  -- A successful login clears the count: the account is not locked, and the next failure is the
  -- first again; other accounts are as they were.
  cleared :
      (j : Text) (t_get t_now : ℕ) (cm : ChallengeManager)
      → ((check_login_locked ip method username t_get t_now
            (clear_login_attempts ip method username cm)).0
          ≡ false)
        × (attempt j t_get (clear_login_attempts ip method username cm) ≡ (
            if str_eq (login_attempt_key ip method username) j then none else attempt j t_get cm))
  unfolding check_login_locked clear_login_attempts
  cleared j t_get t_now cm = (
    ground (
      arith,
      get-remove (login_attempt_key ip method username) (login_attempt_key ip method username) t_get
          cm.login_attempts,
      str_eq_refl (login_attempt_key ip method username),
    ),
    get-remove (login_attempt_key ip method username) j t_get cm.login_attempts,
  )
