-- ===== src/Auth/Totp.antt =====
-- Time-based one-time codes (internal/auth/totp.go). HMAC-SHA1 of the key and the counter's eight
-- bytes is the argument `mac`, whose result has 20 bytes; the clock is in nanoseconds.
use Prim.Native.Nat.{◌/◌, ◌%◌, bit_and}
use domus.Prelude.{
  ℕ, zero, suc, ◌+◌, ◌*◌, ◌-◌, ◌^◌, ◌≤◌, ◌<◌, ◌==◌, ==_iff, Text, str_eq, str_eq_refl, eq_iff, Bool,
  true, false, ◌||◌, ◌≡◌, ◌⊎◌, ◌↔◌, length-append, refl, sym, ◌∙◌, ap, Option, Option-cases, none,
  some, List, [], ◌∷◌, ◌++◌, length, drop, All, Bool-cases, arith, inl, inr,
}
use domus.Model.Keys.{NoColon}
use domus.Auth.Challenge.{ChallengeManager, second, mark_otp_used, is_otp_used}
use domus.Auth.Challenge.Codes.{is_otp_used-mark_otp_used}

-- The bytes of a number, most significant first: binary.BigEndian.PutUint64 for eight of them.
unfoldable put_uint : ℕ → ℕ → List ℕ
put_uint zero n = []
put_uint (suc k) n = put_uint k (n / 256) ++ (n % 256 ∷ [])

-- binary.BigEndian.Uint32 of the first four bytes.
unfoldable uint32_at : List ℕ → ℕ
uint32_at (a ∷ b ∷ c ∷ d ∷ rest) = ((a * 256 + b) * 256 + c) * 256 + d
uint32_at rest = 0

-- The last byte, 0 of an empty text.
unfoldable last_byte : List ℕ → ℕ
last_byte [] = 0
last_byte (x ∷ []) = x
last_byte (x ∷ y ∷ l) = last_byte (y ∷ l)

-- fmt.Sprintf of a number with leading zeros: its last k decimal digits.
unfoldable pub digits : ℕ → ℕ → Text
digits zero n = []
digits (suc k) n = digits k (n / 10) ++ ((b'0' + n % 10) ∷ [])

-- The dynamic truncation of RFC 4226: four bytes at the place that the last byte names.
unfoldable pub truncated : (List ℕ → List ℕ) → ℕ → ℕ
unfolding put_uint uint32_at last_byte
truncated mac counter =
    let hash = mac (put_uint 8 counter) in
    let offset = bit_and (last_byte hash) 0x0f in bit_and (uint32_at (drop offset hash)) 0x7fff_ffff

-- `%06d` of a number below a million prints its last six digits.
unfoldable pub compute_totp : (List ℕ → List ℕ) → ℕ → Text
compute_totp mac counter = digits 6 (truncated mac counter % 10 ^ 6)

-- `now - 1` as a uint64
abbrev pub previous : ℕ → ℕ
previous n = (n + 2 ^ 64 - 1) % 2 ^ 64

-- The loop over the offsets -1, 0 and 1.
unfoldable pub matches_window : (List ℕ → List ℕ) → Text → ℕ → Bool
matches_window mac code now =
    str_eq (compute_totp mac (previous now)) code
    || (str_eq (compute_totp mac now) code || str_eq (compute_totp mac (now + 1)) code)

-- `decode` is the decoder of the secret's base32 text, `unix` the number of seconds since 1970.
unfoldable pub validate_totp :
    (Text → Option (List ℕ)) → (List ℕ → List ℕ → List ℕ) → Text → Text → ℕ → Bool
validate_totp decode hmac secret code unix = elim (decode secret) [
  | none ↦ false
  | some key ↦ matches_window (hmac key) code (unix / 30)
]

abbrev pub IsDigit : ℕ → Type 0
IsDigit c = (b'0' ≤ c) × (c ≤ b'9')

length-digits : (k n : ℕ) → length (digits k n) ≡ k
unfolding digits
length-digits zero n = refl
length-digits (suc k) n =
    omega
      (arith, length-append (digits k (n / 10)) ((b'0' + n % 10) ∷ []), length-digits k (n / 10))

All-append_one : (l : Text) (c : ℕ) → All IsDigit l → IsDigit c → All IsDigit (l ++ (c ∷ []))
All-append_one [] c a d = (d, tt)
All-append_one (x ∷ l) c a d = (a.0, All-append_one l c a.1 d)

digits-IsDigit : (k n : ℕ) → All IsDigit (digits k n)
unfolding digits
digits-IsDigit zero n = tt
digits-IsDigit (suc k) n =
    All-append_one (digits k (n / 10)) _ (digits-IsDigit k (n / 10)) (omega arith)

-- Every code is six decimal digits.
compute_totp_digits :
    (mac : List ℕ → List ℕ) (counter : ℕ)
    → (length (compute_totp mac counter) ≡ 6) × All IsDigit (compute_totp mac counter)
unfolding compute_totp
compute_totp_digits mac counter =
    let n = truncated mac counter % 10 ^ 6 in (length-digits 6 n, digits-IsDigit 6 n)

-- The counter is the one of the time's half minute, or the one before or after.
abbrev pub InWindow : ℕ → ℕ → Type 0
InWindow c unix = (c ≤ unix / 30 + 1) × (unix / 30 ≤ c + 1)

or_eq_true : (a b : Bool) → (a || b) ≡ true → (a ≡ true) ⊎ (b ≡ true)
or_eq_true true b h = inl refl
or_eq_true false b h = inr h

one_of_three : (a b c : Bool) → (a ≡ true) ⊎ ((b ≡ true) ⊎ (c ≡ true)) → (a || (b || c)) ≡ true
one_of_three a b c h = ground arith

previous_lem : (n : ℕ) → 1 ≤ n → n < 2 ^ 60 → previous n ≡ n - 1
previous_lem n h k = omega arith

three_counters : (c n : ℕ) → 1 ≤ n → c ≤ n + 1 → n ≤ c + 1 → (c ≡ n - 1) ⊎ ((c ≡ n) ⊎ (c ≡ n + 1))
three_counters c n p h k = elim (Bool-cases (c == n)) [
  | inl e ↦ inr (inl ((==_iff c n).0 e))
  | inr f ↦ elim (Bool-cases (c == (n + 1))) [
    | inl e ↦ inr (inr ((==_iff c (n + 1)).0 e))
    | inr g ↦ inl (ground (arith, ==_iff c n, ==_iff c (n + 1)))
  ]
]

matches_window_iff :
    (mac : List ℕ → List ℕ) (code : Text) (n : ℕ)
    → 1 ≤ n
    → n < 2 ^ 60
    → (matches_window mac code n ≡ true)
      ↔ ((c : ℕ) × ((c ≤ n + 1) × (n ≤ c + 1)) × (compute_totp mac c ≡ code))
unfolding matches_window
matches_window_iff mac code n h k =
    let p = eq_iff (compute_totp mac (n - 1)) code in
    let q = eq_iff (compute_totp mac n) code in
    let r = eq_iff (compute_totp mac (n + 1)) code in
    rw (previous_lem n h k) (
      λ v. elim (or_eq_true _ _ v) [
        | inl a ↦ (n - 1, (omega arith, omega arith), p.0 a)
        | inr w ↦ elim (or_eq_true _ _ w) [
          | inl b ↦ (n, (omega arith, omega arith), q.0 b)
          | inr c ↦ (n + 1, (omega arith, omega arith), r.0 c)
        ]
      ],
      λ (c, (a, b), w). one_of_three _ _ _ (elim (three_counters c n h a b) [
        | inl e ↦ inl (p.1 (sym (ap (compute_totp mac) e) ∙ w))
        | inr o ↦ elim o [
          | inl e ↦ inr (inl (q.1 (sym (ap (compute_totp mac) e) ∙ w)))
          | inr e ↦ inr (inr (r.1 (sym (ap (compute_totp mac) e) ∙ w)))
        ]
      ]),
    )

-- At a time from the first half minute of 1970 to 2^60 seconds after it, a code is valid exactly
-- when the secret decodes to a key and it is the key's code for a counter at most one away from
-- the time's half minute.
pub validate_totp_iff :
    (decode : Text → Option (List ℕ)) (hmac : List ℕ → List ℕ → List ℕ) (secret code : Text)
    (unix : ℕ)
    → 30 ≤ unix
    → unix < 2 ^ 60
    → (validate_totp decode hmac secret code unix ≡ true) ↔ (
        (key : List ℕ) × (decode secret ≡ some key)
        × ((c : ℕ) × InWindow c unix × (compute_totp (hmac key) c ≡ code)))
unfolding validate_totp
validate_totp_iff decode hmac secret code unix h k = elim (Option-cases (decode secret)) [
  | inl n ↦ (λ v. absurd (ground arith), λ v. absurd (ground arith))
  | inr (key, e) ↦
      let m = matches_window_iff (hmac key) code (unix / 30) (omega arith) (omega arith) in
      (
        λ v. (key, e, m.0 (sym (valid_of key e) ∙ v)),
        λ (k', e', v). valid_of key e ∙ m.1 (same_key k' key e' e v),
      )
]
  where
    valid_of :
        (key : List ℕ)
        → decode secret ≡ some key
        → validate_totp decode hmac secret code unix ≡ matches_window (hmac key) code (unix / 30)
    valid_of key e = rw (e, validate_totp) refl

    same_key :
        (a b : List ℕ)
        → decode secret ≡ some a
        → decode secret ≡ some b
        → ((c : ℕ) × InWindow c unix × (compute_totp (hmac a) c ≡ code))
        → (c : ℕ) × InWindow c unix × (compute_totp (hmac b) c ≡ code)
    same_key a b e f (c, w, p) =
        let same : a ≡ b = ground (arith, e, f) in
        (c, w, sym (ap (λ x. compute_totp (hmac x) c) same) ∙ p)

-- Seconds from the zero time to 1970.
abbrev pub epoch : ℕ
epoch = 62_135_596_800

abbrev pub unix_of : ℕ → ℕ
unix_of t = t / second - epoch

-- A code that was used stays refused for as long as it is valid: if a user, whose id holds no
-- colon, uses the code of a counter at a time after the first half minute of 1970 at which the
-- counter is in the window of three half minutes, the code counts as used at every later time at
-- which the counter is in the window.
pub totp_no_replay :
    (user_id code : Text) (c t later : ℕ) (cm : ChallengeManager)
    → NoColon user_id
    → epoch + 30 ≤ t / second
    → t ≤ later
    → InWindow c (unix_of t)
    → InWindow c (unix_of later)
    → (is_otp_used user_id code later (mark_otp_used user_id code t cm)).0 ≡ true
totp_no_replay user_id code c t later cm a e le w w' =
    is_otp_used-mark_otp_used user_id user_id code code t later cm a a
    ∙ ground (arith, str_eq_refl user_id, str_eq_refl code)
