-- ===== src/Handler/Names/Decimal.antt =====
-- The verb %d of package fmt for numbers that are not negative, and reading it back.
use Prim.Native.Nat.{◌/◌, ◌%◌}
use domus.Prelude.{
  ℕ, suc, zero, ◌+◌, ◌-◌, ◌*◌, ◌≤◌, ltb, lt→ltb, Text, true, false, Bool-cases, inl, inr, [], ◌∷◌,
  ◌≡◌, ◌∙◌, ap, sym, arith, if◌then◌else◌,
}

-- The digits before `rest`; a number has no more digits than its own value and one.
unfoldable digits : ℕ → ℕ → Text → Text
digits zero n rest = rest
digits (suc fuel) n rest =
    let more = digits fuel (n / 10) ((48 + n % 10) ∷ rest) in
    if ltb n 10 then (48 + n) ∷ rest else more

unfoldable pub decimal : ℕ → Text
unfolding digits
decimal n = digits (suc n) n []

-- The number that digits stand for, after the number `v` of those before.
read : Text → ℕ → ℕ
read [] v = v
read (c ∷ s) v = read s (v * 10 + (c - 48))

digits_small :
    (fuel n : ℕ) (rest : Text) → ltb n 10 ≡ true → digits (suc fuel) n rest ≡ (48 + n) ∷ rest
unfolding digits
digits_small fuel n rest h = rw h

digits_more :
    (fuel n : ℕ) (rest : Text)
    → ltb n 10 ≡ false
    → digits (suc fuel) n rest ≡ digits fuel (n / 10) ((48 + n % 10) ∷ rest)
unfolding digits
digits_more fuel n rest h = rw h

read-cons : (d v : ℕ) (rest : Text) → read ((48 + d) ∷ rest) v ≡ read rest (v * 10 + d)
unfolding read
read-cons d v rest = ap (read rest) (omega arith)

smaller : (n k : ℕ) → n ≤ suc k → ltb n 10 ≡ false → n / 10 ≤ k
smaller n k l f = ground (arith, f)

read-digits :
    (fuel n : ℕ) (rest : Text) → n ≤ fuel → read (digits (suc fuel) n rest) 0 ≡ read rest n
read-digits zero n rest h =
    rw (digits_small zero n rest (lt→ltb n 10 (omega arith)))
      (read-cons n 0 rest ∙ ap (read rest) (omega arith))
read-digits (suc k) n rest h = elim (Bool-cases (ltb n 10)) [
  | inl t ↦ rw (digits_small (suc k) n rest t) (read-cons n 0 rest ∙ ap (read rest) (omega arith))
  | inr f ↦ rw (digits_more (suc k) n rest f) (
      read-digits k (n / 10) ((48 + n % 10) ∷ rest) (smaller n k h f)
      ∙ (read-cons (n % 10) (n / 10) rest ∙ ap (read rest) (omega arith)))
]

pub decimal_injective : (a b : ℕ) → decimal a ≡ decimal b → a ≡ b
unfolding decimal read
decimal_injective a b h =
    sym (read-digits a a [] (omega arith))
    ∙ (ap (λ s. read s 0) h ∙ read-digits b b [] (omega arith))
