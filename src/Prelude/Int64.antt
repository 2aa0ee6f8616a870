-- ===== src/Prelude/Int64.antt =====
-- Go's arithmetic on int64: sums and products wrap to 64 bits, and division goes towards zero.
use Prim.Native.Nat.{ℕ, suc, ◌+◌, ◌-◌, ◌*◌, ◌/◌, ◌%◌, ◌^◌, ◌<◌, ◌≤◌}
use mathlib.Core.Path.{◌≡◌, refl}
use native.Mathlib.Omega.{arith}
use domus.Prelude.Tests.{◌==◌, ltb, if◌then◌else◌}
use domus.Prelude.Int.{ℤ, pos, negsuc}

-- The int64 whose bits are the lowest 64 of an integer's.
unfoldable pub wrap64 : ℤ → ℤ
wrap64 (pos n) = let r = n % 2 ^ 64 in if ltb r (2 ^ 63) then pos r else negsuc (2 ^ 64 - 1 - r)
wrap64 (negsuc n) = let r = n % 2 ^ 64 in if ltb r (2 ^ 63) then negsuc r else pos (2 ^ 64 - 1 - r)

-- `a - b` of two numbers that are not negative
abbrev pub difference : ℕ → ℕ → ℤ
difference a b = if ltb a b then negsuc (b - a - 1) else pos (a - b)

unfoldable pub int_add : ℤ → ℤ → ℤ
int_add (pos a) (pos b) = pos (a + b)
int_add (pos a) (negsuc b) = difference a (suc b)
int_add (negsuc a) (pos b) = difference b (suc a)
int_add (negsuc a) (negsuc b) = negsuc (a + b + 1)

-- `a + b`
unfoldable pub int64_add : ℤ → ℤ → ℤ
unfolding wrap64 int_add
int64_add a b = wrap64 (int_add a b)

unfoldable pub int_neg : ℕ → ℤ
int_neg n = if n == 0 then pos 0 else negsuc (n - 1)

-- `a - b`
unfoldable pub int64_sub : ℤ → ℤ → ℤ
unfolding wrap64 int_add int_neg
int64_sub a (pos b) = wrap64 (int_add a (int_neg b))
int64_sub a (negsuc b) = wrap64 (int_add a (pos (suc b)))

-- `a * k` for a number k that is not negative
unfoldable pub int64_mul : ℤ → ℕ → ℤ
unfolding wrap64 int_neg
int64_mul (pos a) k = wrap64 (pos (a * k))
int64_mul (negsuc a) k = wrap64 (int_neg (suc a * k))

-- `a / k` for a positive k
unfoldable pub int64_div : ℤ → ℕ → ℤ
unfolding int_neg
int64_div (pos a) k = pos (a / k)
int64_div (negsuc a) k = int_neg (suc a / k)

-- `a % k` for a positive k: the sign is the dividend's.
unfoldable pub int64_rem : ℤ → ℕ → ℤ
unfolding int_neg
int64_rem (pos a) k = pos (a % k)
int64_rem (negsuc a) k = int_neg (suc a % k)

pub int64_add_pos :
    (a b : ℕ) → a + b < 9223372036854775808 → int64_add (pos a) (pos b) ≡ pos (a + b)
unfolding int64_add wrap64 int_add
int64_add_pos a b h = ground arith

pub int64_sub_pos :
    (a b : ℕ) → b ≤ a → a < 9223372036854775808 → int64_sub (pos a) (pos b) ≡ pos (a - b)
unfolding int64_sub wrap64 int_add int_neg
int64_sub_pos a b h k = ground arith

pub int64_mul_pos : (a k : ℕ) → a * k < 9223372036854775808 → int64_mul (pos a) k ≡ pos (a * k)
unfolding int64_mul wrap64
int64_mul_pos a k h = ground arith

pub int64_div_pos : (a k : ℕ) → int64_div (pos a) k ≡ pos (a / k)
unfolding int64_div
int64_div_pos a k = refl

int64_rem_pos : (a k : ℕ) → int64_rem (pos a) k ≡ pos (a % k)
unfolding int64_rem
int64_rem_pos a k = refl

wrap64_pos : (n : ℕ) → n < 9223372036854775808 → wrap64 (pos n) ≡ pos n
unfolding wrap64
wrap64_pos n h = ground arith

-- A sum above the largest int64 is negative.
pub wrap64_over :
    (n : ℕ)
    → 9223372036854775808 ≤ n
    → n < 18446744073709551616
    → wrap64 (pos n) ≡ negsuc (18446744073709551615 - n)
unfolding wrap64
wrap64_over n h k = ground arith

pub wrap64-lt : (x : ℤ) (n : ℕ) → wrap64 x ≡ pos n → n < 9223372036854775808
unfolding wrap64
wrap64-lt (pos a) n h = ground arith
wrap64-lt (negsuc a) n h = ground arith

pub int64_sub_neg :
    (a b : ℕ) → a < b → b < 9223372036854775808 → int64_sub (pos a) (pos b) ≡ negsuc (b - a - 1)
unfolding int64_sub wrap64 int_add int_neg
int64_sub_neg a b h k = ground arith
