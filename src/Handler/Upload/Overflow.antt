-- ===== src/Handler/Upload/Overflow.antt =====
-- `uploadPartSizeFor` of internal/handler/upload.go on every int64: what its result promises, and
-- the sizes whose encrypted size leaves int64.
use Prim.Native.Nat.{ℕ, zero, suc, ◌+◌, ◌-◌, ◌*◌, ◌/◌, ◌%◌, ◌<◌, ◌≤◌}
use domus.Prelude.{
  ◌≡◌, ◌==◌, refl, ◌∙◌, ap, inl, inr, Bool-cases, ltb, subst, sym, arith, ℤ, pos, negsuc, int_lt,
  int64_add, int_add, int_neg, int64_sub, int64_div, int64_add_pos, int64_sub_pos, int64_mul_pos,
  wrap64_over, wrap64, wrap64-lt, if◌then◌else◌, Bool, true, false, int_eq, some, none,
}
use domus.Handler.Upload.Sizes.{
  encrypted_file_size, wanted_part_size, round_up, encrypted_multipart_part_count,
  upload_part_size_for,
}
use domus.Handler.Upload.PartSize.{num_chunks_eq, is_nonpositive_pos}

round_up_ge : (n : ℕ) → n < 1152921504606846976 → (m : ℕ) × (round_up (pos n) ≡ pos m) × (n ≤ m)
unfolding round_up int_eq
round_up_ge n h =
    rw
      (
        int64_sub_pos 65564 (n % 65564) (omega arith) (omega arith),
        int64_add_pos n (65564 - n % 65564) (omega arith),
      )
      (elim (Bool-cases (n % 65564 == 0)) [
        | inl t ↦ rw t (n, refl, omega arith)
        | inr f ↦ rw f (n + (65564 - n % 65564), refl, omega arith)
      ])

at_least_direct : ℤ → ℤ
unfolding int_lt round_up
at_least_direct needed = if int_lt (pos 8388608) needed then round_up needed else pos 8388608

abbrev IsPartSize : ℤ → Type 0
IsPartSize x = (m : ℕ) × (x ≡ pos m) × (8388608 ≤ m)

at_least_direct-IsPartSize :
    (n : ℕ) → n < 1152921504606846976 → IsPartSize (at_least_direct (pos n))
unfolding at_least_direct int_lt
at_least_direct-IsPartSize n h = elim (Bool-cases (ltb 8388608 n)) [
  | inl t ↦ rw t (let (m, e, l) = round_up_ge n h in (m, e, ground (arith, t)))
  | inr f ↦ rw f (8388608, refl, omega arith)
]

at_least_direct_neg : (n : ℕ) → at_least_direct (int_neg n) ≡ pos 8388608
unfolding at_least_direct int_lt int_neg
at_least_direct_neg zero = refl
at_least_direct_neg (suc n) = ground arith

divided : (x y : ℤ) → wrap64 x ≡ y → IsPartSize (at_least_direct (int64_div y 10000))
unfolding int64_div
divided x (pos a) h = at_least_direct-IsPartSize (a / 10000) (omega (arith, wrap64-lt x a h))
divided x (negsuc a) h = subst IsPartSize (sym (at_least_direct_neg (suc a / 10000))) direct
  where
    direct : IsPartSize (pos 8388608)
    direct = (8388608, refl, omega arith)

-- The least part size is the direct one, whatever the size.
wanted_part_size_ge : (e : ℤ) → IsPartSize (wanted_part_size e)
unfolding wanted_part_size at_least_direct int64_sub
wanted_part_size_ge e = divided (int_add (int64_add e (pos 10000)) (int_neg 1)) _ refl

guards :
    (a b c : Bool) (x y : ℤ)
    → (if a then none else if b then none else if c then none else some x) ≡ some y
    → (b ≡ false) × (c ≡ false) × (x ≡ y)
guards true b c x y h = cc
guards false true c x y h = cc
guards false false true x y h = cc
guards false false false x y h = (refl, refl, cc)

le_of_not_ltb : (a b : ℕ) → ltb a b ≡ false → b ≤ a
le_of_not_ltb a b h = ground arith

not_over : (x : ℤ) (m : ℕ) → int_lt (pos 5368709120) x ≡ false → x ≡ pos m → m ≤ 5368709120
unfolding int_lt
not_over x m h e = le_of_not_ltb 5368709120 m (sym (ap (int_lt (pos 5368709120)) e) ∙ h)

-- A part size that is accepted for a file lies between 8 MiB and the store's 5 GiB, and with it
-- the file has at most 10000 parts.
pub upload_part_size_for_bounds :
    (plain_size part_size : ℤ)
    → upload_part_size_for plain_size ≡ some part_size
    → (s : ℕ) × (part_size ≡ pos s)
      × (8388608 ≤ s)
      × (s ≤ 5368709120)
      × (encrypted_multipart_part_count plain_size part_size ≤ 10000)
unfolding upload_part_size_for int_lt
upload_part_size_for_bounds plain_size part_size h =
    let (m, e, l) = wanted_part_size_ge (encrypted_file_size plain_size) in
    let (b, c, w) =
      guards (int_lt plain_size (pos 0))
        (int_lt (pos 5368709120) (wanted_part_size (encrypted_file_size plain_size)))
        (ltb 10000 (
          encrypted_multipart_part_count plain_size
            (wanted_part_size (encrypted_file_size plain_size))))
        (wanted_part_size (encrypted_file_size plain_size)) part_size h in
    (
      m,
      sym w ∙ e,
      l,
      not_over (wanted_part_size (encrypted_file_size plain_size)) m b e,
      le_of_not_ltb 10000 (encrypted_multipart_part_count plain_size part_size)
          (subst (λ p. ltb 10000 (encrypted_multipart_part_count plain_size p) ≡ false) w c),
    )

encrypted_file_size_over :
    (n : ℕ)
    → 9223372036854775808 ≤ 5 + n + 28 * ((n + 65535) / 65536)
    → n + 65536 < 9223372036854775808
    → encrypted_file_size (pos n)
      ≡ negsuc (18446744073709551615 - (5 + n + (n + 65535) / 65536 * 28))
unfolding encrypted_file_size
encrypted_file_size_over n h k =
    rw
      (
        is_nonpositive_pos n (omega arith),
        int64_add_pos n 65536 k,
        int64_sub_pos (n + 65536) 1 (omega arith) (omega arith),
        num_chunks_eq n (omega arith),
        int64_mul_pos ((n + 65535) / 65536) 28 (omega arith),
        int64_add_pos 5 n (omega arith),
      )
      (wrap64_over (5 + n + (n + 65535) / 65536 * 28) (omega arith) (omega arith))

minus_10000 :
    (d : ℕ)
    → 10000 ≤ d
    → d < 9223372036854775808
    → int64_add (negsuc d) (pos 10000) ≡ negsuc (d - 10000)
unfolding int64_add wrap64 int_add
minus_10000 d h k = ground arith

minus_one : (d : ℕ) → d < 9223372036854775807 → int64_sub (negsuc d) (pos 1) ≡ negsuc (d + 0 + 1)
unfolding int64_sub wrap64 int_add int_neg
minus_one d k = ground arith

wanted_part_size_neg :
    (d : ℕ) → 10000 ≤ d → d < 9223372036854775808 → wanted_part_size (negsuc d) ≡ pos 8388608
unfolding wanted_part_size at_least_direct int64_div
wanted_part_size_neg d h k =
    ap at_least_direct (
      ap (λ x. int64_div x 10000)
        (ap (λ x. int64_sub x (pos 1)) (minus_10000 d h k) ∙ minus_one (d - 10000) (omega arith)))
    ∙ at_least_direct_neg (suc (d - 10000 + 0 + 1) / 10000)

-- The part size that is wanted for a file whose encrypted size is 2^63 bytes or more, while its
-- own size is at least 2^16 bytes below that, is 8 MiB.
pub overflow_direct :
    (n : ℕ)
    → 9223372036854775808 ≤ 5 + n + 28 * ((n + 65535) / 65536)
    → n + 65536 < 9223372036854775808
    → wanted_part_size (encrypted_file_size (pos n)) ≡ pos 8388608
overflow_direct n h k = rw (encrypted_file_size_over n h k) (
    wanted_part_size_neg (18446744073709551615 - (5 + n + (n + 65535) / 65536 * 28)) (omega arith)
      (omega arith))
