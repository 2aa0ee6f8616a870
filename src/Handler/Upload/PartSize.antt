-- ===== src/Handler/Upload/PartSize.antt =====
-- What `uploadPartSizeFor` of internal/handler/upload.go accepts.
use Prim.Native.Nat.{ℕ, zero, suc, ◌+◌, ◌-◌, ◌*◌, ◌/◌, ◌%◌, ◌<◌, ◌≤◌}
use domus.Prelude.{
  ◌≡◌, ◌==◌, ◌≢◌, refl, ap, ◌⊎◌, ◌↔◌, inl, inr, Bool-cases, ltb, lt→ltb, subst, sym, arith, pos,
  int_lt, is_nonpositive, int64_div, int64_add_pos, int64_sub_pos, false, int64_mul_pos, int64_rem,
  int64_div_pos, int_eq, to_index, some,
}
use domus.Handler.Upload.Sizes.{
  encrypted_file_size, wanted_part_size, round_up, encrypted_multipart_part_count,
  upload_part_size_for, first_part,
}
use domus.Handler.Upload.Packing.{packed, total, total_le_iff}

abbrev encrypted : ℕ → ℕ
encrypted n = 5 + n + 28 * ((n + 65535) / 65536)

pub num_chunks_eq : (n : ℕ) → 0 < n → (n + 65536 - 1) / 65536 ≡ (n + 65535) / 65536
num_chunks_eq n h = omega arith

pub is_nonpositive_pos : (n : ℕ) → 0 < n → is_nonpositive (pos n) ≡ false
unfolding is_nonpositive
is_nonpositive_pos n h = ground arith

encrypted_file_size_pos :
    (n : ℕ) → 0 < n → n < 4611686018427387904 → encrypted_file_size (pos n) ≡ pos (encrypted n)
unfolding encrypted_file_size
encrypted_file_size_pos n h k =
    rw
      (
        is_nonpositive_pos n h,
        int64_add_pos n 65536 (omega arith),
        int64_sub_pos (n + 65536) 1 (omega arith) (omega arith),
        num_chunks_eq n h,
        int64_mul_pos ((n + 65535) / 65536) 28 (omega arith),
        int64_add_pos 5 n (omega arith),
        int64_add_pos (5 + n) ((n + 65535) / 65536 * 28) (omega arith),
      )
      (ap pos (omega arith))

needed_of : ℕ → ℕ
needed_of e = (e + 9999) / 10000

wanted_part_size_direct : (e : ℕ) → e ≤ 83886080000 → wanted_part_size (pos e) ≡ pos 8388608
unfolding wanted_part_size int_lt
wanted_part_size_direct e h =
    rw
      (
        int64_add_pos e 10000 (omega arith),
        int64_sub_pos (e + 10000) 1 (omega arith) (omega arith),
        int64_div_pos,
      )
      (ground arith)

needed_bounds :
    (n g : ℕ)
    → 65564 * g < n
    → n ≤ 65564 * suc g
    → (n ≡ 65564 * suc g) ⊎ ((0 < n % 65564) × (n + (65564 - n % 65564) ≡ 65564 * suc g))
needed_bounds n g h k = elim (Bool-cases (n == 65564 * suc g)) [
  | inl t ↦ inl (ground (arith, t))
  | inr f ↦ inr (omega (arith, n≢ f), omega (arith, n≢ f))
]
  where
    n≢ : (n == 65564 * suc g) ≡ false → n ≢ 65564 * suc g
    n≢ f = ground arith

round_up_pos :
    (n g : ℕ)
    → 65564 * g < n
    → n ≤ 65564 * suc g
    → n < 1152921504606846976
    → round_up (pos n) ≡ pos (65564 * suc g)
unfolding round_up int_eq
round_up_pos n g h k m =
    rw
      (
        int64_sub_pos 65564 (n % 65564) (omega arith) (omega arith),
        int64_add_pos n (65564 - n % 65564) (omega arith),
      )
      (ground (arith, needed_bounds n g h k))

wanted_part_size_aligned :
    (e g : ℕ)
    → 83886080000 < e
    → 655640000 * g < e
    → e ≤ 655640000 * suc g
    → e < 4611686018427387904
    → wanted_part_size (pos e) ≡ pos (65564 * suc g)
unfolding wanted_part_size int_lt
wanted_part_size_aligned e g h l m k =
    rw
      (int64_add_pos e 10000 (omega arith), int64_sub_pos (e + 10000) 1 (omega arith) (omega arith))
      (rw (lt→ltb 8388608 ((e + 10000 - 1) / 10000) (omega arith))
        (round_up_pos ((e + 10000 - 1) / 10000) g (omega arith) (omega arith) (omega arith)))

first_packed : first_part ≡ packed 1 5
unfolding first_part
first_packed = refl

encrypted_file_size_eq :
    (n : ℕ) → n < 4611686018427387904 → encrypted_file_size (pos n) ≡ pos (encrypted n)
unfolding encrypted_file_size is_nonpositive
encrypted_file_size_eq zero k = refl
encrypted_file_size_eq (suc n) k = encrypted_file_size_pos (suc n) (omega arith) k

count_eq :
    (n s : ℕ)
    → 0 < s
    → encrypted_multipart_part_count (pos n) (pos s) ≡ total s (n / 65536) (n % 65536)
unfolding encrypted_multipart_part_count first_part total to_index int64_div int64_rem
count_eq n s h = rw (is_nonpositive_pos s h)

accepts_count :
    (n s c : ℕ)
    → wanted_part_size (encrypted_file_size (pos n)) ≡ pos s
    → encrypted_multipart_part_count (pos n) (pos s) ≡ c
    → s ≤ 5368709120
    → (upload_part_size_for (pos n) ≡ some (pos s)) ↔ (c ≤ 10000)
unfolding upload_part_size_for int_lt
accepts_count n s c h k l =
    rw (h, k, nlt, slt)
      (elim (Bool-cases (ltb 10000 c)) [
        | inl t ↦ rw t (λ e. cc, λ e. absurd (ground (arith, t)))
        | inr f ↦ rw f (λ e. ground (arith, f), λ e. refl)
      ])
  where
    nlt : ltb n 0 ≡ false
    nlt = ground arith

    slt : ltb 5368709120 s ≡ false
    slt = ground arith

div_mod : (n : ℕ) → 65536 * (n / 65536) + n % 65536 ≡ n
div_mod n = omega arith

module _ (s : ℕ) (small : s ≤ 5368709120) (g : ℕ) (fits : suc g * 65564 ≤ s)
    (most : s < suc (suc g) * 65564) (f : ℕ) (header : 5 + f * 65564 ≤ s)
    (full : s < 5 + suc f * 65564) where
  accepts_iff :
      (n : ℕ)
      → wanted_part_size (encrypted_file_size (pos n)) ≡ pos s
      → (upload_part_size_for (pos n) ≡ some (pos s))
        ↔ (n ≤ 65536 * (f + 9999 * suc g) + (s - suc g * 65564 - 28))
  accepts_iff n h = (
    λ e. subst (λ m. m ≤ limit) (div_mod n) (bound.0 (count.0 e)),
    λ e. count.1 (bound.1 (subst (λ m. m ≤ limit) (sym (div_mod n)) e)),
  )
    where
      limit : ℕ
      limit = 65536 * (f + 9999 * suc g) + (s - suc g * 65564 - 28)

      count :
          (upload_part_size_for (pos n) ≡ some (pos s)) ↔ (total s (n / 65536) (n % 65536) ≤ 10000)
      count =
          accepts_count n s (total s (n / 65536) (n % 65536)) h
            (count_eq n s (omega (arith, header))) small

      bound : (total s (n / 65536) (n % 65536) ≤ 10000) ↔ (65536 * (n / 65536) + n % 65536 ≤ limit)
      bound =
          total_le_iff s (omega (arith, small)) g fits most f header full (n / 65536) (n % 65536)
            (omega arith)

-- A file whose encrypted size is at most 83,886,080,000 bytes, the size of 10000 parts of 8 MiB,
-- is accepted with parts of 8 MiB exactly when it has at most 83,230,781,952 bytes.
pub direct_part_size_iff :
    (n : ℕ)
    → 5 + n + 28 * ((n + 65535) / 65536) ≤ 83886080000
    → (upload_part_size_for (pos n) ≡ some (pos 8388608)) ↔ (n ≤ 83230781952)
direct_part_size_iff n h =
    accepts_iff 8388608 (omega arith) 126 (omega arith) (omega arith) 127 (omega arith)
      (omega arith) n
      (rw (encrypted_file_size_eq n (omega arith)) (wanted_part_size_direct (encrypted n) h))

-- A file that needs larger parts, of `suc g` encrypted chunks each, is accepted exactly when its
-- chunks fill no more than 10,000 of them behind the header.
aligned_part_size_iff :
    (n g : ℕ)
    → 83886080000 < 5 + n + 28 * ((n + 65535) / 65536)
    → 655640000 * g < 5 + n + 28 * ((n + 65535) / 65536)
    → 5 + n + 28 * ((n + 65535) / 65536) ≤ 655640000 * suc g
    → 65564 * suc g ≤ 5368709120
    → (upload_part_size_for (pos n) ≡ some (pos (65564 * suc g))) ↔ (n ≤ 65536 * (10000 * g + 9999))
aligned_part_size_iff n g h l m k =
    let (to, from) =
      accepts_iff (65564 * suc g) k g (omega arith) (omega arith) g (omega arith) (omega arith) n (
        rw (encrypted_file_size_eq n (omega arith))
          (wanted_part_size_aligned (encrypted n) g h l m (omega arith))) in
    (λ e. omega (arith, to e), λ e. from (omega (arith, e)))
