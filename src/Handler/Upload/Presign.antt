-- ===== src/Handler/Upload/Presign.antt =====
-- The part numbers that `handleUploadPresign` of internal/handler/upload.go signs.
use mathlib.Core.Option.{some-injective}
use domus.Prelude.{
  ℕ, zero, suc, ◌+◌, ◌-◌, ◌≤◌, ◌<◌, ltb, true, false, ◌||◌, Option, none, some, ◌≡◌, inl, inr, refl,
  sym, ap, ◌∙◌, Bool-cases, arith, if◌then◌else◌, ℤ, pos, negsuc, int_lt, is_nonpositive,
  int64_add_pos, int64_sub_pos,
}
use domus.Handler.Upload.Requests.{
  first_part_of, max_batch_of, count_of, within_parts, presign_range,
}

first_part_pos : (start : ℤ) → (a : ℕ) × (first_part_of start ≡ pos a) × (1 ≤ a)
unfolding first_part_of int_lt
first_part_pos (pos zero) = (1, refl, omega arith)
first_part_pos (pos (suc n)) = (suc n, ground arith, omega arith)
first_part_pos (negsuc n) = (1, refl, omega arith)

batch_of : ℕ → ℕ
batch_of m = if ltb 0 m then m else 100

max_batch_eq : (m : ℕ) → max_batch_of (pos m) ≡ pos (batch_of m)
unfolding is_nonpositive batch_of max_batch_of
max_batch_eq m = ground arith

count_pos :
    (count : ℤ) (b : ℕ) → 1 ≤ b → (c : ℕ) × (count_of count (pos b) ≡ pos c) × (1 ≤ c) × (c ≤ b)
unfolding count_of int_lt
count_pos (negsuc n) b h = (b, refl, h, omega arith)
count_pos (pos n) b h = elim (Bool-cases (ltb n 1 || ltb b n)) [
  | inl t ↦ rw t (b, refl, h, omega arith)
  | inr f ↦ rw f (n, refl, ground (arith, f), ground (arith, f))
]

least : ℕ → ℕ → ℕ
least a b = if ltb a b then a else b

picked_over : (total a c : ℕ) → ltb total a ≡ true → within_parts (pos total) (pos a) (pos c) ≡ none
unfolding within_parts int_lt
picked_over total a c h = rw h refl

picked_in :
    (total a c : ℕ)
    → total < 1000000000
    → 1 ≤ a
    → ltb total a ≡ false
    → within_parts (pos total) (pos a) (pos c) ≡ some (pos a, pos (least (total - a + 1) c))
unfolding within_parts int_lt least
picked_in total a c s p h =
    rw
      (
        h,
        int64_sub_pos total a (ground (arith, h)) (omega arith),
        int64_add_pos (total - a) 1 (omega arith),
      )
      (elim (Bool-cases (ltb (total - a + 1) c)) [ inl t ↦ rw t refl | inr f ↦ rw f refl ])

least_within :
    (total a c : ℕ)
    → 1 ≤ c
    → ltb total a ≡ false
    → (1 ≤ least (total - a + 1) c)
      × (least (total - a + 1) c ≤ c)
      × (a + least (total - a + 1) c ≤ total + 1)
unfolding least
least_within total a c q h = elim (Bool-cases (ltb (total - a + 1) c)) [
  | inl t ↦ rw t (omega arith, ground (arith, t), ground (arith, h))
  | inr f ↦ rw f (q, omega arith, ground (arith, f, h))
]

no_range : (first count : ℤ) → ◌≡◌ {A = Option (ℤ × ℤ)} none (some (first, count)) → ⊥
no_range first count h = cc

picked_within :
    (total a c : ℕ) (first count : ℤ)
    → total < 1000000000
    → 1 ≤ a
    → 1 ≤ c
    → within_parts (pos total) (pos a) (pos c) ≡ some (first, count)
    → (k : ℕ) × (first ≡ pos a) × (count ≡ pos k) × (1 ≤ k) × (k ≤ c) × (a + k ≤ total + 1)
picked_within total a c first count s p q h = elim (Bool-cases (ltb total a)) [
  | inl t ↦ absurd (no_range first count (sym (picked_over total a c t) ∙ h))
  | inr f ↦
      let same : (pos a, pos (least (total - a + 1) c)) ≡ (first, count) =
        some-injective _ _ (sym (picked_in total a c s p f) ∙ h) in
      let (x, y, z) = least_within total a c q f in
      (least (total - a + 1) c, sym (ap (λ r. r.0) same), sym (ap (λ r. r.1) same), x, y, z)
]

presign_eq :
    (start count : ℤ) (m total : ℕ)
    → presign_range start count (pos m) (pos total)
      ≡ within_parts (pos total) (first_part_of start) (count_of count (pos (batch_of m)))
unfolding presign_range
presign_eq start count m total = rw (max_batch_eq m) refl

batch_positive : (m : ℕ) → 1 ≤ batch_of m
unfolding batch_of
batch_positive m = ground arith

-- With fewer than 10^9 parts, a range of parts that is signed lies within the parts of the
-- upload, has at least one part, and no more than the configured batch, or 100 when none is
-- configured.
presign_range_within :
    (start count first signed : ℤ) (m total : ℕ)
    → total < 1000000000
    → presign_range start count (pos m) (pos total) ≡ some (first, signed)
    → (a : ℕ) × (k : ℕ) × (first ≡ pos a)
      × (signed ≡ pos k)
      × (1 ≤ a)
      × (1 ≤ k)
      × (k ≤ (if ltb 0 m then m else 100))
      × (a + k ≤ total + 1)
unfolding batch_of
presign_range_within start count first signed m total s h =
    let (a, e, p) = first_part_pos start in
    let (c, d, q, l) = count_pos count (batch_of m) (batch_positive m) in
    let (k, x, y, z, w, v) = picked_within total a c first signed s p q (
      ap (λ f. within_parts (pos total) f (pos c)) (sym e)
      ∙ (ap (within_parts (pos total) (first_part_of start)) (sym d)
          ∙ (sym (presign_eq start count m total) ∙ h))) in
    (a, k, x, y, p, z, omega (arith, w, l), v)
