-- ===== src/Handler/Upload/Packing.antt =====
-- How the loop of `encryptedMultipartPartCount` (internal/handler/upload.go) fills parts.
use Prim.Native.Nat.{ℕ, zero, suc, ◌+◌, ◌*◌, ◌<◌, ◌≤◌, ◌-◌}
use native.Mathlib.Nat.{zero-add, suc-add, suc-mul}
use domus.Prelude.{
  ◌≡◌, refl, ◌∙◌, ap, ◌↔◌, inl, inr, Bool-cases, subst, ltb, lt→ltb, false, ◌==◌, arith, ℤ, pos,
  int_lt, int64_add, int64_add_pos, if◌then◌else◌,
}
use domus.Handler.Upload.Sizes.{Packing, place_chunk, place_chunks, place_rest}

abbrev pub packed : ℕ → ℕ → Packing
packed parts used = record { parts = parts; used = pos used }

place_chunks_add :
    (m n : ℕ) (ps : ℤ) (p : Packing)
    → place_chunks (m + n) ps p ≡ place_chunks n ps (place_chunks m ps p)
unfolding place_chunks
place_chunks_add zero n ps p = ap (λ k. place_chunks k ps p) (zero-add n)
place_chunks_add (suc m) n ps p =
    ap (λ k. place_chunks k ps p) (suc-add m n)
    ∙ place_chunks_add m n ps (place_chunk ps (pos 65564) p)

place_one : (ps : ℤ) (p : Packing) → place_chunks 1 ps p ≡ place_chunk ps (pos 65564) p
unfolding place_chunks
place_one ps p = refl

place_chunk-parts-le : (ps c : ℤ) (p : Packing) → p.parts ≤ (place_chunk ps c p).parts
unfolding place_chunk
place_chunk-parts-le ps c p = elim (Bool-cases (int_lt ps (int64_add p.used c))) [
  | inl t ↦ rw t (omega arith)
  | inr f ↦ rw f (omega arith)
]

place_chunks-parts-le : (n : ℕ) (ps : ℤ) (p : Packing) → p.parts ≤ (place_chunks n ps p).parts
unfolding place_chunks
place_chunks-parts-le zero ps p = omega arith
place_chunks-parts-le (suc n) ps p = omega (
  arith,
  place_chunk-parts-le ps (pos 65564) p,
  place_chunks-parts-le n ps (place_chunk ps (pos 65564) p),
)

place_chunks-parts_mono :
    (m n : ℕ) (ps : ℤ) (p : Packing)
    → m ≤ n
    → (place_chunks m ps p).parts ≤ (place_chunks n ps p).parts
place_chunks-parts_mono m n ps p h =
    subst (λ k. (place_chunks m ps p).parts ≤ (place_chunks k ps p).parts) whole
      (rw (place_chunks_add m (n - m) ps p)
        (place_chunks-parts-le (n - m) ps (place_chunks m ps p)))
  where
    whole : m + (n - m) ≡ n
    whole = omega (arith, h)

place_rest-parts-le : (ps rem : ℤ) (p : Packing) → p.parts ≤ (place_rest ps rem p).parts
unfolding place_rest
place_rest-parts-le ps rem p = elim (Bool-cases (int_lt (pos 0) rem)) [
  | inl t ↦ rw t (place_chunk-parts-le ps (int64_add (int64_add (pos 12) rem) (pos 16)) p)
  | inr f ↦ rw f (omega arith)
]

-- The parts of `q` full chunks and `r` more bytes in parts of `s`.
unfoldable pub total : ℕ → ℕ → ℕ → ℕ
total s q r = (place_rest (pos s) (pos r) (place_chunks q (pos s) (packed 1 5))).parts

module _ (s : ℕ) (small : s < 1000000000000) where
  place_chunk_fit :
      (c k u : ℕ) → u + c ≤ s → place_chunk (pos s) (pos c) (packed k u) ≡ packed k (u + c)
  unfolding place_chunk int_lt
  place_chunk_fit c k u h = rw (int64_add_pos u c (omega arith)) (ground arith)

  place_chunk_full :
      (c k u : ℕ)
      → s < u + c
      → u ≤ s
      → c ≤ s
      → place_chunk (pos s) (pos c) (packed k u) ≡ packed (suc k) c
  unfolding place_chunk int_lt
  place_chunk_full c k u h l m =
      rw (int64_add_pos u c (omega arith), int64_add_pos 0 c (omega arith)) (ground arith)

  place_chunk-parts :
      (c k u : ℕ)
      → u + c < 9000000000000000000
      → (place_chunk (pos s) (pos c) (packed k u)).parts ≡ (if ltb s (u + c) then suc k else k)
  unfolding place_chunk int_lt
  place_chunk-parts c k u h = rw (int64_add_pos u c (omega arith)) (ground arith)

  place_rest-parts :
      (r k u : ℕ)
      → r < 65536
      → u ≤ s
      → (place_rest (pos s) (pos r) (packed k u)).parts
        ≡ (if r == 0 then k else if ltb s (u + (12 + r + 16)) then suc k else k)
  unfolding place_rest int_lt
  place_rest-parts zero k u h l = refl
  place_rest-parts (suc r) k u h l =
      rw (int64_add_pos 12 (suc r) (omega arith), int64_add_pos (12 + suc r) 16 (omega arith))
        (rw (lt→ltb 0 (suc r) (omega arith), suc_nonzero)
          (place_chunk-parts (12 + suc r + 16) k u (omega arith)))
    where
      suc_nonzero : (suc r == 0) ≡ false
      suc_nonzero = ground arith

  place_rest_le :
      (r k u : ℕ)
      → r < 65536
      → u ≤ s
      → (place_rest (pos s) (pos r) (packed k u)).parts
        ≤ (place_chunk (pos s) (pos 65564) (packed k u)).parts
  place_rest_le r k u h l =
      rw (place_rest-parts r k u h l, place_chunk-parts 65564 k u (omega arith)) (ground arith)

  place_chunks-packed :
      (n k u : ℕ)
      → u ≤ s
      → 65564 ≤ s
      → (k' u' : ℕ) × (place_chunks n (pos s) (packed k u) ≡ packed k' u') × (u' ≤ s)
  unfolding place_chunks
  place_chunks-packed zero k u h c = (k, u, refl, h)
  place_chunks-packed (suc n) k u h c = elim (Bool-cases (ltb s (u + 65564))) [
    | inl t ↦
        rw (place_chunk_full 65564 k u (ground (arith, t)) h c)
          (place_chunks-packed n (suc k) 65564 c c)
    | inr f ↦
        rw (place_chunk_fit 65564 k u (ground (arith, f)))
          (place_chunks-packed n k (u + 65564) (ground (arith, f)) c)
  ]

  place_chunks_fit :
      (n k u : ℕ)
      → u + n * 65564 ≤ s
      → place_chunks n (pos s) (packed k u) ≡ packed k (u + n * 65564)
  unfolding place_chunks
  place_chunks_fit zero k u h = ap (packed k) (omega arith)
  place_chunks_fit (suc n) k u h =
      rw (place_chunk_fit 65564 k u (omega arith))
        (place_chunks_fit n k (u + 65564) (omega arith) ∙ ap (packed k) (omega arith))

  -- A part that is full: no other chunk fits.
  abbrev pub IsFull : ℕ → Type 0
  IsFull u = (u ≤ s) × (s < u + 65564)

  module _ (g : ℕ) (fits : suc g * 65564 ≤ s) (most : s < suc (suc g) * 65564) where
    place_part :
        (k u : ℕ)
        → IsFull u
        → place_chunks (suc g) (pos s) (packed k u) ≡ packed (suc k) (suc g * 65564)
    unfolding place_chunks
    place_part k u h =
        rw (place_chunk_full 65564 k u h.1 h.0 (omega arith))
          (place_chunks_fit g (suc k) 65564 (omega arith) ∙ ap (packed (suc k)) (omega arith))

    -- `suc n` more parts, all of them full.
    place_parts :
        (n k u : ℕ)
        → IsFull u
        → place_chunks (suc n * suc g) (pos s) (packed k u) ≡ packed (suc (k + n)) (suc g * 65564)
    place_parts zero k u h =
        ap (λ m. place_chunks m (pos s) (packed k u)) one
        ∙ (place_part k u h ∙ ap (λ m. packed m (suc g * 65564)) (omega arith))
      where
        one : suc zero * suc g ≡ suc g
        one = omega arith
    place_parts (suc n) k u h =
        ap (λ m. place_chunks m (pos s) (packed k u)) more
        ∙ (place_chunks_add (suc g) (suc n * suc g) (pos s) (packed k u)
            ∙ (ap (place_chunks (suc n * suc g) (pos s)) (place_part k u h)
                ∙ (place_parts n (suc k) (suc g * 65564) (fits, omega arith)
                    ∙ ap (λ m. packed m (suc g * 65564)) (omega arith))))
      where
        more : suc (suc n) * suc g ≡ suc g + suc n * suc g
        more = omega (arith, suc-mul (suc n) (suc g))

    -- The parts of 10,000 full parts, the first of which has `f` chunks and the header.
    module _ (f : ℕ) (header : 5 + f * 65564 ≤ s) (full : s < 5 + suc f * 65564) where
      abbrev pub capacity : ℕ
      capacity = f + 9999 * suc g

      place_capacity : place_chunks capacity (pos s) (packed 1 5) ≡ packed 10000 (suc g * 65564)
      place_capacity =
          place_chunks_add f (9999 * suc g) (pos s) (packed 1 5)
          ∙ (ap (place_chunks (9999 * suc g) (pos s)) (place_chunks_fit f 1 5 header)
              ∙ place_parts 9998 1 (5 + f * 65564) (header, omega (arith, full)))

      place_rest_capacity :
          (r : ℕ)
          → r < 65536
          → ((place_rest (pos s) (pos r) (packed 10000 (suc g * 65564))).parts ≤ 10000)
            ↔ (r ≤ s - suc g * 65564 - 28)
      place_rest_capacity r h = rw (place_rest-parts r 10000 (suc g * 65564) h fits) (ground arith)

      total_below : (q r : ℕ) → r < 65536 → q < capacity → total s q r ≤ 10000
      unfolding total
      total_below q r h l =
          let (k, u, e, m) =
            place_chunks-packed q 1 5 (omega (arith, header)) (omega (arith, fits)) in
          omega (
            arith,
            rest k u e m,
            place_chunks-parts_mono (q + 1) capacity (pos s) (packed 1 5) (omega (arith, l)),
            ap Packing.parts place_capacity,
          )
        where
          rest :
              (k u : ℕ)
              → place_chunks q (pos s) (packed 1 5) ≡ packed k u
              → u ≤ s
              → (place_rest (pos s) (pos r) (place_chunks q (pos s) (packed 1 5))).parts
                ≤ (place_chunks (q + 1) (pos s) (packed 1 5)).parts
          rest k u e m =
              rw (place_chunks_add q 1 (pos s) (packed 1 5), e, place_one) (place_rest_le r k u h m)

      total_above : (q r : ℕ) → capacity < q → 10000 < total s q r
      unfolding total
      total_above q r l = omega (
        arith,
        place_rest-parts-le (pos s) (pos r) (place_chunks q (pos s) (packed 1 5)),
        place_chunks-parts_mono (capacity + 1) q (pos s) (packed 1 5) (omega (arith, l)),
        ap Packing.parts over,
      )
        where
          over : place_chunks (capacity + 1) (pos s) (packed 1 5) ≡ packed 10001 65564
          over =
              rw (place_chunks_add capacity 1 (pos s) (packed 1 5), place_capacity)
                (place_one (pos s) (packed 10000 (suc g * 65564))
                  ∙ place_chunk_full 65564 10000 (suc g * 65564) (omega (arith, most)) fits
                      (omega (arith, fits)))

      total_at : (r : ℕ) → r < 65536 → (total s capacity r ≤ 10000) ↔ (r ≤ s - suc g * 65564 - 28)
      unfolding total
      total_at r h = rw (total, place_capacity) (place_rest_capacity r h)

      pub total_le_iff :
          (q r : ℕ)
          → r < 65536
          → (total s q r ≤ 10000) ↔ (65536 * q + r ≤ 65536 * capacity + (s - suc g * 65564 - 28))
      total_le_iff q r h = ground (arith, total_at r h, total_above q r, total_below q r h)
