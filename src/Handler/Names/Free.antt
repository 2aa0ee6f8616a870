-- ===== src/Handler/Names/Free.antt =====
-- The search of a free name ends: the candidates are all different, so one more than the number of
-- used names is not used.
use mathlib.Core.List.{append_cancel_left, append_cancel_right}
use domus.Prelude.{
  ℕ, suc, zero, ◌≤◌, ◌<◌, Text, codes, str_eq, eq_iff, true, false, none, some, Option-cases, subst,
  ◌==◌, ==_iff, Bool-cases, List, [], ◌∷◌, ◌++◌, length, ◌≡◌, ◌≢◌, refl, sym, ◌∙◌, inl, inr, arith,
  if◌then◌else◌,
}
use domus.Handler.Names.Decimal.{decimal, decimal_injective}
use domus.Handler.Names.{is_used, split_file_name, candidate, first_free, next_available_name}

-- The used names without one.
without : Text → List Text → List Text
without name [] = []
without name (u ∷ used) = let rest = without name used in if str_eq u name then rest else u ∷ rest

length-without-le : (name : Text) (used : List Text) → length (without name used) ≤ length used
unfolding without
length-without-le name [] = omega arith
length-without-le name (u ∷ used) = elim (Bool-cases (str_eq u name)) [
  | inl t ↦ rw t (omega (arith, length-without-le name used))
  | inr f ↦ rw f (omega (arith, length-without-le name used))
]

length-without-lt :
    (name : Text) (used : List Text)
    → is_used used name ≡ true
    → length (without name used) < length used
unfolding without is_used
length-without-lt name [] h = cc
length-without-lt name (u ∷ used) h = elim (Bool-cases (str_eq u name)) [
  | inl t ↦ rw t (omega (arith, length-without-le name used))
  | inr f ↦ rw f (omega (arith, length-without-lt name used (ground (arith, f, h))))
]

is_used-without :
    (name other : Text) (used : List Text)
    → name ≢ other
    → is_used (without name used) other ≡ is_used used other
unfolding without is_used
is_used-without name other [] n = refl
is_used-without name other (u ∷ used) n = elim (Bool-cases (str_eq u name)) [
  | inl t ↦ ground (arith, t, is_used-without name other used n, eq_iff u name, eq_iff u other)
  | inr f ↦ rw f (ground (arith, is_used-without name other used n))
]

candidate_injective :
    (base ext : Text) (i j : ℕ) → candidate base ext i ≡ candidate base ext j → i ≡ j
unfolding candidate
candidate_injective base ext i j h = decimal_injective i j (
    append_cancel_right (decimal i) (decimal j) (codes ")" ++ ext) (
      append_cancel_left (codes " (") (decimal i ++ (codes ")" ++ ext))
        (decimal j ++ (codes ")" ++ ext))
        (append_cancel_left base (codes " (" ++ (decimal i ++ (codes ")" ++ ext)))
          (codes " (" ++ (decimal j ++ (codes ")" ++ ext))) h)))

module _ (base ext : Text) where
  -- A name that only earlier candidates take away does not change the search.
  first_free-without :
      (fuel : ℕ) (used : List Text) (i j : ℕ)
      → i < j
      → first_free fuel base ext (without (candidate base ext i) used) j
        ≡ first_free fuel base ext used j
  unfolding first_free
  first_free-without zero used i j h = refl
  first_free-without (suc fuel) used i j h =
      rw
        (
          is_used-without (candidate base ext i) (candidate base ext j) used differ,
          first_free-without fuel used i (suc j) (omega arith),
        )
        refl
    where
      differ : candidate base ext i ≢ candidate base ext j
      differ e = absurd (omega (arith, candidate_injective base ext i j e))

  step_used :
      (fuel : ℕ) (used : List Text) (i : ℕ)
      → first_free (suc fuel) base ext used i ≡ none
      → (is_used used (candidate base ext i) ≡ true)
        × (first_free fuel base ext used (suc i) ≡ none)
  unfolding first_free
  step_used fuel used i h = elim (Bool-cases (is_used used (candidate base ext i))) [
    | inl t ↦ (t, ground (arith, t, h))
    | inr f ↦ absurd (ground (arith, f, h))
  ]

  first_free-none :
      (fuel : ℕ) (used : List Text) (i : ℕ)
      → first_free fuel base ext used i ≡ none
      → fuel ≤ length used
  first_free-none zero used i h = omega arith
  first_free-none (suc fuel) used i h =
      let (u, n) = step_used fuel used i h in
      omega (
        arith,
        length-without-lt (candidate base ext i) used u,
        first_free-none fuel (without (candidate base ext i) used) (suc i)
            (first_free-without fuel used i (suc i) (omega arith) ∙ n),
      )

  -- The first candidate from `i` on that is not used.
  abbrev pub IsFirstFree : List Text → ℕ → Text → Type 0
  IsFirstFree used i name =
      (j : ℕ) × (i ≤ j)
      × (name ≡ candidate base ext j)
      × (is_used used name ≡ false)
      × ((k : ℕ) → i ≤ k → k < j → is_used used (candidate base ext k) ≡ true)

  IsFirstFree-suc :
      (used : List Text) (i : ℕ) (name : Text)
      → is_used used (candidate base ext i) ≡ true
      → IsFirstFree used (suc i) name
      → IsFirstFree used i name
  IsFirstFree-suc used i name t (j, l, e, n, before) = (j, omega arith, e, n, all)
    where
      all : (k : ℕ) → i ≤ k → k < j → is_used used (candidate base ext k) ≡ true
      all k h m = elim (Bool-cases (i == k)) [
        | inl q ↦ subst (λ x. is_used used (candidate base ext x) ≡ true) ((==_iff i k).0 q) t
        | inr q ↦ before k (ground (arith, q)) m
      ]

  first_free-some :
      (fuel : ℕ) (used : List Text) (i : ℕ) (name : Text)
      → first_free fuel base ext used i ≡ some name
      → IsFirstFree used i name
  unfolding first_free
  first_free-some zero used i name h = cc
  first_free-some (suc fuel) used i name h =
      elim (Bool-cases (is_used used (candidate base ext i))) [
        | inl t ↦
            IsFirstFree-suc used i name t
              (first_free-some fuel used (suc i) name (ground (arith, t, h)))
        | inr f ↦ found f (ground (arith, f, h))
      ]
    where
      found :
          is_used used (candidate base ext i) ≡ false
          → candidate base ext i ≡ name
          → IsFirstFree used i name
      found f e = (
        i,
        omega arith,
        sym e,
        subst (λ x. is_used used x ≡ false) e f,
        λ k l m. absurd (omega arith),
      )

  first_free_total :
      (fuel : ℕ) (used : List Text) (i : ℕ)
      → length used < fuel
      → (name : Text) × (first_free fuel base ext used i ≡ some name) × IsFirstFree used i name
  first_free_total fuel used i h = elim (Option-cases (first_free fuel base ext used i)) [
    | inl n ↦ absurd (omega (arith, first_free-none fuel used i n))
    | inr (name, e) ↦ (name, e, first_free-some fuel used i name e)
  ]

-- With more fuel than there are used names, the search for a free name ends with the first
-- candidate, counted from 1, that is not used.
pub next_available_name_total :
    (fuel : ℕ) (name : Text) (used : List Text)
    → length used < fuel
    → (free : Text) × (next_available_name fuel name used ≡ some free)
      × IsFirstFree (split_file_name name).0 (split_file_name name).1 used 1 free
unfolding next_available_name
next_available_name_total fuel name used h =
    first_free_total (split_file_name name).0 (split_file_name name).1 fuel used 1 h
