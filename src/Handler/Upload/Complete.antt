-- ===== src/Handler/Upload/Complete.antt =====
-- Which parts `authoritativeCompleteParts` of internal/handler/upload.go accepts.
use native.Mathlib.Nat.{zero-add}
use domus.Prelude.{
  subst, ℕ, suc, ◌+◌, ◌<◌, ◌≤◌, ◌==◌, ltb, leb, Bool, true, false, not, ◌&&◌, ◌||◌, ◌≡◌, ◌↔◌, ◌⊎◌,
  inl, inr, Bool-cases, refl, Option, none, some, List, [], ◌∷◌, map, length, arith, if◌then◌else◌,
  ℤ, pos, negsuc, int_lt, int_eq, is_blank, is_nonpositive, int64_add, int64_sub, int64_add_pos,
  int64_sub_pos, int64_sub_neg, int_eq_iff, ◌∙◌, sym, ap,
}
use domus.Handler.Upload.Sizes.{s3_minimum_part_size, s3_maximum_part_size}
use domus.Handler.Upload.Parts.{
  PartInfo, CompletePart, is_bad_part, completed, complete_from, authoritative_complete_parts,
}

-- The parts from index `i` on hold `n` bytes, and each is as the store wants it.
abbrev pub AreComplete : ℕ → ℕ → List PartInfo → Type 0
AreComplete i n [] = n ≡ 0
AreComplete i n (part ∷ parts) =
    (part.part_number ≡ pos (i + 1))
    × (is_blank part.etag ≡ false)
    × ((s : ℕ) × (part.size ≡ pos s)
        × (0 < s)
        × (s ≤ 5368709120)
        × ((parts ≡ []) ⊎ (5242880 ≤ s))
        × ((m : ℕ) × (n ≡ s + m) × AreComplete (suc i) m parts))

regroup : (x y c d : Bool) → ((x || (y || c)) || d) ≡ (x || (y || (c || d)))
regroup true y c d = refl
regroup false true c d = refl
regroup false false c d = refl

passes_iff :
    (a b c : Bool) → ((not a || (b || c)) ≡ false) ↔ ((a ≡ true) × (b ≡ false) × (c ≡ false))
passes_iff true true c = ground arith
passes_iff true false c = ground arith
passes_iff false b c = ground arith

accepted :
    (bad : Bool) (rest : Option (List CompletePart)) (part : CompletePart)
    (done : List CompletePart)
    → (if bad then none else elim rest [ none ↦ none | some r ↦ some (part ∷ r) ]) ≡ some done
    → (bad ≡ false) × ((r : List CompletePart) × (rest ≡ some r) × (done ≡ part ∷ r))
accepted true rest part done h = cc
accepted false none part done h = cc
accepted false (some r) part done h = (refl, (r, refl, cc))

ℤ-cases : (x : ℤ) → ((s : ℕ) × (x ≡ pos s)) ⊎ ((s : ℕ) × (x ≡ negsuc s))
ℤ-cases (pos s) = inl (s, refl)
ℤ-cases (negsuc s) = inr (s, refl)

some_if :
    (b : Bool) (x y : List CompletePart)
    → (if b then some x else none) ≡ some y
    → (y ≡ x) × (b ≡ true)
some_if true x y h = (cc, refl)
some_if false x y h = cc

map_left : {P Q : Type 0} {R : Type 0} → (P → Q) → P ⊎ R → Q ⊎ R
map_left f (inl p) = inl (f p)
map_left f (inr r) = inr r

unless_iff :
    (b : Bool) (o : Option (List CompletePart)) (x : List CompletePart)
    → ((if b then none else o) ≡ some x) ↔ ((b ≡ false) × (o ≡ some x))
unless_iff true o x = ((λ h. cc), λ h. cc)
unless_iff false o x = ((λ h. (refl, h)), λ h. h.1)

start_iff :
    (n maximum expected : ℕ)
    → (((n == 0) || (ltb maximum n || (expected == 0))) ≡ false)
      ↔ ((0 < n) × (n ≤ maximum) × (0 < expected))
start_iff n maximum expected = ground arith

last_part :
    (i count : ℕ) (parts : List PartInfo)
    → i + suc (length parts) ≡ count
    → (not (ltb (suc i) count) ≡ true) ↔ (parts ≡ [])
last_part i count [] h = (λ e. refl, λ e. ground (arith, h))
last_part i count (p ∷ parts) h = (λ e. absurd (ground (arith, h)), λ e. cc)

module _ (expected : ℕ) (small : expected < 9223372036854775808) where
  less_pos :
      (t s : ℕ)
      → s ≤ 5368709120
      → int_lt (int64_sub (pos expected) (pos s)) (pos t) ≡ ltb expected (t + s)
  unfolding int_lt
  less_pos t s h = elim (Bool-cases (leb s expected)) [
    | inl b ↦ rw (int64_sub_pos expected s (ground (arith, b)) small) (ground (arith, b))
    | inr b ↦ rw (int64_sub_neg expected s (ground (arith, b)) (omega arith)) (ground (arith, b))
  ]

  abbrev size_tests : ℕ → Bool → ℕ → Bool
  size_tests t last s =
      ((s == 0) || ltb 5368709120 s) || ((not last && ltb s 5242880) || ltb expected (t + s))

  size_tests_eq :
      (t : ℕ) (last : Bool) (s : ℕ)
      → ((is_nonpositive (pos s) || int_lt (pos s3_maximum_part_size) (pos s))
          || ((not last && int_lt (pos s) (pos s3_minimum_part_size))
              || int_lt (int64_sub (pos expected) (pos s)) (pos t)))
        ≡ size_tests t last s
  unfolding is_nonpositive int_lt
  size_tests_eq t last s = elim (Bool-cases (ltb 5368709120 s)) [
    | inl b ↦ rw b (ground arith)
    | inr b ↦ rw (less_pos t s (ground (arith, b))) refl
  ]

  size_tests_iff :
      (t : ℕ) (last : Bool) (s : ℕ)
      → (size_tests t last s ≡ false)
        ↔ ((0 < s) × (s ≤ 5368709120) × ((last ≡ true) ⊎ (5242880 ≤ s)) × (t + s ≤ expected))
  size_tests_iff t true s = ground arith
  size_tests_iff t false s = ground arith

  abbrev part_tests : ℕ → ℕ → Bool → PartInfo → ℕ → Bool
  part_tests i t last part s =
      not (int_eq part.part_number (pos (i + 1))) || (is_blank part.etag || size_tests t last s)

  is_bad_part_eq :
      (i t : ℕ) (last : Bool) (part : PartInfo) (s : ℕ)
      → part.size ≡ pos s
      → is_bad_part i last (pos t) (pos expected) part ≡ part_tests i t last part s
  unfolding is_bad_part
  is_bad_part_eq i t last part s h = rw h (
      regroup (not (int_eq part.part_number (pos (i + 1)))) (is_blank part.etag)
        (is_nonpositive (pos s) || int_lt (pos s3_maximum_part_size) (pos s))
        ((not last && int_lt (pos s) (pos s3_minimum_part_size))
          || int_lt (int64_sub (pos expected) (pos s)) (pos t))
      ∙ ap (λ c. not (int_eq part.part_number (pos (i + 1))) || (is_blank part.etag || c))
          (size_tests_eq t last s))

  is_bad_part_neg :
      (i t : ℕ) (last : Bool) (part : PartInfo) (s : ℕ)
      → part.size ≡ negsuc s
      → is_bad_part i last (pos t) (pos expected) part ≡ true
  unfolding is_bad_part is_nonpositive
  is_bad_part_neg i t last part s h = rw h (
      neg (int_eq part.part_number (pos (i + 1))) (is_blank part.etag) (
        (not last && int_lt (negsuc s) (pos s3_minimum_part_size))
        || int_lt (int64_sub (pos expected) (negsuc s)) (pos t)))
    where
      neg : (a b d : Bool) → ((not a || (b || true)) || d) ≡ true
      neg true true d = refl
      neg true false d = refl
      neg false b d = refl

  part_tests_iff :
      (i t : ℕ) (last : Bool) (part : PartInfo) (s : ℕ)
      → (part_tests i t last part s ≡ false) ↔ (
          (part.part_number ≡ pos (i + 1))
          × (is_blank part.etag ≡ false)
          × (0 < s)
          × (s ≤ 5368709120)
          × ((last ≡ true) ⊎ (5242880 ≤ s))
          × (t + s ≤ expected))
  part_tests_iff i t last part s =
      let (to, from) =
        passes_iff (int_eq part.part_number (pos (i + 1))) (is_blank part.etag)
          (size_tests t last s) in
      let (number, number') = int_eq_iff part.part_number (pos (i + 1)) in
      let (size, size') = size_tests_iff t last s in
      (
        λ h. let (a, b, c) = to h in let (d, e, f, g) = size c in (number a, b, d, e, f, g),
        λ (a, b, d, e, f, g). from (number' a, b, size' (d, e, f, g)),
      )

  -- What a loop that accepts has read.
  complete_from_sound :
      (count i t : ℕ) (parts : List PartInfo) (done : List CompletePart)
      → i + length parts ≡ count
      → t ≤ expected
      → complete_from count i (pos t) (pos expected) parts ≡ some done
      → (done ≡ map completed parts) × ((n : ℕ) × (t + n ≡ expected) × AreComplete i n parts)
  unfolding complete_from int_eq
  complete_from_sound count i t [] done e h k =
      let (d, n) = some_if (t == expected) [] done k in (d, (0, ground (arith, n), refl))
  complete_from_sound count i t (part ∷ parts) done e h k = elim (ℤ-cases part.size) [
    | inr (s, c) ↦
        absurd (ground (arith, is_bad_part_neg i t (not (ltb (suc i) count)) part s c, tests.0))
    | inl (s, c) ↦
        let (r, l, d) = tests.1 in
        let (a, b, f, g, j, o) =
          (part_tests_iff i t (not (ltb (suc i) count)) part s).0
            (sym (is_bad_part_eq i t (not (ltb (suc i) count)) part s c) ∙ tests.0) in
        let (q, (n, u, v)) = complete_from_sound count (suc i) (t + s) parts r (omega arith) o (
          ap (λ x. complete_from count (suc i) x (pos expected) parts)
            (sym (ap (int64_add (pos t)) c ∙ int64_add_pos t s (omega arith)))
          ∙ l) in
        (
          d ∙ ap (◌∷◌ (completed part)) q,
          (
            s + n,
            omega arith,
            (a, b, (s, c, f, g, map_left (last_part i count parts e).0 j, (n, refl, v))),
          ),
        )
  ]
    where
      tests :
          (is_bad_part i (not (ltb (suc i) count)) (pos t) (pos expected) part ≡ false)
          × ((r : List CompletePart) × (complete_from count
                  (suc i)
                  (int64_add (pos t) part.size)
                  (pos expected)
                  parts
                ≡ some r)
              × (done ≡ completed part ∷ r))
      tests = accepted _ _ _ _ k

  complete_from_complete :
      (count i t n : ℕ) (parts : List PartInfo)
      → i + length parts ≡ count
      → t + n ≡ expected
      → AreComplete i n parts
      → complete_from count i (pos t) (pos expected) parts ≡ some (map completed parts)
  unfolding complete_from int_eq
  complete_from_complete count i t n [] e h k = ground (arith, k)
  complete_from_complete count i t n (part ∷ parts) e h (a, b, (s, c, d, f, g, (m, j, k))) =
      rw
        (
          is_bad_part_eq i t (not (ltb (suc i) count)) part s c,
          c,
          int64_add_pos t s (omega arith),
          (part_tests_iff i t (not (ltb (suc i) count)) part s).1
              (a, b, d, f, map_left (last_part i count parts e).1 g, omega arith),
          complete_from_complete count (suc i) (t + s) m parts (omega arith) (omega arith) k,
        )
        refl

-- With an expected size below 2^63 the parts that the store reports are accepted exactly when
-- there are between 1 and the maximum of them, they are numbered from 1 and have entity tags that
-- are not blank, each holds more than nothing and at most 5 GiB and all but the last at least 5
-- MiB, and together they hold the expected size, which is positive; they are then returned in
-- order with their numbers and tags.
pub authoritative_complete_parts_iff :
    (parts : List PartInfo) (maximum expected : ℕ) (done : List CompletePart)
    → expected < 9223372036854775808
    → (authoritative_complete_parts parts (pos maximum) (pos expected) ≡ some done) ↔ (
        (0 < length parts)
        × (length parts ≤ maximum)
        × (0 < expected)
        × (done ≡ map completed parts)
        × AreComplete 0 expected parts)
unfolding authoritative_complete_parts int_lt is_nonpositive
authoritative_complete_parts_iff parts maximum expected done small =
    let (to, from) =
      unless_iff ((length parts == 0) || (ltb maximum (length parts) || (expected == 0)))
        (complete_from (length parts) 0 (pos 0) (pos expected) parts) done in
    let (tests, tests') = start_iff (length parts) maximum expected in
    (
      λ h.
          let (b, o) = to h in
          let (x, y, z) = tests b in
          let (d, (n, e, c)) =
            complete_from_sound expected small (length parts) 0 0 parts done (omega arith)
              (omega arith) o in
          (x, y, z, d, subst (λ n. AreComplete 0 n parts) (sym (zero-add n) ∙ e) c),
      λ (x, y, z, d, c). from (
        tests' (x, y, z),
        complete_from_complete expected small (length parts) 0 0 expected parts (omega arith)
              (omega arith) c
            ∙ ap some (sym d),
      ),
    )
