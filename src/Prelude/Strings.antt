-- ===== src/Prelude/Strings.antt =====
-- Go strings as lists of bytes: literals, `==`, and the functions of package strings that the
-- program calls.
use Prim.Native.Char.{code}
use Prim.Native.String.{String}
use mathlib.Core.Option.{Option, none, some}
use Prim.Native.Nat.{◌<◌, ℕ, suc}
use mathlib.Core.Path.{◌≡◌, refl, ap}
use mathlib.Core.Logic.{◌↔◌, ◌≢◌}
use mathlib.Core.Bool.{Bool, true, false, ◌&&◌, ◌||◌}
use mathlib.Core.List.{List, [], ◌∷◌, ◌++◌}
use native.Mathlib.Omega.{arith}
use domus.Prelude.Tests.{◌==◌, ltb, if◌then◌else◌}
use domus.Prelude.Lists.{length, drop, All}

abbrev pub Text : Type 0
Text = List ℕ

-- The bytes of an ASCII literal.
abbrev pub codes : String → Text
codes (String.◌∷◌ first rest) = code first ∷ codes rest
codes String.[] = []

unfoldable pub str_eq : Text → Text → Bool
str_eq [] [] = true
str_eq (x ∷ xs) (y ∷ ys) = (x == y) && str_eq xs ys
str_eq _ _ = false

str_eq→eq : (a b : Text) → str_eq a b ≡ true → a ≡ b
unfolding str_eq
str_eq→eq [] [] h = refl
str_eq→eq [] (y ∷ ys) h = cc
str_eq→eq (x ∷ xs) [] h = cc
str_eq→eq (x ∷ xs) (y ∷ ys) h = ground (arith, str_eq→eq xs ys)

pub str_eq_refl : (a : Text) → str_eq a a ≡ true
unfolding str_eq
str_eq_refl [] = refl
str_eq_refl (x ∷ xs) = ground (arith, str_eq_refl xs)

pub eq_iff : (a b : Text) → (str_eq a b ≡ true) ↔ (a ≡ b)
eq_iff a b = (str_eq→eq a b, λ e. rw e (str_eq_refl b))

-- `s == ""`
unfoldable pub is_empty : Text → Bool
is_empty [] = true
is_empty (c ∷ s) = false

-- strings.HasPrefix
unfoldable pub has_prefix : Text → Text → Bool
has_prefix s [] = true
has_prefix [] (p ∷ ps) = false
has_prefix (c ∷ s) (p ∷ ps) = (c == p) && has_prefix s ps

-- What `has_prefix` tests.
pub has_prefix-append : (p s : Text) → has_prefix (p ++ s) p ≡ true
unfolding has_prefix
has_prefix-append [] s = refl
has_prefix-append (c ∷ p) s = ground (arith, has_prefix-append p s)

pub append-drop_of_has_prefix : (s p : Text) → has_prefix s p ≡ true → p ++ drop (length p) s ≡ s
unfolding has_prefix drop
append-drop_of_has_prefix s [] h = refl
append-drop_of_has_prefix [] (p ∷ ps) h = cc
append-drop_of_has_prefix (c ∷ s) (p ∷ ps) h = ground (arith, append-drop_of_has_prefix s ps)

-- `a < b`: the order of Go strings, byte by byte
unfoldable pub str_lt : Text → Text → Bool
str_lt [] [] = false
str_lt [] (y ∷ ys) = true
str_lt (x ∷ xs) [] = false
str_lt (x ∷ xs) (y ∷ ys) = if x == y then str_lt xs ys else ltb x y

pub str_lt_asym : (a b : Text) → str_lt a b ≡ true → str_lt b a ≡ false
unfolding str_lt
str_lt_asym [] [] h = refl
str_lt_asym [] (y ∷ ys) h = refl
str_lt_asym (x ∷ xs) [] h = cc
str_lt_asym (x ∷ xs) (y ∷ ys) h = ground (arith, str_lt_asym xs ys)

pub str_lt_weak_trans :
    (a b c : Text) → str_lt b a ≡ false → str_lt c b ≡ false → str_lt c a ≡ false
unfolding str_lt
str_lt_weak_trans [] [] c h k = k
str_lt_weak_trans [] (y ∷ ys) [] h k = refl
str_lt_weak_trans [] (y ∷ ys) (z ∷ zs) h k = refl
str_lt_weak_trans (x ∷ xs) [] c h k = cc
str_lt_weak_trans (x ∷ xs) (y ∷ ys) [] h k = cc
str_lt_weak_trans (x ∷ xs) (y ∷ ys) (z ∷ zs) h k = ground (arith, str_lt_weak_trans xs ys zs)

-- strings.TrimSuffix(s, c) for one byte c
unfoldable pub trim_suffix : Text → ℕ → Text
trim_suffix [] c = []
trim_suffix (x ∷ []) c = if x == c then [] else x ∷ []
trim_suffix (x ∷ y ∷ s) c = x ∷ trim_suffix (y ∷ s) c

-- strings.LastIndex(s, c) for one byte c; `none` stands for -1
unfoldable pub last_index : Text → ℕ → Option ℕ
last_index [] c = none
last_index (x ∷ s) c = elim (last_index s c) [
  | some i ↦ some (suc i)
  | none ↦ if x == c then some 0 else none
]

-- strings.Replace(s, old, new, 1)
unfoldable pub replace_first : Text → Text → Text → Text
replace_first [] old new = if has_prefix [] old then new else []
replace_first (c ∷ s) old new =
    let rest = replace_first s old new in
    if has_prefix (c ∷ s) old then new ++ drop (length old) (c ∷ s) else c ∷ rest

-- strings.Contains
unfoldable pub contains : Text → Text → Bool
contains [] t = has_prefix [] t
contains (c ∷ s) t = let rest = contains s t in has_prefix (c ∷ s) t || rest

has_prefix_short : (s p : Text) → length s < length p → has_prefix s p ≡ false
unfolding has_prefix
has_prefix_short s [] h = absurd (omega arith)
has_prefix_short [] (p ∷ ps) h = refl
has_prefix_short (c ∷ s) (p ∷ ps) h = ground (arith, has_prefix_short s ps)

-- A text that is shorter than what is sought stays as it is.
pub replace_first_short : (s old new : Text) → length s < length old → replace_first s old new ≡ s
unfolding replace_first
replace_first_short [] old new h = rw (has_prefix_short [] old h)
replace_first_short (c ∷ s) old new h =
    rw (has_prefix_short (c ∷ s) old h) (ap (◌∷◌ c) (replace_first_short s old new (omega arith)))

-- A byte that does not occur has no last index.
last_index-none : (s : Text) (c : ℕ) → All (λ x. x ≢ c) s → last_index s c ≡ none
unfolding last_index
last_index-none [] c h = refl
last_index-none (x ∷ s) c h = ground (arith, last_index-none s c h.1)

pub last_index-append :
    (d s : Text) (c : ℕ) → All (λ x. x ≢ c) s → last_index (d ++ (c ∷ s)) c ≡ some (length d)
unfolding last_index
last_index-append [] s c h = ground (arith, last_index-none s c h)
last_index-append (x ∷ d) s c h = rw (last_index-append d s c h)
