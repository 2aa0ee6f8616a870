-- ===== src/Model/Keys.antt =====
-- Keys of the form `userID + ":" + rest` (`trashKey` and `fileKey` of internal/model/mem_repos.go).
-- They tell users apart as long as no user id holds a colon; user ids are UUIDs.
use domus.Prelude.{ℕ, Text, codes, ◌≡◌, ◌≢◌, refl, [], ◌∷◌, ◌++◌, All, arith}

-- No byte of the id is a colon.
abbrev pub NoColon : Text → Type 0
NoColon = All (λ c. c ≢ b':')

cons-injective : (x y : ℕ) (xs ys : Text) → x ∷ xs ≡ y ∷ ys → (x ≡ y) × (xs ≡ ys)
cons-injective x y xs ys h = (cc, cc)

-- Texts before the first separator are equal, and those after it.
pub separated :
    (c : ℕ) (u v i j : Text)
    → All (λ x. x ≢ c) u
    → All (λ x. x ≢ c) v
    → u ++ (c ∷ i) ≡ v ++ (c ∷ j)
    → (u ≡ v) × (i ≡ j)
separated c [] [] i j a b h = (refl, (cons-injective _ _ i j h).1)
separated c [] (y ∷ v) i j a b h = absurd (ground (arith, cons-injective _ _ _ _ h))
separated c (x ∷ u) [] i j a b h = absurd (ground (arith, cons-injective _ _ _ _ h))
separated c (x ∷ u) (y ∷ v) i j a b h =
    let e = cons-injective x y _ _ h in
    let (s, t) = separated c u v i j a.1 b.1 e.1 in (ground arith, t)

pub colon-injective :
    (u v i j : Text)
    → NoColon u
    → NoColon v
    → u ++ (codes ":" ++ i) ≡ v ++ (codes ":" ++ j)
    → (u ≡ v) × (i ≡ j)
colon-injective u v i j a b h = separated b':' u v i j a b h
