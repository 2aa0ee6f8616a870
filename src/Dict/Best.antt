-- ===== src/Dict/Best.antt =====
-- What the loop that keeps the best entry returns.
use domus.Prelude.{
  Text, eq_iff, str_eq_refl, Bool, true, false, Bool-cases, ◌≡◌, ◌⊎◌, inl, inr, Option, none, some,
  [], ◌∷◌, arith, if◌then◌else◌, IsWeakOrder,
}
use domus.Dict.{Dict, lookup, best_from, IsMap, Every}

module _ {ℓ} {V : Type ℓ} (p : Text → V → Bool) (better : V → V → Bool) where
  -- The result is what was found before, or an entry of the map that passes the test.
  pub best_from_sound :
      (found : Option (Text × V)) {k : Text} {v : V} (m : Dict V)
      → IsMap m
      → best_from p better found m ≡ some (k, v)
      → (found ≡ some (k, v)) ⊎ ((p k v ≡ true) × (lookup k m ≡ some v))
  unfolding best_from lookup
  best_from_sound found [] u h = inl h
  best_from_sound none {k} {v} ((j, w) ∷ m) u h = ground (
    arith,
    best_from_sound (if p j w then some (j, w) else none) {k = k} {v = v} m u.1,
    eq_iff j k,
    str_eq_refl j,
  )
  best_from_sound (some (i, x)) {k} {v} ((j, w) ∷ m) u h = ground (
    arith,
    best_from_sound
        (if p j w then (if better w x then some (j, w) else some (i, x)) else some (i, x)) {k = k}
        {v = v} m u.1,
    eq_iff j k,
    str_eq_refl j,
  )

  pub best_from-none :
      (found : Option (Text × V)) (m : Dict V)
      → best_from p better found m ≡ none
      → (found ≡ none) × Every (λ k v. p k v ≡ false) m
  unfolding best_from
  best_from-none found [] h = (h, tt)
  best_from-none none ((j, w) ∷ m) h =
      ground (arith, best_from-none (if p j w then some (j, w) else none) m)
  best_from-none (some (i, x)) ((j, w) ∷ m) h = ground (
    arith,
    best_from-none
        (if p j w then (if better w x then some (j, w) else some (i, x)) else some (i, x)) m,
  )

  -- Nothing that passes the test is better than the result.
  abbrev pub NoneBetter : V → Dict V → Type 0
  NoneBetter v [] = Unit
  NoneBetter v ((k, w) ∷ m) = (p k w ≡ true → better w v ≡ false) × NoneBetter v m

  module _ (o : IsWeakOrder better) where
    irreflexive : (x : V) → better x x ≡ false
    irreflexive x = elim (Bool-cases (better x x)) [ inl t ↦ o.asym x x t | inr f ↦ f ]

    best_from-some :
        (i : Text) (x : V) {k : Text} {v : V} (m : Dict V)
        → best_from p better (some (i, x)) m ≡ some (k, v)
        → (better x v ≡ false) × NoneBetter v m
    unfolding best_from
    best_from-some i x {k} {v} [] h = (ground (arith, irreflexive v), tt)
    best_from-some i x {k} {v} ((j, w) ∷ m) h = elim (Bool-cases (p j w)) [
      | inr f ↦ let (a, b) = best_from-some i x {k = k} {v = v} m (rw f at h) in (a, ((λ t. cc), b))
      | inl t ↦ elim (Bool-cases (better w x)) [
        | inl g ↦
            let (a, b) = best_from-some j w {k = k} {v = v} m (rw g at (rw t at h)) in
            (o.weak_trans v w x a (o.asym w x g), ((λ _. a), b))
        | inr g ↦
            let (a, b) = best_from-some i x {k = k} {v = v} m (rw g at (rw t at h)) in
            (a, ((λ _. o.weak_trans v x w a g), b))
      ]
    ]

    pub best_from_optimal :
        {k : Text} {v : V} (m : Dict V) → best_from p better none m ≡ some (k, v) → NoneBetter v m
    unfolding best_from
    best_from_optimal [] h = cc
    best_from_optimal {k} {v} ((j, w) ∷ m) h = elim (Bool-cases (p j w)) [
      | inr f ↦ ((λ t. cc), best_from_optimal {k = k} {v = v} m (rw f at h))
      | inl t ↦ let (a, b) = best_from-some j w {k = k} {v = v} m (rw t at h) in ((λ _. a), b)
    ]
