-- ===== src/Dict/Count.antt =====
-- The number of a map's entries that satisfy a test, after an entry was stored or deleted.
use domus.Prelude.{
  ℕ, ◌+◌, Text, str_eq, eq_iff, Bool, true, false, Bool-cases, ◌≡◌, refl, inl, inr, subst, none,
  some, [], ◌∷◌, length, arith,
}
use domus.Dict.{Dict, lookup, insert, delete, values_where, IsMap}

abbrev pub one_if : Bool → ℕ
one_if true = 1
one_if false = 0

module _ {ℓ} {V : Type ℓ} (p : V → Bool) where
  unfoldable pub count_where : Dict V → ℕ
  count_where m = length (values_where (λ _ v. p v) m)

  count_where-cons :
      (j : Text) (v : V) (m : Dict V) → count_where ((j, v) ∷ m) ≡ one_if (p v) + count_where m
  unfolding count_where values_where
  count_where-cons j v m = elim (Bool-cases (p v)) [
    | inl t ↦ rw t (omega arith)
    | inr f ↦ rw f (omega arith)
  ]

  pub count_where-insert :
      (k : Text) (v w : V) (m : Dict V)
      → lookup k m ≡ some w
      → count_where (insert k v m) + one_if (p w) ≡ count_where m + one_if (p v)
  unfolding lookup insert
  count_where-insert k v w [] h = cc
  count_where-insert k v w ((j, x) ∷ m) h = elim (Bool-cases (str_eq j k)) [
    | inl t ↦ rw t (ground (arith, t, h, count_where-cons j v m, count_where-cons j x m))
    | inr f ↦ rw f (
        omega (
          arith,
          count_where-cons j x (insert k v m),
          count_where-cons j x m,
          count_where-insert k v w m (ground (arith, f, h)),
        ))
  ]

  pub count_where-insert_new :
      (k : Text) (v : V) (m : Dict V)
      → lookup k m ≡ none
      → count_where (insert k v m) ≡ count_where m + one_if (p v)
  unfolding lookup insert
  count_where-insert_new k v [] h = omega (arith, count_where-cons k v [])
  count_where-insert_new k v ((j, x) ∷ m) h = elim (Bool-cases (str_eq j k)) [
    | inl t ↦ absurd (ground (arith, t, h))
    | inr f ↦ rw f (
        omega (
          arith,
          count_where-cons j x (insert k v m),
          count_where-cons j x m,
          count_where-insert_new k v m (ground (arith, f, h)),
        ))
  ]

  delete_missing : (k : Text) (m : Dict V) → lookup k m ≡ none → delete k m ≡ m
  unfolding lookup delete
  delete_missing k [] h = refl
  delete_missing k ((j, x) ∷ m) h = elim (Bool-cases (str_eq j k)) [
    | inl t ↦ absurd (ground (arith, t, h))
    | inr f ↦ rw (f, delete_missing k m (ground (arith, f, h))) refl
  ]

  pub count_where-delete :
      (k : Text) (w : V) (m : Dict V)
      → IsMap m
      → lookup k m ≡ some w
      → count_where (delete k m) + one_if (p w) ≡ count_where m
  unfolding lookup delete
  count_where-delete k w [] u h = cc
  count_where-delete k w ((j, x) ∷ m) u h = elim (Bool-cases (str_eq j k)) [
    | inl t ↦
        rw (t, delete_missing k m (subst (λ i. lookup i m ≡ none) ((eq_iff j k).0 t) u.0))
          (ground (arith, t, h, count_where-cons j x m))
    | inr f ↦ rw f (
        omega (
          arith,
          count_where-cons j x (delete k m),
          count_where-cons j x m,
          count_where-delete k w m u.1 (ground (arith, f, h)),
        ))
  ]
