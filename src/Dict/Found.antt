-- ===== src/Dict/Found.antt =====
-- What the searching loops return.
use mathlib.Core.List.{Memᴰ}
use domus.Prelude.{
  Text, str_eq, eq_iff, str_eq_refl, Bool, true, false, Bool-cases, ◌≡◌, sym, subst, inl, inr, none,
  some, List, [], ◌∷◌, All, arith,
}
use domus.Dict.{Dict, lookup, find, values_where, IsMap, Every}

module _ {ℓ} {V : Type ℓ} (p : Text → V → Bool) where
  -- An entry that a search returns satisfies the test, and a lookup shows it.
  pub find_sound :
      {k : Text} {v : V} (m : Dict V)
      → IsMap m
      → find p m ≡ some (k, v)
      → (p k v ≡ true) × (lookup k m ≡ some v)
  unfolding find lookup
  find_sound [] u h = cc
  find_sound {k} {v} ((j, w) ∷ m) u h =
      ground (arith, find_sound {k = k} {v = v} m u.1, eq_iff j k, str_eq_refl j)

  -- A search that returns nothing has seen every entry fail the test.
  pub find-none : (m : Dict V) → find p m ≡ none → Every (λ k v. p k v ≡ false) m
  unfolding find
  find-none [] h = tt
  find-none ((j, w) ∷ m) h = ground (arith, find-none m)

  -- Every value collected passed the test at a key where a lookup shows it.
  abbrev pub Collected : Dict V → V → Type ℓ
  Collected m v = (k : Text) × (p k v ≡ true) × (lookup k m ≡ some v)

  Collected-cons :
      (j : Text) (w : V) (m : Dict V) (vs : List V)
      → lookup j m ≡ none
      → All (Collected m) vs
      → All (Collected ((j, w) ∷ m)) vs
  unfolding lookup
  Collected-cons j w m [] n a = tt
  Collected-cons j w m (v ∷ vs) n a =
      ((a.0.0, a.0.1, ground (arith, eq_iff j a.0.0, a.0.2)), Collected-cons j w m vs n a.1)

  pub All-values_where : (m : Dict V) → IsMap m → All (Collected m) (values_where p m)
  unfolding values_where lookup
  All-values_where [] u = tt
  All-values_where ((j, w) ∷ m) u = elim (Bool-cases (p j w)) [
    | inl t ↦ rw t ((j, t, rw (str_eq_refl j)), Collected-cons j w m _ u.0 (All-values_where m u.1))
    | inr f ↦ rw f (Collected-cons j w m _ u.0 (All-values_where m u.1))
  ]

  -- Every value that passes the test is collected.
  pub values_where_complete :
      (k : Text) {v : V} (m : Dict V)
      → lookup k m ≡ some v
      → p k v ≡ true
      → Memᴰ v (values_where p m)
  unfolding lookup values_where
  values_where_complete k [] h t = cc
  values_where_complete k {v} ((j, w) ∷ m) h t = elim (Bool-cases (str_eq j k)) [
    | inl e ↦ rw (show_head e) (Memᴰ.head (sym (same e)))
    | inr f ↦ elim (Bool-cases (p j w)) [
      | inl s ↦ rw s (Memᴰ.tail (values_where_complete k m (rw f at h) t))
      | inr s ↦ rw s (values_where_complete k m (rw f at h) t)
    ]
  ]
    where
      same : str_eq j k ≡ true → w ≡ v
      same e = ground arith

      show_head : str_eq j k ≡ true → p j w ≡ true
      show_head e =
          subst (λ x. p x w ≡ true) (sym ((eq_iff j k).0 e))
            (subst (λ x. p k x ≡ true) (sym (same e)) t)
