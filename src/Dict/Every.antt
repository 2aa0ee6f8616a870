-- ===== src/Dict/Every.antt =====
-- Properties of all entries, and what they say of an entry that is found.
use domus.Prelude.{Text, str_eq, eq_iff, Bool-cases, ◌≡◌, subst, inl, inr, some, [], ◌∷◌, arith}
use domus.Dict.{Dict, lookup, Every}

module _ {ℓ κ} {V : Type ℓ} (P : Text → V → Type κ) where
  pub Every-lookup : (k : Text) {v : V} (m : Dict V) → Every P m → lookup k m ≡ some v → P k v
  unfolding lookup
  Every-lookup k [] e h = cc
  Every-lookup k {v} ((j, w) ∷ m) e h = elim (Bool-cases (str_eq j k)) [
    | inl t ↦ subst (λ x. P x v) ((eq_iff j k).0 t) (subst (λ x. P j x) (ground arith) e.0)
    | inr f ↦ Every-lookup k m e.1 (rw f at h)
  ]
