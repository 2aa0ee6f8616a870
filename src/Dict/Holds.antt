-- ===== src/Dict/Holds.antt =====
-- Invariants of a map, stated by lookups: a property of every entry, and a relation that no two
-- entries are in.
use domus.Prelude.{
  Text, str_eq, eq_iff, Bool, false, Bool-cases, Option-cases, ◌≡◌, ◌≢◌, sym, ◌∙◌, ap, subst, ◌⊎◌,
  inl, inr, some, [], arith,
}
use domus.Dict.{Dict, lookup, insert, delete, delete_where, map_values, IsMap}
use domus.Dict.Lookup.{lookup-insert, lookup-delete, lookup-delete_where, lookup-map_values}

module _ {ℓ} {V : Type ℓ} where
  lookup-insert_cases :
      (k j : Text) (v e : V) (m : Dict V)
      → lookup j (insert k v m) ≡ some e
      → ((k ≡ j) × (v ≡ e)) ⊎ ((k ≢ j) × (lookup j m ≡ some e))
  lookup-insert_cases k j v e m h = elim (Bool-cases (str_eq k j)) [
    | inl t ↦ inl ((eq_iff k j).0 t, ground (arith, lookup-insert k j v m))
    | inr f ↦ inr (ground (arith, eq_iff k j), ground (arith, lookup-insert k j v m))
  ]

  lookup-delete_cases :
      (k j : Text) (e : V) (m : Dict V)
      → lookup j (delete k m) ≡ some e
      → (k ≢ j) × (lookup j m ≡ some e)
  lookup-delete_cases k j e m h =
      (ground (arith, eq_iff k j, lookup-delete k j m), ground (arith, lookup-delete k j m))

  lookup-delete_where_cases :
      (p : Text → V → Bool) (j : Text) (e : V) (m : Dict V)
      → IsMap m
      → lookup j (delete_where p m) ≡ some e
      → (p j e ≡ false) × (lookup j m ≡ some e)
  lookup-delete_where_cases p j e m u h = elim (Option-cases (lookup j m)) [
    | inl n ↦ absurd (ground (arith, lookup-delete_where p j m u))
    | inr (v, s) ↦ elim (Bool-cases (p j v)) [
      | inl t ↦ absurd (ground (arith, lookup-delete_where p j m u))
      | inr f ↦
          let same : v ≡ e = ground (arith, lookup-delete_where p j m u) in
          (subst (λ x. p j x ≡ false) same f, s ∙ ap some same)
    ]
  ]

  lookup-map_values_cases :
      (f : V → V) (j : Text) (e : V) (m : Dict V)
      → lookup j (map_values f m) ≡ some e
      → (v : V) × (lookup j m ≡ some v) × (f v ≡ e)
  lookup-map_values_cases f j e m h = elim (Option-cases (lookup j m)) [
    | inl n ↦ absurd (ground (arith, lookup-map_values f j m))
    | inr (v, s) ↦ (v, s, ground (arith, lookup-map_values f j m))
  ]

  -- Every entry that a lookup shows satisfies `P`.
  abbrev pub Holds {κ} : (Text → V → Type κ) → Dict V → Type (ℓ ⊔ κ)
  Holds P m = (k : Text) (v : V) → lookup k m ≡ some v → P k v

  -- Two entries that `R` relates stand at one key.
  abbrev pub Unique {κ} : (V → V → Type κ) → Dict V → Type (ℓ ⊔ κ)
  Unique R m = (j k : Text) (a b : V) → lookup j m ≡ some a → lookup k m ≡ some b → R a b → j ≡ k

module _ {ℓ κ} {V : Type ℓ} (P : Text → V → Type κ) where
  pub Holds-empty : Holds P []
  unfolding lookup
  Holds-empty k v h = cc

  pub Holds-insert : (k : Text) (v : V) (m : Dict V) → P k v → Holds P m → Holds P (insert k v m)
  Holds-insert k v m p i j e h = elim (lookup-insert_cases k j v e m h) [
    | inl (a, b) ↦ subst (λ x. P x e) a (subst (P k) b p)
    | inr (n, l) ↦ i j e l
  ]

  pub Holds-delete : (k : Text) (m : Dict V) → Holds P m → Holds P (delete k m)
  Holds-delete k m i j e h = i j e (lookup-delete_cases k j e m h).1

  pub Holds-delete_where :
      (p : Text → V → Bool) (m : Dict V) → IsMap m → Holds P m → Holds P (delete_where p m)
  Holds-delete_where p m u i j e h = i j e (lookup-delete_where_cases p j e m u h).1

  pub Holds-map_values :
      (f : V → V) (m : Dict V)
      → ((k : Text) (v : V) → P k v → P k (f v))
      → Holds P m
      → Holds P (map_values f m)
  Holds-map_values f m keep i j e h =
      let (v, l, s) = lookup-map_values_cases f j e m h in subst (P j) s (keep j v (i j v l))

module _ {ℓ κ} {V : Type ℓ} (R : V → V → Type κ) where
  pub Unique-empty : Unique R []
  unfolding lookup
  Unique-empty j k a b h = cc

  pub Unique-delete : (k : Text) (m : Dict V) → Unique R m → Unique R (delete k m)
  Unique-delete k m i j j' a b h h' =
      i j j' a b (lookup-delete_cases k j a m h).1 (lookup-delete_cases k j' b m h').1

  pub Unique-delete_where :
      (p : Text → V → Bool) (m : Dict V) → IsMap m → Unique R m → Unique R (delete_where p m)
  Unique-delete_where p m u i j j' a b h h' =
      i j j' a b (lookup-delete_where_cases p j a m u h).1
        (lookup-delete_where_cases p j' b m u h').1

  -- A new or changed entry must be related to none at another key.
  pub Unique-insert :
      (k : Text) (v : V) (m : Dict V)
      → ((a b : V) → R a b → R b a)
      → ((j : Text) (b : V) → k ≢ j → lookup j m ≡ some b → ¬ (R v b))
      → Unique R m
      → Unique R (insert k v m)
  Unique-insert k v m symm new i j j' a b h h' r = elim (lookup-insert_cases k j v a m h) [
    | inl (e, s) ↦ elim (lookup-insert_cases k j' v b m h') [
      | inl (e', s') ↦ sym e ∙ e'
      | inr (n', l') ↦ absurd (new j' b n' l' (subst (λ x. R x b) (sym s) r))
    ]
    | inr (n, l) ↦ elim (lookup-insert_cases k j' v b m h') [
      | inl (e', s') ↦ absurd (new j a n l (subst (λ x. R x a) (sym s') (symm a b r)))
      | inr (n', l') ↦ i j j' a b l l' r
    ]
  ]
