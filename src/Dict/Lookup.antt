-- ===== src/Dict/Lookup.antt =====
-- What a lookup shows after each operation on a map.
use domus.Prelude.{
  Text, str_eq, eq_iff, str_eq_refl, Bool, ◌≡◌, refl, none, some, [], ◌∷◌, arith, if◌then◌else◌,
}
use mathlib.Core.Option
use domus.Dict.{Dict, lookup, insert, delete, delete_where, map_values, IsMap, unless}

module _ {ℓ} {V : Type ℓ} where
  pub lookup-insert :
      (key asked : Text) (value : V) (rest : Dict V)
      → lookup asked (insert key value rest)
        ≡ (if str_eq key asked then some value else lookup asked rest)
  unfolding insert lookup
  lookup-insert key asked value ((old, _) ∷ rest) = ground (
    arith,
    lookup-insert key asked value rest,
    eq_iff key asked,
    eq_iff old key,
    eq_iff old asked,
  )
  lookup-insert key asked value [] = refl

  pub lookup-insert_self : (k : Text) (v : V) (m : Dict V) → lookup k (insert k v m) ≡ some v
  lookup-insert_self k v m = rw (lookup-insert k k v m) (rw (str_eq_refl k))

  pub lookup-delete :
      (k j : Text) (m : Dict V) → lookup j (delete k m) ≡ (if str_eq k j then none else lookup j m)
  unfolding lookup delete
  lookup-delete k j [] = ground arith
  lookup-delete k j ((i, w) ∷ m) =
      ground (arith, eq_iff k j, eq_iff i k, eq_iff i j, lookup-delete k j m)

  pub lookup-map_values :
      (f : V → V) (k : Text) (m : Dict V) → lookup k (map_values f m) ≡ Option.map f (lookup k m)
  unfolding lookup map_values
  lookup-map_values f k [] = refl
  lookup-map_values f k ((j, v) ∷ m) = ground (arith, lookup-map_values f k m)

  -- The key that was deleted before stays absent.
  pub lookup-delete_where-none :
      (p : Text → V → Bool) (k : Text) (m : Dict V)
      → lookup k m ≡ none
      → lookup k (delete_where p m) ≡ none
  unfolding lookup delete_where
  lookup-delete_where-none p k [] h = refl
  lookup-delete_where-none p k ((j, v) ∷ m) h = ground (arith, lookup-delete_where-none p k m)

  pub lookup-delete_where :
      (p : Text → V → Bool) (k : Text) (m : Dict V)
      → IsMap m
      → lookup k (delete_where p m) ≡ unless (p k) (lookup k m)
  unfolding lookup delete_where
  lookup-delete_where p k [] u = refl
  lookup-delete_where p k ((j, v) ∷ m) u =
      ground (arith, eq_iff j k, lookup-delete_where p k m u.1, lookup-delete_where-none p k m)
