-- ===== src/Dict/Keys.antt =====
-- Each operation keeps one entry for a key.
use domus.Prelude.{Text, eq_iff, Bool, refl, [], ◌∷◌, arith}
use domus.Dict.{Dict, lookup, insert, delete, delete_where, map_values, IsMap}
use domus.Dict.Lookup.{lookup-insert, lookup-delete, lookup-delete_where-none, lookup-map_values}

module _ {ℓ} {V : Type ℓ} where
  pub insert-IsMap : (k : Text) (v : V) (m : Dict V) → IsMap m → IsMap (insert k v m)
  unfolding lookup insert
  insert-IsMap k v [] u = (refl, tt)
  insert-IsMap k v ((j, w) ∷ m) u =
      ground (arith, eq_iff j k, eq_iff k j, lookup-insert k j v m, insert-IsMap k v m u.1)

  pub delete-IsMap : (k : Text) (m : Dict V) → IsMap m → IsMap (delete k m)
  unfolding lookup delete
  delete-IsMap k [] u = tt
  delete-IsMap k ((j, w) ∷ m) u =
      ground (arith, eq_iff j k, eq_iff k j, lookup-delete k j m, delete-IsMap k m u.1)

  pub delete_where-IsMap : (p : Text → V → Bool) (m : Dict V) → IsMap m → IsMap (delete_where p m)
  unfolding lookup delete_where
  delete_where-IsMap p [] u = tt
  delete_where-IsMap p ((j, w) ∷ m) u =
      ground (arith, lookup-delete_where-none p j m, delete_where-IsMap p m u.1)

  pub map_values-IsMap : (f : V → V) (m : Dict V) → IsMap m → IsMap (map_values f m)
  unfolding lookup map_values
  map_values-IsMap f [] u = tt
  map_values-IsMap f ((j, w) ∷ m) u =
      ground (arith, lookup-map_values f j m, map_values-IsMap f m u.1)
