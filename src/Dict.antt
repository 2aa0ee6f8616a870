-- ===== src/Dict.antt =====
-- Go's `map[string]V`, as the repositories and stores use it: the entries in a list whose order
-- stands for the iteration order of `range`, which Go leaves open. The theorems are about every
-- list, so about every order. A `range` loop of the program is one of the folds below.
pub mod Lookup
pub mod Keys
pub mod Every
pub mod Found
pub mod Holds
pub mod Best
pub mod Count
use domus.Prelude.{
  Text, str_eq, Bool, true, false, ◌≡◌, Option, none, some, List, [], ◌∷◌, if◌then◌else◌,
}

abbrev pub Dict {ℓ} : Type ℓ → Type ℓ
Dict V = List (Text × V)

module _ {ℓ} {V : Type ℓ} where
  abbrev pub improve : (V → V → Bool) → Option (Text × V) → Text × V → Option (Text × V)
  improve better none (j, v) = some (j, v)
  improve better (some (k, w)) (j, v) = if better v w then some (j, v) else some (k, w)

  -- `v, ok := m[k]`
  unfoldable pub lookup : Text → Dict V → Option V
  lookup k [] = none
  lookup k ((j, v) ∷ m) = if str_eq j k then some v else lookup k m

  -- `m[k] = v`
  unfoldable pub insert : Text → V → Dict V → Dict V
  insert key value ((old, w) ∷ rest) =
      if str_eq old key then (old, value) ∷ rest else (old, w) ∷ insert key value rest
  insert key value [] = (key, value) ∷ []

  -- `for k, v := range m { if p(k, v) { delete(m, k) } }`
  unfoldable pub delete_where : (Text → V → Bool) → Dict V → Dict V
  delete_where p [] = []
  delete_where p ((j, v) ∷ m) = let rest = delete_where p m in if p j v then rest else (j, v) ∷ rest

  -- `delete(m, k)`
  unfoldable pub delete : Text → Dict V → Dict V
  delete k [] = []
  delete k ((j, v) ∷ m) = let rest = delete k m in if str_eq j k then rest else (j, v) ∷ rest

  -- `for k, v := range m { if p(k, v) { out = append(out, *v) } }`
  unfoldable pub values_where : (Text → V → Bool) → Dict V → List V
  values_where p [] = []
  values_where p ((j, v) ∷ m) = let rest = values_where p m in if p j v then v ∷ rest else rest

  -- `for k, v := range m { if p(k, v) { return ... } }`
  unfoldable pub find : (Text → V → Bool) → Dict V → Option (Text × V)
  find p [] = none
  find p ((j, v) ∷ m) = if p j v then some (j, v) else find p m

  -- The loop that keeps the best entry seen so far among those that pass a test:
  -- `if p(k, v) && (found == nil || better(v, found)) { found = v }`
  unfoldable pub best_from :
      (Text → V → Bool) → (V → V → Bool) → Option (Text × V) → Dict V → Option (Text × V)
  best_from p better found [] = found
  best_from p better found ((j, v) ∷ m) =
      best_from p better (if p j v then improve better found (j, v) else found) m

  -- `for k, v := range m { *v = f(*v) }`
  unfoldable pub map_values : (V → V) → Dict V → Dict V
  map_values f [] = []
  map_values f ((j, v) ∷ m) = (j, f v) ∷ map_values f m

  -- `for k, v := range m { if p(*v) { *v = f(*v) } }`
  abbrev pub update_where : (V → Bool) → (V → V) → Dict V → Dict V
  update_where p f m = map_values (λ v. if p v then f v else v) m

  -- A Go map has one entry for a key.
  abbrev pub IsMap : Dict V → Type ℓ
  IsMap [] = Unit
  IsMap ((j, v) ∷ m) = (lookup j m ≡ none) × IsMap m

  -- Every entry satisfies `P`.
  abbrev pub Every {κ} : (Text → V → Type κ) → Dict V → Type κ
  Every P [] = Unit
  Every P ((j, v) ∷ m) = P j v × Every P m

  -- What a lookup shows after the entries that satisfy a test are gone.
  abbrev pub unless : (V → Bool) → Option V → Option V
  unless p none = none
  unless p (some v) = if p v then none else some v
