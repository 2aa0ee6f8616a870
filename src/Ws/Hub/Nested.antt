-- ===== src/Ws/Hub/Nested.antt =====
-- Maps of maps, as the hub keeps them (internal/ws/hub.go): what is at a key of the map at a key.
use domus.Prelude.{
  Text, str_eq, eq_iff, ◌&&◌, ◌≡◌, Option, Option-cases, inl, inr, none, some, [], arith, refl,
  if◌then◌else◌,
}
use domus.Dict.{Dict, lookup, insert, delete}
use domus.Dict.Lookup.{lookup-insert, lookup-delete}
use domus.Ws.Hub.{or_empty, store_in, delete_in}

abbrev pub lookup_in : Text → Text → Dict (Dict Text) → Option Text
lookup_in key id m = lookup id (or_empty (lookup key m))

empty_shows : (i : Text) → lookup {V = Text} i [] ≡ none
unfolding lookup
empty_shows i = refl

pub lookup_in-store_in :
    (k i key id : Text) (m : Dict (Dict Text))
    → lookup_in k i (store_in key id m)
      ≡ (if str_eq key k && str_eq id i then some id else lookup_in k i m)
unfolding store_in
lookup_in-store_in k i key id m = ground (
  arith,
  lookup-insert key k (insert id id (or_empty (lookup key m))) m,
  lookup-insert id i id (or_empty (lookup key m)),
  eq_iff key k,
)

pub lookup_in-delete_in :
    (k i key id : Text) (m : Dict (Dict Text))
    → lookup_in k i (delete_in key id m)
      ≡ (if str_eq key k && str_eq id i then none else lookup_in k i m)
unfolding delete_in
lookup_in-delete_in k i key id m = elim (Option-cases (lookup key m)) [
  | inl n ↦ ground (arith, n, eq_iff key k, empty_shows i)
  | inr (inner, s) ↦
      ground
        (arith, s, lookup-insert key k (delete id inner) m, lookup-delete id i inner, eq_iff key k)
]
