-- ===== src/Ws/Examples.antt =====
-- The hub and the router (internal/ws) with two connections.
use domus.Prelude.{codes, str_eq, true, ◌≡◌, refl, none, some, [], ◌∷◌, arith}
use domus.Dict.{lookup, insert}
use domus.Dict.Holds.{Holds, Holds-empty, Holds-insert}
use domus.Ws.Hub.{Conn, Hub, new_hub, register, subscribe, notify_directory}
use domus.Ws.Hub.Invariant.{Reachable, started, stepped, registers, subscribes, step}
use domus.Ws.Hub.Delivery.{IsVisible, notify_directory_sound}

abbrev one : Hub
one = step (registers (codes "c1") (codes "ann") (codes "user")) new_hub

abbrev two : Hub
two = step (registers (codes "c2") (codes "bob") (codes "root")) one

abbrev hub : Hub
hub = step (subscribes (codes "/a/") (codes "c1")) two

one-IsFresh : lookup (codes "c1") new_hub.objects ≡ none
unfolding lookup new_hub
one-IsFresh = refl

two-IsFresh : lookup (codes "c2") one.objects ≡ none
unfolding lookup step register domus.Dict.insert new_hub str_eq
two-IsFresh = refl

two-Reachable : Reachable two
two-Reachable =
    stepped (registers (codes "c2") (codes "bob") (codes "root")) one two-IsFresh
      (stepped (registers (codes "c1") (codes "ann") (codes "user")) new_hub one-IsFresh started)

hub-Reachable : Reachable hub
hub-Reachable = stepped (subscribes (codes "/a/") (codes "c1")) two tt two-Reachable

abbrev ann : Conn
ann = record { user_id = codes "ann"; role = codes "user"; subs = (codes "/a/", true) ∷ [] }

abbrev bob : Conn
bob = record { user_id = codes "bob"; role = codes "root"; subs = [] }

ann-IsVisible : IsVisible (codes "ann")
ann-IsVisible =
    ((omega arith, omega arith), ((omega arith, omega arith), ((omega arith, omega arith), tt)))

bob-IsVisible : IsVisible (codes "bob")
bob-IsVisible =
    ((omega arith, omega arith), ((omega arith, omega arith), ((omega arith, omega arith), tt)))

hub_objects : hub.objects ≡ (codes "c1", ann) ∷ ((codes "c2", bob) ∷ [])
unfolding step subscribe lookup register domus.Dict.insert new_hub str_eq
hub_objects = refl

hub-IsVisible : Holds (λ _ c. IsVisible c.user_id) hub.objects
unfolding str_eq
hub-IsVisible = rw hub_objects all
  where
    all : Holds (λ _ c. IsVisible c.user_id) ((codes "c1", ann) ∷ ((codes "c2", bob) ∷ []))
    all =
        unfold insert in
        Holds-insert (λ _ c. IsVisible c.user_id) (codes "c2") bob ((codes "c1", ann) ∷ [])
          bob-IsVisible
          (Holds-insert (λ _ c. IsVisible c.user_id) (codes "c1") ann [] ann-IsVisible
            (Holds-empty (λ _ c. IsVisible c.user_id)))

ann_is_sent :
    lookup (codes "c1") (notify_directory (codes "ann") (codes "/a/") hub) ≡ some (codes "c1")
unfolding lookup notify_directory step subscribe register domus.Dict.insert new_hub str_eq
    domus.Prelude.trim_space domus.Prelude.trim_left_from domus.Prelude.trim_right
    domus.Prelude.space_width domus.Prelude.is_space
ann_is_sent = refl

notify_directory_sound_example :
    (codes "c1" ≡ codes "c1")
    × ((c : Conn) × (lookup (codes "c1") hub.objects ≡ some c)
        × (c.user_id ≡ codes "ann")
        × (lookup (codes "/a/") c.subs ≡ some true))
notify_directory_sound_example =
    notify_directory_sound (codes "ann") (codes "/a/") (codes "c1") (codes "c1") hub hub-Reachable
      ann-IsVisible hub-IsVisible ann_is_sent
