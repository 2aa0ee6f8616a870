-- ===== src/Ws/Hub/Delivery.antt =====
-- Whom the hub's notifications reach (internal/ws/hub.go).
use domus.Prelude.{
  ℕ, ◌<◌, ◌∷◌, ◌++◌, false, refl, trim_space, trim_right, trim_left_from, space_width, is_space,
  Text, str_eq, str_eq_refl, true, ◌≡◌, ◌≢◌, sym, ◌∙◌, ap, Option-cases, inl, inr, none, some, [],
  All, arith, if◌then◌else◌,
}
use domus.Dict.{lookup}
use domus.Dict.Lookup.{lookup-insert}
use domus.Dict.Holds.{Holds}
use domus.Model.Keys.{separated}
use domus.Ws.Hub.{Conn, Hub, directory_subscription_key, subscribe, unregister, notify_directory}
use domus.Ws.Hub.Nested.{lookup_in, lookup_in-store_in}
use domus.Ws.Hub.Invariant.{Reachable, Reachable-IsWf, unregister-IsWf, IsWf}

-- The id holds only visible ASCII characters, as those of package uuid do.
abbrev pub IsVisible : Text → Type 0
IsVisible u = All (λ c. (32 < c) × (c < 128)) u

width_of_visible : (c : ℕ) (s : Text) → 32 < c → c < 128 → space_width (c ∷ s) ≡ 0
unfolding space_width
width_of_visible c [] h k = ground arith
width_of_visible c (x ∷ []) h k = ground arith
width_of_visible c (x ∷ y ∷ s) h k = ground arith

no_space : (c : ℕ) (s : Text) → 32 < c → c < 128 → is_space (c ∷ s) ≡ false
unfolding is_space
no_space c [] h k = ground arith
no_space c (x ∷ []) h k = ground arith
no_space c (x ∷ y ∷ []) h k = ground arith
no_space c (x ∷ y ∷ z ∷ s) h k = refl

trim_right_visible : (u : Text) → IsVisible u → trim_right u ≡ u
unfolding trim_right
trim_right_visible [] h = refl
trim_right_visible (c ∷ s) h = rw (trim_right_visible s h.1, no_space c s h.0.0 h.0.1) refl

trim_left_visible : (u : Text) → IsVisible u → trim_left_from 0 u ≡ u
unfolding trim_left_from
trim_left_visible [] h = refl
trim_left_visible (c ∷ s) h = rw (width_of_visible c s h.0.0 h.0.1, trim_left_from) refl

trim_space_visible : (u : Text) → IsVisible u → trim_space u ≡ u
unfolding trim_space
trim_space_visible u h = ap trim_right (trim_left_visible u h) ∙ trim_right_visible u h

NoNul-visible : (u : Text) → IsVisible u → All (λ c. c ≢ 0) u
NoNul-visible [] h = tt
NoNul-visible (c ∷ s) h = (ground (arith, h.0.0), NoNul-visible s h.1)

key-injective :
    (u v p q : Text)
    → IsVisible u
    → IsVisible v
    → directory_subscription_key u p ≡ directory_subscription_key v q
    → (u ≡ v) × (p ≡ q)
unfolding directory_subscription_key
key-injective u v p q a b e = separated 0 u v p q (NoNul-visible u a) (NoNul-visible v b) (
    ap (λ x. x ++ (0 ∷ p)) (sym (trim_space_visible u a))
    ∙ (e ∙ ap (λ x. x ++ (0 ∷ q)) (trim_space_visible v b)))

-- In every state that the hub can reach, a notification for a user's directory, where the ids of
-- that user and of the users of all connections hold only visible ASCII characters, is sent only
-- to connections of that user that are subscribed to that directory.
pub notify_directory_sound :
    (user path i j : Text) (h : Hub)
    → Reachable h
    → IsVisible user
    → Holds (λ _ c. IsVisible c.user_id) h.objects
    → lookup i (notify_directory user path h) ≡ some j
    → (i ≡ j)
      × ((c : Conn) × (lookup i h.objects ≡ some c)
          × (c.user_id ≡ user)
          × (lookup path c.subs ≡ some true))
unfolding notify_directory
notify_directory_sound user path i j h r a b l =
    let (e, (c, p, o, k, t)) = Reachable-IsWf h r (directory_subscription_key user path) i j l in
    let (same, here) = key-injective user c.user_id path p a (b i c o) k in
    (e, (c, o, sym same, ap (λ x. lookup x c.subs) here ∙ t))

-- A connection that subscribes is sent what is sent for the directory, and whoever was before.
notify_directory-subscribe :
    (path id i : Text) (h : Hub) (c : Conn)
    → lookup id h.objects ≡ some c
    → lookup i (notify_directory c.user_id path (subscribe path id h))
      ≡ (if str_eq id i then some id else lookup i (notify_directory c.user_id path h))
unfolding notify_directory subscribe
notify_directory-subscribe path id i h c o =
    let key = directory_subscription_key c.user_id path in
    rw (o, subscribe) (ground (arith, lookup_in-store_in key i key id h.dir_subs, str_eq_refl key))

-- A connection that was unregistered has no subscriptions.
unregistered :
    (id : Text) (h : Hub) (c : Conn) → lookup id (unregister id h).objects ≡ some c → c.subs ≡ []
unfolding unregister
unregistered id h c = elim (Option-cases (lookup id h.objects)) [
  | inl n ↦ rw (n, unregister) (λ s. absurd (ground (arith, n, s)))
  | inr (d, o) ↦
      rw (o, unregister)
        (λ s.
          let shown = lookup-insert id id (record d { subs = [] }) h.objects in
          let same : record d { subs = [] } ≡ c = ground (arith, shown, s, str_eq_refl id) in
          sym (ap (λ (x : Conn). x.subs) same))
]

not_subscribed :
    (k id j : Text) (h : Hub) → IsWf h → lookup_in k id (unregister id h).dir_subs ≢ some j
unfolding lookup
not_subscribed k id j h w s =
    let (e, (c, p, o, key, t)) = unregister-IsWf id h w k id j s in
    absurd (ground (arith, sym (ap (lookup p) (unregistered id h c o)) ∙ t))

-- In every state that the hub can reach, a connection that is unregistered is sent no
-- notification for any user and directory.
notify_directory-unregister :
    (user path id : Text) (h : Hub)
    → Reachable h
    → lookup id (notify_directory user path (unregister id h)) ≡ none
unfolding notify_directory
notify_directory-unregister user path id h r =
    elim (Option-cases
      (lookup_in (directory_subscription_key user path) id (unregister id h).dir_subs)) [
        | inl n ↦ n
        | inr (j, s) ↦ absurd (not_subscribed _ id j h (Reachable-IsWf h r) s)
      ]
