-- ===== src/Ws/Hub/Invariant.antt =====
-- What the hub's subscription maps keep (internal/ws/hub.go): a connection stands in the map of a
-- directory only while it is subscribed to that directory.
use domus.Prelude.{
  Text, str_eq, str_eq_refl, eq_iff, Bool, true, false, ◌&&◌, &&-eq_true, ◌≡◌, ◌≢◌, refl, sym, ◌∙◌,
  ap, Option-cases, Bool-cases, inl, inr, none, some, [], ◌∷◌, arith,
}
use domus.Dict.{Dict, lookup, insert, delete}
use domus.Dict.Lookup.{lookup-insert, lookup-delete}
use domus.Ws.Hub.{
  Conn, Hub, new_hub, register, subscribe, unsubscribe, unregister, remove_dir_subs, delete_in,
  directory_subscription_key,
}
use domus.Ws.Hub.Nested.{lookup_in, lookup_in-store_in, lookup_in-delete_in}

-- The connection `i` exists and is subscribed to a directory with that key.
abbrev pub Subscribed : Text → Text → Dict Conn → Type 0
Subscribed k i objects =
    (c : Conn) × (path : Text) × (lookup i objects ≡ some c)
    × (k ≡ directory_subscription_key c.user_id path)
    × (lookup path c.subs ≡ some true)

-- The map of the directory with a key holds a connection under its id.
abbrev pub IsWf : Hub → Type 0
IsWf h = (k i j : Text) → lookup_in k i h.dir_subs ≡ some j → (i ≡ j) × Subscribed k i h.objects

new_hub-IsWf : IsWf new_hub
unfolding new_hub lookup
new_hub-IsWf k i j h = absurd (ground (arith, h))

register-IsWf :
    (id user role : Text) (h : Hub)
    → lookup id h.objects ≡ none
    → IsWf h
    → IsWf (register id user role h)
unfolding register
register-IsWf id user role h fresh w k i j l =
    let (e, (c, path, o, s, t)) = w k i j l in
    (
      e,
      (
        c,
        path,
        ground (
          arith,
          lookup-insert id i (record { user_id = user; role = role; subs = [] }) h.objects,
          eq_iff id i,
          o,
          fresh,
        ),
        s,
        t,
      ),
    )

-- A connection's state is replaced by one of the same user that keeps the subscriptions with the
-- key.
replaced :
    (id k i : Text) (c c' : Conn) (objects : Dict Conn)
    → lookup id objects ≡ some c
    → c'.user_id ≡ c.user_id
    → ((p : Text)
        → k ≡ directory_subscription_key c.user_id p
        → lookup p c.subs ≡ some true
        → id ≡ i
        → lookup p c'.subs ≡ some true)
    → Subscribed k i objects
    → Subscribed k i (insert id c' objects)
replaced id k i c c' objects o same keep (c0, p, o0, s, t) = elim (Bool-cases (str_eq id i)) [
  | inr f ↦ (c0, p, ground (arith, lookup-insert id i c' objects, f, o0), s, t)
  | inl e ↦
      let at = (eq_iff id i).0 e in
      let one : c0 ≡ c = ground (arith, o, o0, at) in
      let key = s ∙ ap (λ (x : Conn). directory_subscription_key x.user_id p) one in
      (
        c',
        p,
        ground (arith, lookup-insert id i c' objects, e),
        key ∙ ap (λ x. directory_subscription_key x p) (sym same),
        keep p key (ap (λ (x : Conn). lookup p x.subs) (sym one) ∙ t) at,
      )
]

subscribe-IsWf : (path id : Text) (h : Hub) → IsWf h → IsWf (subscribe path id h)
unfolding subscribe
subscribe-IsWf path id h w k i j = elim (Option-cases (lookup id h.objects)) [
  | inl n ↦ rw (n, subscribe) (w k i j)
  | inr (c, o) ↦
      let c' : Conn = record c { subs = insert path true c.subs } in
      let key = directory_subscription_key c.user_id path in
      let new = lookup-insert id i c' h.objects in
      let shown = lookup_in-store_in k i key id h.dir_subs in
      rw (o, subscribe)
        (λ l. elim (Bool-cases (str_eq key k && str_eq id i)) [
          | inl t ↦
              let (a, b) = &&-eq_true (str_eq key k) (str_eq id i) t in
              (
                ground (arith, shown, t, l, (eq_iff id i).0 b),
                (
                  c',
                  path,
                  ground (arith, new, b),
                  sym ((eq_iff key k).0 a),
                  ground (arith, lookup-insert path path true c.subs, str_eq_refl path),
                ),
              )
          | inr f ↦
              let (e, s) = w k i j (ground (arith, shown, f, l)) in
              (
                e,
                replaced id k i c c' h.objects o refl
                    (λ p g t at. ground (arith, lookup-insert path p true c.subs, t)) s,
              )
        ])
]

-- A subscription with the key that was not removed is to another directory.
still_subscribed :
    (k path id i p : Text) (c : Conn)
    → k ≡ directory_subscription_key c.user_id p
    → (str_eq (directory_subscription_key c.user_id path) k && str_eq id i) ≡ false
    → id ≡ i
    → lookup p c.subs ≡ some true
    → lookup p (delete path c.subs) ≡ some true
still_subscribed k path id i p c g f at t = elim (Bool-cases (str_eq path p)) [
  | inr x ↦ ground (arith, lookup-delete path p c.subs, x, t)
  | inl x ↦
      let here = ap (directory_subscription_key c.user_id) ((eq_iff path p).0 x) ∙ sym g in
      absurd (ground (arith, f, (eq_iff _ _).1 here, (eq_iff id i).1 at))
]

unsubscribe-IsWf : (path id : Text) (h : Hub) → IsWf h → IsWf (unsubscribe path id h)
unfolding unsubscribe
unsubscribe-IsWf path id h w k i j = elim (Option-cases (lookup id h.objects)) [
  | inl n ↦ rw (n, unsubscribe) (w k i j)
  | inr (c, o) ↦
      let c' : Conn = record c { subs = delete path c.subs } in
      let key = directory_subscription_key c.user_id path in
      let shown = lookup_in-delete_in k i key id h.dir_subs in
      rw (o, unsubscribe)
        (λ l. elim (Bool-cases (str_eq key k && str_eq id i)) [
          | inl t ↦ absurd (ground (arith, shown, t, l))
          | inr f ↦
              let (e, s) = w k i j (ground (arith, shown, f, l)) in
              (
                e,
                replaced id k i c c' h.objects o refl
                    (λ p g t at. still_subscribed k path id i p c g f at t) s,
              )
        ])
]

lookup_later :
    (q p : Text) (b : Bool) (subs : Dict Bool)
    → str_eq q p ≡ false
    → lookup p ((q, b) ∷ subs) ≡ lookup p subs
unfolding lookup
lookup_later q p b subs f = ground (arith, f)

-- What the loop of `unregister` leaves, and that it removes each path.
remove_dir_subs-shows :
    (user id k i j : Text) (subs : Dict Bool) (m : Dict (Dict Text))
    → lookup_in k i (remove_dir_subs user id subs m) ≡ some j
    → (lookup_in k i m ≡ some j)
      × ((p : Text) → lookup p subs ≡ some true → k ≡ directory_subscription_key user p → id ≢ i)
unfolding remove_dir_subs
remove_dir_subs-shows user id k i j [] m h =
    (h, λ p l e. absurd (unfold lookup in ground (arith, l)))
remove_dir_subs-shows user id k i j ((q, b) ∷ subs) m h =
    let key = directory_subscription_key user q in
    let (l, rest) = remove_dir_subs-shows user id k i j subs (delete_in key id m) h in
    let shown = lookup_in-delete_in k i key id m in
    (
      ground (arith, shown, l),
      λ p s e at. elim (Bool-cases (str_eq q p)) [
        | inr x ↦ rest p (sym (lookup_later q p b subs x) ∙ s) e at
        | inl x ↦
            let here = ap (directory_subscription_key user) ((eq_iff q p).0 x) ∙ sym e in
            absurd (ground (arith, shown, l, (eq_iff _ _).1 here, (eq_iff id i).1 at))
      ],
    )

pub unregister-IsWf : (id : Text) (h : Hub) → IsWf h → IsWf (unregister id h)
unfolding unregister
unregister-IsWf id h w k i j = elim (Option-cases (lookup id h.objects)) [
  | inl n ↦ rw (n, unregister) (w k i j)
  | inr (c, o) ↦
      rw (o, unregister)
        (λ l.
          let (l', gone) = remove_dir_subs-shows c.user_id id k i j c.subs h.dir_subs l in
          let (e, s) = w k i j l' in
          (
            e,
            replaced id k i c (record c { subs = [] }) h.objects o refl
                (λ p g t at. absurd (gone p t g at)) s,
          ))
]

-- A call on the hub; `registers` is of a new connection.
pub data Call : Type 0 where
  registers : Text → Text → Text → Call
  subscribes unsubscribes : Text → Text → Call
  unregisters : Text → Call

unfoldable pub step : Call → Hub → Hub
step (registers id user role) h = register id user role h
step (subscribes path id) h = subscribe path id h
step (unsubscribes path id) h = unsubscribe path id h
step (unregisters id) h = unregister id h

-- A connection that registers is new.
abbrev pub IsFresh : Call → Hub → Type 0
IsFresh (registers id user role) h = lookup id h.objects ≡ none
IsFresh _ h = Unit

-- The states that the hub can be in: calls one after the other, from the empty hub.
pub data Reachable : Hub → Type 0 where
  started : Reachable new_hub
  stepped : (c : Call) (h : Hub) → IsFresh c h → Reachable h → Reachable (step c h)

step-IsWf : (c : Call) (h : Hub) → IsFresh c h → IsWf h → IsWf (step c h)
unfolding step
step-IsWf (registers id user role) h f w = register-IsWf id user role h f w
step-IsWf (subscribes path id) h f w = subscribe-IsWf path id h w
step-IsWf (unsubscribes path id) h f w = unsubscribe-IsWf path id h w
step-IsWf (unregisters id) h f w = unregister-IsWf id h w

-- In every state that the hub can reach, a connection stands in the map of a directory only under
-- its own id, and only while it exists and is subscribed to a directory with that key.
pub Reachable-IsWf : (h : Hub) → Reachable h → IsWf h
Reachable-IsWf h started = new_hub-IsWf
Reachable-IsWf h (stepped c g f r) = step-IsWf c g f (Reachable-IsWf g r)
