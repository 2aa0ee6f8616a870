-- ===== src/Ws/Router.antt =====
-- `Router` of internal/ws/router.go. A handler is a function of the connection, the request id and
-- the data.
use domus.Prelude.{
  Text, codes, str_eq, Bool, true, false, not, ◌&&◌, ◌≡◌, none, some, arith, if◌then◌else◌,
}
use domus.Dict.{Dict, lookup, insert}
use domus.Dict.Lookup.{lookup-insert}
use domus.Ws.Hub.{Conn}

-- The router's own errors, and those of handlers.
pub data ActionError : Type 0 where
  unknown_action forbidden : ActionError
  failed : Text → ActionError

pub data Reply (A : Type 0) : Type 0 where
  answered : A → Reply A
  refused : ActionError → Reply A

pub record ActionEntry (A : Type 0) : Type 0 where
  pub handler : Conn → Text → Text → Reply A
  pub root_only : Bool

abbrev pub Router : Type 0 → Type 0
Router A = Dict (ActionEntry A)

unfoldable handle : {A : Type 0} → Text → (Conn → Text → Text → Reply A) → Router A → Router A
handle action handler r = insert action (record { handler = handler; root_only = false }) r

unfoldable handle_root : {A : Type 0} → Text → (Conn → Text → Text → Reply A) → Router A → Router A
handle_root action handler r = insert action (record { handler = handler; root_only = true }) r

unfoldable dispatch : {A : Type 0} → Conn → Text → Text → Text → Router A → Reply A
dispatch conn req_id action payload r = elim (lookup action r) [
  | none ↦ refused unknown_action
  | some entry ↦
      if entry.root_only && not (str_eq conn.role (codes "root"))
      then refused forbidden
      else entry.handler conn req_id payload
]

unfoldable has_action : {A : Type 0} → Text → Router A → Bool
has_action action r = elim (lookup action r) [ none ↦ false | some _ ↦ true ]

-- After an action is registered for the root role, it is answered by its handler to connections
-- of that role and is refused as forbidden to all others, and every other action is answered as
-- before.
dispatch-handle_root :
    {A : Type 0} (conn : Conn) (req_id action other payload : Text)
    (handler : Conn → Text → Text → Reply A) (r : Router A)
    → dispatch conn req_id other payload (handle_root action handler r) ≡ (
        if str_eq action other
        then (if str_eq conn.role (codes "root")
            then handler conn req_id payload
            else refused forbidden)
        else dispatch conn req_id other payload r)
unfolding dispatch handle_root
dispatch-handle_root conn req_id action other payload handler r =
    ground (arith, lookup-insert action other (record { handler = handler; root_only = true }) r)
