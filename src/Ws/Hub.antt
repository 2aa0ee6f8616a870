-- ===== src/Ws/Hub.antt =====
-- The hub of internal/ws/hub.go and the subscriptions of internal/ws/conn.go. A `*Conn` is the
-- connection's id, which package uuid makes unique: `objects` is the heap of connections. Sockets,
-- send channels and JSON are not modelled: a notification is the set of connections that `enqueue`
-- is called for. `OnConnClose` is a callback without influence on the hub.
-- Each method is one step, though `Subscribe` and `unregister` release the connection's lock before
-- they change the hub's maps: orders of steps within them are not modelled.
pub mod Nested
pub mod Invariant
pub mod Delivery
use domus.Prelude.{
  ℕ, trim_space, Text, codes, Bool, true, false, ◌||◌, ◌&&◌, Option, none, some, List, [], ◌∷◌,
  ◌++◌, if◌then◌else◌,
}
use domus.Dict.{Dict, lookup, insert, delete}

-- The fields that the hub and the router read. `subs` is a set: the paths that have a value.
pub record Conn : Type 0 where
  pub user_id : Text
  pub role : Text
  pub subs : Dict Bool

pub record Hub : Type 0 where
  pub objects : Dict Conn
  pub conns : Dict Text
  pub user_conns : Dict (Dict Text)
  pub dir_subs : Dict (Dict Text)

unfoldable pub new_hub : Hub
new_hub = record { objects = []; conns = []; user_conns = []; dir_subs = [] }

abbrev pub or_empty {ℓ} : {V : Type ℓ} → Option (Dict V) → Dict V
or_empty none = []
or_empty (some m) = m

-- `LoadOrStore` of an empty map, then `Store` into it.
unfoldable pub store_in : Text → Text → Dict (Dict Text) → Dict (Dict Text)
store_in key id m = insert key (insert id id (or_empty (lookup key m))) m

-- `Load` of a map, then `Delete` from it.
unfoldable pub delete_in : Text → Text → Dict (Dict Text) → Dict (Dict Text)
delete_in key id m = elim (lookup key m) [ none ↦ m | some inner ↦ insert key (delete id inner) m ]

unfoldable pub directory_subscription_key : Text → Text → Text
directory_subscription_key user_id namespace_path = trim_space user_id ++ (0 ∷ namespace_path)

-- `newConn` and `register`. `id` is fresh.
unfoldable pub register : Text → Text → Text → Hub → Hub
unfolding store_in
register id user_id role h = record {
  objects = insert id (record { user_id = user_id; role = role; subs = [] }) h.objects;
  conns = insert id id h.conns;
  user_conns = store_in user_id id h.user_conns;
  dir_subs = h.dir_subs;
}

-- `Subscribe` of a connection, with `addDirSub`.
unfoldable pub subscribe : Text → Text → Hub → Hub
unfolding store_in directory_subscription_key
subscribe path id h = elim (lookup id h.objects) [
  | none ↦ h
  | some c ↦ record h {
    objects = insert id (record c { subs = insert path true c.subs }) h.objects;
    dir_subs = store_in (directory_subscription_key c.user_id path) id h.dir_subs;
  }
]

-- `Unsubscribe` of a connection, with `removeDirSub`.
unfoldable pub unsubscribe : Text → Text → Hub → Hub
unfolding delete_in directory_subscription_key
unsubscribe path id h = elim (lookup id h.objects) [
  | none ↦ h
  | some c ↦ record h {
    objects = insert id (record c { subs = delete path c.subs }) h.objects;
    dir_subs = delete_in (directory_subscription_key c.user_id path) id h.dir_subs;
  }
]

-- The last loop of `unregister`, over the paths.
unfoldable pub remove_dir_subs : Text → Text → Dict Bool → Dict (Dict Text) → Dict (Dict Text)
unfolding delete_in directory_subscription_key
remove_dir_subs user_id id [] m = m
remove_dir_subs user_id id ((path, _) ∷ subs) m =
    remove_dir_subs user_id id subs (delete_in (directory_subscription_key user_id path) id m)

unfoldable pub unregister : Text → Hub → Hub
unfolding delete_in remove_dir_subs
unregister id h = elim (lookup id h.objects) [
  | none ↦ h
  | some c ↦ record {
    objects = insert id (record c { subs = [] }) h.objects;
    conns = delete id h.conns;
    user_conns = delete_in c.user_id id h.user_conns;
    dir_subs = remove_dir_subs c.user_id id c.subs h.dir_subs;
  }
]

-- The connections that `NotifyDirectory` calls `enqueue` for: `Range` goes once through each.
unfoldable pub notify_directory : Text → Text → Hub → Dict Text
unfolding directory_subscription_key
notify_directory user_id resolved_path h =
    or_empty (lookup (directory_subscription_key user_id resolved_path) h.dir_subs)

-- The connections that `SendToUser` calls `enqueue` for.
unfoldable send_to_user : Text → Hub → Dict Text
send_to_user user_id h = or_empty (lookup user_id h.user_conns)
