-- ===== src/Model/Session.antt =====
-- The session repository: `Session` and `DBSession` of internal/model/session.go and
-- `memSessionRepo` of internal/model/mem_repos.go. The random bytes of package crypto/rand are an
-- argument, and so is the clock (nanoseconds).
pub mod Hex
pub mod Laws
mod Examples
use domus.Prelude.{
  ℕ, suc, ◌+◌, ◌*◌, ◌^◌, ltb, Text, str_eq, Bool, true, false, not, ◌&&◌, Option, none, some, List,
  [], ◌∷◌, if◌then◌else◌,
}
use Prim.Native.Nat.{◌/◌, ◌%◌}
use domus.Dict.{Dict, lookup, insert, delete, delete_where}
use domus.Model.Result.{Result, ok, err}

pub record Session : Type 0 where
  pub user_id : Text
  pub username : Text
  pub role : Text
  pub created_at : ℕ
  pub kek : Text

pub record DbSession : Type 0 where
  pub id : Text
  pub user_id : Text
  pub username : Text
  pub role : Text
  pub permissions : ℕ
  pub created_at : ℕ
  pub expires_at : ℕ

pub record SessionEntry : Type 0 where
  pub session : DbSession
  pub expires_at : ℕ

-- `populate_kek` is the hook that loads a key into a session that is returned.
pub record SessionRepo : Type 0 where
  pub entries : Dict SessionEntry
  pub populate_kek : Option (Session → Session)

-- 7 * 24 * time.Hour
unfoldable pub session_lifetime : ℕ
session_lifetime = 7 * 24 * 3600 * 10 ^ 9

unfoldable pub hex_digit : ℕ → ℕ
hex_digit n = if ltb n 10 then b'0' + n else 87 + n

-- hex.EncodeToString
unfoldable pub hex_encode : List ℕ → Text
unfolding hex_digit
hex_encode [] = []
hex_encode (b ∷ bs) = hex_digit (b / 16) ∷ hex_digit (b % 16) ∷ hex_encode bs

abbrev pub new_entry : Text → Text → Text → Text → ℕ → SessionEntry
new_entry id user_id username role now = record {
  session = record {
    id = id;
    user_id = user_id;
    username = username;
    role = role;
    permissions = 0;
    created_at = now;
    expires_at = now + session_lifetime;
  };
  expires_at = now + session_lifetime;
}

-- `random` is what `rand.Read` fills the 32 bytes with, or its error.
unfoldable pub create :
    Text → Text → Text → Result (List ℕ) → ℕ → SessionRepo → Result (Text × SessionRepo)
create user_id username role random now r = elim random [
  | err e ↦ err e
  | ok b ↦
      let id = hex_encode b in
      ok (id, record r { entries = insert id (new_entry id user_id username role now) r.entries })
]

abbrev pub populate : Option (Session → Session) → Session → Session
populate none s = s
populate (some hook) s = hook s

abbrev pub session_of : SessionEntry → Session
session_of e = record {
  user_id = e.session.user_id;
  username = e.session.username;
  role = e.session.role;
  created_at = e.session.created_at;
  kek = [];
}

-- `nil` is `none`
unfoldable pub get : Text → ℕ → SessionRepo → Option Session
get id now r = elim (lookup id r.entries) [
  | none ↦ none
  | some e ↦ if ltb e.expires_at now then none else some (populate r.populate_kek (session_of e))
]

unfoldable pub remove : Text → SessionRepo → SessionRepo
remove id r = record r { entries = delete id r.entries }

unfoldable pub delete_by_user_id : Text → SessionRepo → SessionRepo
delete_by_user_id user_id r = record r {
  entries = delete_where (λ _ e. str_eq e.session.user_id user_id) r.entries;
}

unfoldable pub delete_by_user_id_except : Text → Text → SessionRepo → SessionRepo
delete_by_user_id_except user_id except_session_id r = record r {
  entries =
      delete_where (λ id e. str_eq e.session.user_id user_id && not (str_eq id except_session_id))
        r.entries;
}

unfoldable pub clean_expired : ℕ → SessionRepo → SessionRepo
clean_expired now r = record r { entries = delete_where (λ _ e. ltb e.expires_at now) r.entries }

unfoldable set_populate_kek : Option (Session → Session) → SessionRepo → SessionRepo
set_populate_kek hook r = record r { populate_kek = hook }
