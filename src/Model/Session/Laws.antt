-- ===== src/Model/Session/Laws.antt =====
-- Which sessions `Get` returns, and until when.
use domus.Prelude.{
  ℕ, ◌+◌, ◌≤◌, ltb, Text, str_eq, Bool, false, not, ◌&&◌, ◌≡◌, none, some, List, [], arith,
  if◌then◌else◌,
}
use domus.Dict.{lookup, IsMap}
use domus.Dict.Lookup.{lookup-delete, lookup-insert_self, lookup-delete_where}
use domus.Model.Result.{Result, ok, err}
use domus.Model.Session.{
  remove, Session, SessionRepo, session_lifetime, hex_encode, new_entry, create, get,
  delete_by_user_id, delete_by_user_id_except, clean_expired,
}

-- A session that was created is returned for seven days, with the id, the name and the role of
-- its user and the time of its creation, and passed through the hook if there is one, and never
-- after.
pub session_get-create :
    (user_id username role : Text) (random : Result (List ℕ)) (now later : ℕ) (r : SessionRepo)
    {id : Text} {r' : SessionRepo}
    → create user_id username role random now r ≡ ok (id, r')
    → get id later r' ≡ (
        if ltb (now + 604800000000000) later
        then none
        else (let s : Session = record {
          user_id = user_id;
          username = username;
          role = role;
          created_at = now;
          kek = [];
        } in
            elim r.populate_kek [ none ↦ some s | some hook ↦ some (hook s) ]))
unfolding create get session_lifetime
session_get-create user_id username role (ok b) now later r h = ground (
  arith,
  lookup-insert_self (hex_encode b) (new_entry (hex_encode b) user_id username role now) r.entries,
)
session_get-create user_id username role (err e) now later r h = cc

-- Cleaning away what has expired, in a map with one entry for a key, is invisible to every `Get`
-- at that time or later.
get-clean_expired :
    (id : Text) (now later : ℕ) (r : SessionRepo)
    → IsMap r.entries
    → now ≤ later
    → get id later (clean_expired now r) ≡ get id later r
unfolding get clean_expired
get-clean_expired id now later r u h =
    ground (arith, lookup-delete_where (λ _ e. ltb e.expires_at now) id r.entries u)

-- The session belongs to the user.
abbrev pub owned_by : Text → Text → SessionRepo → Bool
owned_by user_id id r = elim (lookup id r.entries) [
  | none ↦ false
  | some e ↦ str_eq e.session.user_id user_id
]

-- Revoking a user's other sessions, in a map with one entry for a key, ends every session of that
-- user but the one kept, and leaves all others as they are.
get-delete_by_user_id_except :
    (user_id kept id : Text) (now : ℕ) (r : SessionRepo)
    → IsMap r.entries
    → get id now (delete_by_user_id_except user_id kept r)
      ≡ (if owned_by user_id id r && not (str_eq id kept) then none else get id now r)
unfolding get delete_by_user_id_except
get-delete_by_user_id_except user_id kept id now r u = ground (
  arith,
  lookup-delete_where (λ i e. str_eq e.session.user_id user_id && not (str_eq i kept)) id r.entries
      u,
)

-- Revoking all sessions of a user ends exactly those.
pub get-delete_by_user_id :
    (user_id id : Text) (now : ℕ) (r : SessionRepo)
    → IsMap r.entries
    → get id now (delete_by_user_id user_id r)
      ≡ (if owned_by user_id id r then none else get id now r)
unfolding get delete_by_user_id
get-delete_by_user_id user_id id now r u =
    ground (arith, lookup-delete_where (λ _ e. str_eq e.session.user_id user_id) id r.entries u)

-- `Delete` ends one session.
pub session_get-remove :
    (deleted id : Text) (now : ℕ) (r : SessionRepo)
    → get id now (remove deleted r) ≡ (if str_eq deleted id then none else get id now r)
unfolding get remove
session_get-remove deleted id now r = ground (arith, lookup-delete deleted id r.entries)
