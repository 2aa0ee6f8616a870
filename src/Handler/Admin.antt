-- ===== src/Handler/Admin.antt =====
-- Managing users: internal/handler/admin.go, admin_root_guard.go, user_role.go, session_revoke.go
-- and user_cleanup.go. The password's hash (package bcrypt), the key (package rand) and the
-- answers of the namespace service are arguments; the audit log and the messages to the browser
-- are left out.
mod Roots
mod Race
mod Remains
mod Examples
use domus.Prelude.{
  ℕ, ltb, leb, Text, codes, str_eq, is_empty, ◌==◌, length, Bool, true, false, not, ◌&&◌, ◌||◌,
  Option, none, some, List, [], ◌∷◌, ◌++◌, contains, if◌then◌else◌,
}
use domus.Model.Result.{Result, ok, err, username_exists}
use domus.Model.User.{
  User, UserRepo, create, get_by_id, update_password, update_role, update_totp, update_email,
  count_by_role,
}
use domus.Model.Session.{SessionRepo, delete_by_user_id}
use domus.Model.Cleanup.{Repos, delete_user_and_related_data}

-- The answer of a handler: its status, and the error's code if there is one.
pub data Reply : Type 0 where
  succeeded : ℕ → Reply
  failed : ℕ → Text → Reply

unfoldable pub is_valid_user_role : Text → Bool
is_valid_user_role role = str_eq role (codes "root") || str_eq role (codes "user")

unfoldable valid_character : ℕ → Bool
valid_character c =
    (leb b'a' c && leb c b'z')
    || ((leb b'A' c && leb c b'Z')
        || ((leb b'0' c && leb c b'9') || ((c == b'_') || ((c == b'.') || (c == b'-')))))

unfoldable valid_characters : Text → Bool
unfolding valid_character
valid_characters [] = true
valid_characters (c ∷ s) = let rest = valid_characters s in valid_character c && rest

unfoldable starts_badly : Text → Bool
starts_badly [] = true
starts_badly (c ∷ s) = (c == b'.') || (c == b'-')

-- A byte above 127 is part of a character that is refused.
unfoldable pub valid_username : Text → Bool
unfolding starts_badly valid_characters
valid_username value =
    if ltb 128 (length value) || starts_badly value then false else valid_characters value

-- The error's code, empty if there is none.
unfoldable pub ensure_not_demoting_last_root : UserRepo → User → Text → Text
ensure_not_demoting_last_root users user new_role =
    if not (str_eq user.role (codes "root")) || str_eq new_role (codes "root")
    then []
    else if leb (count_by_role (codes "root") users) 1
    then codes "cannot_demote_last_root"
    else []

unfoldable pub ensure_not_deleting_last_root : UserRepo → User → Text
ensure_not_deleting_last_root users user =
    if not (str_eq user.role (codes "root"))
    then []
    else if leb (count_by_role (codes "root") users) 1
    then codes "cannot_delete_last_root"
    else []

unfoldable pub revoke_user_sessions : Text → Repos → Repos
revoke_user_sessions user_id r = record r { sessions = delete_by_user_id user_id r.sessions }

-- The namespace's own deletion changes no repository, and its failure is only logged.
unfoldable pub delete_user_completely : User → Repos → Repos
delete_user_completely user r =
    delete_user_and_related_data user.id (revoke_user_sessions user.id r)

-- `err.Error()` for a taken name. Each byte of a name that comes so far stands for itself in `%q`.
unfoldable username_taken : Text → Text
username_taken username = codes "username \"" ++ (username ++ codes "\" already exists")

-- What follows `Users.Create`; the other errors are those of package bcrypt, whose texts do not
-- hold `UNIQUE`. `namespace` says whether `EnsureUser` succeeds, `none` without the
-- service.
unfoldable pub created : Text → Option Bool → Repos → Result (User × UserRepo) → Reply × Repos
unfolding username_taken
created username namespace r (err username_exists) = (
  if contains (username_taken username) (codes "UNIQUE")
      then failed 409 (codes "username_exists")
      else failed 500 (codes "create_user_failed"),
  r,
)
created username namespace r (err _) = (failed 500 (codes "create_user_failed"), r)
created username namespace r (ok (user, users)) = (
  elim namespace [
    | none ↦ failed 500 (codes "dofs_unavailable")
    | some ready ↦ if ready then succeeded 201 else failed 500 (codes "dofs_namespace_failed")
  ],
  record r { users = users },
)

-- `wrapped_kek` is the new key, wrapped, or an error; `hash`, `id` and `now` are those of
-- `Users.Create`.
unfoldable pub handle_create_user :
    Text → Text → Text → Result Text → Result Text → Text → ℕ → Option Bool → Repos → Reply × Repos
handle_create_user username password body_role wrapped_kek hash id now namespace r =
    let role = if is_empty body_role then codes "user" else body_role in
    if is_empty username || is_empty password
    then (failed 400 (codes "username_password_required"), r)
    else if not (valid_username username)
    then (failed 400 (codes "invalid_username"), r)
    else if not (is_valid_user_role role)
    then (failed 400 (codes "invalid_role"), r)
    else elim wrapped_kek [
      | err _ ↦ (failed 500 (codes "key_generation_failed"), r)
      | ok kek ↦ created username namespace r (create username hash role kek id now r.users)
    ]

-- What follows `UpdateRole`: sessions end when the role changed.
unfoldable pub role_updated : User → Text → UserRepo → Repos → Result UserRepo → Reply × Repos
role_updated user body_role users r (err _) =
    (failed 500 (codes "update_user_failed"), record r { users = users })
role_updated user body_role users r (ok users') =
    let r' = record r { users = users' } in
    (
      succeeded 200,
      (if not (is_empty body_role) && not (str_eq body_role user.role)
          then revoke_user_sessions user.id r'
          else r'),
    )

-- The new role, once the user was read and the password set: `users` are the users then.
unfoldable pub set_role : User → Text → UserRepo → Repos → Reply × Repos
set_role user body_role users r =
    role_updated user body_role users r
      (update_role user.id (if is_empty body_role then user.role else body_role) users)

unfoldable pub check_role : User → Text → UserRepo → Repos → Reply × Repos
check_role user body_role users r =
    if is_empty body_role
    then set_role user body_role users r
    else if not (is_valid_user_role body_role)
    then (failed 400 (codes "invalid_role"), record r { users = users })
    else let code = ensure_not_demoting_last_root users user body_role in
      if is_empty code
      then set_role user body_role users r
      else (failed 400 code, record r { users = users })

-- What follows `UpdatePassword`.
unfoldable pub password_updated : User → Text → Repos → Result UserRepo → Reply × Repos
password_updated user body_role r (err _) = (failed 500 (codes "update_password_failed"), r)
password_updated user body_role r (ok users) = check_role user body_role users r

-- What follows `GetByID`.
unfoldable pub user_read : Text → Text → Result Text → Repos → Result User → Reply × Repos
user_read body_role body_password hash r (err _) = (failed 404 (codes "user_not_found"), r)
user_read body_role body_password hash r (ok user) =
    if is_empty body_password
    then check_role user body_role r.users r
    else password_updated user body_role r (update_password user.id hash r.users)

unfoldable pub handle_update_user : Text → Text → Text → Result Text → Repos → Reply × Repos
handle_update_user id body_role body_password hash r =
    if is_empty id
    then (failed 400 (codes "invalid_user_id"), r)
    else user_read body_role body_password hash r (get_by_id id r.users)

-- What follows `GetByID` in the deletion.
unfoldable pub user_to_delete : Repos → Result User → Reply × Repos
user_to_delete r (err _) = (failed 404 (codes "user_not_found"), r)
user_to_delete r (ok user) =
    let code = ensure_not_deleting_last_root r.users user in
    if is_empty code then (succeeded 200, delete_user_completely user r) else (failed 400 code, r)

-- `session_user_id` is the user of the request's session.
unfoldable pub handle_delete_user : Text → Text → Repos → Reply × Repos
handle_delete_user id session_user_id r =
    if is_empty id
    then (failed 400 (codes "invalid_user_id"), r)
    else if str_eq id session_user_id
    then (failed 400 (codes "cannot_delete_self"), r)
    else user_to_delete r (get_by_id id r.users)

-- What follows the update that resets a user's codes or address.
unfoldable pub user_reset : Text → Repos → Result UserRepo → Reply × Repos
user_reset id r (err _) = (failed 500 (codes "update_failed"), r)
user_reset id r (ok users) = (succeeded 200, revoke_user_sessions id (record r { users = users }))

-- The answer when `GetByID` finds no user, or else the other one.
unfoldable pub found_or_missing : Result User → Reply × Repos → Repos → Reply × Repos
found_or_missing (err _) x r = (failed 404 (codes "user_not_found"), r)
found_or_missing (ok _) x r = x

unfoldable pub handle_reset_user_otp : Text → Repos → Reply × Repos
handle_reset_user_otp id r =
    found_or_missing (get_by_id id r.users) (user_reset id r (update_totp id [] false r.users)) r

unfoldable pub handle_reset_user_email : Text → Repos → Reply × Repos
handle_reset_user_email id r =
    found_or_missing (get_by_id id r.users) (user_reset id r (update_email id [] r.users)) r
