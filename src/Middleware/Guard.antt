-- ===== src/Middleware/Guard.antt =====
-- Who may go on: `AuthRequired`, `WebSocketUpgrade` and `RoleRequired` of
-- internal/middleware/middleware.go, with the sessions of internal/model and the signed cookies of
-- internal/auth.
pub mod Access
use domus.Prelude.{
  ℕ, Text, codes, str_eq, is_empty, Bool, true, false, not, Option, none, some, List, [], ◌∷◌,
  if◌then◌else◌,
}
use domus.Model.Session.{Session, SessionRepo, get}
use domus.Auth.Cookie.{verify_cookie}

-- The answer of a handler: a status with an error, or the next handler with the session, its id,
-- and the cookie's value when it has to be set under its new name.
pub data Answer : Type 0 where
  refused : ℕ → Text → Answer
  upgrade_required : Answer
  next : Session → Text → Option Text → Answer

unfoldable pub session_cookie_name : Text
session_cookie_name = codes "domus_session"

unfoldable pub legacy_session_cookie_name : Text
legacy_session_cookie_name = codes "zephyr_session"

-- `cookies` is the request's `Cookies`: empty for a cookie that is not there.
unfoldable pub session_cookie : (Text → Text) → Text × Bool
unfolding session_cookie_name legacy_session_cookie_name
session_cookie cookies =
    let value = cookies session_cookie_name in
    if is_empty value then (cookies legacy_session_cookie_name, true) else (value, false)

module _ (mac : Text → Text) where
  -- What follows once the cookie's value is known.
  unfoldable pub require_session : Text → Bool → ℕ → SessionRepo → Answer
  unfolding verify_cookie get
  require_session cookie_value legacy now sessions =
      if is_empty cookie_value
      then refused 401 (codes "unauthorized")
      else elim (verify_cookie mac cookie_value) [
        | none ↦ refused 401 (codes "invalid_session")
        | some session_id ↦ elim (get session_id now sessions) [
          | none ↦ refused 401 (codes "session_expired")
          | some session ↦ next session session_id (if legacy then some cookie_value else none)
        ]
      ]

  unfoldable pub auth_required : (Text → Text) → ℕ → SessionRepo → Answer
  unfolding session_cookie require_session
  auth_required cookies now sessions =
      let (cookie_value, legacy) = session_cookie cookies in
      require_session cookie_value legacy now sessions

  unfoldable web_socket_upgrade : Bool → (Text → Text) → ℕ → SessionRepo → Answer
  unfolding auth_required
  web_socket_upgrade is_upgrade cookies now sessions =
      if not is_upgrade then upgrade_required else auth_required cookies now sessions

-- `none` stands for the next handler.
unfoldable role_required : List Text → Session → Option (ℕ × Text)
role_required [] session = some (403, codes "forbidden")
role_required (r ∷ roles) session =
    let rest = role_required roles session in if str_eq session.role r then none else rest
