-- ===== src/Middleware/Examples.antt =====
-- Paths and sessions of internal/middleware/middleware.go at concrete requests.
use domus.Prelude.{
  ℕ, Text, codes, str_eq, Bool, Option, none, some, List, [], ◌∷◌, ◌≡◌, ◌↔◌, refl, true, false,
  arith, if◌then◌else◌,
}
use domus.Dict.{IsMap}
use domus.Model.Result.{ok, after}
use domus.Model.Session.{Session, SessionRepo, create, get, delete_by_user_id}
use domus.Model.Session.Laws.{owned_by}
use domus.Auth.Cookie.{sign_cookie}
use domus.Auth.Cookie.Signed.{HasNoDot}
use domus.Handler.Clean.{IsCanonical}
use domus.Middleware.Paths.{
  resolved, resolve_application_path, resolve_internal_application_path, is_internal_storage_path,
  to_app_path,
}
use domus.Middleware.Paths.Reserved.{
  IsPrivate, resolve_application_path_safe, resolve_internal_application_path-IsPrivate,
}
use domus.Middleware.Guard.{next, session_cookie, auth_required}
use domus.Middleware.Guard.Access.{auth_required_iff, auth_required-delete_by_user_id}

dots : resolve_application_path (codes "a/../b") ≡ resolved (codes "/b")
unfolding resolve_application_path domus.Prelude.has_prefix domus.Prelude.is_empty str_eq
    domus.Prelude.trim_suffix
dots = refl

resolve_application_path_safe_example :
    IsCanonical (codes "/b")
    × (is_internal_storage_path (codes "/b") ≡ false)
    × (to_app_path (codes "/b") ≡ codes "/b")
    × (resolve_application_path (to_app_path (codes "/b")) ≡ resolved (codes "/b"))
resolve_application_path_safe_example =
    resolve_application_path_safe (codes "a/../b") (codes "/b") dots

private_file :
    resolve_internal_application_path (codes "/.user/avatar")
    ≡ resolved (codes "/.domus/user/avatar")
unfolding resolve_internal_application_path domus.Prelude.has_prefix domus.Prelude.is_empty str_eq
    domus.Prelude.trim_suffix domus.Prelude.drop
private_file = refl

resolve_internal_application_path-IsPrivate_example :
    IsCanonical (codes "/.domus/user/avatar")
    × IsPrivate (codes "/.domus/user/avatar")
    × (is_internal_storage_path (codes "/.domus/user/avatar") ≡ true)
    × (to_app_path (codes "/.domus/user/avatar") ≡ [])
resolve_internal_application_path-IsPrivate_example =
    resolve_internal_application_path-IsPrivate (codes "/.user/avatar")
      (codes "/.domus/user/avatar") private_file

-- The first letter of a text twice stands for the signature.
abbrev mac : Text → Text
mac [] = []
mac (c ∷ s) = c ∷ c ∷ []

abbrev sessions : SessionRepo
sessions =
    after (record { entries = []; populate_kek = none })
      (create (codes "u1") (codes "ann") (codes "root") (ok (1 ∷ 171 ∷ [])) 10
        (record { entries = []; populate_kek = none }))

abbrev ann : Session
ann = record {
  user_id = codes "u1";
  username = codes "ann";
  role = codes "root";
  created_at = 10;
  kek = [];
}

abbrev cookies : Text → Text
cookies name = if str_eq name (codes "domus_session") then codes "01ab.00" else []

sessions-IsMap : IsMap sessions.entries
unfolding create domus.Dict.insert domus.Dict.lookup
sessions-IsMap = (refl, tt)

auth_required_iff_example :
    (auth_required mac cookies 20 sessions ≡ next ann (codes "01ab") none) ↔ (
      ((session_cookie cookies).0 ≡ sign_cookie mac (codes "01ab"))
      × HasNoDot (codes "01ab")
      × (get (codes "01ab") 20 sessions ≡ some ann)
      × (none ≡ (if (session_cookie cookies).1 then some (session_cookie cookies).0 else none)))
auth_required_iff_example = auth_required_iff mac cookies 20 sessions ann (codes "01ab") none

let_in : auth_required mac cookies 20 sessions ≡ next ann (codes "01ab") none
unfolding auth_required domus.Prelude.is_empty str_eq domus.Dict.lookup create domus.Dict.insert
    domus.Model.Session.hex_encode domus.Model.Session.session_lifetime
let_in = refl

auth_required-delete_by_user_id_example :
    (auth_required mac cookies 20 (delete_by_user_id (codes "u1") sessions)
      ≡ next ann (codes "01ab") none)
    ↔ ((owned_by (codes "u1") (codes "01ab") sessions ≡ false)
        × (auth_required mac cookies 20 sessions ≡ next ann (codes "01ab") none))
auth_required-delete_by_user_id_example =
    auth_required-delete_by_user_id mac cookies 20 sessions ann (codes "01ab") (codes "u1") none
      sessions-IsMap
