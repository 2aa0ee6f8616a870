-- ===== src/Middleware/Guard/Access.antt =====
-- Which requests get past `AuthRequired` of internal/middleware/middleware.go.
use domus.Prelude.{
  ℕ, Text, codes, is_empty, Bool, true, false, Option, none, some, [], ◌∷◌, if◌then◌else◌, ◌≡◌, ◌↔◌,
  refl, ap, sym, ◌∙◌,
}
use domus.Dict.{IsMap}
use domus.Model.Session.{Session, SessionRepo, get, delete_by_user_id}
use domus.Model.Session.Laws.{owned_by, get-delete_by_user_id}
use domus.Auth.Cookie.{verify_cookie, sign_cookie}
use domus.Auth.Cookie.Signed.{verify_cookie_iff, HasNoDot}
use domus.Middleware.Guard.{refused, next, session_cookie, require_session, auth_required}

module _ (mac : Text → Text) where
  found :
      (legacy : Bool) (value id : Text) (m : Option Text) (s : Session) (o : Option Session)
      (i : Text)
      → (elim o [
        | none ↦ refused 401 (codes "session_expired")
        | some session ↦ next session i (if legacy then some value else none)
      ])
        ≡ next s id m
      → (o ≡ some s) × (i ≡ id) × (m ≡ (if legacy then some value else none))
  found legacy value id m s none i h = cc
  found legacy value id m s (some x) i h = (cc, cc, cc)

  through :
      (legacy empty : Bool) (value id : Text) (m : Option Text) (s : Session) (v : Option Text)
      (g : Text → Option Session)
      → (if empty then refused 401 (codes "unauthorized") else elim v [
        | none ↦ refused 401 (codes "invalid_session")
        | some i ↦ elim (g i) [
          | none ↦ refused 401 (codes "session_expired")
          | some session ↦ next session i (if legacy then some value else none)
        ]
      ])
        ≡ next s id m
      → (v ≡ some id) × (g id ≡ some s) × (m ≡ (if legacy then some value else none))
  through legacy true value id m s v g h = cc
  through legacy false value id m s none g h = cc
  through legacy false value id m s (some i) g h =
      let (o, e, l) = found legacy value id m s (g i) i h in (ap some e, ap g (sym e) ∙ o, l)

  not_empty : (value id : Text) → value ≡ sign_cookie mac id → is_empty value ≡ false
  unfolding sign_cookie is_empty
  not_empty value [] e = ap is_empty e
  not_empty value (c ∷ id) e = ap is_empty e

  -- A request goes on with a session exactly when its cookie, under the new or else the old
  -- name, is an id without a dot signed with the server's secret and the repository has that
  -- session now; the cookie is set again exactly when it came under the old name.
  pub auth_required_iff :
      (cookies : Text → Text) (now : ℕ) (r : SessionRepo) (s : Session) (id : Text)
      (m : Option Text)
      → (auth_required mac cookies now r ≡ next s id m) ↔ (
          ((session_cookie cookies).0 ≡ sign_cookie mac id)
          × HasNoDot id
          × (get id now r ≡ some s)
          × (m ≡ (if (session_cookie cookies).1 then some (session_cookie cookies).0 else none)))
  unfolding auth_required require_session
  auth_required_iff cookies now r s id m = (
    λ h.
        let (v, g, e) =
          through (session_cookie cookies).1 (is_empty (session_cookie cookies).0)
            (session_cookie cookies).0 id m s (verify_cookie mac (session_cookie cookies).0)
            (λ i. get i now r) h in
        let (c, n) = (verify_cookie_iff mac (session_cookie cookies).0 id).0 v in (c, n, g, e),
    λ (c, n, g, e).
        rw
          (
            auth_required,
            require_session,
            not_empty (session_cookie cookies).0 id c,
            (verify_cookie_iff mac (session_cookie cookies).0 id).1 (c, n),
            g,
            e,
          )
          refl,
  )

  -- After the sessions of a user are revoked, in a repository with one entry for a key, a
  -- request goes on with a session exactly when it did before and the session is not that
  -- user's.
  pub auth_required-delete_by_user_id :
      (cookies : Text → Text) (now : ℕ) (r : SessionRepo) (s : Session) (id user_id : Text)
      (m : Option Text)
      → IsMap r.entries
      → (auth_required mac cookies now (delete_by_user_id user_id r) ≡ next s id m)
        ↔ ((owned_by user_id id r ≡ false) × (auth_required mac cookies now r ≡ next s id m))
  auth_required-delete_by_user_id cookies now r s id user_id m u =
      let (to, from) = auth_required_iff cookies now (delete_by_user_id user_id r) s id m in
      let (to', from') = auth_required_iff cookies now r s id m in
      (
        λ h.
            let (c, n, g, e) = to h in
            let (own, g') =
              unless_owned (owned_by user_id id r) (get id now r) s
                (sym (get-delete_by_user_id user_id id now r u) ∙ g) in
            (own, from' (c, n, g', e)),
        λ (own, h).
            let (c, n, g, e) = to' h in
            from (c, n, get-delete_by_user_id user_id id now r u ∙ rw own g, e),
      )
    where
      unless_owned :
          (b : Bool) (o : Option Session) (x : Session)
          → (if b then none else o) ≡ some x
          → (b ≡ false) × (o ≡ some x)
      unless_owned true o x h = cc
      unless_owned false o x h = (refl, h)
