-- ===== src/Handler/Login/Logout.antt =====
-- What `handleLogout` of internal/handler/auth.go means for later requests.
use domus.Prelude.{
  ℕ, Text, str_eq, Bool, true, false, Option, none, some, ◌≡◌, ◌↔◌, refl, sym, ◌∙◌, if◌then◌else◌,
}
use domus.Model.Session.{Session, SessionRepo, get}
use domus.Model.Session.Laws.{session_get-remove}
use domus.Middleware.Guard.{next, auth_required}
use domus.Middleware.Guard.Access.{auth_required_iff}
use domus.Handler.Login.{handle_logout}

other_session :
    (b : Bool) (o : Option Session) (x : Session)
    → (if b then none else o) ≡ some x
    → (b ≡ false) × (o ≡ some x)
other_session true o x h = cc
other_session false o x h = (refl, h)

module _ (mac : Text → Text) where
  -- After a logout a request goes on with a session exactly when it did before and its session
  -- is another one.
  pub auth_required-handle_logout :
      (cookies : Text → Text) (now : ℕ) (r : SessionRepo) (s : Session) (id ended : Text)
      (m : Option Text)
      → (auth_required mac cookies now (handle_logout ended r).0 ≡ next s id m)
        ↔ ((str_eq ended id ≡ false) × (auth_required mac cookies now r ≡ next s id m))
  unfolding handle_logout
  auth_required-handle_logout cookies now r s id ended m =
      let (to, from) = auth_required_iff mac cookies now (handle_logout ended r).0 s id m in
      let (to', from') = auth_required_iff mac cookies now r s id m in
      (
        λ h.
            let (c, n, g, e) = to h in
            let (other, g') =
              other_session (str_eq ended id) (get id now r) s
                (sym (session_get-remove ended id now r) ∙ g) in
            (other, from' (c, n, g', e)),
        λ (other, h).
            let (c, n, g, e) = to' h in
            from (c, n, session_get-remove ended id now r ∙ rw other refl ∙ g, e),
      )
