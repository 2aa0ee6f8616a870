-- ===== src/Auth/Cookie.antt =====
-- Signed cookies: internal/auth/cookie.go. The hex digits of the HMAC under the server's secret
-- (packages crypto/hmac, crypto/sha256 and encoding/hex) are the function `mac`.
pub mod Signed
use domus.Prelude.{ℕ, ◌==◌, Text, codes, str_eq, Option, none, some, [], ◌∷◌, ◌++◌, if◌then◌else◌}

-- strings.SplitN(s, ".", 2): what is before and behind the first dot.
unfoldable pub split_at_dot : Text → Option (Text × Text)
split_at_dot [] = none
split_at_dot (c ∷ s) =
    let rest = split_at_dot s in
    if c == b'.' then some ([], s) else elim rest [ none ↦ none | some (a, b) ↦ some (c ∷ a, b) ]

module _ (mac : Text → Text) where
  unfoldable pub sign_cookie : Text → Text
  sign_cookie session_id = session_id ++ (b'.' ∷ mac session_id)

  -- `none` stands for both errors.
  unfoldable pub verify_cookie : Text → Option Text
  unfolding split_at_dot
  verify_cookie cookie_value = elim (split_at_dot cookie_value) [
    | none ↦ none
    | some (session_id, sig) ↦ if str_eq sig (mac session_id) then some session_id else none
  ]
