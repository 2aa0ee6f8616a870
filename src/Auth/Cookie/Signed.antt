-- ===== src/Auth/Cookie/Signed.antt =====
-- Which cookies `VerifyCookie` of internal/auth/cookie.go accepts.
use mathlib.Core.Option.{some-injective}
use domus.Prelude.{
  ℕ, ◌==◌, Text, str_eq, eq_iff, str_eq_refl, Option, none, some, [], ◌∷◌, ◌++◌, if◌then◌else◌, ◌≡◌,
  ◌≢◌, ◌↔◌, ◌∙◌, ap, sym, subst, refl, All, arith, Bool-cases, inl, inr, ==_iff, Bool, true, false,
  ◌⊎◌,
}
use domus.Auth.Cookie.{split_at_dot, sign_cookie, verify_cookie}

abbrev pub HasNoDot : Text → Type 0
HasNoDot s = All (λ c. c ≢ b'.') s

split_at_dot-append : (a b : Text) → HasNoDot a → split_at_dot (a ++ (b'.' ∷ b)) ≡ some (a, b)
unfolding split_at_dot
split_at_dot-append [] b h = refl
split_at_dot-append (c ∷ a) b h = rw (split_at_dot-append a b h.1) (elim (Bool-cases (c == b'.')) [
  | inl t ↦ absurd (h.0 ((==_iff c b'.').0 t))
  | inr f ↦ rw f refl
])

first_dot :
    (c : ℕ) (s a b : Text) (test : Bool) (rest : Option (Text × Text))
    → (if◌then◌else◌ {A = Option (Text × Text)} test
        (some ([], s))
        (elim rest [ none ↦ none | some (x, y) ↦ some (c ∷ x, y) ]))
      ≡ some (a, b)
    → ((test ≡ true) × (a ≡ []) × (b ≡ s))
      ⊎ ((test ≡ false) × ((x : Text) × (rest ≡ some (x, b)) × (a ≡ c ∷ x)))
first_dot c s a b true rest h =
    inl
      (refl, sym (ap (λ p. p.0) (some-injective _ _ h)), sym (ap (λ p. p.1) (some-injective _ _ h)))
first_dot c s a b false none h = cc
first_dot c s a b false (some (x, y)) h = inr (
  refl,
  (
    x,
    ap (λ z. some (x, z)) (ap (λ p. p.1) (some-injective _ _ h)),
    sym (ap (λ p. p.0) (some-injective _ _ h)),
  ),
)

split_at_dot-some :
    (s a b : Text) → split_at_dot s ≡ some (a, b) → (s ≡ a ++ (b'.' ∷ b)) × HasNoDot a
unfolding split_at_dot
split_at_dot-some [] a b h = cc
split_at_dot-some (c ∷ s) a b h = elim (first_dot c s a b (c == b'.') (split_at_dot s) h) [
  | inl (t, e, f) ↦ (
    ap (◌∷◌ c) (sym f)
        ∙ (ap (λ d. d ∷ b) ((==_iff c b'.').0 t) ∙ ap (λ x. x ++ (b'.' ∷ b)) (sym e)),
    subst HasNoDot (sym e) tt,
  )
  | inr (f, (x, e, g)) ↦
      let (j, k) = split_at_dot-some s x b e in
      (
        ap (◌∷◌ c) j ∙ ap (λ x. x ++ (b'.' ∷ b)) (sym g),
        subst HasNoDot (sym g) (ground (arith, f), k),
      )
]

accepted :
    (mac : Text → Text) (cookie id : Text) (parts : Option (Text × Text))
    → split_at_dot cookie ≡ parts
    → (elim parts [ none ↦ none | some (a, b) ↦ if str_eq b (mac a) then some a else none ])
      ≡ some id
    → (cookie ≡ id ++ (b'.' ∷ mac id)) × HasNoDot id
accepted mac cookie id none e h = cc
accepted mac cookie id (some (a, b)) e h = elim (Bool-cases (str_eq b (mac a))) [
  | inl t ↦
      let (j, n) = split_at_dot-some cookie a b e in
      let same : a ≡ id = some-injective a id (sym (ap (λ c. if c then some a else none) t) ∙ h) in
      (
        j
            ∙ (ap (λ x. a ++ (b'.' ∷ x)) ((eq_iff b (mac a)).0 t)
                ∙ ap (λ x. x ++ (b'.' ∷ mac x)) same),
        subst HasNoDot same n,
      )
  | inr f ↦ absurd (ground (arith, f, h))
]

module _ (mac : Text → Text) where
  -- A cookie is accepted exactly when it is an id without a dot, signed; the result is that id.
  pub verify_cookie_iff :
      (cookie id : Text)
      → (verify_cookie mac cookie ≡ some id) ↔ ((cookie ≡ sign_cookie mac id) × HasNoDot id)
  unfolding verify_cookie sign_cookie
  verify_cookie_iff cookie id = (
    λ h. accepted mac cookie id (split_at_dot cookie) refl h,
    λ (e, n).
        ap (verify_cookie mac) e
        ∙ rw (split_at_dot-append id (mac id) n, verify_cookie) (rw (str_eq_refl (mac id)) refl),
  )
