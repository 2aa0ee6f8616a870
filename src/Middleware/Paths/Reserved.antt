-- ===== src/Middleware/Paths/Reserved.antt =====
-- Reserved paths: internal/middleware/middleware.go.
use domus.Prelude.{
  is_empty, Text, codes, str_eq, has_prefix, Bool, true, false, ◌||◌, ◌≡◌, ◌∙◌, ap, sym, subst,
  refl, ◌⊎◌, ◌↔◌, inl, inr, Bool-cases, [], ◌++◌, arith, if◌then◌else◌, drop, length, eq_iff,
  has_prefix-append, append-drop_of_has_prefix, trim_suffix,
}
use domus.Middleware.Paths.Below.{
  Inner, canonical-Inner, behind-IsCanonical, behind_two-IsCanonical, nothing_inside,
}
use domus.Handler.Clean.{IsSegment, normalize_app_path, IsCanonical, normalize_app_path-IsCanonical}
use domus.Handler.Idempotent.{normalize_app_path_idem}
use domus.Handler.TrashPath.{has_nul, trim_prefix}
use domus.Middleware.Paths.{
  Resolution, resolved, forbidden, invalid_path, invalid_internal_path, reserved_path,
  normalize_path, is_inside, internal_root_path, internal_user_path, virtual_private_user_path,
  resolve_application_path, resolve_internal_application_path, internal_target,
  is_internal_storage_path, to_app_path,
}
use domus.Middleware.Paths.Normal.{
  normalize_path_eq, has_nul-normalize_app_path, starts_of_canonical,
}

resolved_injective : (a b : Text) → resolved a ≡ resolved b → a ≡ b
resolved_injective a b h = cc

normalize_path_nul : (p : Text) → has_nul p ≡ true → normalize_path p ≡ forbidden invalid_path
unfolding normalize_path
normalize_path_nul p h = rw h refl

-- What a test on the normalised path leaves.
checked : Bool → Bool → Text → Resolution
checked b c q = if b || c then forbidden reserved_path else resolved q

checked_iff :
    (b c : Bool) (x q : Text) → (checked b c x ≡ resolved q) ↔ ((q ≡ x) × (b ≡ false) × (c ≡ false))
unfolding checked
checked_iff true c x q = ((λ h. cc), λ h. cc)
checked_iff false true x q = ((λ h. cc), λ h. cc)
checked_iff false false x q = ((λ h. (cc, refl, refl)), λ h. cc)

application_path_nul :
    (p : Text) → has_nul p ≡ true → resolve_application_path p ≡ forbidden invalid_path
unfolding resolve_application_path
application_path_nul p h = rw (normalize_path_nul p h, resolve_application_path) refl

application_path_eq :
    (p : Text)
    → has_nul p ≡ false
    → resolve_application_path p
      ≡ checked
          (is_inside internal_root_path (normalize_app_path p))
          (is_inside virtual_private_user_path (normalize_app_path p))
          (normalize_app_path p)
unfolding resolve_application_path checked
application_path_eq p h = rw (normalize_path_eq p h, resolve_application_path) refl

-- A path is resolved exactly when it has no zero byte and is not reserved once it is normalised;
-- the result is the normalised path.
resolve_application_path_iff :
    (p q : Text)
    → (resolve_application_path p ≡ resolved q) ↔ (
        (has_nul p ≡ false)
        × (q ≡ normalize_app_path p)
        × (is_inside internal_root_path (normalize_app_path p) ≡ false)
        × (is_inside virtual_private_user_path (normalize_app_path p) ≡ false))
resolve_application_path_iff p q =
    let (to, from) =
      checked_iff (is_inside internal_root_path (normalize_app_path p))
        (is_inside virtual_private_user_path (normalize_app_path p)) (normalize_app_path p) q in
    (
      λ h. elim (Bool-cases (has_nul p)) [
        | inl t ↦ absurd (clash (sym (application_path_nul p t) ∙ h))
        | inr f ↦ let (a, b, c) = to (sym (application_path_eq p f) ∙ h) in (f, a, b, c)
      ],
      λ (f, a, b, c). application_path_eq p f ∙ from (a, b, c),
    )
  where
    clash : forbidden invalid_path ≡ resolved q → ⊥
    clash e = cc

app_path_of_canonical :
    (q : Text) → IsCanonical q → is_internal_storage_path q ≡ false → to_app_path q ≡ q
unfolding to_app_path has_prefix
app_path_of_canonical q c h =
    let (x, e) = starts_of_canonical q c in rw h (rw (ap (λ t. has_prefix t (codes "/")) e) refl)

-- A path that is resolved for an application is canonical and not internal, and its public form
-- is itself and is resolved to itself.
pub resolve_application_path_safe :
    (p q : Text)
    → resolve_application_path p ≡ resolved q
    → IsCanonical q
      × (is_internal_storage_path q ≡ false)
      × (to_app_path q ≡ q)
      × (resolve_application_path (to_app_path q) ≡ resolved q)
resolve_application_path_safe p q h =
    let (nul, e, a, b) = (resolve_application_path_iff p q).0 h in
    let canonical : IsCanonical q = subst IsCanonical (sym e) (normalize_app_path-IsCanonical p) in
    let again : normalize_app_path q ≡ q =
      ap normalize_app_path e ∙ (normalize_app_path_idem p ∙ sym e) in
    let internal : is_internal_storage_path q ≡ false =
      unfold is_internal_storage_path in (ap (is_inside internal_root_path) e ∙ a) in
    let back : to_app_path q ≡ q = app_path_of_canonical q canonical internal in
    (
      canonical,
      internal,
      back,
      ap resolve_application_path back
          ∙ (resolve_application_path_iff q q).1 (
            ap has_nul e ∙ has_nul-normalize_app_path p nul,
            sym again,
            ap (is_inside internal_root_path) (again ∙ e) ∙ a,
            ap (is_inside virtual_private_user_path) (again ∙ e) ∙ b,
          ),
    )

-- What an internal request reaches: the private area, its thumbnails, or nothing.
abbrev pub IsPrivate : Text → Type 0
IsPrivate q =
    (q ≡ codes "/.domus/thumbnails")
    ⊎ ((r : Text) × ((q ≡ codes "/.domus/user/" ++ r) ⊎ (q ≡ codes "/.domus/thumbnails/" ++ r)))

internal_target-IsPrivate : (r : Text) → IsPrivate (internal_target r)
unfolding internal_target internal_user_path
internal_target-IsPrivate r = elim (Bool-cases (str_eq r (codes "thumbnails"))) [
  | inl t ↦ inl (rw t (ap (λ x. codes "/.domus/" ++ x) ((eq_iff r (codes "thumbnails")).0 t)))
  | inr f ↦ elim (Bool-cases (has_prefix r (codes "thumbnails/"))) [
    | inl t ↦ inr (
      drop (length (codes "thumbnails/")) r,
      inr (
          rw (f, t)
            (ap (λ x. codes "/.domus/" ++ x)
              (sym (append-drop_of_has_prefix r (codes "thumbnails/") t)))),
    )
    | inr g ↦ inr (r, inl (rw (f, g) refl))
  ]
]

picked : Bool → Bool → Text → Resolution
picked b c t =
    if b
    then resolved internal_user_path
    else if c
    then resolved (internal_target t)
    else forbidden invalid_internal_path

picked-IsPrivate : (b c : Bool) (t q : Text) → picked b c t ≡ resolved q → IsPrivate q
unfolding picked internal_user_path
picked-IsPrivate true c t q h = inr ([], inl (sym (resolved_injective _ _ h)))
picked-IsPrivate false true t q h =
    subst IsPrivate (resolved_injective _ _ h) (internal_target-IsPrivate t)
picked-IsPrivate false false t q h = cc

inside : (x : Text) → is_internal_storage_path (codes "/.domus/" ++ x) ≡ true
unfolding is_internal_storage_path is_inside internal_root_path
inside x = ground (arith, has_prefix-append (codes "/.domus/") x)

is_internal_of_private : (q : Text) → IsPrivate q → is_internal_storage_path q ≡ true
is_internal_of_private q (inl e) = ap is_internal_storage_path e ∙ inside (codes "thumbnails")
is_internal_of_private q (inr (r, inl e)) =
    ap is_internal_storage_path e ∙ inside (codes "user/" ++ r)
is_internal_of_private q (inr (r, inr e)) =
    ap is_internal_storage_path e ∙ inside (codes "thumbnails/" ++ r)

internal_path_eq :
    (p : Text)
    → has_nul p ≡ false
    → resolve_internal_application_path p
      ≡ picked
          (str_eq (normalize_app_path p) (trim_suffix virtual_private_user_path b'/'))
          (has_prefix (normalize_app_path p) virtual_private_user_path)
          (trim_prefix (normalize_app_path p) virtual_private_user_path)
unfolding resolve_internal_application_path picked
internal_path_eq p h = rw (normalize_path_eq p h, resolve_internal_application_path) refl

internal_path_nul :
    (p : Text) → has_nul p ≡ true → resolve_internal_application_path p ≡ forbidden invalid_path
unfolding resolve_internal_application_path
internal_path_nul p h = rw (normalize_path_nul p h, resolve_internal_application_path) refl

IsSegment-domus : IsSegment (codes ".domus")
unfolding is_empty str_eq
IsSegment-domus = (
  refl,
  refl,
  refl,
  (omega arith, (omega arith, (omega arith, (omega arith, (omega arith, (omega arith, tt)))))),
)

IsSegment-user : IsSegment (codes "user")
unfolding is_empty str_eq
IsSegment-user = (refl, refl, refl, (omega arith, (omega arith, (omega arith, (omega arith, tt)))))

internal_target-IsCanonical : (r : Text) → Inner r → IsCanonical (internal_target r)
unfolding internal_target internal_user_path
internal_target-IsCanonical r h =
    elim (Bool-cases (str_eq r (codes "thumbnails") || has_prefix r (codes "thumbnails/"))) [
      | inl t ↦ rw t (behind-IsCanonical (codes ".domus") r IsSegment-domus h)
      | inr f ↦ rw f (
          behind_two-IsCanonical (codes ".domus") (codes "user") r IsSegment-domus IsSegment-user h)
    ]

trim_private :
    (p : Text)
    → has_prefix p virtual_private_user_path ≡ true
    → trim_prefix p virtual_private_user_path ≡ drop 7 p
unfolding trim_prefix virtual_private_user_path
trim_private p t = rw t refl

inside_user :
    (p : Text) → IsCanonical p → has_prefix p virtual_private_user_path ≡ true → Inner (drop 7 p)
unfolding virtual_private_user_path
inside_user p c h =
    canonical-Inner (codes ".user") (drop 7 p) p (λ e. absurd cc)
      (omega arith, (omega arith, (omega arith, (omega arith, (omega arith, tt))))) c
      (sym (append-drop_of_has_prefix p (codes "/.user/") h))

picked-IsCanonical :
    (b c : Bool) (t q : Text) → (c ≡ true → Inner t) → picked b c t ≡ resolved q → IsCanonical q
unfolding picked internal_user_path
picked-IsCanonical true c t q i h = subst IsCanonical (resolved_injective _ _ h) (
    behind_two-IsCanonical (codes ".domus") (codes "user") [] IsSegment-domus IsSegment-user
      nothing_inside)
picked-IsCanonical false true t q i h =
    subst IsCanonical (resolved_injective _ _ h) (internal_target-IsCanonical t (i refl))
picked-IsCanonical false false t q i h = cc

internal_path-IsCanonical :
    (p q : Text)
    → has_nul p ≡ false
    → resolve_internal_application_path p ≡ resolved q
    → IsCanonical q
internal_path-IsCanonical p q n h =
    picked-IsCanonical _ _ _ q inner (sym (internal_path_eq p n) ∙ h)
  where
    inner :
        has_prefix (normalize_app_path p) virtual_private_user_path ≡ true
        → Inner (trim_prefix (normalize_app_path p) virtual_private_user_path)
    inner t =
        subst Inner (sym (trim_private (normalize_app_path p) t))
          (inside_user (normalize_app_path p) (normalize_app_path-IsCanonical p) t)

-- A path that is resolved for internal use is canonical, lies below the private directories of
-- the user, is internal, and has no public form.
pub resolve_internal_application_path-IsPrivate :
    (p q : Text)
    → resolve_internal_application_path p ≡ resolved q
    → IsCanonical q × IsPrivate q × (is_internal_storage_path q ≡ true) × (to_app_path q ≡ [])
unfolding to_app_path
resolve_internal_application_path-IsPrivate p q h = (canonical, private, internal, rw internal refl)
  where
    clash : forbidden invalid_path ≡ resolved q → ⊥
    clash e = cc

    private : IsPrivate q
    private = elim (Bool-cases (has_nul p)) [
      | inl t ↦ absurd (clash (sym (internal_path_nul p t) ∙ h))
      | inr f ↦ picked-IsPrivate _ _ _ q (sym (internal_path_eq p f) ∙ h)
    ]

    canonical : IsCanonical q
    canonical = elim (Bool-cases (has_nul p)) [
      | inl t ↦ absurd (clash (sym (internal_path_nul p t) ∙ h))
      | inr f ↦ internal_path-IsCanonical p q f h
    ]

    internal : is_internal_storage_path q ≡ true
    internal = is_internal_of_private q private
