-- ===== src/Model/User/Identity.antt =====
-- Names as identities of users: what `GetByUsername` returns.
use domus.Prelude.{
  ℕ, Text, str_eq, eq_iff, false, ◌≡◌, ◌↔◌, refl, sym, ◌∙◌, ap, subst, inl, inr, Option-cases, some,
  arith, if◌then◌else◌,
}
use domus.Dict.{lookup, insert, find}
use domus.Dict.Lookup.{lookup-insert, lookup-insert_self}
use domus.Dict.Every.{Every-lookup}
use domus.Dict.Found.{find_sound, find-none}
use domus.Model.Result.{Result, ok, err, record_not_found}
use domus.Model.User.{User, UserRepo, has_username, new_user, create, get_by_id, get_by_username}
use domus.Model.User.Invariant.{IsWf, create-IsWf}

-- On a well-formed repository `GetByUsername` returns exactly the stored user of that name, in
-- whatever order the map is gone through.
get_by_username_iff :
    (name : Text) (u : User) (r : UserRepo)
    → IsWf r
    → (get_by_username name r ≡ ok u) ↔ ((get_by_id u.id r ≡ ok u) × (u.username ≡ name))
unfolding get_by_username get_by_id
get_by_username_iff name u r w = (there, back)
  where
    there : get_by_username name r ≡ ok u → (get_by_id u.id r ≡ ok u) × (u.username ≡ name)
    there h = elim (Option-cases (find (has_username name) r)) [
      | inl n ↦ absurd (ground arith)
      | inr ((k, v), s) ↦
          let (t, l) = find_sound (has_username name) r w.is_map s in
          let same : v ≡ u = ground arith in
          let key : k ≡ u.id = w.keyed k v l ∙ ap (λ (x : User). x.id) same in
          (
            rw (subst (λ x. lookup x r ≡ some v) key l, get_by_id) (ap ok same),
            ap (λ (x : User). x.username) (sym same) ∙ (eq_iff v.username name).0 t,
          )
    ]

    back : (get_by_id u.id r ≡ ok u) × (u.username ≡ name) → get_by_username name r ≡ ok u
    back (g, e) = elim (Option-cases (lookup u.id r)) [
      | inl n ↦ absurd (ground arith)
      | inr (v, l) ↦
          let same : v ≡ u = ground arith in
          elim (Option-cases (find (has_username name) r)) [
            | inl n ↦ absurd (
                ground (
                  arith,
                  eq_iff u.username name,
                  Every-lookup (λ k x. has_username name k x ≡ false) u.id r
                      (find-none (has_username name) r n) (l ∙ ap some same),
                ))
            | inr ((k, x), s) ↦
                let (t, l') = find_sound (has_username name) r w.is_map s in
                let key : k ≡ u.id =
                  w.one_name k u.id x u l' (l ∙ ap some same)
                    ((eq_iff x.username name).0 t ∙ sym e) in
                rw (s, get_by_username) (ground (arith, key, l, l', same))
          ]
    ]

-- `Create` of a user succeeds exactly when no user has the name and the password can be hashed.
create_iff :
    (name : Text) (hash : Result Text) (role kek id : Text) (now : ℕ) (r : UserRepo)
    → ((u : User) × (r' : UserRepo) × (create name hash role kek id now r ≡ ok (u, r')))
      ↔ ((h : Text) × (hash ≡ ok h) × (get_by_username name r ≡ err record_not_found))
unfolding create get_by_username
create_iff name (err e) role kek id now r = (
  (λ (u, r', h). elim (Option-cases (find (has_username name) r)) [
    | inl n ↦ absurd (ground arith)
    | inr (v, s) ↦ absurd (ground arith)
  ]),
  λ (h, e, _). absurd (ground arith),
)
create_iff name (ok p) role kek id now r = (
  (λ (u, r', h). elim (Option-cases (find (has_username name) r)) [
    | inl n ↦ (p, refl, rw (n, get_by_username))
    | inr (v, s) ↦ absurd (ground arith)
  ]),
  λ (h, e, g). elim (Option-cases (find (has_username name) r)) [
    | inl n ↦ (
      new_user id name p role kek now,
      insert id (new_user id name p role kek now) r,
      rw (n, create),
    )
    | inr ((k, v), s) ↦ absurd (ground arith)
  ],
)

create_ok :
    (name : Text) (hash : Result Text) (role kek id : Text) (now : ℕ) (r : UserRepo) {u : User}
    {r' : UserRepo}
    → create name hash role kek id now r ≡ ok (u, r')
    → (u.id ≡ id) × (u.username ≡ name) × (r' ≡ insert id u r)
unfolding create
create_ok name hash role kek id now r h = elim (Option-cases (find (has_username name) r)) [
  | inl n ↦ (ground arith, ground arith, ground arith)
  | inr (v, s) ↦ absurd (ground arith)
]

-- After a `Create` that succeeds on a well-formed repository the new user is returned for its
-- name and for its id, and the users at other ids are as before.
user_get-create :
    (name : Text) (hash : Result Text) (role kek id j : Text) (now : ℕ) (r : UserRepo) {u : User}
    {r' : UserRepo}
    → IsWf r
    → create name hash role kek id now r ≡ ok (u, r')
    → (get_by_username name r' ≡ ok u)
      × (get_by_id j r' ≡ (if str_eq id j then ok u else get_by_id j r))
unfolding get_by_id
user_get-create name hash role kek id j now r {u} {r'} w h =
    let (i, n, s) = create_ok name hash role kek id now r h in
    let w' : IsWf r' = rw h at (create-IsWf name hash role kek id now r w) in
    let found : get_by_id id r' ≡ ok u = rw (s, lookup-insert_self id u r, get_by_id) in
    (
      (get_by_username_iff name u r' w').1 (subst (λ x. get_by_id x r' ≡ ok u) (sym i) found, n),
      rw s (ground (arith, lookup-insert id j u r)),
    )
