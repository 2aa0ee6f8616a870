-- ===== src/Handler/Admin/Roots.antt =====
-- Changing a user keeps a root user (internal/handler/admin.go and admin_root_guard.go).
use domus.Prelude.{
  ℕ, ◌+◌, ◌≤◌, leb, Text, codes, str_eq, is_empty, Bool, true, false, not, ◌&&◌, ◌||◌, ◌≡◌, refl,
  sym, ap, subst, ◌∙◌, ◌⊎◌, inl, inr, Bool-cases, Option-cases, some, [], if◌then◌else◌, arith,
}
use domus.Dict.{lookup, insert}
use domus.Dict.Lookup.{lookup-insert_self}
use domus.Dict.Count.{one_if, count_where, count_where-insert}
use domus.Model.Result.{Result, ok, err, or_keep}
use domus.Model.Modify.{modify_ok}
use domus.Model.User.{User, UserRepo, get_by_id, update_password, update_role, count_by_role}
use domus.Model.User.Invariant.{IsWf, step-IsWf, updates_role, updates_password, step}
use domus.Model.Cleanup.{Repos}
use domus.Handler.Admin.{
  is_valid_user_role, ensure_not_demoting_last_root, revoke_user_sessions, role_updated,
  password_updated, user_read, set_role, check_role, handle_update_user,
}

abbrev pub is_root : User → Bool
is_root u = str_eq u.role (codes "root")

unfoldable pub roots : UserRepo → ℕ
roots users = count_where is_root users

pub count_roots : (users : UserRepo) → count_by_role (codes "root") users ≡ roots users
unfolding roots count_by_role count_where
count_roots users = refl

-- The users are well formed, and one of them at least is a root.
pub record HasRoot (users : UserRepo) : Type 0 where
  pub wf : IsWf users
  pub root : 1 ≤ roots users

-- A stored user that replaces one with the same role.
pub same_role :
    (id : Text) (u w : User) (users : UserRepo)
    → lookup id users ≡ some w
    → u.role ≡ w.role
    → roots (insert id u users) ≡ roots users
unfolding roots
same_role id u w users l e =
    omega (
      arith,
      count_where-insert is_root id u w users l,
      ap (λ x. one_if (str_eq x (codes "root"))) e,
    )

passes_demotion :
    (a b c : Bool)
    → is_empty (if not a || b then [] else if c then codes "cannot_demote_last_root" else []) ≡ true
    → (a ≡ false) ⊎ ((b ≡ true) ⊎ (c ≡ false))
unfolding is_empty
passes_demotion false b c h = inl refl
passes_demotion true true c h = inr (inl refl)
passes_demotion true false true h = cc
passes_demotion true false false h = inr (inr refl)

pub passes_deletion :
    (a c : Bool)
    → is_empty (if not a then [] else if c then codes "cannot_delete_last_root" else []) ≡ true
    → (a ≡ false) ⊎ (c ≡ false)
unfolding is_empty
passes_deletion false c h = inl refl
passes_deletion true true h = cc
passes_deletion true false h = inr refl

enough_roots :
    (a b : Bool) (before later : ℕ)
    → later + one_if a ≡ before + one_if b
    → (a ≡ false) ⊎ ((b ≡ true) ⊎ (leb before 1 ≡ false))
    → 1 ≤ before
    → 1 ≤ later
enough_roots false b before later e c h = omega arith
enough_roots true true before later e c h = omega arith
enough_roots true false before later e (inl n) h = cc
enough_roots true false before later e (inr (inl n)) h = cc
enough_roots true false before later e (inr (inr n)) h = ground (arith, e, n)

pub enough_after :
    (a : Bool) (before later : ℕ)
    → later + one_if a ≡ before
    → (a ≡ false) ⊎ (leb before 1 ≡ false)
    → 1 ≤ before
    → 1 ≤ later
enough_after false before later e c h = omega arith
enough_after true before later e (inl n) h = cc
enough_after true before later e (inr n) h = ground (arith, e, n)

-- What the guard lets through.
demotion_keeps :
    (user w : User) (role : Text) (users : UserRepo)
    → lookup user.id users ≡ some w
    → user.role ≡ w.role
    → is_empty (ensure_not_demoting_last_root users user role) ≡ true
    → 1 ≤ roots users
    → 1 ≤ roots (insert user.id (record w { role = role }) users)
unfolding ensure_not_demoting_last_root roots count_where count_by_role
demotion_keeps user w role users l e g h =
    enough_roots (is_root w) (str_eq role (codes "root")) (count_where is_root users) _
      (count_where-insert is_root user.id (record w { role = role }) w users l)
      (subst
        (λ x.
          (str_eq x (codes "root") ≡ false)
          ⊎ ((str_eq role (codes "root") ≡ true) ⊎ (leb (roots users) 1 ≡ false)))
        e (passes_demotion (is_root user) (str_eq role (codes "root")) (leb (roots users) 1) g))
      h

chosen_role : User → Text → Text
chosen_role user body_role = if is_empty body_role then user.role else body_role

revoke-users :
    (b : Bool) (id : Text) (r : Repos)
    → (if b then revoke_user_sessions id r else r).users ≡ r.users
unfolding revoke_user_sessions
revoke-users true id r = refl
revoke-users false id r = refl

role_updated-users :
    (user : User) (body_role : Text) (users : UserRepo) (r : Repos) (res : Result UserRepo)
    → (role_updated user body_role users r res).1.users ≡ or_keep users res
unfolding role_updated
role_updated-users user body_role users r (err x) = refl
role_updated-users user body_role users r (ok u) =
    revoke-users (not (is_empty body_role) && not (str_eq body_role user.role)) user.id
      (record r { users = u })

set_role-users :
    (user : User) (body_role : Text) (users : UserRepo) (r : Repos)
    → (set_role user body_role users r).1.users
      ≡ or_keep users (update_role user.id (chosen_role user body_role) users)
unfolding set_role chosen_role
set_role-users user body_role users r =
    role_updated-users user body_role users r
      (update_role user.id (chosen_role user body_role) users)

pub changed :
    (id role : Text) (w : User) (users : UserRepo)
    → lookup id users ≡ some w
    → or_keep users (update_role id role users) ≡ insert id (record w { role = role }) users
unfolding update_role
changed id role w users l =
    ap (or_keep users) (modify_ok id (λ u. record u { role = role }) users l)

chosen_keeps :
    (user w : User) (body_role : Text) (users : UserRepo)
    → lookup user.id users ≡ some w
    → user.role ≡ w.role
    → (is_empty body_role ≡ true)
      ⊎ (is_empty (ensure_not_demoting_last_root users user body_role) ≡ true)
    → 1 ≤ roots users
    → 1 ≤ roots (insert user.id (record w { role = chosen_role user body_role }) users)
unfolding chosen_role
chosen_keeps user w body_role users l e g h = elim (Bool-cases (is_empty body_role)) [
  | inl t ↦
      rw t
        (subst (λ n. 1 ≤ n) (sym (same_role user.id (record w { role = user.role }) w users l e)) h)
  | inr f ↦ elim g [
    | inl t ↦ absurd (clash t f)
    | inr p ↦ rw f (demotion_keeps user w body_role users l e p h)
  ]
]
  where
    clash : is_empty body_role ≡ true → is_empty body_role ≡ false → ⊥
    clash t f = cc

update_role_keeps :
    (user w : User) (body_role : Text) (users : UserRepo)
    → lookup user.id users ≡ some w
    → user.role ≡ w.role
    → (is_empty body_role ≡ true)
      ⊎ (is_empty (ensure_not_demoting_last_root users user body_role) ≡ true)
    → HasRoot users
    → HasRoot (or_keep users (update_role user.id (chosen_role user body_role) users))
unfolding step
update_role_keeps user w body_role users l e g h = record {
  wf = step-IsWf (updates_role user.id (chosen_role user body_role)) users h.wf;
  root =
      subst (λ x. 1 ≤ roots x) (sym (changed user.id (chosen_role user body_role) w users l))
        (chosen_keeps user w body_role users l e g h.root);
}

set_role_keeps :
    (user w : User) (body_role : Text) (users : UserRepo) (r : Repos)
    → lookup user.id users ≡ some w
    → user.role ≡ w.role
    → (is_empty body_role ≡ true)
      ⊎ (is_empty (ensure_not_demoting_last_root users user body_role) ≡ true)
    → HasRoot users
    → HasRoot (set_role user body_role users r).1.users
set_role_keeps user w body_role users r l e g h =
    subst HasRoot (sym (set_role-users user body_role users r))
      (update_role_keeps user w body_role users l e g h)

check_role_keeps :
    (user w : User) (body_role : Text) (users : UserRepo) (r : Repos)
    → lookup user.id users ≡ some w
    → user.role ≡ w.role
    → HasRoot users
    → HasRoot (check_role user body_role users r).1.users
unfolding check_role
check_role_keeps user w body_role users r l e h = elim (Bool-cases (is_empty body_role)) [
  | inl t ↦ rw t (set_role_keeps user w body_role users r l e (inl t) h)
  | inr f ↦ elim (Bool-cases (not (is_valid_user_role body_role))) [
    | inl t ↦ rw (f, t) h
    | inr v ↦ elim (Bool-cases (is_empty (ensure_not_demoting_last_root users user body_role))) [
      | inl t ↦ rw (f, v, t) (set_role_keeps user w body_role users r l e (inr t) h)
      | inr n ↦ rw (f, v, n) h
    ]
  ]
]

-- What was read is what is stored.
pub read_user :
    (id : Text) (user : User) (users : UserRepo)
    → get_by_id id users ≡ ok user
    → lookup id users ≡ some user
unfolding get_by_id
read_user id user users h = elim (Option-cases (lookup id users)) [
  | inl n ↦ ground (arith, n, h)
  | inr (u, l) ↦ ground (arith, l, h)
]

-- A password that was set leaves the role.
password_set :
    (id : Text) (u : User) (hash : Result Text) (users users' : UserRepo)
    → lookup id users ≡ some u
    → update_password id hash users ≡ ok users'
    → HasRoot users
    → ((w : User) × (lookup id users' ≡ some w) × (u.role ≡ w.role)) × HasRoot users'
unfolding update_password
password_set id u (err x) users users' l e h = absurd (clash (sym failing ∙ e))
  where
    failing : update_password id (err x) users ≡ err x
    failing = rw (l, update_password) refl

    clash : err x ≡ ok users' → ⊥
    clash c = cc
password_set id u (ok p) users users' l e h = ((w, found, refl), record { wf = well; root = root })
  where
    w : User
    w = record u { password_hash = p }

    stored_ok : update_password id (ok p) users ≡ ok (insert id w users)
    stored_ok = rw (l, update_password) refl

    stored : insert id w users ≡ users'
    stored = cc (stored_ok, e)

    found : lookup id users' ≡ some w
    found = subst (λ m. lookup id m ≡ some w) stored (lookup-insert_self id w users)

    well : IsWf users'
    well =
        subst IsWf (ap (or_keep users) e)
          (unfold step in (step-IsWf (updates_password id (ok p)) users h.wf))

    root : 1 ≤ roots users'
    root =
        subst (λ m. 1 ≤ roots m) stored
          (subst (λ n. 1 ≤ n) (sym (same_role id w u users l refl)) h.root)

password_updated_keeps :
    (user : User) (body_role : Text) (hash : Result Text) (r : Repos) (res : Result UserRepo)
    → lookup user.id r.users ≡ some user
    → update_password user.id hash r.users ≡ res
    → HasRoot r.users
    → HasRoot (password_updated user body_role r res).1.users
unfolding password_updated
password_updated_keeps user body_role hash r (err x) l e h = h
password_updated_keeps user body_role hash r (ok users) l e h =
    let ((w, found, role), h') = password_set user.id user hash r.users users l e h in
    check_role_keeps user w body_role users r found role h'

user_read_keeps :
    (id body_role body_password : Text) (hash : Result Text) (r : Repos) (res : Result User)
    → get_by_id id r.users ≡ res
    → HasRoot r.users
    → HasRoot (user_read body_role body_password hash r res).1.users
unfolding user_read
user_read_keeps id body_role body_password hash r (err x) e h = h
user_read_keeps id body_role body_password hash r (ok user) e h =
    elim (Bool-cases (is_empty body_password)) [
      | inl t ↦ rw t (check_role_keeps user user body_role r.users r own refl h)
      | inr f ↦ rw f (
          password_updated_keeps user body_role hash r (update_password user.id hash r.users) own
            refl h)
    ]
  where
    stored : lookup id r.users ≡ some user
    stored = read_user id user r.users e

    own : lookup user.id r.users ≡ some user
    own = subst (λ i. lookup i r.users ≡ some user) (h.wf.keyed id user stored) stored

pub handle_update_user_keeps :
    (id body_role body_password : Text) (hash : Result Text) (r : Repos)
    → HasRoot r.users
    → HasRoot (handle_update_user id body_role body_password hash r).1.users
unfolding handle_update_user
handle_update_user_keeps id body_role body_password hash r h = elim (Bool-cases (is_empty id)) [
  | inl t ↦ rw t h
  | inr f ↦ rw f (user_read_keeps id body_role body_password hash r (get_by_id id r.users) refl h)
]
