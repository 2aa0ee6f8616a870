-- ===== src/Handler/Admin/Remains.antt =====
-- A root user always remains (internal/handler/admin.go and admin_root_guard.go).
use domus.Prelude.{
  ℕ, ◌≤◌, leb, Text, codes, str_eq, is_empty, Bool, true, false, not, ◌||◌, ◌≡◌, refl, sym, ap,
  subst, ◌∙◌, inl, inr, Bool-cases, Option-cases, Option, none, some, List, [], ◌∷◌, if◌then◌else◌,
  arith,
}
use domus.Dict.{find, lookup, insert, delete}
use domus.Dict.Count.{count_where, count_where-insert_new, count_where-delete}
use domus.Model.Result.{
  Result, RepoError, ok, err, or_keep, after, record_not_found, username_exists,
}
use domus.Model.Modify.{modify, modify_ok, modify_missing}
use domus.Model.User.{
  User, UserRepo, has_username, new_user, remove, create, get_by_id, update_totp, update_email,
  count_by_role,
}
use domus.Model.User.Invariant.{
  Call, IsWf, step-IsWf, create-IsWf, updates_email, updates_totp, removes, step,
}
use domus.Model.Cleanup.{Repos, delete_user_and_related_data}
use domus.Handler.Admin.{
  Reply, valid_username, found_or_missing, created, user_to_delete, user_reset, failed,
  is_valid_user_role, ensure_not_deleting_last_root, revoke_user_sessions, delete_user_completely,
  handle_create_user, handle_update_user, handle_delete_user, handle_reset_user_otp,
  handle_reset_user_email,
}
use domus.Handler.Admin.Roots.{
  is_root, roots, count_roots, same_role, HasRoot, enough_after, passes_deletion, read_user,
  handle_update_user_keeps,
}

no_result : {A : Type 0} (x : RepoError) (a : A) → err x ≡ ok a → ⊥
no_result x a h = cc

-- What `Create` stores.
create_ok :
    (username : Text) (hash : Result Text) (role kek id : Text) (now : ℕ) (users users' : UserRepo)
    (user : User)
    → create username hash role kek id now users ≡ ok (user, users')
    → (u : User) × (users' ≡ insert id u users)
unfolding create
create_ok username hash role kek id now users users' user e =
    elim (Option-cases (find (has_username username) users)) [
      | inr (f, s) ↦ absurd (no_result username_exists (user, users') (sym (name_taken f s) ∙ e))
      | inl n ↦ go hash n e
    ]
  where
    name_taken :
        (f : Text × User)
        → find (has_username username) users ≡ some f
        → create username hash role kek id now users ≡ err username_exists
    name_taken f s = rw (s, create) refl

    hash_failed :
        (x : RepoError)
        → find (has_username username) users ≡ none
        → create username (err x) role kek id now users ≡ err x
    hash_failed x n = rw (n, create) refl

    stored :
        (h : Text)
        → find (has_username username) users ≡ none
        → create username (ok h) role kek id now users
          ≡ ok (
            new_user id username h role kek now,
            insert id (new_user id username h role kek now) users,
          )
    stored h n = rw (n, create) refl

    go :
        (hash' : Result Text)
        → find (has_username username) users ≡ none
        → create username hash' role kek id now users ≡ ok (user, users')
        → (u : User) × (users' ≡ insert id u users)
    go (err x) n c = absurd (no_result x (user, users') (sym (hash_failed x n) ∙ c))
    go (ok h) n c =
        (new_user id username h role kek now, sym (ap (after users) (sym (stored h n) ∙ c)))

created_keeps :
    (username : Text) (hash : Result Text) (role kek id : Text) (now : ℕ) (namespace : Option Bool)
    (r : Repos) (res : Result (User × UserRepo))
    → create username hash role kek id now r.users ≡ res
    → lookup id r.users ≡ none
    → HasRoot r.users
    → HasRoot (created username namespace r res).1.users
unfolding created
created_keeps username hash role kek id now namespace r (err record_not_found) e n h = h
created_keeps username hash role kek id now namespace r (err username_exists) e n h = h
created_keeps username hash role kek id now namespace r (err x) e n h = h
created_keeps username hash role kek id now namespace r (ok (user, users)) e n h =
    let (u, same) = create_ok username hash role kek id now r.users users user e in
    record {
      wf =
          subst IsWf (ap (after r.users) e)
            (create-IsWf username hash role kek id now r.users h.wf);
      root =
          subst (λ m. 1 ≤ roots m) (sym same)
            (unfold roots in omega (arith, count_where-insert_new is_root id u r.users n, h.root));
    }

deletion_keeps :
    (user : User) (users : UserRepo)
    → lookup user.id users ≡ some user
    → is_empty (ensure_not_deleting_last_root users user) ≡ true
    → IsWf users
    → 1 ≤ roots users
    → 1 ≤ roots (delete user.id users)
unfolding ensure_not_deleting_last_root roots count_where count_by_role
deletion_keeps user users l g w h =
    enough_after (is_root user) (count_where is_root users) _
      (count_where-delete is_root user.id user users w.is_map l)
      (passes_deletion (is_root user) (leb (roots users) 1) g) h

delete-users :
    (user : User) (r : Repos) → (delete_user_completely user r).users ≡ delete user.id r.users
unfolding delete_user_completely delete_user_and_related_data revoke_user_sessions
delete-users user r = refl

deleted :
    (user : User) (r : Repos)
    → lookup user.id r.users ≡ some user
    → is_empty (ensure_not_deleting_last_root r.users user) ≡ true
    → HasRoot r.users
    → HasRoot (delete user.id r.users)
unfolding step remove
deleted user r l g h = record {
  wf = step-IsWf (removes user.id) r.users h.wf;
  root = deletion_keeps user r.users l g h.wf h.root;
}

deleted_keeps :
    (id : Text) (r : Repos) (res : Result User)
    → get_by_id id r.users ≡ res
    → HasRoot r.users
    → HasRoot (user_to_delete r res).1.users
unfolding user_to_delete
deleted_keeps id r (err x) e h = h
deleted_keeps id r (ok user) e h =
    elim (Bool-cases (is_empty (ensure_not_deleting_last_root r.users user))) [
      | inl t ↦ rw t (subst HasRoot (sym (delete-users user r)) (deleted user r own t h))
      | inr f ↦ rw f h
    ]
  where
    stored : lookup id r.users ≡ some user
    stored = read_user id user r.users e

    own : lookup user.id r.users ≡ some user
    own = subst (λ i. lookup i r.users ≡ some user) (h.wf.keyed id user stored) stored

reset_keeps :
    (id : Text) (r : Repos) (c : Call) (res : Result UserRepo)
    → or_keep r.users res ≡ step c r.users
    → roots (or_keep r.users res) ≡ roots r.users
    → HasRoot r.users
    → HasRoot (user_reset id r res).1.users
unfolding user_reset revoke_user_sessions
reset_keeps id r c (err x) e f h = h
reset_keeps id r c (ok users) e f h = record {
  wf = subst IsWf (sym e) (step-IsWf c r.users h.wf);
  root = subst (λ n. 1 ≤ n) (sym f) h.root;
}

-- A request of an administrator, with what its handler got from packages bcrypt, rand and uuid and
-- from the namespace service.
pub data Request : Type 0 where
  creates_user : Text → Text → Text → Result Text → Result Text → Text → ℕ → Option Bool → Request
  updates_user : Text → Text → Text → Result Text → Request
  deletes_user : Text → Text → Request
  resets_otp resets_email : Text → Request

unfoldable pub serve : Request → Repos → Reply × Repos
serve (creates_user name password role kek hash id now namespace) r =
    handle_create_user name password role kek hash id now namespace r
serve (updates_user id role password hash) r = handle_update_user id role password hash r
serve (deletes_user id session_user_id) r = handle_delete_user id session_user_id r
serve (resets_otp id) r = handle_reset_user_otp id r
serve (resets_email id) r = handle_reset_user_email id r

unfoldable pub serve_all : List Request → Repos → Repos
serve_all [] r = r
serve_all (q ∷ qs) r = serve_all qs (serve q r).1

-- The id of a user that is created is new (package uuid).
abbrev pub IsFresh : Request → Repos → Type 0
IsFresh (creates_user name password role kek hash id now namespace) r = lookup id r.users ≡ none
IsFresh _ r = Unit

unfoldable pub AreFresh : List Request → Repos → Type 0
AreFresh [] r = Unit
AreFresh (q ∷ qs) r = IsFresh q r × AreFresh qs (serve q r).1

create_keeps :
    (name password role : Text) (kek hash : Result Text) (id : Text) (now : ℕ)
    (namespace : Option Bool) (r : Repos)
    → lookup id r.users ≡ none
    → HasRoot r.users
    → HasRoot (handle_create_user name password role kek hash id now namespace r).1.users
unfolding handle_create_user
create_keeps name password role kek hash id now namespace r n h =
    elim (Bool-cases (is_empty name || is_empty password)) [
      | inl t ↦ rw t h
      | inr f ↦ elim (Bool-cases (not (valid_username name))) [
        | inl t ↦ rw (f, t) h
        | inr g ↦ elim (Bool-cases (not (is_valid_user_role role'))) [
          | inl t ↦ rw (f, g, t) h
          | inr k ↦ rw (f, g, k) (with_key kek)
        ]
      ]
    ]
  where
    role' : Text
    role' = if is_empty role then codes "user" else role

    keyed : Result Text → Reply × Repos
    keyed (err _) = (failed 500 (codes "key_generation_failed"), r)
    keyed (ok k) = created name namespace r (create name hash role' k id now r.users)

    with_key : (res : Result Text) → HasRoot (keyed res).1.users
    with_key (err x) = h
    with_key (ok k) =
        created_keeps name hash role' k id now namespace r (create name hash role' k id now r.users)
          refl n h

read_then :
    (res : Result User) (x : Reply × Repos) (r : Repos)
    → HasRoot r.users
    → HasRoot x.1.users
    → HasRoot (found_or_missing res x r).1.users
unfolding found_or_missing
read_then (err y) x r h k = h
read_then (ok u) x r h k = k

roots-modify :
    (id : Text) (f : User → User) (users : UserRepo)
    → ((u : User) → (f u).role ≡ u.role)
    → roots (or_keep users (modify id f users)) ≡ roots users
roots-modify id f users same = elim (Option-cases (lookup id users)) [
  | inl n ↦ rw (modify_missing id f users n) refl
  | inr (u, l) ↦ rw (modify_ok id f users l) (same_role id (f u) u users l (same u))
]

serve_keeps :
    (q : Request) (r : Repos) → IsFresh q r → HasRoot r.users → HasRoot (serve q r).1.users
unfolding serve update_totp update_email step handle_delete_user handle_reset_user_otp
    handle_reset_user_email
serve_keeps (creates_user name password role kek hash id now namespace) r f h =
    create_keeps name password role kek hash id now namespace r f h
serve_keeps (updates_user id role password hash) r f h =
    handle_update_user_keeps id role password hash r h
serve_keeps (deletes_user id session_user_id) r f h = elim (Bool-cases (is_empty id)) [
  | inl t ↦ rw t h
  | inr e ↦ elim (Bool-cases (str_eq id session_user_id)) [
    | inl t ↦ rw (e, t) h
    | inr g ↦ rw (e, g) (deleted_keeps id r (get_by_id id r.users) refl h)
  ]
]
serve_keeps (resets_otp id) r f h =
    read_then (get_by_id id r.users) (user_reset id r (update_totp id [] false r.users)) r h (
      reset_keeps id r (updates_totp id [] false) (update_totp id [] false r.users) refl
        (roots-modify id (λ u. record u { totp_secret = []; totp_enabled = false }) r.users
          (λ u. refl))
        h)
serve_keeps (resets_email id) r f h =
    read_then (get_by_id id r.users) (user_reset id r (update_email id [] r.users)) r h (
      reset_keeps id r (updates_email id []) (update_email id [] r.users) refl
        (roots-modify id (λ u. record u { email = [] }) r.users (λ u. refl)) h)

-- Any sequence of requests that create, change, delete or reset users, each served to its end
-- before the next one begins, keeps the user repository well formed and at least one root user in
-- it, where each new user's id is not taken and there is a root user at the start.
pub root_remains :
    (qs : List Request) (r : Repos)
    → AreFresh qs r
    → IsWf r.users
    → 1 ≤ count_by_role (codes "root") r.users
    → IsWf (serve_all qs r).users × (1 ≤ count_by_role (codes "root") (serve_all qs r).users)
unfolding serve_all AreFresh
root_remains [] r f w h = (w, h)
root_remains (q ∷ qs) r f w h =
    let k : HasRoot (serve q r).1.users =
      serve_keeps q r f.0 (record { wf = w; root = subst (λ n. 1 ≤ n) (count_roots r.users) h }) in
    root_remains qs (serve q r).1 f.1 k.wf
      (subst (λ n. 1 ≤ n) (sym (count_roots (serve q r).1.users)) k.root)
