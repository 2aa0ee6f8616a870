-- ===== src/Model/User/Invariant.antt =====
-- What every sequence of calls of `memUserRepo` keeps (internal/model/mem_repos.go).
use domus.Prelude.{
  ℕ, Text, eq_iff, Bool, false, ◌≡◌, refl, sym, ◌∙◌, inl, inr, Option-cases, none, List, [], ◌∷◌,
  arith,
}
use domus.Dict.{lookup, insert, find, IsMap}
use domus.Dict.Keys.{insert-IsMap, delete-IsMap}
use domus.Dict.Every.{Every-lookup}
use domus.Dict.Found.{find-none}
use domus.Dict.Holds.{
  Holds, Unique, Holds-empty, Unique-empty, Holds-insert, Holds-delete, Unique-insert,
  Unique-delete,
}
use domus.Model.Result.{Result, ok, err, after, or_keep}
use domus.Model.Modify.{modify, modify-IsMap, modify-Holds, modify-Unique, modify_ok}
use domus.Model.User.{
  User, UserRepo, has_username, new_user, create, update_role, update_password, update_email,
  update_totp, update_display_name, remove, set_wrapped_kek,
}

abbrev pub SameName : User → User → Type 0
SameName a b = a.username ≡ b.username

-- One entry for an id, each at its user's id, and one user for a name.
pub record IsWf (r : UserRepo) : Type 0 where
  pub is_map : IsMap r
  pub keyed : Holds (λ k u. k ≡ u.id) r
  pub one_name : Unique SameName r

pub empty-IsWf : IsWf []
empty-IsWf = record {
  is_map = tt;
  keyed = Holds-empty (λ k u. k ≡ u.id);
  one_name = Unique-empty SameName;
}

stored-IsWf :
    (u : User) (r : UserRepo)
    → IsWf r
    → find (has_username u.username) r ≡ none
    → IsWf (insert u.id u r)
stored-IsWf u r w n = record {
  is_map = insert-IsMap u.id u r w.is_map;
  keyed = Holds-insert (λ k u. k ≡ u.id) u.id u r refl w.keyed;
  one_name =
      Unique-insert SameName u.id u r (λ a b s. sym s)
        (λ j b _ l s. ground (
          arith,
          eq_iff b.username u.username,
          Every-lookup (λ k v. has_username u.username k v ≡ false) j r
              (find-none (has_username u.username) r n) l,
        ))
        w.one_name;
}

pub create-IsWf :
    (username : Text) (hash : Result Text) (role kek id : Text) (now : ℕ) (r : UserRepo)
    → IsWf r
    → IsWf (after r (create username hash role kek id now r))
unfolding create
create-IsWf username (err e) role kek id now r w =
    elim (Option-cases (find (has_username username) r)) [
      | inr (v, s) ↦ rw (s, create, after) w
      | inl n ↦ rw (n, create, after) w
    ]
create-IsWf username (ok h) role kek id now r w =
    elim (Option-cases (find (has_username username) r)) [
      | inr (v, s) ↦ rw (s, create, after) w
      | inl n ↦ rw (n, create, after) (stored-IsWf (new_user id username h role kek now) r w n)
    ]

-- A change that keeps the id and the name.
abbrev KeepsIdentity : (User → User) → Type 0
KeepsIdentity f = (u : User) → ((f u).id ≡ u.id) × ((f u).username ≡ u.username)

modify-IsWf :
    (k : Text) (f : User → User) (r : UserRepo)
    → KeepsIdentity f
    → IsWf r
    → IsWf (or_keep r (modify k f r))
modify-IsWf k f r keep w = record {
  is_map = modify-IsMap k f r w.is_map;
  keyed = modify-Holds (λ k u. k ≡ u.id) k f r (λ j v e. e ∙ sym (keep v).0) w.keyed;
  one_name = modify-Unique SameName k f r (λ a b s. sym s) (λ a b s. sym (keep a).1 ∙ s) w.one_name;
}

update_password-IsWf :
    (id : Text) (hash : Result Text) (r : UserRepo)
    → IsWf r
    → IsWf (or_keep r (update_password id hash r))
unfolding update_password
update_password-IsWf id (err e) r w = elim (Option-cases (lookup id r)) [
  | inl n ↦ rw (n, update_password, or_keep) w
  | inr (v, s) ↦ rw (s, update_password, or_keep) w
]
update_password-IsWf id (ok h) r w = elim (Option-cases (lookup id r)) [
  | inl n ↦ rw (n, update_password, or_keep) w
  | inr (v, s) ↦
      let change = λ (u : User). record u { password_hash = h } in
      rw (s, update_password, or_keep)
        (rw (modify_ok id change r s) at (modify-IsWf id change r (λ u. (refl, refl)) w))
]

remove-IsWf : (id : Text) (r : UserRepo) → IsWf r → IsWf (remove id r)
unfolding remove
remove-IsWf id r w = record {
  is_map = delete-IsMap id r w.is_map;
  keyed = Holds-delete (λ k u. k ≡ u.id) id r w.keyed;
  one_name = Unique-delete SameName id r w.one_name;
}

-- A call that changes the repository, with what it got from packages bcrypt and uuid.
pub data Call : Type 0 where
  creates : Text → Result Text → Text → Text → Text → ℕ → Call
  updates_password : Text → Result Text → Call
  updates_totp : Text → Text → Bool → Call
  updates_role updates_email updates_display_name sets_wrapped_kek : Text → Text → Call
  removes : Text → Call

unfoldable pub step : Call → UserRepo → UserRepo
step (creates name hash role kek id now) r = after r (create name hash role kek id now r)
step (updates_password id hash) r = or_keep r (update_password id hash r)
step (updates_totp id secret enabled) r = or_keep r (update_totp id secret enabled r)
step (updates_role id role) r = or_keep r (update_role id role r)
step (updates_email id email) r = or_keep r (update_email id email r)
step (updates_display_name id name) r = or_keep r (update_display_name id name r)
step (sets_wrapped_kek id kek) r = or_keep r (set_wrapped_kek id kek r)
step (removes id) r = remove id r

unfoldable pub run : List Call → UserRepo → UserRepo
unfolding step
run [] r = r
run (c ∷ cs) r = run cs (step c r)

pub step-IsWf : (c : Call) (r : UserRepo) → IsWf r → IsWf (step c r)
unfolding step update_role update_email update_totp update_display_name set_wrapped_kek
step-IsWf (creates name hash role kek id now) r w = create-IsWf name hash role kek id now r w
step-IsWf (updates_password id hash) r w = update_password-IsWf id hash r w
step-IsWf (updates_totp id secret enabled) r w = modify-IsWf id _ r (λ u. (refl, refl)) w
step-IsWf (updates_role id role) r w = modify-IsWf id _ r (λ u. (refl, refl)) w
step-IsWf (updates_email id email) r w = modify-IsWf id _ r (λ u. (refl, refl)) w
step-IsWf (updates_display_name id name) r w = modify-IsWf id _ r (λ u. (refl, refl)) w
step-IsWf (sets_wrapped_kek id kek) r w = modify-IsWf id _ r (λ u. (refl, refl)) w
step-IsWf (removes id) r w = remove-IsWf id r w

-- Any sequence of calls of the user repository keeps a well-formed repository well formed: one
-- entry for an id, each at its user's id, and no two users with one name.
pub user_run-IsWf : (cs : List Call) (r : UserRepo) → IsWf r → IsWf (run cs r)
unfolding run
user_run-IsWf [] r w = w
user_run-IsWf (c ∷ cs) r w = user_run-IsWf cs (step c r) (step-IsWf c r w)
