-- ===== src/Model/User.antt =====
-- The user repository: internal/model/user.go and `memUserRepo` of internal/model/mem_repos.go.
-- The password hash (package bcrypt) and the new id (package uuid) are arguments.
pub mod Invariant
pub mod Identity
use domus.Prelude.{
  ℕ, Text, str_eq, str_lt, Bool, true, false, Option, none, some, List, [], ◌∷◌, length, sort_by,
  if◌then◌else◌,
}
use domus.Dict.{Dict, lookup, insert, delete, values_where, find}
use domus.Model.Result.{Result, ok, err, record_not_found, username_exists}
use domus.Model.Modify.{modify}

pub record User : Type 0 where
  pub id : Text
  pub username : Text
  pub display_name : Text
  pub password_hash : Text
  pub role : Text
  pub email : Text
  pub totp_secret : Text
  pub totp_enabled : Bool
  pub wrapped_kek : Text
  pub created_at : ℕ

abbrev pub UserRepo : Type 0
UserRepo = Dict User

abbrev pub has_username : Text → Text → User → Bool
has_username username _ u = str_eq u.username username

abbrev pub new_user : Text → Text → Text → Text → Text → ℕ → User
new_user id username hash role wrapped_kek now = record {
  id = id;
  username = username;
  display_name = [];
  password_hash = hash;
  role = role;
  email = [];
  totp_secret = [];
  totp_enabled = false;
  wrapped_kek = wrapped_kek;
  created_at = now;
}

-- `hash` is the result of `HashPassword(password)`, and `id` the one of `uuid.New()`.
unfoldable pub create :
    Text → Result Text → Text → Text → Text → ℕ → UserRepo → Result (User × UserRepo)
create username hash role wrapped_kek id now r = elim (find (has_username username) r) [
  | some _ ↦ err username_exists
  | none ↦ elim hash [
    | err e ↦ err e
    | ok h ↦
        let user = new_user id username h role wrapped_kek now in ok (user, insert user.id user r)
  ]
]

unfoldable pub get_by_id : Text → UserRepo → Result User
get_by_id id r = elim (lookup id r) [ none ↦ err record_not_found | some u ↦ ok u ]

unfoldable pub get_by_username : Text → UserRepo → Result User
get_by_username username r = elim (find (has_username username) r) [
  | some (_, u) ↦ ok u
  | none ↦ err record_not_found
]

unfoldable pub list : UserRepo → List User
list r = sort_by (λ a b. str_lt a.id b.id) (values_where (λ _ _. true) r)

unfoldable pub update_role : Text → Text → UserRepo → Result UserRepo
unfolding modify
update_role id role r = modify id (λ u. record u { role = role }) r

unfoldable pub update_password : Text → Result Text → UserRepo → Result UserRepo
update_password id hash r = elim (lookup id r) [
  | none ↦ err record_not_found
  | some u ↦ elim hash [ err e ↦ err e | ok h ↦ ok (insert id (record u { password_hash = h }) r) ]
]

unfoldable pub update_email : Text → Text → UserRepo → Result UserRepo
unfolding modify
update_email id email r = modify id (λ u. record u { email = email }) r

unfoldable pub update_totp : Text → Text → Bool → UserRepo → Result UserRepo
unfolding modify
update_totp id secret enabled r =
    modify id (λ u. record u { totp_secret = secret; totp_enabled = enabled }) r

unfoldable pub update_display_name : Text → Text → UserRepo → Result UserRepo
unfolding modify
update_display_name id display_name r = modify id (λ u. record u { display_name = display_name }) r

unfoldable pub remove : Text → UserRepo → UserRepo
remove id r = delete id r

unfoldable pub count : UserRepo → ℕ
count r = length r

unfoldable pub count_by_role : Text → UserRepo → ℕ
count_by_role role r = length (values_where (λ _ u. str_eq u.role role) r)

unfoldable get_wrapped_kek : Text → UserRepo → Result Text
get_wrapped_kek user_id r = elim (lookup user_id r) [
  | none ↦ err record_not_found
  | some u ↦ ok u.wrapped_kek
]

unfoldable pub set_wrapped_kek : Text → Text → UserRepo → Result UserRepo
unfolding modify
set_wrapped_kek user_id wrapped_kek r =
    modify user_id (λ u. record u { wrapped_kek = wrapped_kek }) r
