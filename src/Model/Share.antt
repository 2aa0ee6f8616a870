-- ===== src/Model/Share.antt =====
-- The share repository: internal/model/share.go, `memShareRepo` of internal/model/mem_repos.go,
-- and the guards of internal/model/repo_share.go. A nil pointer is `none`.
pub mod Invariant
pub mod Laws
pub mod Listing
mod Examples
use domus.Prelude.{
  ℕ, ltb, ◌==◌, Text, str_eq, ℤ, pos, int_eq, is_nonpositive, int64_succ, Bool, true, false, ◌&&◌,
  ◌||◌, Option, none, some, List, [], ◌∷◌, map, sort_by, if◌then◌else◌,
}
use domus.Dict.{
  Dict, lookup, insert, delete, delete_where, values_where, find, update_where, map_values,
}
use domus.Model.Result.{Result, ok, err, record_not_found, invalid_share_inode}
use domus.Model.Modify.{modify}
use domus.Model.User.{UserRepo}

pub record Share : Type 0 where
  pub id : ℤ
  pub share_id : Text
  pub owner_id : Text
  pub file_inode : ℤ
  pub file_path : Text
  pub file_name : Text
  pub file_size : ℤ
  pub content_type : Text
  pub target_user_id : Text
  pub wrapped_dek : Text
  pub permission : Text
  pub expires_at : Option ℕ
  pub created_at : ℕ

pub record ShareFileView : Type 0 where
  pub share : Share
  pub owner_username : Text

pub record ShareRepo : Type 0 where
  pub entries : Dict Share
  pub next_id : ℤ

-- The share as it is stored: a zero id is replaced by the next one, a zero time by the clock's.
unfoldable pub stamp : Share → ℤ → ℕ → Share
stamp share next_id now = record share {
  id = if int_eq share.id (pos 0) then next_id else share.id;
  created_at = if share.created_at == 0 then now else share.created_at;
}

-- The caller's share is overwritten with the stored one, which is returned.
unfoldable pub create : Option Share → ℕ → ShareRepo → Result (Share × ShareRepo)
create none now r = err invalid_share_inode
create (some share) now r =
    if is_nonpositive share.file_inode
    then err invalid_share_inode
    else ok (
      stamp share r.next_id now,
      record {
        entries = insert share.share_id (stamp share r.next_id now) r.entries;
        next_id = if int_eq share.id (pos 0) then int64_succ r.next_id else r.next_id;
      },
    )

unfoldable pub get_by_id : Text → ShareRepo → Result Share
get_by_id share_id r = elim (lookup share_id r.entries) [
  | none ↦ err record_not_found
  | some s ↦ ok s
]

unfoldable get_by_database_id : ℤ → ShareRepo → Result Share
get_by_database_id id r = elim (find (λ _ s. int_eq s.id id) r.entries) [
  | none ↦ err record_not_found
  | some (_, s) ↦ ok s
]

-- `s.ExpiresAt == nil || s.ExpiresAt.After(now)`
abbrev pub is_live : ℕ → Option ℕ → Bool
is_live now none = true
is_live now (some t) = ltb now t

abbrev pub later : Share → Share → Bool
later a b = ltb b.created_at a.created_at

abbrev pub owned_live : Text → ℕ → Text → Share → Bool
owned_live owner_id now _ s = str_eq s.owner_id owner_id && is_live now s.expires_at

abbrev pub target_live : Text → ℕ → Text → Share → Bool
target_live target_user_id now _ s =
    str_eq s.target_user_id target_user_id && is_live now s.expires_at

unfoldable pub list_owned_by_user : Text → ℕ → ShareRepo → List Share
list_owned_by_user owner_id now r = sort_by later (values_where (owned_live owner_id now) r.entries)

unfoldable pub list_for_user : Text → ℕ → ShareRepo → List Share
list_for_user target_user_id now r =
    sort_by later (values_where (target_live target_user_id now) r.entries)

unfoldable view_of : UserRepo → Share → ShareFileView
view_of users s = record {
  share = s;
  owner_username = elim (lookup s.owner_id users) [ none ↦ [] | some u ↦ u.username ];
}

unfoldable list_as_files : Text → ℕ → UserRepo → ShareRepo → List ShareFileView
list_as_files target_user_id now users r =
    sort_by (λ a b. later a.share b.share)
      (map (view_of users) (values_where (target_live target_user_id now) r.entries))

-- The share of that id, if the user owns it or is its target.
abbrev pub is_party : ℤ → Text → Text → Share → Bool
is_party id user_id _ s =
    int_eq s.id id && (str_eq s.owner_id user_id || str_eq s.target_user_id user_id)

unfoldable pub remove : ℤ → Text → ShareRepo → Bool × ShareRepo
remove id user_id r = elim (find (is_party id user_id) r.entries) [
  | none ↦ (false, r)
  | some (k, _) ↦ (true, record r { entries = delete k r.entries })
]

unfoldable pub update_file_size : Text → ℤ → ShareRepo → Result ShareRepo
update_file_size share_id new_size r = elim (lookup share_id r.entries) [
  | none ↦ err record_not_found
  | some s ↦
      ok (record r { entries = insert share_id (record s { file_size = new_size }) r.entries })
]

abbrev pub is_of_inode : Text → ℤ → Share → Bool
is_of_inode owner_id inode s = str_eq s.owner_id owner_id && int_eq s.file_inode inode

unfoldable pub sync_by_inode : Text → ℤ → Text → Text → ℤ → Text → ShareRepo → ShareRepo
sync_by_inode owner_id inode file_path file_name file_size content_type r = record r {
  entries =
      update_where (is_of_inode owner_id inode)
        (λ s. record s {
          file_path = file_path;
          file_name = file_name;
          file_size = file_size;
          content_type = content_type;
        })
        r.entries;
}

unfoldable pub delete_by_inode : Text → ℤ → ShareRepo → ShareRepo
delete_by_inode owner_id inode r = record r {
  entries = delete_where (λ _ s. is_of_inode owner_id inode s) r.entries;
}

-- The database repository's methods return early for an inode that is not positive.
unfoldable pub guarded_delete_by_inode : Text → ℤ → ShareRepo → ShareRepo
guarded_delete_by_inode owner_id inode r =
    if is_nonpositive inode then r else delete_by_inode owner_id inode r

unfoldable pub guarded_sync_by_inode : Text → ℤ → Text → Text → ℤ → Text → ShareRepo → ShareRepo
guarded_sync_by_inode owner_id inode file_path file_name file_size content_type r =
    if is_nonpositive inode
    then r
    else sync_by_inode owner_id inode file_path file_name file_size content_type r
