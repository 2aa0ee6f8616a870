-- ===== src/Model/Trash.antt =====
-- The trash repository: internal/model/trash.go and `memTrashRepo` of internal/model/mem_repos.go.
-- A method takes the repository and the clock that it reads, and returns the new repository.
-- `time.Time` is the number of nanoseconds since the zero time, so `IsZero` is `== 0`.
pub mod Invariant
pub mod Transitions
pub mod Listing
mod Examples
use domus.Prelude.{
  ℕ, zero, ◌==◌, ltb, leb, Text, codes, str_eq, str_lt, is_empty, ℤ, pos, int_eq, int_lt,
  is_nonpositive, to_index, Bool, true, false, not, ◌&&◌, ◌||◌, Option, none, some, List, [], ◌∷◌,
  ◌++◌, length, take, drop, sort_by, if◌then◌else◌,
}
use domus.Dict.{Dict, lookup, insert, delete, delete_where, values_where, find}
use domus.Model.Result.{Result, ok, err, record_not_found, duplicated_key, trash_state_conflict}

unfoldable pub state_pending : Text
state_pending = codes "pending"

unfoldable pub state_ready : Text
state_ready = codes "ready"

unfoldable pub state_restoring : Text
state_restoring = codes "restoring"

unfoldable pub state_deleting : Text
state_deleting = codes "deleting"

pub record TrashEntry : Type 0 where
  pub id : Text
  pub user_id : Text
  pub root_inode : ℤ
  pub original_path : Text
  pub original_name : Text
  pub is_dir : Bool
  pub size : ℤ
  pub state : Text
  pub operation_inode : ℤ
  pub operation_path : Text
  pub target_path : Text
  pub deleted_at : ℕ
  pub created_at : ℕ
  pub updated_at : ℕ

abbrev pub TrashRepo : Type 0
TrashRepo = Dict TrashEntry

unfoldable pub trash_key : Text → Text → Text
trash_key user_id id = user_id ++ (codes ":" ++ id)

abbrev pub same_root : TrashEntry → Text → TrashEntry → Bool
same_root entry _ existing =
    str_eq existing.user_id entry.user_id && int_eq existing.root_inode entry.root_inode

-- The entry as it is stored: `copy` of `Create`.
unfoldable pub stamp : TrashEntry → ℕ → TrashEntry
stamp entry now = record entry {
  deleted_at = if entry.deleted_at == 0 then now else entry.deleted_at;
  state = if is_empty entry.state then state_pending else entry.state;
  created_at = now;
  updated_at = now;
}

-- The entry that the caller passes is overwritten with the stored one, which is returned.
unfoldable pub create : TrashEntry → ℕ → TrashRepo → Result (TrashEntry × TrashRepo)
create entry now r = elim (lookup (trash_key entry.user_id entry.id) r) [
  | some _ ↦ err duplicated_key
  | none ↦ elim (find (same_root entry) r) [
    | some _ ↦ err duplicated_key
    | none ↦ ok (stamp entry now, insert (trash_key entry.user_id entry.id) (stamp entry now) r)
  ]
]

unfoldable pub get : Text → Text → TrashRepo → Result TrashEntry
get user_id id r = elim (lookup (trash_key user_id id) r) [
  | none ↦ err record_not_found
  | some entry ↦ ok entry
]

-- The comparison of `List`: newest first, and by descending id at equal times.
unfoldable pub newer : TrashEntry → TrashEntry → Bool
newer a b = if a.deleted_at == b.deleted_at then str_lt b.id a.id else ltb b.deleted_at a.deleted_at

unfoldable pub clamp_offset : ℤ → ℤ
clamp_offset offset = if int_lt offset (pos 0) then pos 0 else offset

unfoldable pub clamp_limit : ℤ → ℤ
clamp_limit limit = if is_nonpositive limit || int_lt (pos 500) limit then pos 100 else limit

-- The slice that `List` returns of the sorted entries.
unfoldable pub page : ℤ → ℤ → List TrashEntry → List TrashEntry
unfolding clamp_offset clamp_limit
page limit offset entries =
    let start = to_index (clamp_offset offset) in
    if leb (length entries) start
    then []
    else let rest = drop start entries in
      let count = to_index (clamp_limit limit) in
      if ltb count (length rest) then take count rest else rest

abbrev pub is_listed : Text → Text → TrashEntry → Bool
is_listed user_id _ entry = str_eq entry.user_id user_id && str_eq entry.state state_ready

unfoldable pub list : Text → ℤ → ℤ → TrashRepo → List TrashEntry
list user_id limit offset r = page limit offset (sort_by newer (values_where (is_listed user_id) r))

unfoldable pub list_recoverable : TrashRepo → List TrashEntry
list_recoverable r =
    sort_by (λ a b. ltb a.updated_at b.updated_at)
      (values_where (λ _ entry. not (str_eq entry.state state_ready)) r)

-- What a transition writes into the entry.
unfoldable pub move_to : Text → ℤ → Text → Text → ℕ → TrashEntry → TrashEntry
move_to to_state operation_inode operation_path target_path now entry = record entry {
  state = to_state;
  operation_inode = operation_inode;
  operation_path = operation_path;
  target_path = target_path;
  updated_at = now;
}

-- Compare-and-set: `now` is the clock's reading.
unfoldable pub transition :
    Text → Text → Text → Text → ℤ → Text → Text → ℕ → TrashRepo → Result TrashRepo
transition user_id id from_state to_state operation_inode operation_path target_path now r =
    elim (lookup (trash_key user_id id) r) [
      | none ↦ err trash_state_conflict
      | some entry ↦
          if str_eq entry.state from_state
          then ok (
              insert (trash_key user_id id)
                (move_to to_state operation_inode operation_path target_path now entry) r)
          else err trash_state_conflict
    ]

unfoldable pub mark_ready : Text → Text → Text → ℕ → TrashRepo → Result TrashRepo
mark_ready user_id id from_state now r =
    transition user_id id from_state state_ready (pos 0) [] [] now r

unfoldable pub remove : Text → Text → TrashRepo → TrashRepo
remove user_id id r = delete (trash_key user_id id) r

unfoldable pub delete_by_user_id : Text → TrashRepo → TrashRepo
delete_by_user_id user_id r = delete_where (λ _ entry. str_eq entry.user_id user_id) r
