-- ===== src/Model/File.antt =====
-- File records: internal/model/file.go, and the state and the reading methods of `memFileRepo` of
-- internal/model/mem_repos.go. A float64 is its bit pattern.
pub mod Parent
pub mod Basic
pub mod Move
pub mod Upload
pub mod Thumbnail
pub mod Reads
pub mod Stored
pub mod Keeps
pub mod Invariant
pub mod Apart
pub mod Isolation
pub mod Moves
pub mod Subtree
pub mod MovedRoot
mod Examples
use mathlib.Core.Bool.{xor}
use domus.Prelude.{
  ℕ, ◌+◌, ltb, Text, codes, str_eq, str_lt, has_prefix, ℤ, pos, int_eq, int_lt, is_nonpositive,
  to_index, Bool, true, false, not, ◌&&◌, ◌||◌, ◌++◌, Option, none, some, List, [], ◌∷◌, map, take,
  contains, sort_by, if◌then◌else◌,
}
use domus.Dict.{Dict, lookup, insert, values_where, find, best_from}
use domus.Model.Result.{Result, ok, err, record_not_found}

unfoldable pub status_ready : Text
status_ready = codes "ready"

unfoldable pub status_deleted : Text
status_deleted = codes "deleted"

unfoldable pub status_uploading : Text
status_uploading = codes "uploading"

unfoldable pub status_cancelled : Text
status_cancelled = codes "cancelled"

pub record FileRecord : Type 0 where
  pub id : ℤ
  pub user_id : Text
  pub path : Text
  pub parent : Text
  pub name : Text
  pub is_dir : Bool
  pub size : ℤ
  pub content_type : Text
  pub content_hash : Text
  pub object_key : Text
  pub generation : ℤ
  pub thumbnail_key : Text
  pub thumbnail_wrapped_dek : Text
  pub media_width : ℤ
  pub media_height : ℤ
  pub media_duration : ℕ
  pub media_codecs : Text
  pub media_meta : Text
  pub wrapped_dek : Text
  pub status : Text
  pub upload_id : Text
  pub task_id : Text
  pub oss_upload_id : Text
  pub client_instance_id : Text
  pub last_seen_at : ℕ
  pub created_at : ℕ
  pub updated_at : ℕ

pub record UpsertOpts : Type 0 where
  pub wrapped_dek : Text
  pub object_key : Text

pub record SearchFileResult : Type 0 where
  pub file : FileRecord
  pub rank : ℕ

pub record FileRepo : Type 0 where
  pub entries : Dict FileRecord
  pub next_id : ℤ

unfoldable pub storage_key : FileRecord → Text
storage_key f = f.object_key

unfoldable pub file_key : Text → Text → Text
file_key user_id path = user_id ++ (codes ":" ++ path)

-- The record of an entry found, or `gorm.ErrRecordNotFound`.
abbrev pub or_not_found : Option (Text × FileRecord) → Result FileRecord
or_not_found none = err record_not_found
or_not_found (some (_, f)) = ok f

unfoldable pub get : Text → Text → FileRepo → Result FileRecord
get user_id path r = elim (lookup (file_key user_id path) r.entries) [
  | none ↦ err record_not_found
  | some f ↦ ok f
]

unfoldable pub get_by_id : Text → ℤ → FileRepo → Result FileRecord
get_by_id user_id id r =
    or_not_found (find (λ _ f. str_eq f.user_id user_id && int_eq f.id id) r.entries)

-- The record with the largest id among those of one storage key.
abbrev pub larger_id : FileRecord → FileRecord → Bool
larger_id a b = int_lt b.id a.id

unfoldable pub find_by_storage_key : Text → Text → FileRepo → Option (Text × FileRecord)
find_by_storage_key user_id object_key r =
    best_from (λ _ f. str_eq f.user_id user_id && str_eq (storage_key f) object_key) larger_id none
      r.entries

unfoldable pub get_by_storage_key : Text → Text → FileRepo → Result FileRecord
get_by_storage_key user_id object_key r = or_not_found (find_by_storage_key user_id object_key r)

abbrev pub is_under : Text → Text → FileRecord → Bool
is_under user_id prefix f = str_eq f.user_id user_id && has_prefix f.path prefix

unfoldable pub list_by_prefix : Text → Text → FileRepo → List FileRecord
list_by_prefix user_id prefix r = values_where (λ _ f. is_under user_id prefix f) r.entries

-- Directories first, then by name.
abbrev pub dir_first : FileRecord → FileRecord → Bool
dir_first a b = if xor a.is_dir b.is_dir then a.is_dir else str_lt a.name b.name

abbrev pub is_child : Text → Text → FileRecord → Bool
is_child user_id parent f = str_eq f.user_id user_id && str_eq f.parent parent

unfoldable pub list_direct_children : Text → Text → FileRepo → List FileRecord
list_direct_children user_id parent r = sort_by dir_first (
    values_where (λ _ f. is_child user_id parent f && not (str_eq f.status status_deleted))
      r.entries)

unfoldable list_all_children : Text → Text → FileRepo → List FileRecord
list_all_children user_id parent r = values_where (λ _ f. is_child user_id parent f) r.entries

unfoldable pub internal_prefix : Text
internal_prefix = codes "/.domus/"

abbrev pub float_one : ℕ
float_one = 0x3ff0_0000_0000_0000

-- `to_lower` stands for strings.ToLower, which maps every Unicode letter.
abbrev pub is_match : (Text → Text) → Text → Text → FileRecord → Bool
is_match to_lower user_id query f =
    (str_eq f.user_id user_id && str_eq f.status status_ready)
    && (not (has_prefix f.path internal_prefix) && contains (to_lower f.name) (to_lower query))

-- The loop breaks once it has `limit` results, and the limit is positive.
unfoldable search_files : (Text → Text) → Text → Text → ℤ → FileRepo → List SearchFileResult
search_files to_lower user_id query limit r =
    let cap = to_index (if is_nonpositive limit then pos 50 else limit) in
    map (λ f. record { file = f; rank = float_one })
      (take cap (values_where (λ _ f. is_match to_lower user_id query f) r.entries))

unfoldable get_upload : Text → Text → FileRepo → Result FileRecord
get_upload user_id upload_id r =
    or_not_found (find (λ _ f. str_eq f.upload_id upload_id && str_eq f.user_id user_id) r.entries)

unfoldable list_active_uploads : Text → FileRepo → List FileRecord
list_active_uploads user_id r =
    values_where (λ _ f. str_eq f.user_id user_id && str_eq f.status status_uploading) r.entries

-- `cutoff` is `now - stale_after`; before the zero time nothing was updated.
unfoldable get_stale_uploads : ℕ → ℕ → FileRepo → List FileRecord
get_stale_uploads stale_after now r =
    values_where (λ _ f. str_eq f.status status_uploading && ltb (f.updated_at + stale_after) now)
      r.entries
