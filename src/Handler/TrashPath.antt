-- ===== src/Handler/TrashPath.antt =====
-- Paths inside a trash entry: internal/handler/trash.go.
pub mod RoundTrip
use domus.Prelude.{
  ℕ, ◌==◌, Text, codes, str_eq, is_empty, has_prefix, trim_suffix, Bool, true, false, not, ◌&&◌,
  ◌||◌, ◌≡◌, ◌≢◌, refl, List, [], ◌∷◌, ◌++◌, drop, length, All, arith, if◌then◌else◌,
}
use domus.Model.Trash.{TrashEntry}
use domus.Handler.Clean.{split, clean, ends_with_slash, rooted, with_slash}

pub data PathError : Type 0 where
  invalid_relative_path no_children outside_entry : PathError

pub data PathResult : Type 0 where
  resolved : Text → PathResult
  bad : PathError → PathResult

unfoldable pub trash_items_storage_root_path : Text
trash_items_storage_root_path = codes "/.domus/trash/items/"

unfoldable pub trash_entry_storage_path : TrashEntry → Text
unfolding trash_items_storage_root_path
trash_entry_storage_path entry =
    let storage_path = trash_items_storage_root_path ++ entry.id in
    if entry.is_dir then storage_path ++ codes "/" else storage_path

unfoldable pub has_nul : Text → Bool
has_nul [] = false
has_nul (c ∷ s) = let rest = has_nul s in (c == 0) || rest

-- strings.ReplaceAll(s, "\\", "/")
unfoldable pub forward_slashes : Text → Text
forward_slashes [] = []
forward_slashes (c ∷ s) = (if c == 92 then b'/' else c) ∷ forward_slashes s

unfoldable pub has_parent_segment : List Text → Bool
has_parent_segment [] = false
has_parent_segment (s ∷ ss) = let rest = has_parent_segment ss in str_eq s (codes "..") || rest

-- The tests of `cleaned` are the code's, in its order.
unfoldable pub normalize_trash_relative_path : Text → PathResult
unfolding has_nul forward_slashes has_parent_segment split clean ends_with_slash rooted with_slash
normalize_trash_relative_path raw =
    if is_empty raw
    then resolved (codes "/")
    else if has_nul raw
    then bad invalid_relative_path
    else if has_parent_segment (split (forward_slashes raw))
    then bad invalid_relative_path
    else let cleaned = clean (rooted raw) in
      let cleaned' =
        if str_eq cleaned (codes ".") || is_empty cleaned then codes "/" else cleaned in
      if has_prefix cleaned' (codes "/")
      then resolved (with_slash (ends_with_slash (rooted raw)) cleaned')
      else bad invalid_relative_path

-- strings.TrimPrefix
unfoldable pub trim_prefix : Text → Text → Text
trim_prefix s prefix = if has_prefix s prefix then drop (length prefix) s else s

-- The storage path of a relative path, for the entry's path `root`.
unfoldable pub storage_of : Bool → Text → Text → PathResult
unfolding trim_prefix
storage_of is_dir root relative_path =
    if str_eq relative_path (codes "/")
    then resolved root
    else if not is_dir
    then bad no_children
    else resolved (root ++ trim_prefix relative_path (codes "/"))

unfoldable pub trash_storage_path : TrashEntry → Text → PathResult
unfolding normalize_trash_relative_path trash_entry_storage_path storage_of
trash_storage_path entry raw = elim (normalize_trash_relative_path raw) [
  | bad e ↦ bad e
  | resolved relative_path ↦ storage_of entry.is_dir (trash_entry_storage_path entry) relative_path
]

-- The relative path of a storage path, for the entry's path `root`.
unfoldable pub relative_to : Bool → Text → Text → PathResult
unfolding trim_prefix ends_with_slash
relative_to is_dir root storage_path =
    if str_eq storage_path root || str_eq (trim_suffix storage_path b'/') (trim_suffix root b'/')
    then resolved (codes "/")
    else if not is_dir || not (has_prefix storage_path root)
    then bad outside_entry
    else let relative = b'/' ∷ trim_prefix storage_path root in
      resolved (
        if ends_with_slash storage_path && not (ends_with_slash relative)
        then relative ++ codes "/"
        else relative)

unfoldable pub trash_relative_path : TrashEntry → Text → PathResult
unfolding trash_entry_storage_path relative_to
trash_relative_path entry storage_path =
    relative_to entry.is_dir (trash_entry_storage_path entry) storage_path

unfoldable trash_original_path : TrashEntry → Text → Bool → PathResult
unfolding normalize_trash_relative_path trim_prefix ends_with_slash
trash_original_path entry raw is_dir = elim (normalize_trash_relative_path raw) [
  | bad e ↦ bad e
  | resolved relative_path ↦
      if str_eq relative_path (codes "/")
      then resolved entry.original_path
      else if not entry.is_dir
      then bad no_children
      else let target =
          trim_suffix entry.original_path b'/' ++ (b'/' ∷ trim_prefix relative_path (codes "/")) in
        resolved (if is_dir && not (ends_with_slash target) then target ++ codes "/" else target)
]

unfoldable validate_trash_conflict : Text → Bool → Bool
validate_trash_conflict value allow_merge =
    if is_empty value
      || (str_eq value (codes "skip")
          || (str_eq value (codes "replace") || str_eq value (codes "rename")))
    then true
    else if str_eq value (codes "merge")
    then allow_merge
    else false
