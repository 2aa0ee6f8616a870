-- ===== src/Middleware/Paths.antt =====
-- The paths that requests name: internal/middleware/middleware.go.
mod Normal
mod Below
pub mod Reserved
use domus.Prelude.{
  Text, codes, str_eq, has_prefix, Bool, true, false, not, ◌&&◌, ◌||◌, [], ◌∷◌, ◌++◌, if◌then◌else◌,
  trim_suffix,
}
use domus.Handler.Clean.{clean, ends_with_slash, rooted, with_slash}
use domus.Handler.TrashPath.{has_nul, trim_prefix}

pub data PathError : Type 0 where
  invalid_path reserved_path invalid_internal_path : PathError

pub data Resolution : Type 0 where
  resolved : Text → Resolution
  forbidden : PathError → Resolution

unfoldable pub internal_root_path : Text
internal_root_path = codes "/.domus/"

unfoldable pub internal_user_path : Text
internal_user_path = codes "/.domus/user/"

unfoldable pub virtual_private_user_path : Text
virtual_private_user_path = codes "/.user/"

unfoldable pub normalize_path : Text → Resolution
unfolding has_nul rooted ends_with_slash clean with_slash
normalize_path p =
    if has_nul p
    then forbidden invalid_path
    else let cleaned = clean (rooted p) in
      let trailing_slash = ends_with_slash (rooted p) && not (str_eq (rooted p) (codes "/")) in
      if has_prefix cleaned (codes "/")
      then resolved (with_slash trailing_slash cleaned)
      else forbidden invalid_path

-- The directory itself without its slash, or anything in it.
unfoldable pub is_inside : Text → Text → Bool
is_inside root path = str_eq path (trim_suffix root b'/') || has_prefix path root

unfoldable pub resolve_application_path : Text → Resolution
unfolding normalize_path is_inside internal_root_path virtual_private_user_path
resolve_application_path p = elim (normalize_path p) [
  | forbidden e ↦ forbidden e
  | resolved cleaned ↦
      if is_inside internal_root_path cleaned || is_inside virtual_private_user_path cleaned
      then forbidden reserved_path
      else resolved cleaned
]

-- What a path under `/.user/` stands for, from its part after that.
unfoldable pub internal_target : Text → Text
unfolding internal_user_path
internal_target relative =
    if str_eq relative (codes "thumbnails") || has_prefix relative (codes "thumbnails/")
    then codes "/.domus/" ++ relative
    else internal_user_path ++ relative

unfoldable pub resolve_internal_application_path : Text → Resolution
unfolding normalize_path internal_user_path virtual_private_user_path trim_prefix internal_target
resolve_internal_application_path p = elim (normalize_path p) [
  | forbidden e ↦ forbidden e
  | resolved cleaned ↦
      if str_eq cleaned (trim_suffix virtual_private_user_path b'/')
      then resolved internal_user_path
      else if has_prefix cleaned virtual_private_user_path
      then resolved (internal_target (trim_prefix cleaned virtual_private_user_path))
      else forbidden invalid_internal_path
]

unfoldable pub is_internal_storage_path : Text → Bool
unfolding is_inside internal_root_path
is_internal_storage_path storage_path = is_inside internal_root_path storage_path

unfoldable pub to_app_path : Text → Text
unfolding is_internal_storage_path
to_app_path storage_path =
    if is_internal_storage_path storage_path
    then []
    else if has_prefix storage_path (codes "/")
    then storage_path
    else b'/' ∷ storage_path
