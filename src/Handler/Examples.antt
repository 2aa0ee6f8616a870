-- ===== src/Handler/Examples.antt =====
-- Request paths (internal/handler) at concrete texts.
use domus.Prelude.{ℕ, Text, codes, pos, true, false, ◌≡◌, refl, [], ◌∷◌, ◌⊎◌, List, All}
use domus.Model.Trash.{TrashEntry}
use domus.Handler.Clean.{normalize_app_path}
use domus.Handler.TrashPath.{
  resolved, normalize_trash_relative_path, trash_storage_path, trash_relative_path,
}
use domus.Handler.TrashPath.RoundTrip.{trash_relative_path-trash_storage_path}

normalized : normalize_app_path (codes "a/../b//./c/") ≡ codes "/b/c/"
unfolding normalize_app_path domus.Prelude.is_empty domus.Prelude.has_prefix domus.Prelude.str_eq
normalized = refl

relative : normalize_trash_relative_path (codes "x//y/") ≡ resolved (codes "/x/y/")
unfolding normalize_trash_relative_path domus.Prelude.is_empty domus.Prelude.str_eq
    domus.Prelude.has_prefix
relative = refl

abbrev folder : TrashEntry
folder = record {
  id = codes "t1";
  user_id = codes "ann";
  root_inode = pos 7;
  original_path = codes "/photos/";
  original_name = codes "photos";
  is_dir = true;
  size = pos 0;
  state = codes "ready";
  operation_inode = pos 0;
  operation_path = [];
  target_path = [];
  deleted_at = 5;
  created_at = 5;
  updated_at = 5;
}

stored : trash_storage_path folder (codes "x//y/") ≡ resolved (codes "/.domus/trash/items/t1/x/y/")
unfolding trash_storage_path domus.Prelude.is_empty domus.Prelude.str_eq domus.Prelude.has_prefix
    domus.Prelude.drop
stored = refl

trash_relative_path-trash_storage_path_example :
    trash_relative_path folder (codes "/.domus/trash/items/t1/x/y/") ≡ resolved (codes "/x/y/")
trash_relative_path-trash_storage_path_example =
    trash_relative_path-trash_storage_path folder (codes "x//y/") (codes "/x/y/")
      (codes "/.domus/trash/items/t1/x/y/") relative stored
