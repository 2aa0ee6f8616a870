-- ===== src/Model/Workspace.antt =====
-- The workspace repository: `memWorkspaceRepo` of internal/model/mem_repos.go. The saved state is
-- an opaque text.
use domus.Prelude.{Text, str_eq, ◌≡◌, none, some, arith, if◌then◌else◌}
use domus.Dict.{Dict, lookup, insert, delete}
use domus.Dict.Lookup.{lookup-insert, lookup-delete}
use domus.Model.Result.{Result, ok, err, record_not_found}

abbrev pub WorkspaceRepo : Type 0
WorkspaceRepo = Dict Text

unfoldable pub save : Text → Text → WorkspaceRepo → WorkspaceRepo
save user_id state r = insert user_id state r

unfoldable pub get : Text → WorkspaceRepo → Result Text
get user_id r = elim (lookup user_id r) [ none ↦ err record_not_found | some state ↦ ok state ]

unfoldable pub remove : Text → WorkspaceRepo → WorkspaceRepo
remove user_id r = delete user_id r

-- After `Save` and `Delete` of one user's workspace, `Get` returns the last state saved for that
-- user, nothing once it is deleted, and for every other user what it returned before.
get-save-remove :
    (u v state : Text) (r : WorkspaceRepo)
    → (get v (save u state r) ≡ (if str_eq u v then ok state else get v r))
      × (get v (remove u r) ≡ (if str_eq u v then err record_not_found else get v r))
unfolding get save remove
get-save-remove u v state r =
    (ground (arith, lookup-insert u v state r), ground (arith, lookup-delete u v r))
