-- ===== src/Handler/Recovery.antt =====
-- Finishing what a crash left: `finishTrashMutation` and `recoverTrashEntry` of
-- internal/handler/trash.go, with `permanentlyDeletePath` of internal/handler/pathspace.go. What
-- these ask of the object store and of the file system service, and the messages to browsers,
-- change no repository and are left out. `now` is the clock's reading.
mod Effect
mod Settles
mod AllReady
mod Listing
mod Pending
mod Examples
use domus.Prelude.{
  ℕ, ◌*◌, ◌^◌, ◌-◌, ◌++◌, ltb, Text, codes, str_eq, is_empty, has_prefix, Bool, true, false, not,
  ◌&&◌, ◌||◌, ℤ, int_eq, Option, none, some, List, [], ◌∷◌, if◌then◌else◌,
}
use domus.Model.Result.{Result, RepoError, ok, err, record_not_found}
use domus.Model.File
use domus.Model.File.{
  FileRecord, get_by_id, get_by_storage_key, list_by_prefix, list_direct_children, storage_key,
  status_ready,
}
use domus.Model.File.Basic
use domus.Model.Trash
use domus.Model.Trash.{
  TrashEntry, state_pending, state_ready, state_restoring, state_deleting, mark_ready,
  list_recoverable,
}
use domus.Model.Share.{delete_by_inode}
use domus.Model.Cleanup.{Repos}
use domus.Handler.TrashPath.{trash_entry_storage_path}

-- An error of a repository, or one of the handler's own.
pub data Failure : Type 0 where
  repository : RepoError → Failure
  mismatched_thumbnail unknown_state : Failure

-- A failure leaves what was changed before it.
pub data Outcome : Type 0 where
  done : Repos → Outcome
  stopped : Failure → Repos → Outcome

-- What follows `GetByStorageKey`.
unfoldable pub thumbnail_found : Text → FileRecord → Repos → Result FileRecord → Outcome
thumbnail_found user_id source r (err record_not_found) = done r
thumbnail_found user_id source r (err e) = stopped (repository e) r
thumbnail_found user_id source r (ok thumbnail) =
    if int_eq thumbnail.id source.id
      || (not (str_eq thumbnail.user_id user_id)
          || not (str_eq (storage_key thumbnail) source.thumbnail_key))
    then stopped mismatched_thumbnail r
    else done (record r { files = Basic.remove user_id thumbnail.path r.files })

unfoldable pub cleanup_thumbnail_storage : Text → FileRecord → Repos → Outcome
cleanup_thumbnail_storage user_id source r =
    if is_empty source.thumbnail_key
    then done r
    else thumbnail_found user_id source r (get_by_storage_key user_id source.thumbnail_key r.files)

unfoldable pub revoke_file_shares : Text → ℤ → Repos → Repos
revoke_file_shares user_id inode r = record r { shares = delete_by_inode user_id inode r.shares }

-- The loop over the records below a directory, and the deletion after it.
unfoldable pub delete_records : Text → Text → List FileRecord → Repos → Outcome
delete_records user_id resolved_path [] r =
    done (record r { files = Basic.delete_by_prefix user_id resolved_path r.files })
delete_records user_id resolved_path (f ∷ fs) r =
    if f.is_dir
    then delete_records user_id resolved_path fs r
    else elim (cleanup_thumbnail_storage user_id f r) [
      | stopped e r' ↦ stopped e r'
      | done r' ↦ delete_records user_id resolved_path fs (revoke_file_shares user_id f.id r')
    ]

-- What follows `Get` of a file.
unfoldable pub file_found : Text → Text → Repos → Result FileRecord → Outcome
file_found user_id resolved_path r (err record_not_found) = done r
file_found user_id resolved_path r (err e) = stopped (repository e) r
file_found user_id resolved_path r (ok f) =
    if not (str_eq f.status status_ready) && not (is_empty f.oss_upload_id)
    then done r
    else elim (cleanup_thumbnail_storage user_id f r) [
      | stopped e r' ↦ stopped e r'
      | done r' ↦ done (
          revoke_file_shares user_id f.id
            (record r' { files = Basic.remove user_id resolved_path r'.files }))
    ]

unfoldable pub permanently_delete_path : Text → Text → Bool → Repos → Outcome
permanently_delete_path user_id resolved_path is_dir r =
    if is_dir
    then elim (list_by_prefix user_id resolved_path r.files) [
      | [] ↦ done r
      | f ∷ fs ↦ delete_records user_id resolved_path (f ∷ fs) r
    ]
    else file_found user_id resolved_path r (File.get user_id resolved_path r.files)

unfoldable pub delete_entry : Text → Text → Repos → Outcome
delete_entry user_id id r = done (record r { trash = Trash.remove user_id id r.trash })

-- What follows `MarkReady`.
unfoldable pub marked : Repos → Result (Trash.TrashRepo) → Outcome
marked r (err e) = stopped (repository e) r
marked r (ok trash) = done (record r { trash = trash })

unfoldable pub mark_entry_ready : Text → TrashEntry → Text → ℕ → Repos → Outcome
mark_entry_ready user_id entry from_state now r =
    marked r (mark_ready user_id entry.id from_state now r.trash)

-- The deletion of the entry after that of its files.
unfoldable pub then_delete_entry : Text → Text → Outcome → Outcome
then_delete_entry user_id id (stopped e r) = stopped e r
then_delete_entry user_id id (done r) = delete_entry user_id id r

unfoldable pub has_no_children : List FileRecord → Bool
has_no_children [] = true
has_no_children (f ∷ fs) = false

-- What follows `GetByID` of the root.
unfoldable pub root_read : Text → TrashEntry → Text → ℕ → Repos → Result FileRecord → Outcome
root_read user_id entry from_state now r (err record_not_found) = delete_entry user_id entry.id r
root_read user_id entry from_state now r (err e) = stopped (repository e) r
root_read user_id entry from_state now r (ok root) =
    if not (str_eq root.path (trash_entry_storage_path entry))
    then delete_entry user_id entry.id r
    else if root.is_dir && has_no_children (list_direct_children user_id root.path r.files)
    then then_delete_entry user_id entry.id (permanently_delete_path user_id root.path true r)
    else mark_entry_ready user_id entry from_state now r

unfoldable pub finish_trash_mutation : Text → TrashEntry → Text → ℕ → Repos → Outcome
finish_trash_mutation user_id entry from_state now r =
    root_read user_id entry from_state now r (get_by_id user_id entry.root_inode r.files)

-- A pending entry: the rename happened, or it did not or was undone.
unfoldable pub recover_pending : TrashEntry → ℕ → Repos → Result FileRecord → Outcome
recover_pending entry now r (err record_not_found) = delete_entry entry.user_id entry.id r
recover_pending entry now r (err e) = stopped (repository e) r
recover_pending entry now r (ok root) =
    if str_eq root.path (trash_entry_storage_path entry)
    then mark_entry_ready entry.user_id entry state_pending now r
    else delete_entry entry.user_id entry.id r

unfoldable pub recover_restoring : TrashEntry → ℕ → Repos → Result FileRecord → Outcome
recover_restoring entry now r (err record_not_found) = delete_entry entry.user_id entry.id r
recover_restoring entry now r (err e) = stopped (repository e) r
recover_restoring entry now r (ok root) =
    finish_trash_mutation entry.user_id entry state_restoring now r

unfoldable pub then_finish : TrashEntry → ℕ → Outcome → Outcome
then_finish entry now (stopped e r) = stopped e r
then_finish entry now (done r) = finish_trash_mutation entry.user_id entry state_deleting now r

-- `operation` is the record whose deletion was asked for.
unfoldable pub recover_deleting : TrashEntry → ℕ → Repos → Result FileRecord → Outcome
recover_deleting entry now r (ok operation) =
    if has_prefix operation.path (trash_entry_storage_path entry)
    then then_finish entry now
        (permanently_delete_path entry.user_id operation.path operation.is_dir r)
    else then_finish entry now (done r)
recover_deleting entry now r (err record_not_found) = then_finish entry now (done r)
recover_deleting entry now r (err e) = stopped (repository e) r

unfoldable pub recover_trash_entry : TrashEntry → ℕ → Repos → Outcome
recover_trash_entry entry now r =
    let root = get_by_id entry.user_id entry.root_inode r.files in
    if str_eq entry.state state_pending
    then recover_pending entry now r root
    else if str_eq entry.state state_restoring
    then recover_restoring entry now r root
    else if str_eq entry.state state_deleting
    then recover_deleting entry now r (get_by_id entry.user_id entry.operation_inode r.files)
    else stopped unknown_state r

-- The errors, each with its entry's id, and the state that recovery leaves.
unfoldable pub attempt : TrashEntry → Outcome → List (Text × Failure) × Repos
attempt entry (stopped e r) = ((entry.id, e) ∷ [], r)
attempt entry (done r) = ([], r)

-- The loop of `RecoverTrash`. `clock` is the reading when an entry is marked.
unfoldable pub recover_entries :
    Bool → ℕ → (TrashEntry → ℕ) → List TrashEntry → Repos → List (Text × Failure) × Repos
recover_entries force cutoff clock [] r = ([], r)
recover_entries force cutoff clock (entry ∷ entries) r =
    let (errors, r₁) =
      if not force && ltb cutoff entry.updated_at
      then ([], r)
      else attempt entry (recover_trash_entry entry (clock entry) r) in
    let (more, r₂) = recover_entries force cutoff clock entries r₁ in (errors ++ more, r₂)

-- 2 * time.Minute
abbrev pub trash_recovery_grace : ℕ
trash_recovery_grace = 120 * 10 ^ 9

unfoldable pub recover_trash : Bool → ℕ → (TrashEntry → ℕ) → Repos → List (Text × Failure) × Repos
recover_trash force now clock r =
    recover_entries force (now - trash_recovery_grace) clock (list_recoverable r.trash) r
