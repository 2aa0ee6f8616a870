-- ===== src/Handler/Recovery/Effect.antt =====
-- What a step of recovery does to the trash: internal/handler/trash.go. It removes its entry or
-- marks it ready, and a failure leaves the trash as it was.
use domus.Prelude.{
  ℕ, Text, str_eq, has_prefix, Bool, true, false, not, ◌&&◌, ◌||◌, is_empty, int_eq, List, [], ◌∷◌,
  ◌≡◌, ◌⊎◌, inl, inr, subst, refl, ◌∙◌, Bool-cases, if◌then◌else◌,
}
use domus.Model.Result.{Result, ok, err, record_not_found}
use domus.Model.File.{
  FileRecord, get_by_id, get_by_storage_key, storage_key, status_ready, list_by_prefix,
  list_direct_children,
}
use domus.Model.File
use domus.Model.Trash
use domus.Model.Trash.{
  TrashEntry, TrashRepo, trash_key, state_pending, state_ready, state_restoring, state_deleting,
  move_to, transition, mark_ready,
}
use domus.Model.Cleanup.{Repos}
use domus.Handler.TrashPath.{trash_entry_storage_path}
use domus.Handler.Recovery.{
  Outcome, done, stopped, thumbnail_found, cleanup_thumbnail_storage, revoke_file_shares,
  delete_records, file_found, permanently_delete_path, delete_entry, marked, mark_entry_ready,
  then_delete_entry, root_read, has_no_children, finish_trash_mutation, recover_pending,
  recover_restoring, then_finish, recover_deleting, recover_trash_entry,
}

-- The state that an outcome leaves.
unfoldable left_by : Outcome → Repos
left_by (done r) = r
left_by (stopped e r) = r

-- The trash is as it was.
unfoldable KeepsTrash : Repos → Outcome → Type 0
KeepsTrash r o = (left_by o).trash ≡ r.trash

thumbnail-KeepsTrash :
    (user_id : Text) (f : FileRecord) (r : Repos) (res : Result FileRecord)
    → KeepsTrash r (thumbnail_found user_id f r res)
unfolding KeepsTrash left_by thumbnail_found
thumbnail-KeepsTrash user_id f r (err record_not_found) = refl
thumbnail-KeepsTrash user_id f r (err e) = refl
thumbnail-KeepsTrash user_id f r (ok thumbnail) =
    elim (Bool-cases (
      int_eq thumbnail.id f.id
      || (not (str_eq thumbnail.user_id user_id)
          || not (str_eq (storage_key thumbnail) f.thumbnail_key)))) [
            | inl t ↦ rw t refl
            | inr g ↦ rw g refl
          ]

cleanup-KeepsTrash :
    (user_id : Text) (f : FileRecord) (r : Repos)
    → KeepsTrash r (cleanup_thumbnail_storage user_id f r)
unfolding cleanup_thumbnail_storage
cleanup-KeepsTrash user_id f r = elim (Bool-cases (is_empty f.thumbnail_key)) [
  | inl t ↦ rw t (unfold KeepsTrash left_by in refl)
  | inr g ↦
      rw g (thumbnail-KeepsTrash user_id f r (get_by_storage_key user_id f.thumbnail_key r.files))
]

-- A step behind another one that keeps the trash.
KeepsTrash-step :
    (r : Repos) (o : Outcome) (g : Repos → Outcome)
    → KeepsTrash r o
    → ((r' : Repos) → KeepsTrash r' (g r'))
    → KeepsTrash r (elim o [ stopped e r' ↦ stopped e r' | done r' ↦ g r' ])
unfolding KeepsTrash left_by
KeepsTrash-step r (done r') g k h = h r' ∙ k
KeepsTrash-step r (stopped e r') g k h = k

keeps_shares : (r r' : Repos) (o : Outcome) → r'.trash ≡ r.trash → KeepsTrash r' o → KeepsTrash r o
unfolding KeepsTrash
keeps_shares r r' o same k = k ∙ same

either-KeepsTrash :
    (b : Bool) (r : Repos) (x y : Outcome)
    → KeepsTrash r x
    → KeepsTrash r y
    → KeepsTrash r (if b then x else y)
either-KeepsTrash true r x y h k = h
either-KeepsTrash false r x y h k = k

delete_records-KeepsTrash :
    (user_id path : Text) (fs : List FileRecord) (r : Repos)
    → KeepsTrash r (delete_records user_id path fs r)
unfolding delete_records
delete_records-KeepsTrash user_id path [] r = unfold KeepsTrash left_by in refl
delete_records-KeepsTrash user_id path (f ∷ fs) r =
    either-KeepsTrash f.is_dir r _ _ (delete_records-KeepsTrash user_id path fs r) (
      KeepsTrash-step r (cleanup_thumbnail_storage user_id f r) _ (cleanup-KeepsTrash user_id f r)
        (λ r'.
          keeps_shares r' (revoke_file_shares user_id f.id r') _ (unfold revoke_file_shares in refl)
            (delete_records-KeepsTrash user_id path fs (revoke_file_shares user_id f.id r'))))

file_found-KeepsTrash :
    (user_id path : Text) (r : Repos) (res : Result FileRecord)
    → KeepsTrash r (file_found user_id path r res)
unfolding file_found
file_found-KeepsTrash user_id path r (err record_not_found) = unfold KeepsTrash left_by in refl
file_found-KeepsTrash user_id path r (err e) = unfold KeepsTrash left_by in refl
file_found-KeepsTrash user_id path r (ok f) =
    elim (Bool-cases (not (str_eq f.status status_ready) && not (is_empty f.oss_upload_id))) [
      | inl t ↦ rw t (unfold KeepsTrash left_by in refl)
      | inr g ↦ rw g (
          KeepsTrash-step r (cleanup_thumbnail_storage user_id f r) _
            (cleanup-KeepsTrash user_id f r)
            (λ r'. unfold KeepsTrash left_by revoke_file_shares in refl))
    ]

listed-KeepsTrash :
    (user_id path : Text) (r : Repos) (fs : List FileRecord)
    → KeepsTrash r (elim fs [ [] ↦ done r | f ∷ rest ↦ delete_records user_id path (f ∷ rest) r ])
listed-KeepsTrash user_id path r [] = unfold KeepsTrash left_by in refl
listed-KeepsTrash user_id path r (f ∷ fs) = delete_records-KeepsTrash user_id path (f ∷ fs) r

permanently_delete_path-KeepsTrash :
    (user_id path : Text) (is_dir : Bool) (r : Repos)
    → KeepsTrash r (permanently_delete_path user_id path is_dir r)
unfolding permanently_delete_path
permanently_delete_path-KeepsTrash user_id path true r =
    listed-KeepsTrash user_id path r (list_by_prefix user_id path r.files)
permanently_delete_path-KeepsTrash user_id path false r =
    file_found-KeepsTrash user_id path r (File.get user_id path r.files)

-- A step that succeeds removes the entry or marks it ready, and one that fails keeps the trash.
unfoldable pub Effect : TrashEntry → TrashRepo → Outcome → Type 0
Effect entry trash (stopped e r) = r.trash ≡ trash
Effect entry trash (done r) =
    (r.trash ≡ Trash.remove entry.user_id entry.id trash)
    ⊎ ((from : Text) × (now : ℕ) × (mark_ready entry.user_id entry.id from now trash ≡ ok r.trash))

delete_entry-Effect :
    (entry : TrashEntry) (r : Repos) → Effect entry r.trash (delete_entry entry.user_id entry.id r)
unfolding Effect delete_entry
delete_entry-Effect entry r = inl refl

marked-Effect :
    (entry : TrashEntry) (from : Text) (now : ℕ) (r : Repos) (res : Result TrashRepo)
    → mark_ready entry.user_id entry.id from now r.trash ≡ res
    → Effect entry r.trash (marked r res)
unfolding Effect marked
marked-Effect entry from now r (err e) h = refl
marked-Effect entry from now r (ok t) h = inr (from, now, h)

mark_entry_ready-Effect :
    (entry : TrashEntry) (from : Text) (now : ℕ) (r : Repos)
    → Effect entry r.trash (mark_entry_ready entry.user_id entry from now r)
unfolding mark_entry_ready
mark_entry_ready-Effect entry from now r = marked-Effect entry from now r _ refl

then_delete-Effect :
    (entry : TrashEntry) (r : Repos) (o : Outcome)
    → KeepsTrash r o
    → Effect entry r.trash (then_delete_entry entry.user_id entry.id o)
unfolding then_delete_entry KeepsTrash left_by
then_delete-Effect entry r (stopped e r') k = unfold Effect in k
then_delete-Effect entry r (done r') k =
    subst (λ t. Effect entry t (delete_entry entry.user_id entry.id r')) k
      (delete_entry-Effect entry r')

root_read-Effect :
    (entry : TrashEntry) (from : Text) (now : ℕ) (r : Repos) (res : Result FileRecord)
    → Effect entry r.trash (root_read entry.user_id entry from now r res)
unfolding root_read
root_read-Effect entry from now r (err record_not_found) = delete_entry-Effect entry r
root_read-Effect entry from now r (err e) = unfold Effect in refl
root_read-Effect entry from now r (ok root) =
    elim (Bool-cases (not (str_eq root.path (trash_entry_storage_path entry)))) [
      | inl t ↦ rw t (delete_entry-Effect entry r)
      | inr f ↦
          elim (Bool-cases (
            root.is_dir
            && has_no_children (list_direct_children entry.user_id root.path r.files))) [
              | inl t ↦
                  rw (f, t)
                    (then_delete-Effect entry r _
                      (permanently_delete_path-KeepsTrash entry.user_id root.path true r))
              | inr g ↦ rw (f, g) (mark_entry_ready-Effect entry from now r)
            ]
    ]

finish-Effect :
    (entry : TrashEntry) (from : Text) (now : ℕ) (r : Repos)
    → Effect entry r.trash (finish_trash_mutation entry.user_id entry from now r)
unfolding finish_trash_mutation
finish-Effect entry from now r =
    root_read-Effect entry from now r (get_by_id entry.user_id entry.root_inode r.files)

pending-Effect :
    (entry : TrashEntry) (now : ℕ) (r : Repos) (res : Result FileRecord)
    → Effect entry r.trash (recover_pending entry now r res)
unfolding recover_pending
pending-Effect entry now r (err record_not_found) = delete_entry-Effect entry r
pending-Effect entry now r (err e) = unfold Effect in refl
pending-Effect entry now r (ok root) =
    elim (Bool-cases (str_eq root.path (trash_entry_storage_path entry))) [
      | inl t ↦ rw t (mark_entry_ready-Effect entry state_pending now r)
      | inr f ↦ rw f (delete_entry-Effect entry r)
    ]

restoring-Effect :
    (entry : TrashEntry) (now : ℕ) (r : Repos) (res : Result FileRecord)
    → Effect entry r.trash (recover_restoring entry now r res)
unfolding recover_restoring
restoring-Effect entry now r (err record_not_found) = delete_entry-Effect entry r
restoring-Effect entry now r (err e) = unfold Effect in refl
restoring-Effect entry now r (ok root) = finish-Effect entry state_restoring now r

then_finish-Effect :
    (entry : TrashEntry) (now : ℕ) (r : Repos) (o : Outcome)
    → KeepsTrash r o
    → Effect entry r.trash (then_finish entry now o)
unfolding then_finish KeepsTrash left_by
then_finish-Effect entry now r (stopped e r') k = unfold Effect in k
then_finish-Effect entry now r (done r') k =
    subst (λ t. Effect entry t (finish_trash_mutation entry.user_id entry state_deleting now r')) k
      (finish-Effect entry state_deleting now r')

deleting-Effect :
    (entry : TrashEntry) (now : ℕ) (r : Repos) (res : Result FileRecord)
    → Effect entry r.trash (recover_deleting entry now r res)
unfolding recover_deleting
deleting-Effect entry now r (err record_not_found) =
    then_finish-Effect entry now r (done r) (unfold KeepsTrash left_by in refl)
deleting-Effect entry now r (err e) = unfold Effect in refl
deleting-Effect entry now r (ok operation) =
    elim (Bool-cases (has_prefix operation.path (trash_entry_storage_path entry))) [
      | inl t ↦ rw t (
          then_finish-Effect entry now r _
            (permanently_delete_path-KeepsTrash entry.user_id operation.path operation.is_dir r))
      | inr f ↦ rw f (then_finish-Effect entry now r (done r) (unfold KeepsTrash left_by in refl))
    ]

pub recover-Effect :
    (entry : TrashEntry) (now : ℕ) (r : Repos)
    → Effect entry r.trash (recover_trash_entry entry now r)
unfolding recover_trash_entry
recover-Effect entry now r = elim (Bool-cases (str_eq entry.state state_pending)) [
  | inl t ↦ rw t (pending-Effect entry now r (get_by_id entry.user_id entry.root_inode r.files))
  | inr f ↦ elim (Bool-cases (str_eq entry.state state_restoring)) [
    | inl t ↦
        rw (f, t) (restoring-Effect entry now r (get_by_id entry.user_id entry.root_inode r.files))
    | inr g ↦ elim (Bool-cases (str_eq entry.state state_deleting)) [
      | inl t ↦
          rw (f, g, t)
            (deleting-Effect entry now r (get_by_id entry.user_id entry.operation_inode r.files))
      | inr h ↦ rw (f, g, h) (unfold Effect in refl)
    ]
  ]
]
