-- ===== src/Model/File/MovedRoot.antt =====
-- What `moveByPrefix` of `memFileRepo` does to the record of the directory that is moved
-- (internal/model/mem_repos.go).
use mathlib.Core.List.{Mem, append-nil}
use mathlib.Core.List.Perm
use domus.Prelude.{
  ℕ, ◌<◌, Text, str_eq, eq_iff, replace_first_short, length, true, false, not, ◌&&◌, ◌≡◌, refl, sym,
  ◌∙◌, ap, some, [], sort_by-perm, arith,
}
use domus.Dict.{lookup, values_where}
use domus.Dict.Found.{values_where_complete}
use domus.Model.Keys.{NoColon}
use domus.Model.Result.{ok}
use domus.Model.File.{
  FileRecord, FileRepo, file_key, get, list_direct_children, is_child, dir_first, status_deleted,
}
use domus.Model.File.Move.{reparented, move_by_prefix}
use domus.Model.File.Stored.{IsWf, found_at}
use domus.Model.File.Reads.{lookup_of_get}
use domus.Model.File.Subtree.{get-move_by_prefix}

-- The parent, which is shorter than the prefix, stays as it is.
reparented_short :
    (old new : Text) (now : ℕ) (f : FileRecord)
    → length f.parent < length old
    → (reparented old new now f).parent ≡ f.parent
unfolding reparented
reparented_short old new now f h = replace_first_short f.parent old new h

same_user :
    (old new : Text) (now : ℕ) (f : FileRecord) → (reparented old new now f).user_id ≡ f.user_id
unfolding reparented
same_user old new now f = refl

same_status :
    (old new : Text) (now : ℕ) (f : FileRecord) → (reparented old new now f).status ≡ f.status
unfolding reparented
same_status old new now f = refl

-- The record is found at the new prefix.
at_new :
    (u old new : Text) (now : ℕ) (r : FileRepo) (f : FileRecord) {r' : FileRepo}
    → NoColon u
    → IsWf r
    → get u old r ≡ ok f
    → move_by_prefix u old new now r ≡ ok r'
    → lookup (file_key u new) r'.entries ≡ some (reparented old new now f)
at_new u old new now r f {r'} a w g h =
    let g' = ap (λ p. get u p r) (append-nil old) ∙ g in
    let moved = get-move_by_prefix u old new [] now r f a w g' h in
    lookup_of_get u new _ r' (ap (λ p. get u p r') (sym (append-nil new)) ∙ moved)

still_child :
    (u old new : Text) (now : ℕ) (f : FileRecord)
    → u ≡ f.user_id
    → length f.parent < length old
    → str_eq f.status status_deleted ≡ false
    → (is_child u f.parent (reparented old new now f)
        && not (str_eq (reparented old new now f).status status_deleted))
      ≡ true
still_child u old new now f e h live = ground (
  arith,
  live,
  eq_iff (reparented old new now f).user_id u,
  same_user old new now f,
  same_status old new now f,
  eq_iff (reparented old new now f).parent f.parent,
  reparented_short old new now f h,
)

-- When `MoveByPrefix` moves a directory, for a user whose id holds no colon, in a well-formed
-- repository, `ListDirectChildren` of the directory's old parent still lists its record, now with
-- the new path: if the record is not marked as deleted, and its parent is shorter than the old
-- prefix.
pub moved_root_still_listed :
    (u old new : Text) (now : ℕ) (r : FileRepo) (f : FileRecord) {r' : FileRepo}
    → NoColon u
    → IsWf r
    → get u old r ≡ ok f
    → length f.parent < length old
    → str_eq f.status status_deleted ≡ false
    → move_by_prefix u old new now r ≡ ok r'
    → Mem (reparented old new now f) (list_direct_children u f.parent r')
unfolding list_direct_children
moved_root_still_listed u old new now r f {r'} a w g h live m =
    let test = λ (_ : Text) (x : FileRecord).
      is_child u f.parent x && not (str_eq x.status status_deleted) in
    let (user, _) = found_at u old f r.entries a w (lookup_of_get u old f r g) in
    (Perm.mem_iff (sort_by-perm dir_first (values_where test r'.entries))).1
      ∣ values_where_complete test (file_key u new) r'.entries (at_new u old new now r f a w g m)
        (still_child u old new now f user h live) ∣₁
