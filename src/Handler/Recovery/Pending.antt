-- ===== src/Handler/Recovery/Pending.antt =====
-- The recovery of an entry whose creation was cut short: internal/handler/trash.go.
use domus.Prelude.{
  ℕ, Text, str_eq, str_eq_refl, Bool, true, false, Option, none, some, ◌≡◌, inl, inr, subst, pos,
  [], refl, ap, ◌∙◌, Bool-cases, if◌then◌else◌,
}
use domus.Dict.{lookup}
use domus.Dict.Lookup.{lookup-insert_self, lookup-delete}
use domus.Model.Result.{Result, ok, err}
use domus.Model.File.{FileRecord, or_not_found, get_by_id}
use domus.Model.Trash
use domus.Model.Trash.{
  TrashEntry, TrashRepo, trash_key, state_pending, state_ready, state_restoring, state_deleting,
  move_to, transition, mark_ready,
}
use domus.Model.Cleanup.{Repos}
use domus.Handler.TrashPath.{trash_entry_storage_path}
use domus.Handler.Recovery.{
  Outcome, done, delete_entry, marked, mark_entry_ready, recover_pending, recover_trash_entry,
}
use domus.Model.Trash
use domus.Handler.Recovery.Settles.{mark_same}

-- The root's record lies where the entry keeps it.
abbrev pub at_place : TrashEntry → Result FileRecord → Bool
at_place entry (ok root) = str_eq root.path (trash_entry_storage_path entry)
at_place entry (err e) = false

-- The outcome is a success that changes no file; the entry is ready if `placed`, and gone otherwise.
unfoldable pub Resolved : TrashEntry → ℕ → Repos → Outcome → Bool → Type 0
Resolved entry now r o placed =
    (r' : Repos) × (o ≡ done r')
    × (r'.files ≡ r.files)
    × (lookup (trash_key entry.user_id entry.id) r'.trash
        ≡ (if placed then some (move_to state_ready (pos 0) [] [] now entry) else none))

delete_entry-Resolved :
    (entry : TrashEntry) (now : ℕ) (r : Repos)
    → Resolved entry now r (delete_entry entry.user_id entry.id r) false
unfolding Resolved delete_entry Trash.remove
delete_entry-Resolved entry now r = (
  _,
  refl,
  refl,
  lookup-delete (trash_key entry.user_id entry.id) (trash_key entry.user_id entry.id) r.trash
      ∙ rw (str_eq_refl (trash_key entry.user_id entry.id)) refl,
)

mark_entry_ready-Resolved :
    (entry : TrashEntry) (now : ℕ) (r : Repos)
    → lookup (trash_key entry.user_id entry.id) r.trash ≡ some entry
    → str_eq entry.state state_pending ≡ true
    → Resolved entry now r (mark_entry_ready entry.user_id entry state_pending now r) true
unfolding Resolved mark_entry_ready marked
mark_entry_ready-Resolved entry now r l t = (
  _,
  ap (marked r) (mark_same entry.user_id entry.id state_pending now r.trash entry l t),
  refl,
  lookup-insert_self (trash_key entry.user_id entry.id) _ r.trash,
)

recover_pending-Resolved :
    (entry : TrashEntry) (now : ℕ) (r : Repos) (found : Option (Text × FileRecord))
    → lookup (trash_key entry.user_id entry.id) r.trash ≡ some entry
    → str_eq entry.state state_pending ≡ true
    → Resolved entry now r
        (recover_pending entry now r (or_not_found found))
        (at_place entry (or_not_found found))
unfolding recover_pending
recover_pending-Resolved entry now r none l t = delete_entry-Resolved entry now r
recover_pending-Resolved entry now r (some (_, root)) l t =
    elim (Bool-cases (str_eq root.path (trash_entry_storage_path entry))) [
      | inl p ↦ rw p (mark_entry_ready-Resolved entry now r l t)
      | inr q ↦ rw q (delete_entry-Resolved entry now r)
    ]

is_pending : {a b : Text} → a ≡ b → str_eq a b ≡ true
is_pending {a} p = subst (λ b. str_eq a b ≡ true) p (str_eq_refl a)

-- The recovery of a stored entry whose creation was cut short always succeeds and changes no
-- file: the entry becomes ready if the record of its root lies in the entry's place in the trash,
-- and is removed otherwise.
pub recover_pending_iff :
    (entry : TrashEntry) (now : ℕ) (r : Repos)
    → lookup (trash_key entry.user_id entry.id) r.trash ≡ some entry
    → entry.state ≡ state_pending
    → Resolved entry now r
        (recover_trash_entry entry now r)
        (at_place entry (get_by_id entry.user_id entry.root_inode r.files))
unfolding recover_trash_entry get_by_id
recover_pending_iff entry now r l p =
    rw (is_pending p) (recover_pending-Resolved entry now r _ l (is_pending p))
