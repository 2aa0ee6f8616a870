-- ===== src/Handler/Recovery/Examples.antt =====
-- Recovery (internal/handler/trash.go) of an entry whose root was renamed, and of one that was not.
use domus.Prelude.{
  ℕ, subst, length, arith, codes, Option, none, some, List, [], ◌∷◌, ◌++◌, ◌≡◌, ◌⊎◌, refl, true,
  false, pos,
}
use domus.Dict.{lookup}
use domus.Model.File.{FileRecord, file_key, get_by_id}
use domus.Model.File.Basic.{blank}
use domus.Model.Trash.Invariant.{IsWf, empty-IsWf, creates, run, trash_run-IsWf}
use domus.Model.Trash.Listing.{listing}
use domus.Handler.TrashPath.{trash_entry_storage_path}
use domus.Model.Trash.{TrashEntry, trash_key, state_ready, state_pending, move_to}
use domus.Model.Cleanup.{Repos, new_mem_repos}
use domus.Handler.Recovery.{done, recover_trash_entry, recover_trash}
use domus.Handler.Recovery.Settles.{recover_trash_entry_settles}
use domus.Handler.Recovery.AllReady.{recover_trash_ready}
use domus.Handler.Recovery.Listing.{
  list_all_ready_trash_entries, list_all_ready_trash_entries_total,
}
use domus.Handler.Recovery.Pending.{Resolved, at_place, recover_pending_iff}

abbrev entry : TrashEntry
entry = record {
  id = codes "t1";
  user_id = codes "u1";
  root_inode = pos 5;
  original_path = codes "/a.txt";
  original_name = codes "a.txt";
  is_dir = false;
  size = pos 3;
  state = codes "pending";
  operation_inode = pos 0;
  operation_path = [];
  target_path = [];
  deleted_at = 10;
  created_at = 10;
  updated_at = 10;
}

abbrev repos : Repos
repos = record (new_mem_repos true) { trash = (trash_key (codes "u1") (codes "t1"), entry) ∷ [] }

abbrev recovered : Repos
recovered = record repos { trash = [] }

is_pending : entry.state ≡ state_pending
unfolding state_pending
is_pending = refl

stored : lookup (trash_key entry.user_id entry.id) repos.trash ≡ some entry
unfolding lookup domus.Prelude.str_eq trash_key
stored = refl

recovers : recover_trash_entry entry 20 repos ≡ done recovered
unfolding recover_trash_entry domus.Prelude.str_eq state_pending
    domus.Handler.Recovery.recover_pending get_by_id domus.Dict.find new_mem_repos
    domus.Handler.Recovery.delete_entry domus.Model.Trash.remove domus.Dict.delete trash_key
recovers = refl

recover_trash_entry_settles_example :
    (lookup (trash_key entry.user_id entry.id) recovered.trash ≡ none)
    ⊎ ((e : TrashEntry) × (lookup (trash_key entry.user_id entry.id) recovered.trash ≡ some e)
        × (e.state ≡ state_ready))
recover_trash_entry_settles_example = recover_trash_entry_settles entry 20 repos recovered recovers

recover_pending_iff_example :
    Resolved entry 20 repos
      (recover_trash_entry entry 20 repos)
      (at_place entry (get_by_id entry.user_id entry.root_inode repos.files))
recover_pending_iff_example = recover_pending_iff entry 20 repos stored is_pending

-- The entry's root lies in its place.
abbrev root : FileRecord
root = record (blank (pos 5) (codes "u1") (codes "/.domus/trash/items/t1") (codes "a.txt") 10) {
  path = trash_entry_storage_path entry;
}

abbrev moved : Repos
moved = record repos {
  files = record {
    entries = (file_key (codes "u1") (trash_entry_storage_path entry), root) ∷ [];
    next_id = pos 6;
  };
}

abbrev ready : TrashEntry
ready = move_to state_ready (pos 0) [] [] 20 entry

created : run ((creates entry, 10) ∷ []) [] ≡ moved.trash
unfolding run domus.Model.Trash.create lookup domus.Dict.find domus.Dict.insert
    domus.Model.Trash.stamp domus.Prelude.is_empty
created = refl

moved-IsWf : IsWf moved.trash
moved-IsWf = subst IsWf created (trash_run-IsWf ((creates entry, 10) ∷ []) [] empty-IsWf)

no_error : (recover_trash true 20 (λ e. 20) moved).0 ≡ []
unfolding recover_trash domus.Handler.Recovery.recover_entries domus.Handler.Recovery.attempt
    recover_trash_entry domus.Handler.Recovery.recover_pending
    domus.Handler.Recovery.mark_entry_ready domus.Handler.Recovery.marked
    domus.Model.Trash.mark_ready domus.Model.Trash.transition domus.Model.Trash.list_recoverable
    domus.Prelude.sort_by domus.Dict.values_where get_by_id domus.Dict.find lookup domus.Dict.insert
    trash_key trash_entry_storage_path state_ready state_pending domus.Prelude.str_eq
    domus.Prelude.int_eq
no_error = refl

still_there :
    lookup (trash_key (codes "u1") (codes "t1")) (recover_trash true 20 (λ e. 20) moved).1.trash
    ≡ some ready
unfolding recover_trash domus.Handler.Recovery.recover_entries domus.Handler.Recovery.attempt
    recover_trash_entry domus.Handler.Recovery.recover_pending
    domus.Handler.Recovery.mark_entry_ready domus.Handler.Recovery.marked
    domus.Model.Trash.mark_ready domus.Model.Trash.transition domus.Model.Trash.list_recoverable
    domus.Prelude.sort_by domus.Dict.values_where get_by_id domus.Dict.find lookup domus.Dict.insert
    trash_key trash_entry_storage_path state_ready state_pending domus.Prelude.str_eq
    domus.Prelude.int_eq
still_there = refl

recover_trash_ready_example : ready.state ≡ state_ready
recover_trash_ready_example =
    recover_trash_ready 20 (λ e. 20) moved (trash_key (codes "u1") (codes "t1")) ready moved-IsWf
      no_error still_there

one_ready : length (listing (codes "u1") ((trash_key (codes "u1") (codes "t1"), ready) ∷ [])) ≡ 1
unfolding domus.Prelude.sort_by domus.Dict.values_where domus.Prelude.str_eq move_to state_ready
one_ready = refl

list_all_ready_trash_entries_total_example :
    list_all_ready_trash_entries 2 (codes "u1") ((trash_key (codes "u1") (codes "t1"), ready) ∷ [])
    ≡ some (listing (codes "u1") ((trash_key (codes "u1") (codes "t1"), ready) ∷ []))
list_all_ready_trash_entries_total_example =
    list_all_ready_trash_entries_total 2 (codes "u1")
      ((trash_key (codes "u1") (codes "t1"), ready) ∷ []) (omega (arith, one_ready))
