-- ===== src/Model/Trash/Examples.antt =====
-- The trash repository (internal/model/mem_repos.go) at concrete entries.
use domus.Prelude.{
  ℕ, Text, codes, pos, true, false, ◌≡◌, ◌≢◌, ◌↔◌, ◌++◌, ◌≤◌, refl, arith, [], ◌∷◌, List, All,
  IsSortedBy, length, drop, str_eq, if◌then◌else◌,
}
use domus.Dict.{lookup, insert, find}
use domus.Model.Result.{ok, err, or_keep, trash_state_conflict}
use domus.Model.Trash.{
  TrashEntry, TrashRepo, state_pending, state_ready, state_restoring, create, get, transition,
  stamp, move_to, trash_key, newer, list,
}
use domus.Model.Trash.Invariant.{IsWf, empty-IsWf, Call, creates, marks_ready, run, trash_run-IsWf}
use domus.Model.Trash.Transitions.{transition_once, get-transition}

abbrev photo : TrashEntry
photo = record {
  id = codes "t1";
  user_id = codes "ann";
  root_inode = pos 7;
  original_path = codes "/photo.jpg";
  original_name = codes "photo.jpg";
  is_dir = false;
  size = pos 1200;
  state = [];
  operation_inode = pos 0;
  operation_path = [];
  target_path = [];
  deleted_at = 0;
  created_at = 0;
  updated_at = 0;
}

abbrev calls : List (Call × ℕ)
calls = (creates photo, 10) ∷ (marks_ready (codes "ann") (codes "t1") (codes "pending"), 11) ∷ []

abbrev stored : TrashRepo
stored = run calls []

abbrev ready : TrashEntry
ready = move_to (codes "ready") (pos 0) [] [] 11 (stamp photo 10)

get-ready : get (codes "ann") (codes "t1") stored ≡ ok ready
unfolding get run lookup domus.Model.Trash.mark_ready transition create find insert
    domus.Prelude.str_eq trash_key stamp domus.Prelude.is_empty state_pending state_ready
get-ready = refl

stored-IsWf : IsWf stored
stored-IsWf = trash_run-IsWf calls [] empty-IsWf

-- Restoring, and then deleting for good: the second transition is refused.
abbrev restoring : TrashRepo
restoring = or_keep stored (
    transition (codes "ann") (codes "t1") (codes "ready") (codes "restoring") (pos 9)
      (codes "/.tmp") (codes "/photo.jpg") 20 stored)

restoring_ok :
    transition
      (codes "ann")
      (codes "t1")
      (codes "ready")
      (codes "restoring")
      (pos 9)
      (codes "/.tmp")
      (codes "/photo.jpg")
      20
      stored
    ≡ ok restoring
unfolding transition lookup run domus.Model.Trash.mark_ready create find insert domus.Prelude.str_eq
    trash_key stamp domus.Prelude.is_empty state_pending move_to state_ready
restoring_ok = refl

restoring≢ready : codes "restoring" ≢ codes "ready"
restoring≢ready h = absurd (ground (arith, h))

transition_once_example :
    transition
      (codes "ann")
      (codes "t1")
      (codes "ready")
      (codes "deleting")
      (pos 7)
      []
      []
      21
      restoring
    ≡ err trash_state_conflict
transition_once_example =
    transition_once (codes "ann") (codes "t1") (codes "ready") (codes "restoring") (pos 9)
      (codes "/.tmp") (codes "/photo.jpg") 20 stored (codes "deleting") (pos 7) [] [] 21
      restoring≢ready restoring_ok

trash_run-IsWf_example : IsWf (run calls [])
trash_run-IsWf_example = trash_run-IsWf calls [] empty-IsWf

get-transition_example : get (codes "ann") (codes "t1") restoring ≡ (
    if str_eq (trash_key (codes "ann") (codes "t1")) (trash_key (codes "ann") (codes "t1"))
    then ok (record ready {
      state = codes "restoring";
      operation_inode = pos 9;
      operation_path = codes "/.tmp";
      target_path = codes "/photo.jpg";
      updated_at = 20;
    })
    else get (codes "ann") (codes "t1") stored)
get-transition_example =
    get-transition (codes "ann") (codes "t1") (codes "ready") (codes "restoring") (pos 9)
      (codes "/.tmp") (codes "/photo.jpg") 20 stored (codes "ann") (codes "t1") ready get-ready
      restoring_ok

-- The same file again, under another id.
abbrev again : TrashEntry
again = record photo { id = codes "t2" }
