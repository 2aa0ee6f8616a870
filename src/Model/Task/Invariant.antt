-- ===== src/Model/Task/Invariant.antt =====
-- What every call of `memTaskRepo` keeps (internal/model/mem_repos.go).
use domus.Prelude.{
  ℕ, Text, ℤ, ◌≡◌, refl, inl, inr, Option-cases, Bool-cases, none, List, [], ◌∷◌, arith,
}
use domus.Dict.{lookup, insert, best_from, IsMap}
use domus.Dict.Keys.{insert-IsMap, delete-IsMap, delete_where-IsMap, map_values-IsMap}
use domus.Dict.Best.{best_from_sound}
use domus.Dict.Holds.{Holds, Holds-insert, Holds-delete, Holds-delete_where, Holds-map_values}
use domus.Model.Result.{after}
use domus.Model.Task.{
  Task, TaskRepo, create, create_queued, is_claimable, older, claim, claim_next_transcode, is_stale,
  requeue_stale_transcodes, update_progress, with_status, update_status, delete_completed, remove,
}

-- One entry for a task id, each at its task's id.
pub record IsWf (r : TaskRepo) : Type 0 where
  pub is_map : IsMap r.entries
  pub keyed : Holds (λ k t. k ≡ t.task_id) r.entries

-- Storing a task at its own id keeps the repository well formed.
put-IsWf :
    (r r' : TaskRepo) (k : Text) (t : Task)
    → k ≡ t.task_id
    → r'.entries ≡ insert k t r.entries
    → IsWf r
    → IsWf r'
put-IsWf r r' k t e s w = record {
  is_map = rw s (insert-IsMap k t r.entries w.is_map);
  keyed = rw s (Holds-insert (λ k t. k ≡ t.task_id) k t r.entries e w.keyed);
}

pub claim_next_transcode-IsWf :
    (user : Text) (now : ℕ) (r : TaskRepo)
    → IsWf r
    → IsWf (after r (claim_next_transcode user now r))
unfolding claim_next_transcode
claim_next_transcode-IsWf user now r w =
    elim (Option-cases (best_from (is_claimable user) older none r.entries)) [
      | inl n ↦ rw (n, claim_next_transcode, after) w
      | inr ((k, t), l) ↦
          elim (best_from_sound (is_claimable user) older none r.entries w.is_map l) [
            | inl c ↦ absurd (ground arith)
            | inr (p, g) ↦
                rw (l, claim_next_transcode, after)
                  (put-IsWf r _ k (claim now t) (w.keyed k t g) refl w)
          ]
    ]

requeue_stale_transcodes-IsWf :
    (now : ℕ) (r : TaskRepo) → IsWf r → IsWf (requeue_stale_transcodes now r).1
unfolding requeue_stale_transcodes
requeue_stale_transcodes-IsWf now r w = record {
  is_map = map_values-IsMap _ r.entries w.is_map;
  keyed =
      Holds-map_values (λ k t. k ≡ t.task_id) _ r.entries
        (λ k t h. elim (Bool-cases (is_stale t)) [ inl a ↦ rw a h | inr b ↦ rw b h ]) w.keyed;
}

update_progress-IsWf :
    (k : Text) (p : ℕ) (phase : Text) (now : ℕ) (r : TaskRepo)
    → IsWf r
    → IsWf (after r (update_progress k p phase now r))
unfolding update_progress
update_progress-IsWf k p phase now r w = elim (Option-cases (lookup k r.entries)) [
  | inl n ↦ rw (n, update_progress, after) w
  | inr (t, l) ↦ rw (l, update_progress, after) (put-IsWf r _ k _ (w.keyed k t l) refl w)
]

update_status-IsWf :
    (k s : Text) (now : ℕ) (r : TaskRepo) → IsWf r → IsWf (after r (update_status k s now r))
unfolding update_status with_status
update_status-IsWf k s now r w = elim (Option-cases (lookup k r.entries)) [
  | inl n ↦ rw (n, update_status, after) w
  | inr (t, l) ↦
      rw (l, update_status, after) (put-IsWf r _ k (with_status s now t) (w.keyed k t l) refl w)
]

pub data Call : Type 0 where
  creates : Text → Text → Text → Text → ℕ → Call
  creates_queued : Text → Text → Text → Text → ℤ → Text → Text → ℕ → Call
  claims : Text → ℕ → Call
  requeues : ℕ → Call
  progresses : Text → ℕ → Text → ℕ → Call
  changes_status : Text → Text → ℕ → Call
  deletes_completed : Text → Call
  removes : Text → Call

unfoldable pub step : Call → TaskRepo → TaskRepo
step (creates u k type name now) r = create u k type name now r
step (creates_queued u k type name inode path profile now) r =
    create_queued u k type name inode path profile now r
step (claims u now) r = after r (claim_next_transcode u now r)
step (requeues now) r = (requeue_stale_transcodes now r).1
step (progresses k p phase now) r = after r (update_progress k p phase now r)
step (changes_status k s now) r = after r (update_status k s now r)
step (deletes_completed u) r = delete_completed u r
step (removes k) r = remove k r

unfoldable pub run : List Call → TaskRepo → TaskRepo
unfolding step
run [] r = r
run (c ∷ cs) r = run cs (step c r)

pub step-IsWf : (c : Call) (r : TaskRepo) → IsWf r → IsWf (step c r)
unfolding step create create_queued delete_completed remove
step-IsWf (creates u k type name now) r w = put-IsWf r _ k _ refl refl w
step-IsWf (creates_queued u k type name inode path profile now) r w = put-IsWf r _ k _ refl refl w
step-IsWf (claims u now) r w = claim_next_transcode-IsWf u now r w
step-IsWf (requeues now) r w = requeue_stale_transcodes-IsWf now r w
step-IsWf (progresses k p phase now) r w = update_progress-IsWf k p phase now r w
step-IsWf (changes_status k s now) r w = update_status-IsWf k s now r w
step-IsWf (deletes_completed u) r w = record {
  is_map = delete_where-IsMap _ r.entries w.is_map;
  keyed = Holds-delete_where (λ k t. k ≡ t.task_id) _ r.entries w.is_map w.keyed;
}
step-IsWf (removes k) r w = record {
  is_map = delete-IsMap k r.entries w.is_map;
  keyed = Holds-delete (λ k t. k ≡ t.task_id) k r.entries w.keyed;
}

-- Any calls keep the repository well formed: one entry for a task id, each at its task's id.
pub task_run-IsWf : (cs : List Call) (r : TaskRepo) → IsWf r → IsWf (run cs r)
unfolding run
task_run-IsWf [] r w = w
task_run-IsWf (c ∷ cs) r w = task_run-IsWf cs (step c r) (step-IsWf c r w)
