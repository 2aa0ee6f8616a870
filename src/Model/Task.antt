-- ===== src/Model/Task.antt =====
-- The task repository: internal/model/task.go and `memTaskRepo` of internal/model/mem_repos.go.
-- A float64 is its bit pattern: the program stores, copies and passes on such values and makes the
-- constants 0 and 1. The callback `onTaskUpdate` is an output: the updates that it is called with.
pub mod Invariant
pub mod Queue
mod Examples
use domus.Prelude.{
  ℕ, ltb, Text, codes, str_eq, is_empty, ℤ, pos, int64_succ, Bool, true, false, not, ◌&&◌, ◌||◌,
  Option, none, some, List, [], ◌∷◌, map, take, sort_by, length, if◌then◌else◌,
}
use domus.Dict.{
  Dict, lookup, insert, delete, delete_where, values_where, best_from, update_where, map_values,
}
use domus.Model.Result.{Result, ok, err, record_not_found}

unfoldable pub status_queued : Text
status_queued = codes "queued"

unfoldable pub status_running : Text
status_running = codes "running"

unfoldable pub status_cancelling : Text
status_cancelling = codes "cancelling"

unfoldable pub status_completed : Text
status_completed = codes "completed"

unfoldable pub status_failed : Text
status_failed = codes "failed"

unfoldable pub status_cancelled : Text
status_cancelled = codes "cancelled"

unfoldable pub type_transcode : Text
type_transcode = codes "transcode"

-- The bit patterns of 0.0 and 1.0.
abbrev pub float_zero : ℕ
float_zero = 0

abbrev pub float_one : ℕ
float_one = 0x3ff0_0000_0000_0000

pub record Task : Type 0 where
  pub id : ℤ
  pub user_id : Text
  pub task_id : Text
  pub type : Text
  pub status : Text
  pub progress : ℕ
  pub phase : Text
  pub name : Text
  pub source_path : Text
  pub source_inode : ℤ
  pub profile : Text
  pub error : Text
  pub client_instance_id : Text
  pub created_at : ℕ
  pub updated_at : ℕ

pub record TaskRepo : Type 0 where
  pub entries : Dict Task
  pub next_id : ℤ
  pub notifies : Bool

-- The arguments of one call of `onTaskUpdate`.
pub record TaskUpdate : Type 0 where
  pub user_id : Text
  pub task_id : Text
  pub type : Text
  pub name : Text
  pub status : Text
  pub client_instance_id : Text
  pub progress : ℕ
  pub phase : Text

abbrev pub add : Task → TaskRepo → TaskRepo
add t r = record r { entries = insert t.task_id t r.entries; next_id = int64_succ r.next_id }

unfoldable pub create : Text → Text → Text → Text → ℕ → TaskRepo → TaskRepo
create user_id task_id task_type name now r =
    add
      (record {
        id = r.next_id;
        user_id = user_id;
        task_id = task_id;
        type = task_type;
        status = status_running;
        progress = float_zero;
        phase = [];
        name = name;
        source_path = [];
        source_inode = pos 0;
        profile = [];
        error = [];
        client_instance_id = [];
        created_at = now;
        updated_at = now;
      })
      r

unfoldable pub create_queued : Text → Text → Text → Text → ℤ → Text → Text → ℕ → TaskRepo → TaskRepo
create_queued user_id task_id task_type name source_inode source_path profile now r =
    add
      (record {
        id = r.next_id;
        user_id = user_id;
        task_id = task_id;
        type = task_type;
        status = status_queued;
        progress = float_zero;
        phase = [];
        name = name;
        source_path = source_path;
        source_inode = source_inode;
        profile = profile;
        error = [];
        client_instance_id = [];
        created_at = now;
        updated_at = now;
      })
      r

-- A queued transcode job, of the user if one is given.
abbrev pub is_claimable : Text → Text → Task → Bool
is_claimable user_id _ t =
    (str_eq t.type type_transcode && str_eq t.status status_queued)
    && (is_empty user_id || str_eq t.user_id user_id)

abbrev pub older : Task → Task → Bool
older a b = ltb a.created_at b.created_at

abbrev pub claim : ℕ → Task → Task
claim now t = record t { status = status_running; updated_at = now }

unfoldable pub claim_next_transcode : Text → ℕ → TaskRepo → Result (Task × TaskRepo)
claim_next_transcode user_id now r = elim (best_from (is_claimable user_id) older none r.entries) [
  | none ↦ err record_not_found
  | some (k, t) ↦ ok (claim now t, record r { entries = insert k (claim now t) r.entries })
]

abbrev pub is_stale : Task → Bool
is_stale t =
    str_eq t.type type_transcode
    && (str_eq t.status status_running || str_eq t.status status_cancelling)

abbrev pub requeue : ℕ → Task → Task
requeue now t = record t { status = status_queued; progress = float_zero; updated_at = now }

unfoldable pub requeue_stale_transcodes : ℕ → TaskRepo → List Task × TaskRepo
requeue_stale_transcodes now r = (
  map (requeue now) (values_where (λ _ t. is_stale t) r.entries),
  record r { entries = update_where is_stale (requeue now) r.entries },
)

unfoldable pub get : Text → TaskRepo → Result Task
get task_id r = elim (lookup task_id r.entries) [ none ↦ err record_not_found | some t ↦ ok t ]

-- The callback's calls, none if there is no callback.
abbrev pub notify : TaskRepo → Task → List TaskUpdate
notify r t =
    if r.notifies
    then record {
      user_id = t.user_id;
      task_id = t.task_id;
      type = t.type;
      name = t.name;
      status = t.status;
      client_instance_id = t.client_instance_id;
      progress = t.progress;
      phase = t.phase;
    }
      ∷ []
    else []

unfoldable pub update_progress :
    Text → ℕ → Text → ℕ → TaskRepo → Result (List TaskUpdate × TaskRepo)
update_progress task_id progress phase now r = elim (lookup task_id r.entries) [
  | none ↦ err record_not_found
  | some t ↦
      let t' = record t { progress = progress; phase = phase; updated_at = now } in
      ok (notify r t', record r { entries = insert task_id t' r.entries })
]

unfoldable pub with_status : Text → ℕ → Task → Task
with_status status now t = record t {
  status = status;
  updated_at = now;
  progress = if str_eq status status_completed then float_one else t.progress;
}

unfoldable pub update_status : Text → Text → ℕ → TaskRepo → Result (List TaskUpdate × TaskRepo)
update_status task_id status now r = elim (lookup task_id r.entries) [
  | none ↦ err record_not_found
  | some t ↦ ok (
    notify r (with_status status now t),
    record r { entries = insert task_id (with_status status now t) r.entries },
  )
]

unfoldable list_recent : Text → TaskRepo → List Task
list_recent user_id r =
    let out =
      sort_by (λ (a b : Task). ltb b.created_at a.created_at)
        (values_where (λ _ t. str_eq t.user_id user_id) r.entries) in
    if ltb 50 (length out) then take 50 out else out

abbrev pub is_finished : Task → Bool
is_finished t =
    str_eq t.status status_completed
    || (str_eq t.status status_failed || str_eq t.status status_cancelled)

unfoldable pub delete_completed : Text → TaskRepo → TaskRepo
delete_completed user_id r = record r {
  entries = delete_where (λ _ t. str_eq t.user_id user_id && is_finished t) r.entries;
}

unfoldable pub remove : Text → TaskRepo → TaskRepo
remove task_id r = record r { entries = delete task_id r.entries }
