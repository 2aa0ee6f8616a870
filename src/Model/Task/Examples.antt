-- ===== src/Model/Task/Examples.antt =====
-- The task repository (internal/model/mem_repos.go) with two queued jobs.
use domus.Prelude.{
  ℕ, Text, codes, str_eq, ℤ, pos, Bool, true, false, ◌≡◌, ◌≢◌, ◌≤◌, ◌↔◌, refl, arith, [], ◌∷◌, List,
  inl, inr, if◌then◌else◌,
}
use domus.Dict.Holds.{Holds-empty}
use domus.Model.Result.{ok, after}
use domus.Model.Task.{
  Task, TaskRepo, TaskUpdate, claim_next_transcode, claim, get, is_stale, requeue,
  requeue_stale_transcodes, update_status, notify, status_completed, float_one,
}
use domus.Model.Task.Invariant.{IsWf, Call, creates_queued, run, task_run-IsWf}
use domus.Model.Task.Queue.{Claimable, claim_sound, claim_oldest, claim_distinct}

abbrev calls : List Call
calls =
    creates_queued (codes "ann") (codes "j1") (codes "transcode") (codes "film") (pos 4)
      (codes "/film.mp4") (codes "720p") 10
    ∷ creates_queued (codes "bob") (codes "j2") (codes "transcode") (codes "clip") (pos 5)
        (codes "/clip.mp4") (codes "720p") 11
    ∷ []

abbrev empty : TaskRepo
empty = record { entries = []; next_id = pos 1; notifies = true }

empty-IsWf : IsWf empty
empty-IsWf = record { is_map = tt; keyed = Holds-empty (λ k t. k ≡ t.task_id) }

abbrev queued : TaskRepo
queued = run calls empty

queued-IsWf : IsWf queued
queued-IsWf = task_run-IsWf calls empty empty-IsWf

abbrev job : Text → Text → Text → ℤ → Text → ℕ → ℤ → Task
job user task name inode path now id = record {
  id = id;
  user_id = user;
  task_id = task;
  type = codes "transcode";
  status = codes "queued";
  progress = 0;
  phase = [];
  name = name;
  source_path = path;
  source_inode = inode;
  profile = codes "720p";
  error = [];
  client_instance_id = [];
  created_at = now;
  updated_at = now;
}

abbrev film : Task
film = job (codes "ann") (codes "j1") (codes "film") (pos 4) (codes "/film.mp4") 10 (pos 1)

abbrev clip : Task
clip = job (codes "bob") (codes "j2") (codes "clip") (pos 5) (codes "/clip.mp4") 11 (pos 2)

get-film : get (codes "j1") queued ≡ ok film
unfolding get domus.Dict.lookup run domus.Model.Task.create_queued domus.Dict.insert str_eq
    domus.Model.Task.status_queued
get-film = refl

get-clip : get (codes "j2") queued ≡ ok clip
unfolding get domus.Dict.lookup run domus.Model.Task.create_queued domus.Dict.insert str_eq
    domus.Prelude.int64_succ domus.Model.Task.status_queued
get-clip = refl

clip-Claimable : Claimable [] clip
unfolding domus.Model.Task.type_transcode domus.Model.Task.status_queued domus.Prelude.is_empty
clip-Claimable = (refl, refl, inl refl)

abbrev first : TaskRepo
first = after queued (claim_next_transcode [] 20 queued)

abbrev second : TaskRepo
second = after first (claim_next_transcode [] 21 first)

first_ok : claim_next_transcode [] 20 queued ≡ ok (claim 20 film, first)
unfolding claim_next_transcode domus.Dict.best_from run domus.Model.Task.create_queued
    domus.Dict.insert str_eq domus.Model.Task.type_transcode domus.Model.Task.status_queued
    domus.Prelude.is_empty
first_ok = refl

second_ok : claim_next_transcode [] 21 first ≡ ok (claim 21 clip, second)
unfolding claim_next_transcode domus.Dict.best_from run domus.Model.Task.create_queued
    domus.Dict.insert str_eq domus.Model.Task.type_transcode domus.Model.Task.status_queued
    domus.Prelude.is_empty domus.Model.Task.status_running domus.Prelude.int64_succ
second_ok = refl

claim_distinct_example : (claim 20 film).task_id ≢ (claim 21 clip).task_id
claim_distinct_example = claim_distinct [] [] 20 21 queued queued-IsWf first_ok second_ok

claim_oldest_example : (claim 20 film).created_at ≤ clip.created_at
claim_oldest_example = claim_oldest [] 20 queued clip queued-IsWf first_ok get-clip clip-Claimable

claim_sound_example :
    (t : Task) × (get t.task_id queued ≡ ok t)
    × Claimable [] t
    × (claim 20 film ≡ claim 20 t)
    × (get (codes "j2") first
        ≡ (if str_eq t.task_id (codes "j2") then ok (claim 20 film) else get (codes "j2") queued))
claim_sound_example = claim_sound [] (codes "j2") 20 queued queued-IsWf first_ok

get-first : get (codes "j1") first ≡ ok (claim 20 film)
unfolding get domus.Dict.lookup claim_next_transcode domus.Dict.best_from run
    domus.Model.Task.create_queued domus.Dict.insert str_eq domus.Model.Task.type_transcode
    domus.Model.Task.status_queued domus.Prelude.is_empty
get-first = refl
