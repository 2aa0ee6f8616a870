-- ===== src/Model/Task/Queue.antt =====
-- The queue of transcode jobs: which job a worker gets, that no two get one, and what is queued
-- again after a restart.
use mathlib.Core.Bool.{false≢true}
use domus.Prelude.{
  ℕ, ◌≤◌, Text, str_eq, eq_iff, is_empty, Bool, true, false, ◌≡◌, ◌≢◌, ◌⊎◌, ◌↔◌, refl, sym, ◌∙◌, ap,
  subst, inl, inr, Option-cases, Bool-cases, none, some, List, [], ◌∷◌, arith, if◌then◌else◌,
  IsWeakOrder,
}
use domus.Dict.{Dict, lookup, insert, best_from}
use domus.Dict.Lookup.{lookup-insert, lookup-insert_self, lookup-map_values}
use domus.Dict.Best.{best_from_sound, best_from-none, best_from_optimal, NoneBetter}
use domus.Dict.Every.{Every-lookup}
use domus.Model.Result.{ok}
use domus.Model.Task.{
  Task, TaskRepo, is_claimable, older, claim, claim_next_transcode, is_stale, requeue,
  requeue_stale_transcodes, get, status_queued, status_running, status_cancelling, type_transcode,
  update_status, with_status, TaskUpdate, float_one, notify, status_completed,
}
use domus.Model.Task.Invariant.{IsWf, claim_next_transcode-IsWf}

older-IsWeakOrder : IsWeakOrder older
older-IsWeakOrder = record { asym = λ x y h. ground arith; weak_trans = λ x y z h k. ground arith }

NoneBetter-lookup :
    (p : Text → Task → Bool) (j : Text) (t b : Task) (m : Dict Task)
    → NoneBetter p older t m
    → lookup j m ≡ some b
    → p j b ≡ true
    → older b t ≡ false
unfolding lookup
NoneBetter-lookup p j t b [] n l h = cc
NoneBetter-lookup p j t b ((k, x) ∷ m) n l h = elim (Bool-cases (str_eq k j)) [
  | inr f ↦ NoneBetter-lookup p j t b m n.1 (rw f at l) h
  | inl e ↦
      let same : x ≡ b = ground arith in
      subst (λ y. older y t ≡ false) same
        (n.0 (
          subst (λ y. p y x ≡ true) (sym ((eq_iff k j).0 e))
            (subst (λ y. p j y ≡ true) (sym same) h)))
]

-- A job that can be claimed: a queued transcode job, of the user if one is given.
abbrev pub Claimable : Text → Task → Type 0
Claimable user_id t =
    (t.type ≡ type_transcode)
    × (t.status ≡ status_queued)
    × ((is_empty user_id ≡ true) ⊎ (t.user_id ≡ user_id))

is_claimable→Claimable :
    (user_id k : Text) (t : Task) → is_claimable user_id k t ≡ true → Claimable user_id t
is_claimable→Claimable user_id k t h = (
  ground (arith, eq_iff t.type type_transcode),
  ground (arith, eq_iff t.status status_queued),
  ground (arith, eq_iff t.user_id user_id),
)

can_be_claimed :
    (user_id k : Text) (t : Task) → Claimable user_id t → is_claimable user_id k t ≡ true
can_be_claimed user_id k t (a, b, c) =
    ground
      (arith, eq_iff t.type type_transcode, eq_iff t.status status_queued, eq_iff t.user_id user_id)

get_ok : (k : Text) {t : Task} (r : TaskRepo) → lookup k r.entries ≡ some t → get k r ≡ ok t
unfolding get
get_ok k r l = rw (l, get)

lookup_of_get : (k : Text) (t : Task) (r : TaskRepo) → get k r ≡ ok t → lookup k r.entries ≡ some t
unfolding get
lookup_of_get k t r h = ground arith

-- On a well-formed repository a claim takes a job that is queued for transcoding, and is the
-- user's if one is given: the job is returned as running and stored so, and every other job is as
-- before.
pub claim_sound :
    (user_id j : Text) (now : ℕ) (r : TaskRepo) {c : Task} {r' : TaskRepo}
    → IsWf r
    → claim_next_transcode user_id now r ≡ ok (c, r')
    → (t : Task) × (get t.task_id r ≡ ok t)
      × Claimable user_id t
      × (c ≡ claim now t)
      × (get j r' ≡ (if str_eq t.task_id j then ok c else get j r))
unfolding claim_next_transcode
claim_sound user_id j now r {c} {r'} w h =
    elim (Option-cases (best_from (is_claimable user_id) older none r.entries)) [
      | inl n ↦ absurd (ground arith)
      | inr ((k, t), l) ↦
          elim (best_from_sound (is_claimable user_id) older none r.entries w.is_map l) [
            | inl e ↦ absurd (ground arith)
            | inr (p, g) ↦
                let key = w.keyed k t g in
                (
                  t,
                  get_ok t.task_id r (subst (λ x. lookup x r.entries ≡ some t) key g),
                  is_claimable→Claimable user_id k t p,
                  ground arith,
                  unfold get in ground (arith, lookup-insert k j (claim now t) r.entries, key),
                )
          ]
    ]

-- On a well-formed repository no job that the worker could claim is older than the one that it
-- gets.
pub claim_oldest :
    (user_id : Text) (now : ℕ) (r : TaskRepo) (b : Task) {c : Task} {r' : TaskRepo}
    → IsWf r
    → claim_next_transcode user_id now r ≡ ok (c, r')
    → get b.task_id r ≡ ok b
    → Claimable user_id b
    → c.created_at ≤ b.created_at
unfolding claim_next_transcode
claim_oldest user_id now r b {c} {r'} w h g q =
    elim (Option-cases (best_from (is_claimable user_id) older none r.entries)) [
      | inl n ↦ absurd (ground arith)
      | inr ((k, t), l) ↦
          let same : claim now t ≡ c = ground arith in
          let f =
            NoneBetter-lookup (is_claimable user_id) b.task_id t b r.entries
              (best_from_optimal (is_claimable user_id) older older-IsWeakOrder r.entries l)
              (lookup_of_get b.task_id b r g) (can_be_claimed user_id b.task_id b q) in
          rw (← same) (ground arith)
    ]

-- On a well-formed repository a claim returns a job exactly when some job can be claimed.
claim_iff :
    (user_id : Text) (now : ℕ) (r : TaskRepo)
    → IsWf r
    → ((c : Task) × (r' : TaskRepo) × (claim_next_transcode user_id now r ≡ ok (c, r')))
      ↔ ((t : Task) × (get t.task_id r ≡ ok t) × Claimable user_id t)
unfolding claim_next_transcode
claim_iff user_id now r w = (
  (λ (c, r', h). let (t, g, q, _, _) = claim_sound user_id [] now r w h in (t, g, q)),
  λ (t, g, q). elim (Option-cases (best_from (is_claimable user_id) older none r.entries)) [
    | inl n ↦
        let none_left =
          Every-lookup (λ k x. is_claimable user_id k x ≡ false) t.task_id r.entries
            (best_from-none (is_claimable user_id) older none r.entries n).1
            (lookup_of_get t.task_id t r g) in
        absurd (false≢true (sym none_left ∙ can_be_claimed user_id t.task_id t q))
    | inr ((k, x), l) ↦ (
      claim now x,
      record r { entries = insert k (claim now x) r.entries },
      rw (l, claim_next_transcode),
    )
  ],
)

running_ne_queued : status_running ≢ status_queued
unfolding status_running status_queued
running_ne_queued e = ground arith

-- On a well-formed repository two claims in a row, by any workers, get different jobs.
pub claim_distinct :
    (u v : Text) (now later : ℕ) (r : TaskRepo) {c d : Task} {r' r'' : TaskRepo}
    → IsWf r
    → claim_next_transcode u now r ≡ ok (c, r')
    → claim_next_transcode v later r' ≡ ok (d, r'')
    → c.task_id ≢ d.task_id
claim_distinct u v now later r {c} {d} {r'} {r''} w h k e =
    let w' : IsWf r' = rw h at (claim_next_transcode-IsWf u now r w) in
    let (s, g', q', ds, _) = claim_sound v [] later r' w' k in
    let (t, g, q, cs, stored) = claim_sound u s.task_id now r w h in
    let key : t.task_id ≡ s.task_id =
      sym (ap (λ (x : Task). x.task_id) cs) ∙ (e ∙ ap (λ (x : Task). x.task_id) ds) in
    let same : c ≡ s = ground (arith, eq_iff t.task_id s.task_id) in
    running_ne_queued
      (sym (ap (λ (x : Task). x.status) cs) ∙ (ap (λ (x : Task). x.status) same ∙ q'.1))

abbrev requeued : ℕ → Task → Task
requeued now t = if is_stale t then requeue now t else t

requeued_idle : (now : ℕ) (t : Task) → is_stale (requeued now t) ≡ false
unfolding status_queued status_running status_cancelling str_eq
requeued_idle now t = ground arith

-- After a restart each stored task is as before, unless it is a transcode job that was running or
-- being cancelled, which is queued again with its progress reset; none is left running or being
-- cancelled.
get-requeue_stale_transcodes :
    (k : Text) (now : ℕ) (r : TaskRepo) (t : Task)
    → get k r ≡ ok t
    → (get k (requeue_stale_transcodes now r).1 ≡ ok (if is_stale t then requeue now t else t))
      × (is_stale (if is_stale t then requeue now t else t) ≡ false)
unfolding requeue_stale_transcodes get
get-requeue_stale_transcodes k now r t g =
    (rw (lookup-map_values _ k r.entries, lookup_of_get k t r g, get), requeued_idle now t)

-- When `UpdateStatus` of a stored task succeeds, the task is stored with that status, and with
-- progress 1 if it is completed, and the callback is told of exactly the task that is stored.
update_status_notifies :
    (k status : Text) (now : ℕ) (r : TaskRepo) (t : Task) {us : List TaskUpdate} {r' : TaskRepo}
    → get k r ≡ ok t
    → update_status k status now r ≡ ok (us, r')
    → (t' : Task) × (get k r' ≡ ok t')
      × (us ≡ notify r t')
      × (t'.status ≡ status)
      × (t'.progress ≡ (if str_eq status status_completed then float_one else t.progress))
unfolding update_status with_status get
update_status_notifies k status now r t g h =
    let l = lookup_of_get k t r g in
    (
      with_status status now t,
      ground (arith, l, lookup-insert_self k (with_status status now t) r.entries),
      ground (arith, l),
      refl,
      refl,
    )
