-- ===== src/Handler/Recovery/AllReady.antt =====
-- What `RecoverTrash` of internal/handler/trash.go leaves when nothing failed.
use mathlib.Core.List.Memᴰ
use mathlib.Core.List.{Memᴰ, Mem}
use mathlib.Core.List.Perm
use mathlib.Core.Logic.{∥∥₁_elim}
use mathlib.Core.Bool.{false≢true}
use mathlib.Core.Option.{some-injective}
use domus.Prelude.{
  ℕ, ◌-◌, ltb, sort_by-perm, Text, str_eq, eq_iff, str_eq_refl, true, false, not, some, List, [],
  ◌∷◌, ◌++◌, ◌≡◌, ◌⊎◌, inl, inr, refl, sym, ap, subst, ◌∙◌, Bool-cases, Option-cases,
}
use domus.Dict.{lookup, values_where}
use domus.Dict.Found.{values_where_complete}
use domus.Model.Trash.{TrashEntry, TrashRepo, trash_key, state_ready, list_recoverable}
use domus.Model.Trash.Invariant.{IsWf}
use domus.Model.Cleanup.{Repos}
use domus.Handler.Recovery.{
  Outcome, Failure, done, stopped, attempt, recover_entries, recover_trash, trash_recovery_grace,
  recover_trash_entry,
}
use domus.Handler.Recovery.Effect.{Effect, recover-Effect}
use domus.Handler.Recovery.Settles.{ReadyAt, Effect-ReadyAt, Effect-lookup}

-- A success keeps a key ready that is, and makes its entry's key ready.
step-ReadyAt :
    (k : Text) (entry : TrashEntry) (t : TrashRepo) (r' : Repos)
    → Effect entry t (done r')
    → ReadyAt k t ⊎ (k ≡ trash_key entry.user_id entry.id)
    → ReadyAt k r'.trash
step-ReadyAt k entry t r' e h = elim (Bool-cases (str_eq (trash_key entry.user_id entry.id) k)) [
  | inl s ↦
      subst (λ x. ReadyAt x r'.trash) ((eq_iff (trash_key entry.user_id entry.id) k).0 s)
        (Effect-ReadyAt entry t r' e)
  | inr f ↦ elim h [
    | inl q ↦ unfold ReadyAt in rw (Effect-lookup k entry t r' e f) q
    | inr s ↦ absurd (
        false≢true (
          sym (subst (λ x. str_eq (trash_key entry.user_id entry.id) x ≡ false) s f)
          ∙ str_eq_refl (trash_key entry.user_id entry.id)))
  ]
]

attempt_done :
    (entry : TrashEntry) (o : Outcome) (t : TrashRepo)
    → Effect entry t o
    → (attempt entry o).0 ≡ []
    → Effect entry t (done (attempt entry o).1)
unfolding attempt
attempt_done entry (stopped e r) t h n = absurd cc
attempt_done entry (done r) t h n = h

append_nothing : {A : Type 0} (xs ys : List A) → xs ++ ys ≡ [] → (xs ≡ []) × (ys ≡ [])
append_nothing [] ys h = (refl, h)
append_nothing (x ∷ xs) ys h = absurd cc

abbrev loop : (TrashEntry → ℕ) → ℕ → List TrashEntry → Repos → List (Text × Failure) × Repos
loop clock cutoff entries r = recover_entries true cutoff clock entries r

-- Without an error every entry's key is ready in the end, and so is each that was at first.
loop-ReadyAt :
    (clock : TrashEntry → ℕ) (cutoff : ℕ) (k : Text) (entries : List TrashEntry) (r : Repos)
    → (loop clock cutoff entries r).0 ≡ []
    → ReadyAt k r.trash ⊎ ((e : TrashEntry) × Memᴰ e entries × (k ≡ trash_key e.user_id e.id))
    → ReadyAt k (loop clock cutoff entries r).1.trash
unfolding recover_entries
loop-ReadyAt clock cutoff k [] r n (inl h) = h
loop-ReadyAt clock cutoff k [] r n (inr (e, m, s)) = absurd (Memᴰ.not-nil m)
loop-ReadyAt clock cutoff k (entry ∷ entries) r n h =
    let (here, after) = append_nothing _ _ n in
    let effect =
      attempt_done entry (recover_trash_entry entry (clock entry) r) r.trash
        (recover-Effect entry (clock entry) r) here in
    loop-ReadyAt clock cutoff k entries
      (attempt entry (recover_trash_entry entry (clock entry) r)).1 after (next effect h)
  where
    next :
        Effect entry r.trash (done (attempt entry (recover_trash_entry entry (clock entry) r)).1)
        → ReadyAt k r.trash
          ⊎ ((e : TrashEntry) × Memᴰ e (entry ∷ entries) × (k ≡ trash_key e.user_id e.id))
        → ReadyAt k (attempt entry (recover_trash_entry entry (clock entry) r)).1.trash
          ⊎ ((e : TrashEntry) × Memᴰ e entries × (k ≡ trash_key e.user_id e.id))
    next f (inl q) = inl (step-ReadyAt k entry r.trash _ f (inl q))
    next f (inr (e, m, s)) = elim (Memᴰ.cases_cons m) [
      | inl same ↦
          inl (step-ReadyAt k entry r.trash _ f (inr (s ∙ ap (λ x. trash_key x.user_id x.id) same)))
      | inr later ↦ inr (e, later, s)
    ]

ReadyAt-state :
    (k : Text) (t : TrashRepo) (e : TrashEntry)
    → lookup k t ≡ some e
    → ReadyAt k t
    → e.state ≡ state_ready
unfolding ReadyAt
ReadyAt-state k t e l (inl n) = absurd cc
ReadyAt-state k t e l (inr (x, m, s)) = ap (λ y. y.state) (some-injective _ _ (sym l ∙ m)) ∙ s

-- An entry in the middle of an operation is among those to recover.
recoverable :
    (k : Text) (t : TrashRepo) (e : TrashEntry)
    → lookup k t ≡ some e
    → str_eq e.state state_ready ≡ false
    → Mem e (list_recoverable t)
unfolding list_recoverable
recoverable k t e l f =
    (Perm.mem_iff (
        sort_by-perm (λ a b. ltb a.updated_at b.updated_at)
          (values_where (λ _ x. not (str_eq x.state state_ready)) t))).1
      ∣ values_where_complete (λ _ x. not (str_eq x.state state_ready)) k t l (rw f refl) ∣₁

was_ready :
    (k : Text) (t : TrashRepo) (e : TrashEntry)
    → lookup k t ≡ some e
    → str_eq e.state state_ready ≡ true
    → ReadyAt k t
unfolding ReadyAt
was_ready k t e l s = inr (e, l, (eq_iff e.state state_ready).0 s)

-- After a forced recovery, from a well-formed trash, that reports no error, every entry that the
-- trash still has is ready.
pub recover_trash_ready :
    (now : ℕ) (clock : TrashEntry → ℕ) (r : Repos) (k : Text) (e : TrashEntry)
    → IsWf r.trash
    → (recover_trash true now clock r).0 ≡ []
    → lookup k (recover_trash true now clock r).1.trash ≡ some e
    → e.state ≡ state_ready
unfolding recover_trash
recover_trash_ready now clock r k e w n l = elim (Bool-cases (str_eq e.state state_ready)) [
  | inl s ↦ (eq_iff e.state state_ready).0 s
  | inr f ↦ absurd (elim (Option-cases (lookup k r.trash)) [
    | inl m ↦ no_more f (inl (unfold ReadyAt in inl m))
    | inr (x, m) ↦ elim (Bool-cases (str_eq x.state state_ready)) [
      | inl s ↦ no_more f (inl (was_ready k r.trash x m s))
      | inr g ↦
          ∥∥₁_elim (recoverable k r.trash x m g) (λ a b. absurd a)
            (λ d. no_more f (inr (x, d, w.keyed k x m)))
    ]
  ])
]
  where
    no_more :
        str_eq e.state state_ready ≡ false
        → ReadyAt k r.trash
          ⊎ ((x : TrashEntry) × Memᴰ x (list_recoverable r.trash) × (k ≡ trash_key x.user_id x.id))
        → ⊥
    no_more f h =
        let ready =
          ReadyAt-state k _ e l
            (loop-ReadyAt clock (now - trash_recovery_grace) k (list_recoverable r.trash) r n h) in
        false≢true (sym f ∙ (eq_iff e.state state_ready).1 ready)
