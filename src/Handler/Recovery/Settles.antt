-- ===== src/Handler/Recovery/Settles.antt =====
-- What recovery leaves of a trash entry: internal/handler/trash.go.
use domus.Prelude.{
  ap, sym, ℕ, Text, str_eq, str_eq_refl, true, false, none, some, ◌≡◌, ◌⊎◌, inl, inr, subst, pos,
  [], refl, ◌∙◌, Bool-cases, Option-cases,
}
use domus.Dict.{lookup, insert}
use domus.Dict.Lookup.{lookup-insert, lookup-insert_self, lookup-delete}
use domus.Handler.Recovery.Effect.{Effect, recover-Effect}
use domus.Model.Result.{or_keep, ok, err, trash_state_conflict}
use domus.Model.Trash
use domus.Model.Trash.{
  TrashEntry, TrashRepo, trash_key, state_pending, state_ready, state_restoring, state_deleting,
  move_to, transition, mark_ready,
}
use domus.Model.Cleanup.{Repos}
use domus.Handler.Recovery.{done, recover_trash_entry}

-- At a key the trash has an entry that is ready, or none.
unfoldable pub ReadyAt : Text → TrashRepo → Type 0
ReadyAt k t =
    (lookup k t ≡ none) ⊎ ((e : TrashEntry) × (lookup k t ≡ some e) × (e.state ≡ state_ready))

mark_missing :
    (user_id id from : Text) (now : ℕ) (t : TrashRepo)
    → lookup (trash_key user_id id) t ≡ none
    → mark_ready user_id id from now t ≡ err trash_state_conflict
unfolding mark_ready transition
mark_missing user_id id from now t n = rw (n, transition) refl

mark_other :
    (user_id id from : Text) (now : ℕ) (t : TrashRepo) (e : TrashEntry)
    → lookup (trash_key user_id id) t ≡ some e
    → str_eq e.state from ≡ false
    → mark_ready user_id id from now t ≡ err trash_state_conflict
unfolding mark_ready transition
mark_other user_id id from now t e l f = rw (l, transition) (rw f refl)

pub mark_same :
    (user_id id from : Text) (now : ℕ) (t : TrashRepo) (e : TrashEntry)
    → lookup (trash_key user_id id) t ≡ some e
    → str_eq e.state from ≡ true
    → mark_ready user_id id from now t
      ≡ ok (insert (trash_key user_id id) (move_to state_ready (pos 0) [] [] now e) t)
unfolding mark_ready transition
mark_same user_id id from now t e l f = rw (l, transition) (rw f refl)

-- A mark that succeeds stores the entry as ready.
mark_ready-inserts :
    (user_id id from : Text) (now : ℕ) (t t' : TrashRepo)
    → mark_ready user_id id from now t ≡ ok t'
    → (e : TrashEntry) × (insert (trash_key user_id id) (move_to state_ready (pos 0) [] [] now e) t
        ≡ t')
mark_ready-inserts user_id id from now t t' h =
    elim (Option-cases (lookup (trash_key user_id id) t)) [
      | inl n ↦ absurd (clash (sym (mark_missing user_id id from now t n) ∙ h))
      | inr (e, l) ↦ elim (Bool-cases (str_eq e.state from)) [
        | inr f ↦ absurd (clash (sym (mark_other user_id id from now t e l f) ∙ h))
        | inl s ↦ (e, ap (or_keep t) (sym (mark_same user_id id from now t e l s) ∙ h))
      ]
    ]
  where
    clash : err trash_state_conflict ≡ ok t' → ⊥
    clash c = cc

inserted_ready :
    (k : Text) (now : ℕ) (e : TrashEntry) (t : TrashRepo)
    → ReadyAt k (insert k (move_to state_ready (pos 0) [] [] now e) t)
unfolding ReadyAt move_to
inserted_ready k now e t = inr (_, lookup-insert_self k _ t, refl)

-- A success settles its entry.
pub Effect-ReadyAt :
    (entry : TrashEntry) (t : TrashRepo) (r' : Repos)
    → Effect entry t (done r')
    → ReadyAt (trash_key entry.user_id entry.id) r'.trash
unfolding Effect
Effect-ReadyAt entry t r' (inl e) =
    unfold ReadyAt Trash.remove in
    inl (
      ap (lookup (trash_key entry.user_id entry.id)) e
      ∙ (lookup-delete (trash_key entry.user_id entry.id) (trash_key entry.user_id entry.id) t
          ∙ rw (str_eq_refl (trash_key entry.user_id entry.id)) refl))
Effect-ReadyAt entry t r' (inr (from, now, h)) =
    let (e, same) = mark_ready-inserts entry.user_id entry.id from now t r'.trash h in
    subst (ReadyAt (trash_key entry.user_id entry.id)) same
      (inserted_ready (trash_key entry.user_id entry.id) now e t)

-- A step changes nothing at other keys.
pub Effect-lookup :
    (k : Text) (entry : TrashEntry) (t : TrashRepo) (r' : Repos)
    → Effect entry t (done r')
    → str_eq (trash_key entry.user_id entry.id) k ≡ false
    → lookup k r'.trash ≡ lookup k t
unfolding Effect
Effect-lookup k entry t r' (inl e) f =
    unfold Trash.remove in
    ap (lookup k) e ∙ (lookup-delete (trash_key entry.user_id entry.id) k t ∙ rw f refl)
Effect-lookup k entry t r' (inr (from, now, h)) f =
    let (e, same) = mark_ready-inserts entry.user_id entry.id from now t r'.trash h in
    ap (lookup k) (sym same)
    ∙ (lookup-insert (trash_key entry.user_id entry.id) k (move_to state_ready (pos 0) [] [] now e)
          t
        ∙ rw f refl)

-- Recovery of a trash entry that succeeds leaves it ready, or removes it: never in the middle of
-- an operation.
pub recover_trash_entry_settles :
    (entry : TrashEntry) (now : ℕ) (r r' : Repos)
    → recover_trash_entry entry now r ≡ done r'
    → (lookup (trash_key entry.user_id entry.id) r'.trash ≡ none)
      ⊎ ((e : TrashEntry) × (lookup (trash_key entry.user_id entry.id) r'.trash ≡ some e)
          × (e.state ≡ state_ready))
unfolding ReadyAt
recover_trash_entry_settles entry now r r' h =
    Effect-ReadyAt entry r.trash r' (subst (Effect entry r.trash) h (recover-Effect entry now r))
