-- ===== src/Model/Trash/Transitions.antt =====
-- `Transition` as a compare-and-set, and what `Get` shows around the calls.
use domus.Prelude.{
  ℕ, Text, str_eq, eq_iff, ℤ, int_eq_iff, ◌≡◌, ◌≢◌, ◌↔◌, refl, sym, ◌∙◌, ap, ◌⊎◌, inl, inr,
  Option-cases, Bool-cases, some, arith, if◌then◌else◌,
}
use domus.Dict.{lookup, insert, find}
use domus.Dict.Lookup.{lookup-insert, lookup-insert_self}
use domus.Dict.Found.{find_sound}
use domus.Model.Result.{ok, err, duplicated_key, trash_state_conflict}
use domus.Model.Trash.{
  TrashEntry, TrashRepo, trash_key, stamp, create, get, move_to, transition, same_root,
}
use domus.Model.Trash.Invariant.{SameRoot, IsWf, fresh_root}

module _ (user_id id from to : Text) (inode : ℤ) (path target : Text) (now : ℕ)
    (r : TrashRepo) where
  transition_ok :
      {r' : TrashRepo}
      → transition user_id id from to inode path target now r ≡ ok r'
      → (e : TrashEntry) × (get user_id id r ≡ ok e)
        × (e.state ≡ from)
        × (r' ≡ insert (trash_key user_id id) (move_to to inode path target now e) r)
  unfolding transition get
  transition_ok {r'} h = elim (Option-cases (lookup (trash_key user_id id) r)) [
    | inl n ↦ absurd (ground arith)
    | inr (e, l) ↦ elim (Bool-cases (str_eq e.state from)) [
      | inl t ↦ (e, rw (l, get), (eq_iff e.state from).0 t, ground arith)
      | inr f ↦ absurd (ground arith)
    ]
  ]

  -- A transition succeeds exactly when `Get` returns an entry that is in the expected state.
  transition_iff :
      ((r' : TrashRepo) × (transition user_id id from to inode path target now r ≡ ok r'))
      ↔ ((e : TrashEntry) × (get user_id id r ≡ ok e) × (e.state ≡ from))
  unfolding transition get
  transition_iff = (
    (λ (r', h). let (e, g, s, _) = transition_ok h in (e, g, s)),
    λ (e, g, s). elim (Option-cases (lookup (trash_key user_id id) r)) [
      | inl n ↦ absurd (ground arith)
      | inr (v, l) ↦
          let same : v ≡ e = ground arith in
          (
            insert (trash_key user_id id) (move_to to inode path target now v) r,
            rw (l, transition)
                (rw ((eq_iff v.state from).1 (ap (λ (x : TrashEntry). x.state) same ∙ s))),
          )
    ],
  )

  -- After a successful transition of an entry, `Get` returns that entry with the new state, the
  -- operation's inode, path and target and the time of the call, and its other fields as
  -- before, and every entry at another key as before.
  pub get-transition :
      (u i : Text) (e : TrashEntry) {r' : TrashRepo}
      → get user_id id r ≡ ok e
      → transition user_id id from to inode path target now r ≡ ok r'
      → get u i r' ≡ (
          if str_eq (trash_key user_id id) (trash_key u i)
          then ok (record e {
            state = to;
            operation_inode = inode;
            operation_path = path;
            target_path = target;
            updated_at = now;
          })
          else get u i r)
  unfolding get move_to
  get-transition u i e {r'} g h =
      let (e', g', _, s) = transition_ok h in
      let same : e ≡ e' = ground arith in
      rw (s, same)
        (ground (
          arith,
          lookup-insert (trash_key user_id id) (trash_key u i) (move_to to inode path target now e')
              r,
        ))

  -- Of two transitions of an entry from one state, the first of them to another state, only the
  -- first succeeds: once it has, the second reports a conflict, whatever it asks for.
  pub transition_once :
      (to' : Text) (inode' : ℤ) (path' target' : Text) (now' : ℕ) {r' : TrashRepo}
      → to ≢ from
      → transition user_id id from to inode path target now r ≡ ok r'
      → transition user_id id from to' inode' path' target' now' r' ≡ err trash_state_conflict
  unfolding transition move_to
  transition_once to' inode' path' target' now' {r'} ne h =
      let (e, _, _, s) = transition_ok h in
      rw (s, lookup-insert_self _ _ r, transition) (ground (arith, eq_iff to from))

-- `Create` then `Get`: a created entry is returned by `Get` with the defaults filled in; it is
-- pending unless the caller chose a state.
trash_get-create :
    (e : TrashEntry) (now : ℕ) (r : TrashRepo) {e' : TrashEntry} {r' : TrashRepo}
    → create e now r ≡ ok (e', r')
    → (get e.user_id e.id r' ≡ ok e') × (e' ≡ stamp e now)
unfolding create get stamp
trash_get-create e now r {e'} {r'} h = elim (Option-cases (lookup (trash_key e.user_id e.id) r)) [
  | inr (v, s) ↦ absurd (ground arith)
  | inl n ↦ elim (Option-cases (find (same_root e) r)) [
    | inr (v, s) ↦ absurd (ground arith)
    | inl m ↦ ground (arith, lookup-insert_self (trash_key e.user_id e.id) (stamp e now) r)
  ]
]

-- An entry that stands in the way of `e`: at its key, or for its file.
abbrev pub Refusal : TrashEntry → TrashRepo → Type 0
Refusal e r =
    (k : Text) × (b : TrashEntry) × (lookup k r ≡ some b)
    × ((k ≡ trash_key e.user_id e.id) ⊎ SameRoot b e)

-- On a well-formed repository `Create` reports a duplicate exactly when the user has an entry
-- with that id, or one for that file.
create_refused :
    (e : TrashEntry) (now : ℕ) (r : TrashRepo)
    → IsWf r
    → (create e now r ≡ err duplicated_key) ↔ Refusal e r
unfolding create
create_refused e now r w = (there, back)
  where
    there : create e now r ≡ err duplicated_key → Refusal e r
    there h = elim (Option-cases (lookup (trash_key e.user_id e.id) r)) [
      | inr (v, s) ↦ (trash_key e.user_id e.id, v, s, inl refl)
      | inl n ↦ elim (Option-cases (find (same_root e) r)) [
        | inr ((k, v), s) ↦
            let (t, l) = find_sound (same_root e) r w.is_map s in
            (
              k,
              v,
              l,
              inr (
                ground (arith, eq_iff v.user_id e.user_id),
                ground (arith, int_eq_iff v.root_inode e.root_inode),
              ),
            )
        | inl m ↦ absurd (ground arith)
      ]
    ]

    back : Refusal e r → create e now r ≡ err duplicated_key
    back (k, b, l, inl s) = rw (← s, l, create)
    back (k, b, l, inr s) = elim (Option-cases (lookup (trash_key e.user_id e.id) r)) [
      | inr (v, q) ↦ rw (q, create)
      | inl n ↦ elim (Option-cases (find (same_root e) r)) [
        | inr (v, q) ↦ rw (n, q, create)
        | inl m ↦ absurd (fresh_root e r m k b l (sym s.0, sym s.1))
      ]
    ]
