-- ===== src/Model/File/Moves.antt =====
-- What moves do to a path and to the rest of the tree (internal/model/mem_repos.go).
use domus.Prelude.{
  ℕ, Text, str_eq, eq_iff, str_eq_refl, Bool, true, false, ◌≡◌, ◌≢◌, ◌⊎◌, ◌↔◌, sym, ◌∙◌, ap, subst,
  inl, inr, codes, ◌++◌, Option-cases, Bool-cases, some, arith, if◌then◌else◌,
}
use domus.Dict.{lookup, insert, delete}
use domus.Dict.Lookup.{lookup-insert, lookup-delete}
use domus.Model.Keys.{NoColon}
use domus.Model.Result.{ok, err, record_not_found, duplicated_key}
use domus.Model.File.{FileRecord, FileRepo, file_key, get}
use domus.Model.File.Parent.{IsChild, parent_of-IsChild}
use domus.Model.File.Move.{moved, move_with, move_no_replace, is_blocked}
use domus.Model.File.Stored.{file_key-injective}
use domus.Model.File.Reads.{get_ok, lookup_of_get}

move_ok :
    (b : Bool) (u old new name : Text) (now : ℕ) (r : FileRepo) {r' : FileRepo}
    → move_with b u old new name now r ≡ ok r'
    → (f : FileRecord) × (lookup (file_key u old) r.entries ≡ some f)
      × (is_blocked b u old new r ≡ false)
      × (r'.entries
          ≡ insert (file_key u new) (moved new name now f) (delete (file_key u old) r.entries))
unfolding move_with
move_ok b u old new name now r {r'} h = elim (Option-cases (lookup (file_key u old) r.entries)) [
  | inl n ↦ absurd (ground arith)
  | inr (f, l) ↦ elim (Bool-cases (is_blocked b u old new r)) [
    | inl t ↦ absurd (ground arith)
    | inr g ↦ (f, l, g, ground arith)
  ]
]

-- What a path shows after a move.
moved_shown :
    (b : Bool) (u old new name v q : Text) (now : ℕ) (r : FileRepo) (f : FileRecord) {r' : FileRepo}
    → get u old r ≡ ok f
    → move_with b u old new name now r ≡ ok r'
    → get v q r' ≡ (
        if str_eq (file_key u new) (file_key v q)
        then ok (moved new name now f)
        else (if str_eq (file_key u old) (file_key v q) then err record_not_found else get v q r))
unfolding get
moved_shown b u old new name v q now r f {r'} g h =
    let (x, l, _, s) = move_ok b u old new name now r h in
    let same : x ≡ f = ground (arith, l) in
    rw (s, same)
      (ground (
        arith,
        lookup-insert (file_key u new) (file_key v q) (moved new name now f)
            (delete (file_key u old) r.entries),
        lookup-delete (file_key u old) (file_key v q) r.entries,
      ))

-- After a successful move of a stored record to a path that is a name in a directory, with or
-- without replacement, the new path shows the record with that path and the new name, with the
-- directory and a slash as its parent and the time of the move, and its other fields as before,
-- the old path shows nothing unless it is the new one, and every other key shows what it did.
pub get-move :
    (b : Bool) (u old new name d n v q : Text) (now : ℕ) (r : FileRepo) (f : FileRecord)
    {r' : FileRepo}
    → IsChild new d n
    → get u old r ≡ ok f
    → move_with b u old new name now r ≡ ok r'
    → get v q r' ≡ (
        if str_eq (file_key u new) (file_key v q)
        then ok (record f { path = new; parent = d ++ codes "/"; name = name; updated_at = now })
        else (if str_eq (file_key u old) (file_key v q) then err record_not_found else get v q r))
unfolding moved
get-move b u old new name d n v q now r f {r'} c g h =
    moved_shown b u old new name v q now r f g h
    ∙ ap
        (λ p.
          if str_eq (file_key u new) (file_key v q)
          then ok (record f { path = new; parent = p; name = name; updated_at = now })
          else (if str_eq (file_key u old) (file_key v q) then err record_not_found else get v q r))
        (parent_of-IsChild new d n c)

key_eq : (u p q : Text) → NoColon u → (str_eq (file_key u p) (file_key u q) ≡ true) ↔ (p ≡ q)
key_eq u p q a = (
  (λ h. (file_key-injective u u p q a a ((eq_iff _ _).0 h)).1),
  λ e. rw e (str_eq_refl (file_key u q)),
)

-- For a user whose id holds no colon, `MoveNoReplace` reports a duplicate exactly when both paths
-- are occupied and they differ.
pub move_no_replace_iff :
    (u old new name : Text) (now : ℕ) (r : FileRepo)
    → NoColon u
    → (move_no_replace u old new name now r ≡ err duplicated_key) ↔ (
        ((f : FileRecord) × (get u old r ≡ ok f))
        × ((g : FileRecord) × (get u new r ≡ ok g))
        × (old ≢ new))
unfolding move_no_replace get
move_no_replace_iff u old new name now r a = (there, back)
  where
    there :
        move_no_replace u old new name now r ≡ err duplicated_key
        → ((f : FileRecord) × (get u old r ≡ ok f))
          × ((g : FileRecord) × (get u new r ≡ ok g))
          × (old ≢ new)
    there h = elim (Option-cases (lookup (file_key u old) r.entries)) [
      | inl n ↦ absurd (ground arith)
      | inr (f, l) ↦ elim (Option-cases (lookup (file_key u new) r.entries)) [
        | inl n ↦ absurd (ground arith)
        | inr (g, k) ↦ (
          (f, rw (l, get)),
          (g, rw (k, get)),
          λ e. ground (arith, (key_eq u new old a).1 (sym e)),
        )
      ]
    ]

    back :
        ((f : FileRecord) × (get u old r ≡ ok f))
          × ((g : FileRecord) × (get u new r ≡ ok g))
          × (old ≢ new)
        → move_no_replace u old new name now r ≡ err duplicated_key
    back ((f, h), (g, k), ne) = elim (Bool-cases (str_eq (file_key u new) (file_key u old))) [
      | inl t ↦ absurd (ne (sym ((key_eq u new old a).0 t)))
      | inr s ↦ ground arith
    ]

-- A `MoveNoReplace` that succeeds loses no record: each one is where it was, or it is the one
-- that was moved.
move_no_replace_keeps :
    (u old new name v q : Text) (now : ℕ) (r : FileRepo) (f : FileRecord) {r' : FileRepo}
    → get v q r ≡ ok f
    → move_no_replace u old new name now r ≡ ok r'
    → (get v q r' ≡ ok f)
      ⊎ ((file_key v q ≡ file_key u old) × (get u new r' ≡ ok (moved new name now f)))
unfolding move_no_replace
move_no_replace_keeps u old new name v q now r f {r'} g h =
    let (x, l, free, s) = move_ok true u old new name now r h in
    let shows = moved_shown true u old new name v q now r x (get_ok u old r l) h in
    elim (Bool-cases (str_eq (file_key u old) (file_key v q))) [
      | inl t ↦
          let key = (eq_iff (file_key u old) (file_key v q)).0 t in
          let same : x ≡ f =
            moved_same l
              (subst (λ k. lookup k r.entries ≡ some f) (sym key) (lookup_of_get v q f r g)) in
          inr (
            sym key,
            moved_shown true u old new name u new now r x (get_ok u old r l) h
                ∙ (rw (str_eq_refl (file_key u new)) (ap (λ y. ok (moved new name now y)) same)),
          )
      | inr n ↦ elim (Bool-cases (str_eq (file_key u new) (file_key v q))) [
        | inr m ↦ inl (shows ∙ rw m (rw n g))
        | inl t ↦
            let key = (eq_iff (file_key u new) (file_key v q)).0 t in
            absurd (
              occupied key n
                (subst (λ k. lookup k r.entries ≡ some f) (sym key) (lookup_of_get v q f r g)) free)
      ]
    ]
  where
    moved_same :
        {x : FileRecord}
        → lookup (file_key u old) r.entries ≡ some x
        → lookup (file_key u old) r.entries ≡ some f
        → x ≡ f
    moved_same a b = ground arith

    occupied :
        file_key u new ≡ file_key v q
        → str_eq (file_key u old) (file_key v q) ≡ false
        → lookup (file_key u new) r.entries ≡ some f
        → is_blocked true u old new r ≡ false
        → ⊥
    occupied key n k free =
        ground
          (arith, eq_iff (file_key u new) (file_key u old), eq_iff (file_key u old) (file_key v q))
