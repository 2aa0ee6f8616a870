-- ===== src/Model/Share/Laws.antt =====
-- Who can end a share, and that the database repository's guards on the inode change nothing
-- (internal/model/mem_repos.go, internal/model/repo_share.go).
use domus.Prelude.{
  Text, str_eq, eq_iff, ℤ, int_eq, int_eq_iff, is_nonpositive, true, false, ◌≡◌, ◌⊎◌, ◌↔◌, subst,
  ap, inl, inr, Option-cases, Bool-cases, some, arith, if◌then◌else◌,
}
use domus.Dict.{lookup, find}
use domus.Dict.Lookup.{lookup-delete, lookup-delete_where, lookup-map_values}
use domus.Dict.Found.{find_sound, find-none}
use domus.Dict.Every.{Every-lookup}
use domus.Model.Result.{ok, err, record_not_found}
use domus.Model.Share.{
  Share, ShareRepo, get_by_id, is_party, remove, is_of_inode, sync_by_inode, delete_by_inode,
  guarded_delete_by_inode, guarded_sync_by_inode,
}
use domus.Model.Share.Invariant.{IsStored, IsWf}

-- The user is the owner or the target of the share.
abbrev pub Party : Text → Share → Type 0
Party user_id s = (s.owner_id ≡ user_id) ⊎ (s.target_user_id ≡ user_id)

is_party→Party :
    (id : ℤ) (user_id k : Text) (s : Share)
    → is_party id user_id k s ≡ true
    → (s.id ≡ id) × Party user_id s
is_party→Party id user_id k s h = (
  ground (arith, int_eq_iff s.id id),
  ground (arith, eq_iff s.owner_id user_id, eq_iff s.target_user_id user_id),
)

pub get_by_id_ok :
    (k : Text) {s : Share} (r : ShareRepo) → lookup k r.entries ≡ some s → get_by_id k r ≡ ok s
unfolding get_by_id
get_by_id_ok k r l = rw (l, get_by_id)

pub lookup_of_get_by_id :
    (k : Text) (s : Share) (r : ShareRepo) → get_by_id k r ≡ ok s → lookup k r.entries ≡ some s
unfolding get_by_id
lookup_of_get_by_id k s r h = ground arith

-- On a well-formed repository `Delete` removes at most one share, and only one of that id whose
-- owner or target is the user: if it reports success such a share is gone and every other is as
-- it was, and else nothing has changed.
remove_cases :
    (id : ℤ) (user_id j : Text) (r : ShareRepo)
    → IsWf r
    → (((remove id user_id r).0 ≡ false) × ((remove id user_id r).1 ≡ r))
      ⊎ (((remove id user_id r).0 ≡ true)
          × ((s : Share) × (get_by_id s.share_id r ≡ ok s)
              × (s.id ≡ id)
              × Party user_id s
              × (get_by_id j (remove id user_id r).1
                  ≡ (if str_eq s.share_id j then err record_not_found else get_by_id j r))))
unfolding remove get_by_id
remove_cases id user_id j r w = elim (Option-cases (find (is_party id user_id) r.entries)) [
  | inl n ↦ inl (rw (n, remove), rw (n, remove))
  | inr ((k, s), l) ↦
      let (t, h) = find_sound (is_party id user_id) r.entries w.is_map l in
      let (e, party) = is_party→Party id user_id k s t in
      let key = (w.stored k s h).keyed in
      inr (
        rw (l, remove),
        (
          s,
          get_by_id_ok s.share_id r (subst (λ x. lookup x r.entries ≡ some s) key h),
          e,
          party,
          rw (l, remove) (rw (← key) (ground (arith, lookup-delete k j r.entries))),
        ),
      )
]

-- On a well-formed repository `Delete` reports success exactly when a share of that id is stored
-- whose owner or target is the user.
pub remove_iff :
    (id : ℤ) (user_id : Text) (r : ShareRepo)
    → IsWf r
    → ((remove id user_id r).0 ≡ true)
      ↔ ((s : Share) × (get_by_id s.share_id r ≡ ok s) × (s.id ≡ id) × Party user_id s)
unfolding remove get_by_id
remove_iff id user_id r w = (
  (λ h. elim (Option-cases (find (is_party id user_id) r.entries)) [
    | inl n ↦ absurd (ground arith)
    | inr ((k, s), l) ↦
        let (t, g) = find_sound (is_party id user_id) r.entries w.is_map l in
        let (e, party) = is_party→Party id user_id k s t in
        (
          s,
          get_by_id_ok s.share_id r
              (subst (λ x. lookup x r.entries ≡ some s) (w.stored k s g).keyed g),
          e,
          party,
        )
  ]),
  λ (s, g, e, party). elim (Option-cases (find (is_party id user_id) r.entries)) [
    | inl n ↦
        let refused =
          Every-lookup (λ k x. is_party id user_id k x ≡ false) s.share_id r.entries
            (find-none (is_party id user_id) r.entries n) (lookup_of_get_by_id s.share_id s r g) in
        absurd (
          ground (
            arith,
            refused,
            int_eq_iff s.id id,
            eq_iff s.owner_id user_id,
            eq_iff s.target_user_id user_id,
          ))
    | inr (x, l) ↦ rw (l, remove)
  ],
)

never_of_inode :
    (owner : Text) (inode : ℤ) (k : Text) (s : Share)
    → IsStored k s
    → is_nonpositive inode ≡ true
    → is_of_inode owner inode s ≡ false
never_of_inode owner inode k s h n = elim (Bool-cases (int_eq s.file_inode inode)) [
  | inr f ↦ ground arith
  | inl t ↦
      absurd (ground (arith, h.positive, ap is_nonpositive ((int_eq_iff s.file_inode inode).0 t)))
]

delete_idle :
    (owner : Text) (inode : ℤ) (k : Text) (r : ShareRepo)
    → IsWf r
    → is_nonpositive inode ≡ true
    → get_by_id k (delete_by_inode owner inode r) ≡ get_by_id k r
unfolding get_by_id delete_by_inode
delete_idle owner inode k r w n = elim (Option-cases (lookup k r.entries)) [
  | inl m ↦
      ground (arith, lookup-delete_where (λ _ s. is_of_inode owner inode s) k r.entries w.is_map)
  | inr (s, l) ↦ ground (
    arith,
    lookup-delete_where (λ _ s. is_of_inode owner inode s) k r.entries w.is_map,
    never_of_inode owner inode k s (w.stored k s l) n,
  )
]

sync_idle :
    (owner : Text) (inode : ℤ) (path name : Text) (size : ℤ) (type k : Text) (r : ShareRepo)
    → IsWf r
    → is_nonpositive inode ≡ true
    → get_by_id k (sync_by_inode owner inode path name size type r) ≡ get_by_id k r
unfolding get_by_id sync_by_inode
sync_idle owner inode path name size type k r w n = elim (Option-cases (lookup k r.entries)) [
  | inl m ↦ rw (lookup-map_values _ k r.entries, m, get_by_id)
  | inr (s, l) ↦
      rw (lookup-map_values _ k r.entries, l, get_by_id)
        (rw (never_of_inode owner inode k s (w.stored k s l) n))
]

-- On a well-formed repository the early return of the database repository for an inode that is
-- not positive makes no difference to what `GetByID` returns after deletion and after
-- synchronisation.
guards_redundant :
    (owner : Text) (inode : ℤ) (path name : Text) (size : ℤ) (type k : Text) (r : ShareRepo)
    → IsWf r
    → (get_by_id k (delete_by_inode owner inode r)
        ≡ get_by_id k (guarded_delete_by_inode owner inode r))
      × (get_by_id k (sync_by_inode owner inode path name size type r)
          ≡ get_by_id k (guarded_sync_by_inode owner inode path name size type r))
unfolding guarded_delete_by_inode guarded_sync_by_inode
guards_redundant owner inode path name size type k r w = elim (Bool-cases (is_nonpositive inode)) [
  | inr f ↦ (rw f, rw f)
  | inl n ↦ (
    rw n (delete_idle owner inode k r w n),
    rw n (sync_idle owner inode path name size type k r w n),
  )
]
