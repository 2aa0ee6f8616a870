-- ===== src/Model/Trash/Invariant.antt =====
-- What every sequence of calls of `memTrashRepo` keeps (internal/model/mem_repos.go).
use domus.Prelude.{
  ℕ, Text, str_eq, eq_iff, ℤ, int_eq_iff, false, ◌≡◌, refl, sym, ◌∙◌, inl, inr, Option-cases,
  Bool-cases, none, some, List, [], ◌∷◌, arith,
}
use domus.Dict.{lookup, insert, find, IsMap}
use domus.Dict.Keys.{insert-IsMap, delete-IsMap, delete_where-IsMap}
use domus.Dict.Every.{Every-lookup}
use domus.Dict.Found.{find-none}
use domus.Dict.Holds.{
  Holds, Unique, Holds-empty, Unique-empty, Holds-insert, Holds-delete, Holds-delete_where,
  Unique-insert, Unique-delete, Unique-delete_where,
}
use domus.Model.Result.{after, or_keep}
use domus.Model.Trash.{
  TrashEntry, TrashRepo, trash_key, same_root, stamp, create, move_to, transition, mark_ready,
  remove, delete_by_user_id,
}

-- Two entries are for one file of one user.
abbrev pub SameRoot : TrashEntry → TrashEntry → Type 0
SameRoot a b = (a.user_id ≡ b.user_id) × (a.root_inode ≡ b.root_inode)

-- One entry for a key, each at the key of its user and id, and one for a file of a user.
pub record IsWf (r : TrashRepo) : Type 0 where
  pub is_map : IsMap r
  pub keyed : Holds (λ k e. k ≡ trash_key e.user_id e.id) r
  pub one_root : Unique SameRoot r

pub empty-IsWf : IsWf []
empty-IsWf = record {
  is_map = tt;
  keyed = Holds-empty (λ k e. k ≡ trash_key e.user_id e.id);
  one_root = Unique-empty SameRoot;
}

pub fresh_root :
    (e : TrashEntry) (r : TrashRepo)
    → find (same_root e) r ≡ none
    → (j : Text) (b : TrashEntry) → lookup j r ≡ some b
    → ¬ (SameRoot e b)
fresh_root e r n j b l s = ground (
  arith,
  Every-lookup (λ k v. same_root e k v ≡ false) j r (find-none (same_root e) r n) l,
  eq_iff b.user_id e.user_id,
  int_eq_iff b.root_inode e.root_inode,
  s.0,
  s.1,
)

SameRoot-symm : (a b : TrashEntry) → SameRoot a b → SameRoot b a
SameRoot-symm a b s = (sym s.0, sym s.1)

stored-IsWf :
    (e : TrashEntry) (now : ℕ) (r : TrashRepo)
    → IsWf r
    → find (same_root e) r ≡ none
    → IsWf (insert (trash_key e.user_id e.id) (stamp e now) r)
unfolding stamp
stored-IsWf e now r w n = record {
  is_map = insert-IsMap _ _ r w.is_map;
  keyed = Holds-insert (λ k e. k ≡ trash_key e.user_id e.id) _ _ r refl w.keyed;
  one_root =
      Unique-insert SameRoot _ _ r SameRoot-symm (λ j b _ l. fresh_root e r n j b l) w.one_root;
}

pub create-IsWf :
    (e : TrashEntry) (now : ℕ) (r : TrashRepo) → IsWf r → IsWf (after r (create e now r))
unfolding create
create-IsWf e now r w = elim (Option-cases (lookup (trash_key e.user_id e.id) r)) [
  | inr (v, s) ↦ rw (s, create, after) w
  | inl n ↦ elim (Option-cases (find (same_root e) r)) [
    | inr (v, s) ↦ rw (n, s, create, after) w
    | inl m ↦ rw (n, m, create, after) (stored-IsWf e now r w m)
  ]
]

-- A changed entry keeps its place when it keeps its user, its id and its file.
changed-IsWf :
    (k : Text) (e e' : TrashEntry) (r : TrashRepo)
    → IsWf r
    → lookup k r ≡ some e
    → e'.user_id ≡ e.user_id
    → e'.id ≡ e.id
    → e'.root_inode ≡ e.root_inode
    → IsWf (insert k e' r)
changed-IsWf k e e' r w l u i n = record {
  is_map = insert-IsMap k e' r w.is_map;
  keyed =
      Holds-insert (λ k e. k ≡ trash_key e.user_id e.id) k e' r (rw (u, i) (w.keyed k e l)) w.keyed;
  one_root =
      Unique-insert SameRoot k e' r SameRoot-symm
        (λ j b ne l' s. ne (w.one_root k j e b l l' (sym u ∙ s.0, sym n ∙ s.1))) w.one_root;
}

transition-IsWf :
    (user_id id from to : Text) (inode : ℤ) (path target : Text) (now : ℕ) (r : TrashRepo)
    → IsWf r
    → IsWf (or_keep r (transition user_id id from to inode path target now r))
unfolding transition move_to
transition-IsWf user_id id from to inode path target now r w =
    elim (Option-cases (lookup (trash_key user_id id) r)) [
      | inl n ↦ rw (n, transition, or_keep) w
      | inr (e, l) ↦ elim (Bool-cases (str_eq e.state from)) [
        | inl t ↦
            rw (l, transition, or_keep)
              (rw t (changed-IsWf _ e (move_to to inode path target now e) r w l refl refl refl))
        | inr f ↦ rw (l, transition, or_keep) (rw f w)
      ]
    ]

pub remove-IsWf : (user_id id : Text) (r : TrashRepo) → IsWf r → IsWf (remove user_id id r)
unfolding remove
remove-IsWf user_id id r w = record {
  is_map = delete-IsMap _ r w.is_map;
  keyed = Holds-delete (λ k e. k ≡ trash_key e.user_id e.id) _ r w.keyed;
  one_root = Unique-delete SameRoot _ r w.one_root;
}

delete_by_user_id-IsWf :
    (user_id : Text) (r : TrashRepo) → IsWf r → IsWf (delete_by_user_id user_id r)
unfolding delete_by_user_id
delete_by_user_id-IsWf user_id r w = record {
  is_map = delete_where-IsMap _ r w.is_map;
  keyed = Holds-delete_where (λ k e. k ≡ trash_key e.user_id e.id) _ r w.is_map w.keyed;
  one_root = Unique-delete_where SameRoot _ r w.is_map w.one_root;
}

-- A call of the repository. A call that fails leaves it as it was.
pub data Call : Type 0 where
  creates : TrashEntry → Call
  transitions : Text → Text → Text → Text → ℤ → Text → Text → Call
  marks_ready : Text → Text → Text → Call
  removes : Text → Text → Call
  removes_user : Text → Call

unfoldable pub step : Call → ℕ → TrashRepo → TrashRepo
step (creates e) now r = after r (create e now r)
step (transitions u i from to n path target) now r =
    or_keep r (transition u i from to n path target now r)
step (marks_ready u i from) now r = or_keep r (mark_ready u i from now r)
step (removes u i) now r = remove u i r
step (removes_user u) now r = delete_by_user_id u r

unfoldable pub run : List (Call × ℕ) → TrashRepo → TrashRepo
unfolding step
run [] r = r
run ((c, now) ∷ cs) r = run cs (step c now r)

step-IsWf : (c : Call) (now : ℕ) (r : TrashRepo) → IsWf r → IsWf (step c now r)
unfolding step mark_ready
step-IsWf (creates e) now r w = create-IsWf e now r w
step-IsWf (transitions u i from to n path target) now r w =
    transition-IsWf u i from to n path target now r w
step-IsWf (marks_ready u i from) now r w = transition-IsWf u i from _ _ _ _ now r w
step-IsWf (removes u i) now r w = remove-IsWf u i r w
step-IsWf (removes_user u) now r w = delete_by_user_id-IsWf u r w

-- Any sequence of calls of the trash repository, at any times, keeps a well-formed repository
-- well formed: one entry for a key, each at the key of its user and id, and no two entries for
-- one file of one user.
pub trash_run-IsWf : (cs : List (Call × ℕ)) (r : TrashRepo) → IsWf r → IsWf (run cs r)
unfolding run
trash_run-IsWf [] r w = w
trash_run-IsWf ((c, now) ∷ cs) r w = trash_run-IsWf cs (step c now r) (step-IsWf c now r w)
