-- ===== src/Model/Share/Invariant.antt =====
-- What every sequence of calls of `memShareRepo` keeps (internal/model/mem_repos.go).
use domus.Prelude.{
  ℕ, Text, ℤ, is_nonpositive, false, ◌≡◌, refl, inl, inr, Option, Option-cases, Bool-cases, none,
  some, List, [], ◌∷◌,
}
use domus.Dict.{lookup, find, IsMap}
use domus.Dict.Keys.{insert-IsMap, delete-IsMap, delete_where-IsMap, map_values-IsMap}
use domus.Dict.Holds.{Holds, Holds-insert, Holds-delete, Holds-delete_where, Holds-map_values}
use domus.Model.Result.{after, or_keep}
use domus.Model.Share.{
  Share, ShareRepo, stamp, create, is_party, remove, update_file_size, is_of_inode, sync_by_inode,
  delete_by_inode,
}

-- A share is stored under its share id and names a positive inode.
pub record IsStored (k : Text) (s : Share) : Type 0 where
  pub keyed : k ≡ s.share_id
  pub positive : is_nonpositive s.file_inode ≡ false

pub record IsWf (r : ShareRepo) : Type 0 where
  pub is_map : IsMap r.entries
  pub stored : Holds IsStored r.entries

create-IsWf :
    (s : Option Share) (now : ℕ) (r : ShareRepo) → IsWf r → IsWf (after r (create s now r))
unfolding create stamp
create-IsWf none now r w = w
create-IsWf (some s) now r w = elim (Bool-cases (is_nonpositive s.file_inode)) [
  | inl t ↦ rw (t, create, after) w
  | inr f ↦
      rw (f, create, after)
        (record {
          is_map = insert-IsMap s.share_id (stamp s r.next_id now) r.entries w.is_map;
          stored =
              Holds-insert IsStored s.share_id (stamp s r.next_id now) r.entries
                (record { keyed = refl; positive = f }) w.stored;
        })
]

remove-IsWf : (id : ℤ) (user_id : Text) (r : ShareRepo) → IsWf r → IsWf (remove id user_id r).1
unfolding remove
remove-IsWf id user_id r w = elim (Option-cases (find (is_party id user_id) r.entries)) [
  | inl n ↦ rw (n, remove) w
  | inr ((k, s), l) ↦
      rw (l, remove)
        (record {
          is_map = delete-IsMap k r.entries w.is_map;
          stored = Holds-delete IsStored k r.entries w.stored;
        })
]

update_file_size-IsWf :
    (k : Text) (n : ℤ) (r : ShareRepo) → IsWf r → IsWf (or_keep r (update_file_size k n r))
unfolding update_file_size
update_file_size-IsWf k n r w = elim (Option-cases (lookup k r.entries)) [
  | inl m ↦ rw (m, update_file_size, or_keep) w
  | inr (s, l) ↦
      rw (l, update_file_size, or_keep)
        (record {
          is_map = insert-IsMap k _ r.entries w.is_map;
          stored =
              Holds-insert IsStored k _ r.entries
                (record { keyed = (w.stored k s l).keyed; positive = (w.stored k s l).positive })
                w.stored;
        })
]

sync_by_inode-IsWf :
    (owner : Text) (inode : ℤ) (path name : Text) (size : ℤ) (type : Text) (r : ShareRepo)
    → IsWf r
    → IsWf (sync_by_inode owner inode path name size type r)
unfolding sync_by_inode
sync_by_inode-IsWf owner inode path name size type r w = record {
  is_map = map_values-IsMap _ r.entries w.is_map;
  stored =
      Holds-map_values IsStored _ r.entries
        (λ k s h. elim (Bool-cases (is_of_inode owner inode s)) [
          | inl t ↦ rw t (record { keyed = h.keyed; positive = h.positive })
          | inr f ↦ rw f h
        ])
        w.stored;
}

delete_by_inode-IsWf :
    (owner : Text) (inode : ℤ) (r : ShareRepo) → IsWf r → IsWf (delete_by_inode owner inode r)
unfolding delete_by_inode
delete_by_inode-IsWf owner inode r w = record {
  is_map = delete_where-IsMap _ r.entries w.is_map;
  stored = Holds-delete_where IsStored _ r.entries w.is_map w.stored;
}

pub data Call : Type 0 where
  creates : Option Share → ℕ → Call
  removes : ℤ → Text → Call
  resizes : Text → ℤ → Call
  syncs : Text → ℤ → Text → Text → ℤ → Text → Call
  removes_inode : Text → ℤ → Call

unfoldable pub step : Call → ShareRepo → ShareRepo
step (creates s now) r = after r (create s now r)
step (removes id user) r = (remove id user r).1
step (resizes k n) r = or_keep r (update_file_size k n r)
step (syncs owner inode path name size type) r = sync_by_inode owner inode path name size type r
step (removes_inode owner inode) r = delete_by_inode owner inode r

unfoldable pub run : List Call → ShareRepo → ShareRepo
unfolding step
run [] r = r
run (c ∷ cs) r = run cs (step c r)

step-IsWf : (c : Call) (r : ShareRepo) → IsWf r → IsWf (step c r)
unfolding step
step-IsWf (creates s now) r w = create-IsWf s now r w
step-IsWf (removes id user) r w = remove-IsWf id user r w
step-IsWf (resizes k n) r w = update_file_size-IsWf k n r w
step-IsWf (syncs owner inode path name size type) r w =
    sync_by_inode-IsWf owner inode path name size type r w
step-IsWf (removes_inode owner inode) r w = delete_by_inode-IsWf owner inode r w

-- Any calls keep the repository well formed: one entry for a share id, each under its own share
-- id, and every share of a positive inode.
pub share_run-IsWf : (cs : List Call) (r : ShareRepo) → IsWf r → IsWf (run cs r)
unfolding run
share_run-IsWf [] r w = w
share_run-IsWf (c ∷ cs) r w = share_run-IsWf cs (step c r) (step-IsWf c r w)
