-- ===== src/Model/Share/Listing.antt =====
-- What the two listings of `memShareRepo` show (internal/model/mem_repos.go).
use mathlib.Core.List.{Mem}
use mathlib.Core.List.Perm
use domus.Prelude.{
  ℕ, Text, str_eq, eq_iff, true, ◌&&◌, &&-eq_true, ◌≡◌, subst, some, arith, All, All-imp,
  All-sort_by, IsSortedBy, IsWeakOrder, sort_by-IsSortedBy, sort_by-perm,
}
use domus.Model.Share.Laws.{get_by_id_ok, lookup_of_get_by_id}
use domus.Dict.{lookup, values_where}
use domus.Dict.Found.{Collected, All-values_where, values_where_complete}
use domus.Model.Result.{ok}
use domus.Model.Share.{
  Share, ShareRepo, get_by_id, is_live, later, owned_live, target_live, list_owned_by_user,
  list_for_user,
}
use domus.Model.Share.Invariant.{IsWf}

-- A share that a listing shows is stored, names the user, and has not expired.
abbrev pub Shows : (Share → Text) → Text → ℕ → ShareRepo → Share → Type 0
Shows field user_id now r s =
    (field s ≡ user_id) × (is_live now s.expires_at ≡ true) × (get_by_id s.share_id r ≡ ok s)

shown :
    (field : Share → Text) (user_id : Text) (now : ℕ) (r : ShareRepo) (s : Share)
    → IsWf r
    → Collected (λ _ x. str_eq (field x) user_id && is_live now x.expires_at) r.entries s
    → Shows field user_id now r s
shown field user_id now r s w (k, t, l) =
    let (a, b) = &&-eq_true (str_eq (field s) user_id) (is_live now s.expires_at) t in
    (
      (eq_iff _ _).0 a,
      b,
      get_by_id_ok s.share_id r (subst (λ x. lookup x r.entries ≡ some s) (w.stored k s l).keyed l),
    )

later-IsWeakOrder : IsWeakOrder later
later-IsWeakOrder = record { asym = λ x y h. ground arith; weak_trans = λ x y z h k. ground arith }

-- On a well-formed repository `ListOwnedByUser` and `ListForUser` show only shares of that owner
-- or target that are stored and have not expired, and none older before a newer one.
lists_sound :
    (user_id : Text) (now : ℕ) (r : ShareRepo)
    → IsWf r
    → All (Shows (λ s. s.owner_id) user_id now r) (list_owned_by_user user_id now r)
      × All (Shows (λ s. s.target_user_id) user_id now r) (list_for_user user_id now r)
      × IsSortedBy later (list_owned_by_user user_id now r)
      × IsSortedBy later (list_for_user user_id now r)
unfolding list_owned_by_user list_for_user
lists_sound user_id now r w = (
  All-sort_by later _ _ (
      All-imp _ (λ s c. shown (λ s. s.owner_id) user_id now r s w c)
        (All-values_where (owned_live user_id now) r.entries w.is_map)),
  All-sort_by later _ _ (
      All-imp _ (λ s c. shown (λ s. s.target_user_id) user_id now r s w c)
        (All-values_where (target_live user_id now) r.entries w.is_map)),
  sort_by-IsSortedBy later later-IsWeakOrder _,
  sort_by-IsSortedBy later later-IsWeakOrder _,
)

-- And they show all of those.
lists_complete :
    (s : Share) (now : ℕ) (r : ShareRepo)
    → get_by_id s.share_id r ≡ ok s
    → is_live now s.expires_at ≡ true
    → Mem s (list_owned_by_user s.owner_id now r) × Mem s (list_for_user s.target_user_id now r)
unfolding list_owned_by_user list_for_user
lists_complete s now r g live = (
  (Perm.mem_iff (sort_by-perm later (values_where (owned_live s.owner_id now) r.entries))).1
      ∣ values_where_complete (owned_live s.owner_id now) s.share_id r.entries
        (lookup_of_get_by_id s.share_id s r g)
        (ground (arith, live, eq_iff s.owner_id s.owner_id)) ∣₁,
  (Perm.mem_iff (sort_by-perm later (values_where (target_live s.target_user_id now) r.entries))).1
      ∣ values_where_complete (target_live s.target_user_id now) s.share_id r.entries
        (lookup_of_get_by_id s.share_id s r g)
        (ground (arith, live, eq_iff s.target_user_id s.target_user_id)) ∣₁,
)
