-- ===== src/Model/Trash/Listing.antt =====
-- What `List` returns: the user's ready entries, newest first, a page at a time.
use mathlib.Core.List.{Mem}
use mathlib.Core.List.Perm
use domus.Prelude.{
  ℕ, ◌+◌, ◌≤◌, ◌<◌, ltb, leb, Text, str_eq, eq_iff, str_lt_asym, str_lt_weak_trans, ℤ, pos, negsuc,
  is_nonpositive, int_lt, to_index, &&-eq_true, ◌≡◌, ◌∙◌, refl, sym, inl, inr, some, List, [], ◌++◌,
  length, take, drop, length-take-le, All, All-take, All-drop, All-imp, take-append-drop, drop_all,
  drop-drop, take_all, take_nil, leb→le, IsSortedBy-take, IsSortedBy-drop, sort_by, sort_by-perm,
  All-sort_by, IsSortedBy, IsWeakOrder, sort_by-IsSortedBy, arith, if◌then◌else◌, Bool-cases,
}
use domus.Dict.{lookup, values_where}
use domus.Dict.Found.{Collected, All-values_where, values_where_complete}
use domus.Model.Trash.{
  TrashEntry, TrashRepo, newer, clamp_offset, clamp_limit, page, is_listed, list, state_ready,
}
use domus.Model.Trash.Invariant.{IsWf}

newer-IsWeakOrder : IsWeakOrder newer
unfolding newer
newer-IsWeakOrder = record {
  asym = λ x y h. ground (arith, str_lt_asym y.id x.id, str_lt_asym x.id y.id);
  weak_trans = λ x y z h k.
      ground (arith, str_lt_weak_trans z.id y.id x.id, str_lt_weak_trans x.id y.id z.id);
}

-- The whole listing, of which `List` returns a slice.
abbrev pub listing : Text → TrashRepo → List TrashEntry
listing user_id r = sort_by newer (values_where (is_listed user_id) r)

slice :
    (n k : ℕ) (l : List TrashEntry)
    → (if leb (length l) k
        then []
        else (let rest = drop k l in if ltb n (length rest) then take n rest else rest))
      ≡ take n (drop k l)
slice n k l = elim (Bool-cases (leb (length l) k)) [
  | inl t ↦ rw t (rw (drop_all k l (leb→le _ _ t)) (sym (take_nil n)))
  | inr f ↦ elim (Bool-cases (ltb n (length (drop k l)))) [
    | inl t ↦ rw (f, t)
    | inr s ↦ rw (f, s) (sym (take_all n (drop k l) (ground arith)))
  ]
]

-- A page is the offset skipped, then as many entries as the limit allows.
page_lem :
    (limit offset : ℤ) (l : List TrashEntry)
    → page limit offset l
      ≡ take (to_index (clamp_limit limit)) (drop (to_index (clamp_offset offset)) l)
unfolding page
page_lem limit offset l = slice (to_index (clamp_limit limit)) (to_index (clamp_offset offset)) l

clamp_limit-le : (limit : ℤ) → to_index (clamp_limit limit) ≤ 500
unfolding clamp_limit is_nonpositive int_lt to_index
clamp_limit-le (pos n) = ground arith
clamp_limit-le (negsuc n) = ground arith

clamp_limit_id : (n : ℕ) → 0 < n → n ≤ 500 → to_index (clamp_limit (pos n)) ≡ n
unfolding clamp_limit is_nonpositive int_lt to_index
clamp_limit_id n h h' = ground arith

clamp_offset_id : (k : ℕ) → to_index (clamp_offset (pos k)) ≡ k
unfolding clamp_offset int_lt to_index
clamp_offset_id k = ground arith

-- A page of 1 to 500 entries is that many entries behind the offset.
pub list-take :
    (user_id : Text) (n k : ℕ) (r : TrashRepo)
    → 0 < n
    → n ≤ 500
    → list user_id (pos n) (pos k) r ≡ take n (drop k (listing user_id r))
unfolding list
list-take user_id n k r h h' =
    page_lem (pos n) (pos k) (listing user_id r)
    ∙ rw (clamp_limit_id n h h', clamp_offset_id k) refl

-- The entry is one of the user's, ready, and in the repository.
abbrev pub Listed : Text → TrashRepo → TrashEntry → Type 0
Listed user_id r e =
    (e.user_id ≡ user_id) × (e.state ≡ state_ready) × ((k : Text) × (lookup k r ≡ some e))

Collected-Listed :
    (user_id : Text) (r : TrashRepo) (e : TrashEntry)
    → Collected (is_listed user_id) r e
    → Listed user_id r e
Collected-Listed user_id r e (k, t, l) =
    let (a, b) = &&-eq_true (str_eq e.user_id user_id) (str_eq e.state state_ready) t in
    ((eq_iff _ _).0 a, (eq_iff _ _).0 b, (k, l))

listing-Listed :
    (user_id : Text) (r : TrashRepo) → IsWf r → All (Listed user_id r) (listing user_id r)
listing-Listed user_id r w =
    All-sort_by newer (Listed user_id r) _
      (All-imp _ (Collected-Listed user_id r) (All-values_where (is_listed user_id) r w.is_map))

-- On a well-formed repository `List` returns at most 500 entries, each of them ready, the user's
-- and in the repository, and none newer than one before it.
list_sound :
    (user_id : Text) (limit offset : ℤ) (r : TrashRepo)
    → IsWf r
    → (length (list user_id limit offset r) ≤ 500)
      × All (Listed user_id r) (list user_id limit offset r)
      × IsSortedBy newer (list user_id limit offset r)
unfolding list
list_sound user_id limit offset r w = rw (page_lem limit offset (listing user_id r)) (
  omega (
    arith,
    length-take-le (to_index (clamp_limit limit))
        (drop (to_index (clamp_offset offset)) (listing user_id r)),
    clamp_limit-le limit,
  ),
  All-take (Listed user_id r) _ _ (All-drop (Listed user_id r) _ _ (listing-Listed user_id r w)),
  IsSortedBy-take newer _ _
      (IsSortedBy-drop newer _ _ (sort_by-IsSortedBy newer newer-IsWeakOrder _)),
)

-- Each page of 1 to 500 entries is followed by exactly the rest of the listing, so consecutive
-- pages miss nothing and repeat nothing.
pub list_pages :
    (user_id : Text) (n k : ℕ) (r : TrashRepo)
    → 0 < n
    → n ≤ 500
    → list user_id (pos n) (pos k) r ++ drop (k + n) (listing user_id r)
      ≡ drop k (listing user_id r)
unfolding list
list_pages user_id n k r h h' =
    rw (page_lem (pos n) (pos k) (listing user_id r), clamp_limit_id n h h', clamp_offset_id k)
      (rw (← drop-drop n k (listing user_id r)) (take-append-drop n (drop k (listing user_id r))))

-- The listing holds every ready entry of the user.
listing_complete :
    (user_id k : Text) (e : TrashEntry) (r : TrashRepo)
    → lookup k r ≡ some e
    → e.user_id ≡ user_id
    → e.state ≡ state_ready
    → Mem e (listing user_id r)
listing_complete user_id k e r l u s =
    (Perm.mem_iff (sort_by-perm newer (values_where (is_listed user_id) r))).1
      ∣ values_where_complete (is_listed user_id) k r l
        (ground (arith, eq_iff e.user_id user_id, eq_iff e.state state_ready)) ∣₁
