-- ===== src/Handler/Recovery/Listing.antt =====
-- All ready entries of a user: `listAllReadyTrashEntries` of internal/handler/trash.go, page by page.
-- The loop runs on fuel: one more than the number of ready entries is enough. The offset stays
-- below that number and 500 more, so it does not wrap.
use domus.Prelude.{
  ℕ, zero, suc, ◌+◌, ◌-◌, ◌≤◌, ◌<◌, ltb, Text, Bool, true, false, Option, none, some, List, [], ◌∷◌,
  ◌++◌, ◌≡◌, refl, sym, ap, ◌∙◌, length, length-append, take-append-drop, drop-drop, subst, take,
  drop, pos, Bool-cases, inl, inr, arith, if◌then◌else◌,
}
use domus.Model.Trash.{TrashEntry, TrashRepo, list}
use domus.Model.Trash.Listing.{listing, list_pages, list-take}

unfoldable pub ready_from : ℕ → Text → ℕ → TrashRepo → Option (List TrashEntry)
ready_from zero user_id offset r = none
ready_from (suc fuel) user_id offset r =
    let page = list user_id (pos 500) (pos offset) r in
    let rest = ready_from fuel user_id (offset + 500) r in
    if ltb (length page) 500
    then some page
    else elim rest [ none ↦ none | some entries ↦ some (page ++ entries) ]

unfoldable pub list_all_ready_trash_entries : ℕ → Text → TrashRepo → Option (List TrashEntry)
list_all_ready_trash_entries fuel user_id r = ready_from fuel user_id 0 r

-- A page that is not full is all there is, and a full one leaves less.
short_take : (n : ℕ) (l : List TrashEntry) → length (take n l) < n → take n l ≡ l
unfolding take
short_take zero l h = absurd (omega (arith, h))
short_take (suc n) [] h = refl
short_take (suc n) (x ∷ xs) h = ap (λ ys. x ∷ ys) (short_take n xs (omega (arith, h)))

length-drop-lt :
    (n : ℕ) (l : List TrashEntry) → 0 < n → n ≤ length (take n l) → length (drop n l) < length l
length-drop-lt n l p h =
    omega (arith, p, h, length-append (take n l) (drop n l), ap length (take-append-drop n l))

ready_from-total :
    (fuel : ℕ) (user_id : Text) (offset : ℕ) (r : TrashRepo)
    → length (drop offset (listing user_id r)) < fuel
    → ready_from fuel user_id offset r ≡ some (drop offset (listing user_id r))
unfolding ready_from
ready_from-total zero user_id offset r h = absurd (omega (arith, h))
ready_from-total (suc fuel) user_id offset r h =
    elim (Bool-cases (ltb (length (list user_id (pos 500) (pos offset) r)) 500)) [
      | inl t ↦ rw t (
          ap some
            (page ∙ short_take 500 rest (subst (λ l. length l < 500) page (ground (arith, t)))))
      | inr f ↦
          rw (f, ready_from-total fuel user_id (offset + 500) r (left f))
            (ap some (list_pages user_id 500 offset r (omega arith) (omega arith)))
    ]
  where
    rest : List TrashEntry
    rest = drop offset (listing user_id r)

    page : list user_id (pos 500) (pos offset) r ≡ take 500 rest
    page = list-take user_id 500 offset r (omega arith) (omega arith)

    full :
        ltb (length (list user_id (pos 500) (pos offset) r)) 500 ≡ false
        → 500 ≤ length (take 500 rest)
    full f = subst (λ l. 500 ≤ length l) page (ground (arith, f))

    left :
        ltb (length (list user_id (pos 500) (pos offset) r)) 500 ≡ false
        → length (drop (offset + 500) (listing user_id r)) < fuel
    left f =
        subst (λ l. length l < fuel) (drop-drop 500 offset (listing user_id r))
          (omega (arith, length-drop-lt 500 rest (omega arith) (full f), h))

-- With more fuel than the user has ready entries, the loop over the pages ends with all of them,
-- newest first.
pub list_all_ready_trash_entries_total :
    (fuel : ℕ) (user_id : Text) (r : TrashRepo)
    → length (listing user_id r) < fuel
    → list_all_ready_trash_entries fuel user_id r ≡ some (listing user_id r)
unfolding list_all_ready_trash_entries drop domus.Prelude.sort_by
list_all_ready_trash_entries_total fuel user_id r h = ready_from-total fuel user_id 0 r h
