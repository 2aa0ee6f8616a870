-- ===== src/Handler/TrashPath/RoundTrip.antt =====
-- Paths inside a trash entry, there and back (internal/handler/trash.go).
use domus.Prelude.{
  ℕ, ◌+◌, ◌≤◌, ◌<◌, ==_iff, subst, Text, codes, str_eq, str_eq_refl, eq_iff, is_empty, has_prefix,
  has_prefix-append, drop-length-append, length-append, trim_suffix, Bool, true, false, not, ◌&&◌,
  ◌||◌, ◌≡◌, inl, inr, sym, ◌∙◌, ap, Bool-cases, refl, [], ◌∷◌, ◌++◌, drop, length, arith,
  if◌then◌else◌,
}
use domus.Model.Trash.{TrashEntry}
use domus.Model.File.Parent.{trim_suffix_once}
use domus.Handler.Clean.{
  clean, IsCanonical, split, with_slash, with_slash-IsCanonical, with_slash_root, with_slash_cases,
  ends_with_slash, ends_with_slash-append, rooted,
}
use domus.Handler.TrashPath.{
  PathResult, resolved, bad, invalid_relative_path, trash_items_storage_root_path,
  trash_entry_storage_path, normalize_trash_relative_path, trim_prefix, trash_storage_path,
  trash_relative_path, relative_to, storage_of, has_nul, has_parent_segment, forward_slashes,
}

length-trim_suffix : (s : Text) (c : ℕ) → length s ≤ length (trim_suffix s c) + 1
unfolding trim_suffix
length-trim_suffix [] c = omega arith
length-trim_suffix (x ∷ []) c = ground arith
length-trim_suffix (x ∷ y ∷ s) c = omega (arith, length-trim_suffix (y ∷ s) c)

differ : (a b : Text) → length b < length a → str_eq a b ≡ false
differ a b h = elim (Bool-cases (str_eq a b)) [
  | inr f ↦ f
  | inl t ↦ absurd (ground (arith, ap (length) ((eq_iff a b).0 t)))
]

child_differs :
    (base : Text) (y : ℕ) (t : Text)
    → (str_eq ((base ++ codes "/") ++ (y ∷ t)) (base ++ codes "/")
        || str_eq
            (trim_suffix ((base ++ codes "/") ++ (y ∷ t)) b'/')
            (trim_suffix (base ++ codes "/") b'/'))
      ≡ false
child_differs base y t =
    let root = base ++ codes "/" in
    let short = length-append root (y ∷ t) in
    let cut = length-trim_suffix (root ++ (y ∷ t)) b'/' in
    let whole = length-append base (codes "/") in
    let trimmed = ap (length) (trim_suffix_once base b'/') in
    ground (
      arith,
      differ (root ++ (y ∷ t)) root (omega (arith, short)),
      differ (trim_suffix (root ++ (y ∷ t)) b'/') (trim_suffix root b'/')
          (omega (arith, short, cut, whole, trimmed)),
    )

kept_slash : (b : Bool) (s : Text) → (if b && not b then s ++ codes "/" else s) ≡ s
kept_slash true s = refl
kept_slash false s = refl

-- Below a directory's path: what comes after it, with a slash in front.
relative_of_child :
    (root : Text) (y : ℕ) (t : Text)
    → (str_eq (root ++ (y ∷ t)) root
        || str_eq (trim_suffix (root ++ (y ∷ t)) b'/') (trim_suffix root b'/'))
      ≡ false
    → relative_to true root (root ++ (y ∷ t)) ≡ resolved (b'/' ∷ y ∷ t)
unfolding relative_to trim_prefix
relative_of_child root y t f = rw f (
    rw (has_prefix-append root (y ∷ t)) (
      rw (drop-length-append root (y ∷ t)) (
        rw (ends_with_slash-append root y t) (
          rw (ends_with_slash-append (b'/' ∷ []) y t)
            (ap resolved (kept_slash (ends_with_slash (y ∷ t)) (b'/' ∷ y ∷ t)))))))

starts_with_slash : (s : Text) → has_prefix s (codes "/") ≡ true → (t : Text) × (s ≡ b'/' ∷ t)
unfolding has_prefix
starts_with_slash [] h = absurd (ground (arith, h))
starts_with_slash (c ∷ s) h = (s, ground (arith, h, ==_iff c b'/'))

-- What is after the tests of the text itself.
finish : Bool → Text → PathResult
finish b cleaned =
    if has_prefix cleaned (codes "/")
    then resolved (with_slash b cleaned)
    else bad invalid_relative_path

finish_ok :
    (b : Bool) (cleaned p : Text)
    → finish b cleaned ≡ resolved p
    → (p ≡ with_slash b cleaned) × ((t : Text) × (p ≡ b'/' ∷ t))
unfolding finish
finish_ok b cleaned p h = elim (Bool-cases (has_prefix cleaned (codes "/"))) [
  | inr f ↦ absurd (ground (arith, f, h))
  | inl t ↦
      let e : p ≡ with_slash b cleaned = ground (arith, t, h) in
      let (rest, s) = starts_with_slash cleaned t in
      (
        e,
        elim (with_slash_cases b cleaned) [
          | inl w ↦ (rest, e ∙ (w ∙ s))
          | inr w ↦ (rest ++ codes "/", e ∙ (w ∙ ap (λ x. x ++ codes "/") s))
        ],
      )
]

-- The text is not empty and passes the tests.
accepted :
    (raw p : Text)
    → is_empty raw ≡ false
    → normalize_trash_relative_path raw ≡ resolved p
    → let cleaned = clean (rooted raw) in
      finish
        (ends_with_slash (rooted raw))
        (if str_eq cleaned (codes ".") || is_empty cleaned then codes "/" else cleaned)
      ≡ resolved p
unfolding normalize_trash_relative_path finish
accepted raw p n h = elim (Bool-cases (has_nul raw)) [
  | inl a ↦ absurd (ground (arith, n, a, h))
  | inr a ↦ elim (Bool-cases (has_parent_segment (split (forward_slashes raw)))) [
    | inl b ↦ absurd (ground (arith, n, a, b, h))
    | inr b ↦ ground (arith, n, a, b, h)
  ]
]

-- A relative path that is accepted begins with a slash and is the root, or one or more names each
-- after a slash, with or without one at the end; no name is empty, `.` or `..`, or holds a slash.
normalize_trash_relative_path_sound :
    (raw p : Text)
    → normalize_trash_relative_path raw ≡ resolved p
    → IsCanonical p × ((t : Text) × (p ≡ b'/' ∷ t))
normalize_trash_relative_path_sound raw p h = elim (Bool-cases (is_empty raw)) [
  | inl t ↦
      let e : p ≡ codes "/" = unfold normalize_trash_relative_path in ground (arith, t, h) in
      (inl e, ([], e))
  | inr f ↦
      let cleaned = clean (rooted raw) in
      let b = ends_with_slash (rooted raw) in
      let (e, starts) = finish_ok b _ p (accepted raw p f h) in
      (
        elim (Bool-cases (str_eq cleaned (codes ".") || is_empty cleaned)) [
          | inl t ↦ inl (e ∙ (rw t (with_slash_root b)))
          | inr g ↦ subst IsCanonical (sym (e ∙ rw g refl)) (with_slash-IsCanonical b (rooted raw))
        ],
        starts,
      )
]

relative_of_root : (d : Bool) (root : Text) → relative_to d root root ≡ resolved (codes "/")
unfolding relative_to
relative_of_root d root = rw (str_eq_refl root)

-- There and back for a relative path that begins with a slash.
back :
    (d : Bool) (base t s : Text)
    → storage_of d (if d then base ++ codes "/" else base) (b'/' ∷ t) ≡ resolved s
    → relative_to d (if d then base ++ codes "/" else base) s ≡ resolved (b'/' ∷ t)
unfolding storage_of str_eq trim_prefix has_prefix drop
back true base [] s h =
    let e : base ++ codes "/" ≡ s = ground (arith, h) in
    ap (relative_to true (base ++ codes "/")) (sym e) ∙ relative_of_root true (base ++ codes "/")
back true base (y ∷ t) s h =
    let e : (base ++ codes "/") ++ (y ∷ t) ≡ s = ground (arith, h) in
    ap (relative_to true (base ++ codes "/")) (sym e)
    ∙ relative_of_child (base ++ codes "/") y t (child_differs base y t)
back false base [] s h =
    let e : base ≡ s = ground (arith, h) in
    ap (relative_to false base) (sym e) ∙ relative_of_root false base
back false base (y ∷ t) s h = absurd (ground (arith, h))

storage_of_normalized :
    (entry : TrashEntry) (raw p s : Text)
    → normalize_trash_relative_path raw ≡ resolved p
    → trash_storage_path entry raw ≡ resolved s
    → storage_of entry.is_dir (trash_entry_storage_path entry) p ≡ resolved s
unfolding trash_storage_path
storage_of_normalized entry raw p s n h = rw (n, trash_storage_path) at h

-- A relative path that can be turned into a storage path of a trash entry comes back from it in
-- normalised form.
pub trash_relative_path-trash_storage_path :
    (entry : TrashEntry) (raw p s : Text)
    → normalize_trash_relative_path raw ≡ resolved p
    → trash_storage_path entry raw ≡ resolved s
    → trash_relative_path entry s ≡ resolved p
unfolding trash_relative_path trash_entry_storage_path
trash_relative_path-trash_storage_path entry raw p s n h =
    let (_, (t, e)) = normalize_trash_relative_path_sound raw p n in
    let stored = storage_of_normalized entry raw p s n h in
    back entry.is_dir (trash_items_storage_root_path ++ entry.id) t s
      (ap (storage_of entry.is_dir (trash_entry_storage_path entry)) (sym e) ∙ stored)
    ∙ ap resolved (sym e)
