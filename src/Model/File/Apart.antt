-- ===== src/Model/File/Apart.antt =====
-- What the methods of `memFileRepo` do for one user leaves the keys of another as they are
-- (internal/model/mem_repos.go).
use domus.Prelude.{
  ℕ, Text, str_eq, eq_iff, ℤ, is_empty, Bool, false, &&-eq_true, ◌&&◌, ◌≡◌, ◌≢◌, refl, sym, ◌∙◌,
  inl, inr, Option-cases, Bool-cases, none, some, List, [], ◌∷◌, arith,
}
use domus.Dict.{Dict, lookup, insert, delete, best_from, delete_where}
use domus.Dict.Lookup.{lookup-insert, lookup-delete, lookup-delete_where}
use domus.Dict.Best.{best_from_sound}
use domus.Model.Keys.{NoColon}
use domus.Model.File.{FileRecord, FileRepo, file_key, larger_id}
use domus.Model.File.Move.{reparented, store_all}
use domus.Model.File.Thumbnail.{
  is_thumbnail_of, retire_linked_thumbnail, write_through, set_thumbnail,
}
use domus.Model.File.Stored.{IsStore, IsWf, file_key-injective, found_at}

module _ (u v : Text) (a : NoColon u) (b : NoColon v) (ne : u ≢ v) where
  -- Keys of two users differ.
  apart : (p q : Text) → str_eq (file_key u p) (file_key v q) ≡ false
  apart p q = elim (Bool-cases (str_eq (file_key u p) (file_key v q))) [
    | inr f ↦ f
    | inl t ↦ absurd (ne (file_key-injective u v p q a b ((eq_iff _ _).0 t)).0)
  ]

  pub insert_apart :
      (p q : Text) (f : FileRecord) (m : Dict FileRecord)
      → lookup (file_key v q) (insert (file_key u p) f m) ≡ lookup (file_key v q) m
  insert_apart p q f m = rw (lookup-insert (file_key u p) (file_key v q) f m) (rw (apart p q))

  pub delete_apart :
      (p q : Text) (m : Dict FileRecord)
      → lookup (file_key v q) (delete (file_key u p) m) ≡ lookup (file_key v q) m
  delete_apart p q m = rw (lookup-delete (file_key u p) (file_key v q) m) (rw (apart p q))

  -- A record at a key of `v` is not one of `u`.
  pub other_user :
      (q : Text) (f : FileRecord) (m : Dict FileRecord)
      → IsStore m
      → lookup (file_key v q) m ≡ some f
      → str_eq f.user_id u ≡ false
  other_user q f m w l = elim (Bool-cases (str_eq f.user_id u)) [
    | inr g ↦ g
    | inl t ↦ absurd (ne (sym ((found_at v q f m b w l).0 ∙ (eq_iff f.user_id u).0 t)))
  ]

  pub delete_where_apart :
      (p : FileRecord → Bool) (q : Text) (m : Dict FileRecord)
      → IsStore m
      → lookup (file_key v q) (delete_where (λ _ f. str_eq f.user_id u && p f) m)
        ≡ lookup (file_key v q) m
  delete_where_apart p q m w = elim (Option-cases (lookup (file_key v q) m)) [
    | inl n ↦ rw (lookup-delete_where _ (file_key v q) m w.is_map) (rw n)
    | inr (f, l) ↦
        rw (lookup-delete_where _ (file_key v q) m w.is_map) (rw l (rw (other_user q f m w l)))
  ]

  pub store_all_apart :
      (old new : Text) (now : ℕ) (q : Text) (fs : List FileRecord) (m : Dict FileRecord)
      → lookup (file_key v q) (store_all u old new now fs m) ≡ lookup (file_key v q) m
  unfolding store_all
  store_all_apart old new now q [] m = refl
  store_all_apart old new now q (f ∷ fs) m =
      store_all_apart old new now q fs _
      ∙ insert_apart (reparented old new now f).path q (reparented old new now f) m

  retire_apart :
      (f : FileRecord) (q : Text) (m : Dict FileRecord)
      → f.user_id ≡ u
      → IsStore m
      → lookup (file_key v q) (retire_linked_thumbnail f m) ≡ lookup (file_key v q) m
  unfolding retire_linked_thumbnail
  retire_apart f q m e w = elim (Bool-cases (is_empty f.thumbnail_key)) [
    | inl t ↦ rw t
    | inr g ↦ elim (Option-cases (best_from (is_thumbnail_of f) larger_id none m)) [
      | inl n ↦ rw (g, n, retire_linked_thumbnail)
      | inr ((k, t), s) ↦ elim (best_from_sound (is_thumbnail_of f) larger_id none m w.is_map s) [
        | inl c ↦ absurd (ground arith)
        | inr (p, l) ↦
            let user : t.user_id ≡ u =
              (eq_iff t.user_id f.user_id).0 (&&-eq_true _ _ (&&-eq_true _ _ p).0).0 ∙ e in
            rw (g, s, retire_linked_thumbnail) (rw user (delete_apart t.path q m))
      ]
    ]
  ]

  write_through_apart :
      (p q : Text) (f : FileRecord) (m : Dict FileRecord)
      → lookup (file_key v q) (write_through (file_key u p) f m) ≡ lookup (file_key v q) m
  unfolding write_through
  write_through_apart p q f m = elim (Option-cases (lookup (file_key u p) m)) [
    | inl n ↦ rw (n, write_through)
    | inr (x, l) ↦ rw (l, write_through) (insert_apart p q f m)
  ]

  pub set_thumbnail_apart :
      (p q : Text) (f : FileRecord) (key dek : Text) (width height : ℤ) (duration now : ℕ)
      (r : FileRepo)
      → lookup (file_key u p) r.entries ≡ some f
      → IsWf r
      → lookup
          (file_key v q)
          (set_thumbnail (file_key u p) f key dek width height duration now r).entries
        ≡ lookup (file_key v q) r.entries
  unfolding set_thumbnail
  set_thumbnail_apart p q f key dek width height duration now r l w =
      elim (Bool-cases (str_eq f.thumbnail_key key)) [
        | inl t ↦ rw t (write_through_apart p q _ r.entries)
        | inr g ↦ rw g (
            write_through_apart p q _ (retire_linked_thumbnail f r.entries)
            ∙ retire_apart f q r.entries (sym (found_at u p f r.entries a w l).0) w)
      ]
