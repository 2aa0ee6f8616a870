-- ===== src/Model/File/Keeps.antt =====
-- Each method of `memFileRepo` keeps every record at its place (internal/model/mem_repos.go).
use domus.Prelude.{
  ℕ, Text, str_eq, eq_iff, ℤ, Bool, &&-eq_true, is_empty, ◌≡◌, refl, ap, subst, inl, inr,
  Option-cases, Bool-cases, none, some, List, [], ◌∷◌, All, All-imp,
}
use domus.Dict.{Dict, lookup, delete, find, best_from, values_where}
use domus.Dict.Keys.{map_values-IsMap}
use domus.Dict.Found.{find_sound, All-values_where}
use domus.Dict.Holds.{Holds-map_values}
use domus.Model.Keys.{NoColon}
use domus.Model.Result.{or_keep}
use domus.Model.File.{FileRecord, FileRepo, UpsertOpts, file_key, is_under, larger_id}
use domus.Model.File.Stored.{
  IsStored, IsStore, IsWf, found_at, put-IsStore, delete-IsStore, delete_where-IsStore,
  change-IsStored,
}
use domus.Model.File.Basic.{fresh, rewritten, first, upsert, update_content_type}
use domus.Model.File.Move.{
  moved, move_with, reparented, store_all, move_by_prefix_with, is_blocked, is_prefix_blocked,
}
use domus.Model.File.Upload.{
  upload_record, create_upload, change_upload, is_abandoned, cancel_uploads_for_other_instances,
}
use domus.Model.File.Thumbnail.{
  is_thumbnail_of, retire_linked_thumbnail, write_through, set_thumbnail, update_thumbnail,
  is_current, update_thumbnail_if_generation,
}

pub upsert-IsWf :
    (u p name : Text) (d : Bool) (size : ℤ) (type hash : Text) (o : List UpsertOpts) (now : ℕ)
    (r : FileRepo)
    → NoColon u
    → IsWf r
    → IsWf (upsert u p name d size type hash o now r)
unfolding upsert fresh rewritten
upsert-IsWf u p name d size type hash o now r a w =
    elim (Option-cases (lookup (file_key u p) r.entries)) [
      | inl n ↦
          rw (n, upsert)
            (put-IsStore _ (fresh r.next_id u p name d size type hash (first o) now) r.entries
              (record { keyed = refl; no_colon = a }) w)
      | inr (f, l) ↦
          rw (l, upsert)
            (put-IsStore _ (rewritten p name d size type hash (first o) now f) r.entries
              (change-IsStored _ f _ refl refl (w.stored _ f l)) w)
    ]

pub move_with-IsWf :
    (b : Bool) (u old new name : Text) (now : ℕ) (r : FileRepo)
    → NoColon u
    → IsWf r
    → IsWf (or_keep r (move_with b u old new name now r))
unfolding move_with moved
move_with-IsWf b u old new name now r a w =
    elim (Option-cases (lookup (file_key u old) r.entries)) [
      | inl n ↦ rw (n, move_with, or_keep) w
      | inr (f, l) ↦ elim (Bool-cases (is_blocked b u old new r)) [
        | inl t ↦ rw (l, move_with, or_keep) (rw t w)
        | inr g ↦
            let (user, _) = found_at u old f r.entries a w l in
            rw (l, move_with, or_keep)
              (rw g (
                put-IsStore _ (moved new name now f) (delete (file_key u old) r.entries)
                  (record {
                    keyed = ap (λ x. file_key x new) user;
                    no_colon = subst NoColon user a;
                  })
                  (delete-IsStore _ r.entries w)))
      ]
    ]

store_all-IsStore :
    (u old new : Text) (now : ℕ) (fs : List FileRecord) (m : Dict FileRecord)
    → NoColon u
    → All (λ (f : FileRecord). f.user_id ≡ u) fs
    → IsStore m
    → IsStore (store_all u old new now fs m)
unfolding store_all reparented
store_all-IsStore u old new now [] m a h w = w
store_all-IsStore u old new now (f ∷ fs) m a h w =
    store_all-IsStore u old new now fs _ a h.1 (
      put-IsStore _ (reparented old new now f) m (record { keyed = rw h.0; no_colon = rw h.0 a }) w)

users_under :
    (u prefix : Text) (m : Dict FileRecord)
    → IsStore m
    → All (λ (f : FileRecord). f.user_id ≡ u) (values_where (λ _ f. is_under u prefix f) m)
users_under u prefix m w =
    All-imp _ (λ f (k, t, l). (eq_iff f.user_id u).0 (&&-eq_true _ _ t).0)
      (All-values_where (λ _ f. is_under u prefix f) m w.is_map)

pub move_by_prefix_with-IsWf :
    (b : Bool) (u old new : Text) (now : ℕ) (r : FileRepo)
    → NoColon u
    → IsWf r
    → IsWf (or_keep r (move_by_prefix_with b u old new now r))
unfolding move_by_prefix_with
move_by_prefix_with-IsWf b u old new now r a w =
    elim (Bool-cases (is_prefix_blocked b u old new r)) [
      | inl t ↦ rw (t, move_by_prefix_with, or_keep) w
      | inr g ↦
          rw (g, move_by_prefix_with, or_keep)
            (store_all-IsStore u old new now _ _ a (users_under u old r.entries w)
              (delete_where-IsStore _ r.entries w))
    ]

pub create_upload-IsWf :
    (u up task oss p name : Text) (size : ℤ) (type client : Text) (now : ℕ) (r : FileRepo)
    → NoColon u
    → IsWf r
    → IsWf (create_upload u up task oss p name size type client now r)
unfolding create_upload
create_upload-IsWf u up task oss p name size type client now r a w =
    put-IsStore _ (upload_record r.next_id u up task oss p name size type client now) r.entries
      (record { keyed = refl; no_colon = a }) w

pub change_upload-IsWf :
    (id : Text) (f : FileRecord → FileRecord) (r : FileRepo)
    → ((x : FileRecord) → ((f x).user_id ≡ x.user_id) × ((f x).path ≡ x.path))
    → IsWf r
    → IsWf (change_upload id f r)
change_upload-IsWf id f r keep w =
    elim (Option-cases (find (λ _ (x : FileRecord). str_eq x.upload_id id) r.entries)) [
      | inl n ↦ rw (n, change_upload) w
      | inr ((k, x), s) ↦
          let (_, l) =
            find_sound (λ _ (x : FileRecord). str_eq x.upload_id id) r.entries w.is_map s in
          rw (s, change_upload)
            (put-IsStore k (f x) r.entries
              (change-IsStored k x (f x) (keep x).0 (keep x).1 (w.stored k x l)) w)
    ]

pub cancel-IsWf :
    (u client : Text) (cutoff now : ℕ) (r : FileRepo)
    → IsWf r
    → IsWf (cancel_uploads_for_other_instances u client cutoff now r).1
unfolding cancel_uploads_for_other_instances
cancel-IsWf u client cutoff now r w = record {
  is_map = map_values-IsMap _ r.entries w.is_map;
  stored =
      Holds-map_values IsStored _ r.entries
        (λ k f s. elim (Bool-cases (is_abandoned u client cutoff f)) [
          | inl t ↦ rw t (change-IsStored k f _ refl refl s)
          | inr g ↦ rw g s
        ])
        w.stored;
}

pub update_content_type-IsWf :
    (u p type : Text) (now : ℕ) (r : FileRepo)
    → IsWf r
    → IsWf (or_keep r (update_content_type u p type now r))
unfolding update_content_type
update_content_type-IsWf u p type now r w = elim (Option-cases (lookup (file_key u p) r.entries)) [
  | inl n ↦ rw (n, update_content_type, or_keep) w
  | inr (f, l) ↦
      rw (l, update_content_type, or_keep)
        (put-IsStore _ _ r.entries (change-IsStored _ f _ refl refl (w.stored _ f l)) w)
]

retire-IsStore :
    (f : FileRecord) (m : Dict FileRecord) → IsStore m → IsStore (retire_linked_thumbnail f m)
unfolding retire_linked_thumbnail
retire-IsStore f m w = elim (Bool-cases (is_empty f.thumbnail_key)) [
  | inl t ↦ rw t w
  | inr g ↦ elim (Option-cases (best_from (is_thumbnail_of f) larger_id none m)) [
    | inl n ↦ rw (g, n, retire_linked_thumbnail) w
    | inr ((k, t), s) ↦ rw (g, s, retire_linked_thumbnail) (delete-IsStore _ m w)
  ]
]

write_through-IsStore :
    (k : Text) (f g : FileRecord) (m m' : Dict FileRecord)
    → IsStored k f
    → IsStore m'
    → g.user_id ≡ f.user_id
    → g.path ≡ f.path
    → IsStore (write_through k g m')
unfolding write_through
write_through-IsStore k f g m m' s w u p = elim (Option-cases (lookup k m')) [
  | inl n ↦ rw (n, write_through) w
  | inr (x, l) ↦ rw (l, write_through) (put-IsStore k g m' (change-IsStored k f g u p s) w)
]

set_thumbnail-IsWf :
    (k : Text) (f : FileRecord) (key dek : Text) (width height : ℤ) (duration now : ℕ)
    (r : FileRepo)
    → lookup k r.entries ≡ some f
    → IsWf r
    → IsWf (set_thumbnail k f key dek width height duration now r)
unfolding set_thumbnail
set_thumbnail-IsWf k f key dek width height duration now r l w =
    elim (Bool-cases (str_eq f.thumbnail_key key)) [
      | inl t ↦ rw t (write_through-IsStore k f _ r.entries r.entries (w.stored k f l) w refl refl)
      | inr g ↦ rw g (
          write_through-IsStore k f _ r.entries _ (w.stored k f l) (retire-IsStore f r.entries w)
            refl refl)
    ]

pub update_thumbnail-IsWf :
    (u p key dek : Text) (width height : ℤ) (duration now : ℕ) (r : FileRepo)
    → IsWf r
    → IsWf (or_keep r (update_thumbnail u p key dek width height duration now r))
unfolding update_thumbnail
update_thumbnail-IsWf u p key dek width height duration now r w =
    elim (Option-cases (lookup (file_key u p) r.entries)) [
      | inl n ↦ rw (n, update_thumbnail, or_keep) w
      | inr (f, l) ↦
          rw (l, update_thumbnail, or_keep)
            (set_thumbnail-IsWf (file_key u p) f key dek width height duration now r l w)
    ]

pub update_thumbnail_if_generation-IsWf :
    (u p : Text) (id gen : ℤ) (key dek : Text) (width height : ℤ) (duration now : ℕ) (r : FileRepo)
    → IsWf r
    → IsWf (update_thumbnail_if_generation u p id gen key dek width height duration now r).1
unfolding update_thumbnail_if_generation
update_thumbnail_if_generation-IsWf u p id gen key dek width height duration now r w =
    elim (Option-cases (lookup (file_key u p) r.entries)) [
      | inl n ↦ rw (n, update_thumbnail_if_generation) w
      | inr (f, l) ↦ elim (Bool-cases (is_current id gen f)) [
        | inl t ↦
            rw (l, update_thumbnail_if_generation)
              (rw t (set_thumbnail-IsWf (file_key u p) f key dek width height duration now r l w))
        | inr g ↦ rw (l, update_thumbnail_if_generation) (rw g w)
      ]
    ]
