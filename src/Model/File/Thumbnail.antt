-- ===== src/Model/File/Thumbnail.antt =====
-- Thumbnails: `retireLinkedThumbnailLocked`, `UpdateThumbnail` and `UpdateThumbnailIfGeneration`
-- of `memFileRepo` (internal/model/mem_repos.go).
use domus.Prelude.{
  ℕ, Text, str_eq, is_empty, ℤ, int_eq, Bool, true, false, not, ◌&&◌, none, some, if◌then◌else◌,
}
use domus.Dict.{Dict, lookup, insert, delete, best_from}
use domus.Model.Result.{Result, ok, err, record_not_found}
use domus.Model.File.{FileRecord, FileRepo, file_key, storage_key, larger_id, status_ready}

-- A ready record of the same user that holds the source's thumbnail.
abbrev pub is_thumbnail_of : FileRecord → Text → FileRecord → Bool
is_thumbnail_of source _ c =
    (str_eq c.user_id source.user_id && not (int_eq c.id source.id))
    && (str_eq c.status status_ready && str_eq (storage_key c) source.thumbnail_key)

unfoldable pub retire_linked_thumbnail : FileRecord → Dict FileRecord → Dict FileRecord
retire_linked_thumbnail source m =
    if is_empty source.thumbnail_key
    then m
    else elim (best_from (is_thumbnail_of source) larger_id none m) [
      | none ↦ m
      | some (_, t) ↦ delete (file_key t.user_id t.path) m
    ]

-- A change of a record through a pointer into the map; a record that has left it is not seen.
unfoldable pub write_through : Text → FileRecord → Dict FileRecord → Dict FileRecord
write_through k f m = elim (lookup k m) [ none ↦ m | some _ ↦ insert k f m ]

unfoldable with_thumbnail : Text → Text → ℤ → ℤ → ℕ → ℕ → FileRecord → FileRecord
with_thumbnail key dek width height duration now f = record f {
  thumbnail_key = key;
  thumbnail_wrapped_dek = dek;
  media_width = width;
  media_height = height;
  media_duration = duration;
  updated_at = now;
}

-- What both methods do once the record is found.
unfoldable pub set_thumbnail : Text → FileRecord → Text → Text → ℤ → ℤ → ℕ → ℕ → FileRepo → FileRepo
unfolding retire_linked_thumbnail write_through with_thumbnail
set_thumbnail k f key dek width height duration now r =
    let kept =
      if str_eq f.thumbnail_key key then r.entries else retire_linked_thumbnail f r.entries in
    record r { entries = write_through k (with_thumbnail key dek width height duration now f) kept }

unfoldable pub update_thumbnail :
    Text → Text → Text → Text → ℤ → ℤ → ℕ → ℕ → FileRepo → Result FileRepo
unfolding set_thumbnail
update_thumbnail user_id path key dek width height duration now r =
    elim (lookup (file_key user_id path) r.entries) [
      | none ↦ err record_not_found
      | some f ↦ ok (set_thumbnail (file_key user_id path) f key dek width height duration now r)
    ]

abbrev pub is_current : ℤ → ℤ → FileRecord → Bool
is_current file_id generation f =
    int_eq f.id file_id && (int_eq f.generation generation && str_eq f.status status_ready)

unfoldable pub update_thumbnail_if_generation :
    Text → Text → ℤ → ℤ → Text → Text → ℤ → ℤ → ℕ → ℕ → FileRepo → Bool × FileRepo
unfolding set_thumbnail
update_thumbnail_if_generation user_id path file_id generation key dek width height duration now r =
    elim (lookup (file_key user_id path) r.entries) [
      | none ↦ (false, r)
      | some f ↦
          if is_current file_id generation f
          then (true, set_thumbnail (file_key user_id path) f key dek width height duration now r)
          else (false, r)
    ]
