-- ===== src/Model/File/Basic.antt =====
-- `Upsert`, `Delete`, `DeleteByPrefix` and `UpdateContentType` of `memFileRepo`
-- (internal/model/mem_repos.go).
use domus.Prelude.{
  ℕ, Text, is_empty, ℤ, pos, int64_succ, Bool, false, Option, none, some, List, [], ◌∷◌,
  if◌then◌else◌,
}
use domus.Dict.{lookup, insert, delete, delete_where}
use domus.Model.Result.{Result, ok, err, record_not_found}
use domus.Model.File.{FileRecord, FileRepo, UpsertOpts, file_key, is_under, status_ready}
use domus.Model.File.Parent.{parent_of}

-- A record with the given identity and every other field zero.
abbrev pub blank : ℤ → Text → Text → Text → ℕ → FileRecord
blank id user_id path name now = record {
  id = id;
  user_id = user_id;
  path = path;
  parent = parent_of path;
  name = name;
  is_dir = false;
  size = pos 0;
  content_type = [];
  content_hash = [];
  object_key = [];
  generation = pos 0;
  thumbnail_key = [];
  thumbnail_wrapped_dek = [];
  media_width = pos 0;
  media_height = pos 0;
  media_duration = 0;
  media_codecs = [];
  media_meta = [];
  wrapped_dek = [];
  status = [];
  upload_id = [];
  task_id = [];
  oss_upload_id = [];
  client_instance_id = [];
  last_seen_at = 0;
  created_at = now;
  updated_at = now;
}

-- The first option, which may be absent.
abbrev pub first : List UpsertOpts → Option UpsertOpts
first [] = none
first (o ∷ os) = some o

abbrev pub dek_of : Option UpsertOpts → Text → Text
dek_of none old = old
dek_of (some o) old = if is_empty o.wrapped_dek then old else o.wrapped_dek

abbrev pub key_of : Option UpsertOpts → Text → Text
key_of none old = old
key_of (some o) old = if is_empty o.object_key then old else o.object_key

-- The record of a path that has none yet.
unfoldable pub fresh :
    ℤ → Text → Text → Text → Bool → ℤ → Text → Text → Option UpsertOpts → ℕ → FileRecord
fresh id user_id path name is_dir size content_type content_hash opts now =
    record (blank id user_id path name now) {
      is_dir = is_dir;
      size = size;
      content_type = content_type;
      content_hash = content_hash;
      status = status_ready;
      wrapped_dek = elim opts [ none ↦ [] | some o ↦ o.wrapped_dek ];
      object_key = elim opts [ none ↦ [] | some o ↦ o.object_key ];
      generation = if is_dir then pos 0 else pos 1;
    }

-- The record of a path that is written again: empty hashes, keys and object keys leave the old
-- ones, and a file's generation grows by one.
unfoldable pub rewritten :
    Text → Text → Bool → ℤ → Text → Text → Option UpsertOpts → ℕ → FileRecord → FileRecord
rewritten path name is_dir size content_type content_hash opts now f = record f {
  name = name;
  parent = parent_of path;
  is_dir = is_dir;
  size = size;
  content_type = content_type;
  status = status_ready;
  updated_at = now;
  content_hash = if is_empty content_hash then f.content_hash else content_hash;
  wrapped_dek = dek_of opts f.wrapped_dek;
  object_key = if is_dir then f.object_key else key_of opts f.object_key;
  generation = if is_dir then f.generation else int64_succ f.generation;
}

unfoldable pub upsert :
    Text → Text → Text → Bool → ℤ → Text → Text → List UpsertOpts → ℕ → FileRepo → FileRepo
upsert user_id path name is_dir size content_type content_hash opts now r =
    elim (lookup (file_key user_id path) r.entries) [
      | none ↦ record {
        entries =
            insert (file_key user_id path)
              (fresh r.next_id user_id path name is_dir size content_type content_hash (first opts)
                now)
              r.entries;
        next_id = int64_succ r.next_id;
      }
      | some f ↦ record r {
        entries =
            insert (file_key user_id path)
              (rewritten path name is_dir size content_type content_hash (first opts) now f)
              r.entries;
      }
    ]

unfoldable pub remove : Text → Text → FileRepo → FileRepo
remove user_id path r = record r { entries = delete (file_key user_id path) r.entries }

unfoldable pub delete_by_prefix : Text → Text → FileRepo → FileRepo
delete_by_prefix user_id prefix r = record r {
  entries = delete_where (λ _ f. is_under user_id prefix f) r.entries;
}

unfoldable pub update_content_type : Text → Text → Text → ℕ → FileRepo → Result FileRepo
update_content_type user_id path content_type now r =
    elim (lookup (file_key user_id path) r.entries) [
      | none ↦ err record_not_found
      | some f ↦ ok (record r {
        entries =
            insert (file_key user_id path)
              (record f { content_type = content_type; updated_at = now }) r.entries;
      })
    ]
