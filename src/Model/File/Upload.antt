-- ===== src/Model/File/Upload.antt =====
-- Uploads in progress: `CreateUpload`, `UpdateStatus`, `TouchUpload` and
-- `CancelUploadsForOtherInstances` of `memFileRepo` (internal/model/mem_repos.go).
use domus.Prelude.{
  ℕ, ltb, Text, codes, str_eq, is_empty, ℤ, int64_succ, Bool, not, ◌&&◌, ◌++◌, none, some, List,
  map,
}
use domus.Dict.{insert, find, values_where, update_where}
use domus.Model.File.{FileRecord, FileRepo, file_key, status_uploading, status_cancelled}
use domus.Model.File.Basic.{blank}

unfoldable pub object_key_of : Text → Text → Text
object_key_of user_id upload_id =
    codes ".dofs/test-objects/" ++ (user_id ++ (codes "/" ++ upload_id))

abbrev pub upload_record :
    ℤ → Text → Text → Text → Text → Text → Text → ℤ → Text → Text → ℕ → FileRecord
upload_record id user_id upload_id task_id oss_upload_id path name size content_type client now =
    record (blank id user_id path name now) {
      object_key = object_key_of user_id upload_id;
      size = size;
      content_type = content_type;
      status = status_uploading;
      upload_id = upload_id;
      task_id = task_id;
      oss_upload_id = oss_upload_id;
      client_instance_id = client;
      last_seen_at = now;
    }

-- An entry at the path is overwritten.
unfoldable pub create_upload :
    Text → Text → Text → Text → Text → Text → ℤ → Text → Text → ℕ → FileRepo → FileRepo
create_upload user_id upload_id task_id oss_upload_id path name size content_type client now r =
    record {
      entries =
          insert (file_key user_id path)
            (upload_record r.next_id user_id upload_id task_id oss_upload_id path name size
              content_type client now)
            r.entries;
      next_id = int64_succ r.next_id;
    }

-- The first record of that upload is changed, and without one nothing is.
abbrev pub change_upload : Text → (FileRecord → FileRecord) → FileRepo → FileRepo
change_upload upload_id f r = elim (find (λ _ x. str_eq x.upload_id upload_id) r.entries) [
  | none ↦ r
  | some (k, x) ↦ record r { entries = insert k (f x) r.entries }
]

unfoldable pub update_status : Text → Text → ℕ → FileRepo → FileRepo
update_status upload_id status now r =
    change_upload upload_id (λ x. record x { status = status; updated_at = now }) r

unfoldable pub touch_upload : Text → ℕ → FileRepo → FileRepo
touch_upload upload_id seen_at r =
    change_upload upload_id (λ x. record x { last_seen_at = seen_at; updated_at = seen_at }) r

-- An upload of another client that was last seen before the cutoff.
abbrev pub is_abandoned : Text → Text → ℕ → FileRecord → Bool
is_abandoned user_id client cutoff x =
    (str_eq x.user_id user_id && str_eq x.status status_uploading)
    && (ltb x.last_seen_at cutoff
        && not (not (is_empty client) && str_eq x.client_instance_id client))

abbrev pub cancel : ℕ → FileRecord → FileRecord
cancel now x = record x { status = status_cancelled; updated_at = now }

unfoldable pub cancel_uploads_for_other_instances :
    Text → Text → ℕ → ℕ → FileRepo → List FileRecord × FileRepo
cancel_uploads_for_other_instances user_id client cutoff now r = (
  map (cancel now) (values_where (λ _ x. is_abandoned user_id client cutoff x) r.entries),
  record r { entries = update_where (is_abandoned user_id client cutoff) (cancel now) r.entries },
)
