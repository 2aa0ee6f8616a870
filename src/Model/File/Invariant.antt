-- ===== src/Model/File/Invariant.antt =====
-- The calls of `memFileRepo` and what they keep (internal/model/mem_repos.go).
use domus.Prelude.{ℕ, Text, ℤ, Bool, refl, Option, none, some, List, [], ◌∷◌, All}
use domus.Model.Keys.{NoColon}
use domus.Model.Result.{or_keep}
use domus.Model.File.{FileRepo, UpsertOpts}
use domus.Model.File.Stored.{IsWf, delete-IsStore, delete_where-IsStore}
use domus.Model.File.Basic.{upsert, remove, delete_by_prefix, update_content_type}
use domus.Model.File.Move.{move_with, move_by_prefix_with}
use domus.Model.File.Upload.{
  create_upload, update_status, touch_upload, cancel_uploads_for_other_instances,
}
use domus.Model.File.Thumbnail.{update_thumbnail, update_thumbnail_if_generation}
use domus.Model.File.Keeps.{
  upsert-IsWf, move_with-IsWf, move_by_prefix_with-IsWf, create_upload-IsWf, change_upload-IsWf,
  cancel-IsWf, update_content_type-IsWf, update_thumbnail-IsWf, update_thumbnail_if_generation-IsWf,
}

-- A call that changes the repository.
pub data Call : Type 0 where
  upserts : Text → Text → Text → Bool → ℤ → Text → Text → List UpsertOpts → ℕ → Call
  removes removes_prefix : Text → Text → Call
  retypes : Text → Text → Text → ℕ → Call
  moves : Bool → Text → Text → Text → Text → ℕ → Call
  moves_prefix : Bool → Text → Text → Text → ℕ → Call
  creates_upload : Text → Text → Text → Text → Text → Text → ℤ → Text → Text → ℕ → Call
  changes_status : Text → Text → ℕ → Call
  touches : Text → ℕ → Call
  cancels : Text → Text → ℕ → ℕ → Call
  sets_thumbnail : Text → Text → Text → Text → ℤ → ℤ → ℕ → ℕ → Call
  sets_thumbnail_if : Text → Text → ℤ → ℤ → Text → Text → ℤ → ℤ → ℕ → ℕ → Call

unfoldable pub step : Call → FileRepo → FileRepo
step (upserts u p name d size type hash o now) r = upsert u p name d size type hash o now r
step (removes u p) r = remove u p r
step (removes_prefix u p) r = delete_by_prefix u p r
step (retypes u p type now) r = or_keep r (update_content_type u p type now r)
step (moves b u old new name now) r = or_keep r (move_with b u old new name now r)
step (moves_prefix b u old new now) r = or_keep r (move_by_prefix_with b u old new now r)
step (creates_upload u up task oss p name size type client now) r =
    create_upload u up task oss p name size type client now r
step (changes_status id status now) r = update_status id status now r
step (touches id now) r = touch_upload id now r
step (cancels u client cutoff now) r = (cancel_uploads_for_other_instances u client cutoff now r).1
step (sets_thumbnail u p key dek width height duration now) r =
    or_keep r (update_thumbnail u p key dek width height duration now r)
step (sets_thumbnail_if u p id gen key dek width height duration now) r =
    (update_thumbnail_if_generation u p id gen key dek width height duration now r).1

-- The user on whose behalf a call is made; the two calls by upload id name none.
abbrev pub caller : Call → Option Text
caller (upserts u p name d size type hash o now) = some u
caller (removes u p) = some u
caller (removes_prefix u p) = some u
caller (retypes u p type now) = some u
caller (moves b u old new name now) = some u
caller (moves_prefix b u old new now) = some u
caller (creates_upload u up task oss p name size type client now) = some u
caller (changes_status id status now) = none
caller (touches id now) = none
caller (cancels u client cutoff now) = some u
caller (sets_thumbnail u p key dek width height duration now) = some u
caller (sets_thumbnail_if u p id gen key dek width height duration now) = some u

-- The caller's id, if there is one, holds no colon.
abbrev pub CallerOk : Call → Type 0
CallerOk c = elim (caller c) [ none ↦ Unit | some u ↦ NoColon u ]

unfoldable pub run : List Call → FileRepo → FileRepo
unfolding step
run [] r = r
run (c ∷ cs) r = run cs (step c r)

pub step-IsWf : (c : Call) (r : FileRepo) → CallerOk c → IsWf r → IsWf (step c r)
unfolding step remove delete_by_prefix update_status touch_upload
step-IsWf (upserts u p name d size type hash o now) r a w =
    upsert-IsWf u p name d size type hash o now r a w
step-IsWf (removes u p) r a w = delete-IsStore _ r.entries w
step-IsWf (removes_prefix u p) r a w = delete_where-IsStore _ r.entries w
step-IsWf (retypes u p type now) r a w = update_content_type-IsWf u p type now r w
step-IsWf (moves b u old new name now) r a w = move_with-IsWf b u old new name now r a w
step-IsWf (moves_prefix b u old new now) r a w = move_by_prefix_with-IsWf b u old new now r a w
step-IsWf (creates_upload u up task oss p name size type client now) r a w =
    create_upload-IsWf u up task oss p name size type client now r a w
step-IsWf (changes_status id status now) r a w = change_upload-IsWf id _ r (λ x. (refl, refl)) w
step-IsWf (touches id now) r a w = change_upload-IsWf id _ r (λ x. (refl, refl)) w
step-IsWf (cancels u client cutoff now) r a w = cancel-IsWf u client cutoff now r w
step-IsWf (sets_thumbnail u p key dek width height duration now) r a w =
    update_thumbnail-IsWf u p key dek width height duration now r w
step-IsWf (sets_thumbnail_if u p id gen key dek width height duration now) r a w =
    update_thumbnail_if_generation-IsWf u p id gen key dek width height duration now r w

-- Any sequence of calls of the file repository, on behalf of users whose ids hold no colon, keeps
-- a well-formed repository well formed: one record for a key, each at the key of its own user and
-- path.
pub run-IsWf : (cs : List Call) (r : FileRepo) → All CallerOk cs → IsWf r → IsWf (run cs r)
unfolding run
run-IsWf [] r a w = w
run-IsWf (c ∷ cs) r a w = run-IsWf cs (step c r) a.1 (step-IsWf c r a.0 w)
