-- ===== src/Model/File/Isolation.antt =====
-- Users of `memFileRepo` do not see one another's calls (internal/model/mem_repos.go).
use domus.Prelude.{
  ℕ, Text, ℤ, has_prefix, Bool, ◌≡◌, ◌≢◌, ◌∙◌, inl, inr, Option-cases, Bool-cases, none, some, List,
  arith,
}
use domus.Dict.{lookup, delete, values_where}
use domus.Dict.Lookup.{lookup-map_values}
use domus.Model.Keys.{NoColon}
use domus.Model.Result.{or_keep}
use domus.Model.File.{FileRepo, UpsertOpts, file_key, get, is_under}
use domus.Model.File.Basic.{upsert, remove, delete_by_prefix, update_content_type}
use domus.Model.File.Move.{move_with, move_by_prefix_with, is_blocked, is_prefix_blocked}
use domus.Model.File.Upload.{create_upload, cancel_uploads_for_other_instances}
use domus.Model.File.Thumbnail.{update_thumbnail, is_current, update_thumbnail_if_generation}
use domus.Model.File.Stored.{IsWf}
use domus.Model.File.Invariant.{
  Call, upserts, removes, removes_prefix, retypes, moves, moves_prefix, creates_upload,
  changes_status, touches, cancels, sets_thumbnail, sets_thumbnail_if, caller, step,
}
use domus.Model.File.Apart.{
  insert_apart, delete_apart, other_user, delete_where_apart, store_all_apart, set_thumbnail_apart,
}

-- The call is made on behalf of a user other than `v`, whose id holds no colon.
abbrev pub ByOther : Text → Call → Type 0
ByOther v c = elim (caller c) [ none ↦ ⊥ | some u ↦ NoColon u × (u ≢ v) ]

module _ (v q : Text) (b : NoColon v) (r : FileRepo) (w : IsWf r) where
  Same : FileRepo → Type 0
  Same r' = lookup (file_key v q) r'.entries ≡ lookup (file_key v q) r.entries

  upsert_apart :
      (u p name : Text) (d : Bool) (size : ℤ) (type hash : Text) (o : List UpsertOpts) (now : ℕ)
      → NoColon u
      → u ≢ v
      → Same (upsert u p name d size type hash o now r)
  unfolding upsert Same
  upsert_apart u p name d size type hash o now a ne =
      elim (Option-cases (lookup (file_key u p) r.entries)) [
        | inl n ↦ rw (n, upsert) (insert_apart u v a b ne p q _ r.entries)
        | inr (f, l) ↦ rw (l, upsert) (insert_apart u v a b ne p q _ r.entries)
      ]

  retype_apart :
      (u p type : Text) (now : ℕ)
      → NoColon u
      → u ≢ v
      → Same (or_keep r (update_content_type u p type now r))
  unfolding update_content_type Same
  retype_apart u p type now a ne = elim (Option-cases (lookup (file_key u p) r.entries)) [
    | inl n ↦ rw (n, update_content_type, or_keep)
    | inr (f, l) ↦ rw (l, update_content_type, or_keep) (insert_apart u v a b ne p q _ r.entries)
  ]

  move_apart :
      (c : Bool) (u old new name : Text) (now : ℕ)
      → NoColon u
      → u ≢ v
      → Same (or_keep r (move_with c u old new name now r))
  unfolding move_with Same
  move_apart c u old new name now a ne = elim (Option-cases (lookup (file_key u old) r.entries)) [
    | inl n ↦ rw (n, move_with, or_keep)
    | inr (f, l) ↦ elim (Bool-cases (is_blocked c u old new r)) [
      | inl t ↦ rw (l, move_with, or_keep) (rw t)
      | inr g ↦
          rw (l, move_with, or_keep)
            (rw g (
              insert_apart u v a b ne new q _ (delete (file_key u old) r.entries)
              ∙ delete_apart u v a b ne old q r.entries))
    ]
  ]

  move_by_prefix_apart :
      (c : Bool) (u old new : Text) (now : ℕ)
      → NoColon u
      → u ≢ v
      → Same (or_keep r (move_by_prefix_with c u old new now r))
  unfolding move_by_prefix_with Same
  move_by_prefix_apart c u old new now a ne = elim (Bool-cases (is_prefix_blocked c u old new r)) [
    | inl t ↦ rw (t, move_by_prefix_with, or_keep)
    | inr g ↦
        rw (g, move_by_prefix_with, or_keep)
          (store_all_apart u v a b ne old new now q
              (values_where (λ _ f. is_under u old f) r.entries) _
            ∙ delete_where_apart u v a b ne (λ f. has_prefix f.path old) q r.entries w)
  ]

  cancel_apart :
      (u client : Text) (cutoff now : ℕ)
      → NoColon u
      → u ≢ v
      → Same (cancel_uploads_for_other_instances u client cutoff now r).1
  unfolding cancel_uploads_for_other_instances Same
  cancel_apart u client cutoff now a ne = elim (Option-cases (lookup (file_key v q) r.entries)) [
    | inl n ↦ rw (lookup-map_values _ (file_key v q) r.entries) (rw n)
    | inr (f, l) ↦
        rw (lookup-map_values _ (file_key v q) r.entries)
          (rw l (rw (other_user u v a b ne q f r.entries w l)))
  ]

  thumbnail_apart :
      (u p key dek : Text) (width height : ℤ) (duration now : ℕ)
      → NoColon u
      → u ≢ v
      → Same (or_keep r (update_thumbnail u p key dek width height duration now r))
  unfolding update_thumbnail Same
  thumbnail_apart u p key dek width height duration now a ne =
      elim (Option-cases (lookup (file_key u p) r.entries)) [
        | inl n ↦ rw (n, update_thumbnail, or_keep)
        | inr (f, l) ↦
            rw (l, update_thumbnail, or_keep)
              (set_thumbnail_apart u v a b ne p q f key dek width height duration now r l w)
      ]

  thumbnail_if_apart :
      (u p : Text) (id gen : ℤ) (key dek : Text) (width height : ℤ) (duration now : ℕ)
      → NoColon u
      → u ≢ v
      → Same (update_thumbnail_if_generation u p id gen key dek width height duration now r).1
  unfolding update_thumbnail_if_generation Same
  thumbnail_if_apart u p id gen key dek width height duration now a ne =
      elim (Option-cases (lookup (file_key u p) r.entries)) [
        | inl n ↦ rw (n, update_thumbnail_if_generation)
        | inr (f, l) ↦ elim (Bool-cases (is_current id gen f)) [
          | inl t ↦
              rw (l, update_thumbnail_if_generation)
                (rw t
                  (set_thumbnail_apart u v a b ne p q f key dek width height duration now r l w))
          | inr g ↦ rw (l, update_thumbnail_if_generation) (rw g)
        ]
      ]

  step_apart : (c : Call) → ByOther v c → Same (step c r)
  unfolding step remove delete_by_prefix create_upload Same
  step_apart (upserts u p name d size type hash o now) (a, ne) =
      upsert_apart u p name d size type hash o now a ne
  step_apart (removes u p) (a, ne) = delete_apart u v a b ne p q r.entries
  step_apart (removes_prefix u p) (a, ne) =
      delete_where_apart u v a b ne (λ f. has_prefix f.path p) q r.entries w
  step_apart (retypes u p type now) (a, ne) = retype_apart u p type now a ne
  step_apart (moves c u old new name now) (a, ne) = move_apart c u old new name now a ne
  step_apart (moves_prefix c u old new now) (a, ne) = move_by_prefix_apart c u old new now a ne
  step_apart (creates_upload u up task oss p name size type client now) (a, ne) =
      insert_apart u v a b ne p q _ r.entries
  step_apart (changes_status id status now) e = absurd e
  step_apart (touches id now) e = absurd e
  step_apart (cancels u client cutoff now) (a, ne) = cancel_apart u client cutoff now a ne
  step_apart (sets_thumbnail u p key dek width height duration now) (a, ne) =
      thumbnail_apart u p key dek width height duration now a ne
  step_apart (sets_thumbnail_if u p id gen key dek width height duration now) (a, ne) =
      thumbnail_if_apart u p id gen key dek width height duration now a ne

-- On a well-formed repository a call on behalf of one user, whose id holds no colon, changes
-- nothing that `Get` returns for any path of another user whose id holds no colon.
pub get-step_other :
    (v q : Text) (c : Call) (r : FileRepo)
    → NoColon v
    → ByOther v c
    → IsWf r
    → get v q (step c r) ≡ get v q r
unfolding get Same
get-step_other v q c r b o w = ground (arith, step_apart v q b r w c o)
