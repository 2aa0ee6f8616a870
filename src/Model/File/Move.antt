-- ===== src/Model/File/Move.antt =====
-- Moves of one path and of a subtree: `move` and `moveByPrefix` of `memFileRepo`
-- (internal/model/mem_repos.go).
use domus.Prelude.{
  ℕ, Text, str_eq, replace_first, Bool, true, false, not, ◌&&◌, ◌++◌, Option, none, some, List, [],
  ◌∷◌, drop, length, if◌then◌else◌,
}
use domus.Dict.{Dict, lookup, insert, delete, delete_where, values_where}
use domus.Model.Result.{Result, ok, err, record_not_found, duplicated_key}
use domus.Model.File.{FileRecord, FileRepo, file_key, is_under}
use domus.Model.File.Parent.{parent_of}

abbrev pub is_some {ℓ} : {A : Type ℓ} → Option A → Bool
is_some none = false
is_some (some _) = true

unfoldable pub moved : Text → Text → ℕ → FileRecord → FileRecord
moved new_path new_name now f = record f {
  path = new_path;
  parent = parent_of new_path;
  name = new_name;
  updated_at = now;
}

-- `no_replace`, and another record stands at the new path.
abbrev pub is_blocked : Bool → Text → Text → Text → FileRepo → Bool
is_blocked no_replace user_id old_path new_path r =
    no_replace
    && (is_some (lookup (file_key user_id new_path) r.entries)
        && not (str_eq (file_key user_id new_path) (file_key user_id old_path)))

-- `move`; the last test of the path that is written to is skipped without `no_replace`.
unfoldable pub move_with : Bool → Text → Text → Text → Text → ℕ → FileRepo → Result FileRepo
move_with no_replace user_id old_path new_path new_name now r =
    let old_key = file_key user_id old_path in
    let new_key = file_key user_id new_path in
    elim (lookup old_key r.entries) [
      | none ↦ err record_not_found
      | some f ↦
          if is_blocked no_replace user_id old_path new_path r
          then err duplicated_key
          else ok (record r {
            entries = insert new_key (moved new_path new_name now f) (delete old_key r.entries);
          })
    ]

unfoldable pub move : Text → Text → Text → Text → ℕ → FileRepo → Result FileRepo
unfolding move_with
move user_id old_path new_path new_name now r =
    move_with false user_id old_path new_path new_name now r

unfoldable pub move_no_replace : Text → Text → Text → Text → ℕ → FileRepo → Result FileRepo
unfolding move_with
move_no_replace user_id old_path new_path new_name now r =
    move_with true user_id old_path new_path new_name now r

-- The record with its path under the new prefix. The parent is changed as a text.
unfoldable pub reparented : Text → Text → ℕ → FileRecord → FileRecord
reparented old_prefix new_prefix now f = record f {
  path = new_prefix ++ drop (length old_prefix) f.path;
  parent = replace_first f.parent old_prefix new_prefix;
  updated_at = now;
}

-- The second loop of `moveByPrefix`: the records are stored one after the other.
unfoldable pub store_all :
    Text → Text → Text → ℕ → List FileRecord → Dict FileRecord → Dict FileRecord
store_all user_id old_prefix new_prefix now [] m = m
store_all user_id old_prefix new_prefix now (f ∷ fs) m =
    let f' = reparented old_prefix new_prefix now f in
    store_all user_id old_prefix new_prefix now fs (insert (file_key user_id f'.path) f' m)

-- `no_replace`, and a record stands at the new prefix, which is another.
abbrev pub is_prefix_blocked : Bool → Text → Text → Text → FileRepo → Bool
is_prefix_blocked no_replace user_id old_prefix new_prefix r =
    no_replace
    && (is_some (lookup (file_key user_id new_prefix) r.entries)
        && not (str_eq old_prefix new_prefix))

unfoldable pub move_by_prefix_with : Bool → Text → Text → Text → ℕ → FileRepo → Result FileRepo
unfolding store_all
move_by_prefix_with no_replace user_id old_prefix new_prefix now r =
    if is_prefix_blocked no_replace user_id old_prefix new_prefix r
    then err duplicated_key
    else ok (record r {
      entries =
          store_all user_id old_prefix new_prefix now
            (values_where (λ _ f. is_under user_id old_prefix f) r.entries)
            (delete_where (λ _ f. is_under user_id old_prefix f) r.entries);
    })

unfoldable pub move_by_prefix : Text → Text → Text → ℕ → FileRepo → Result FileRepo
unfolding move_by_prefix_with
move_by_prefix user_id old_prefix new_prefix now r =
    move_by_prefix_with false user_id old_prefix new_prefix now r

unfoldable move_by_prefix_no_replace : Text → Text → Text → ℕ → FileRepo → Result FileRepo
unfolding move_by_prefix_with
move_by_prefix_no_replace user_id old_prefix new_prefix now r =
    move_by_prefix_with true user_id old_prefix new_prefix now r
