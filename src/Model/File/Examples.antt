-- ===== src/Model/File/Examples.antt =====
-- The file repository (internal/model/mem_repos.go) with one file in one directory.
use mathlib.Core.List.{Mem}
use domus.Prelude.{
  ℕ, Text, codes, str_eq, ℤ, pos, int64_succ, has_prefix, ◌&&◌, true, false, sym, ◌≡◌, ◌≢◌, ◌↔◌,
  ◌⊎◌, ◌<◌, inl, inr, refl, [], ◌∷◌, ◌++◌, List, All, Option, none, some, length, if◌then◌else◌,
  arith,
}
use domus.Dict.Holds.{Holds-empty}
use domus.Model.Result.{ok, err, or_keep, record_not_found, duplicated_key}
use domus.Model.File.{
  FileRecord, FileRepo, UpsertOpts, get, file_key, status_ready, status_deleted,
  list_direct_children, list_by_prefix,
}
use domus.Model.File.Basic.{fresh, upsert}
use domus.Model.File.Move.{move_with, move_no_replace, reparented, move_by_prefix}
use domus.Model.File.Stored.{IsWf, IsStored}
use domus.Model.File.Invariant.{Call, upserts, removes, step, run, run-IsWf}
use domus.Model.File.Isolation.{get-step_other}
use domus.Model.File.Parent.{IsChild}
use domus.Model.File.Moves.{get-move, move_no_replace_iff}
use domus.Model.File.MovedRoot.{moved_root_still_listed}
use domus.Model.File.Subtree.{get-move_by_prefix}
use domus.Model.Keys.{NoColon}

abbrev ann : Text
ann = codes "ann"

abbrev bob : Text
bob = codes "bob"

-- The directory `/a/` and the file `/a/b`.
abbrev calls : List Call
calls =
    upserts ann (codes "/a/") (codes "a") true (pos 0) [] [] [] 10
    ∷ upserts ann (codes "/a/b") (codes "b") false (pos 5) (codes "text") (codes "h") [] 11
    ∷ []

abbrev empty : FileRepo
empty = record { entries = []; next_id = pos 1 }

abbrev store : FileRepo
store = run calls empty

empty-IsWf : IsWf empty
empty-IsWf = record { is_map = tt; stored = Holds-empty IsStored }

ann-NoColon : NoColon ann
ann-NoColon = (omega arith, (omega arith, (omega arith, tt)))

bob-NoColon : NoColon bob
bob-NoColon = (omega arith, (omega arith, (omega arith, tt)))

ann≢bob : ann ≢ bob
ann≢bob h = absurd (ground (arith, h))

store-IsWf : IsWf store
store-IsWf = run-IsWf calls empty (ann-NoColon, (ann-NoColon, tt)) empty-IsWf

abbrev directory : FileRecord
directory = fresh (pos 1) ann (codes "/a/") (codes "a") true (pos 0) [] [] none 10

abbrev file : FileRecord
file = fresh (pos 2) ann (codes "/a/b") (codes "b") false (pos 5) (codes "text") (codes "h") none 11

get_file : get ann (codes "/a/b") store ≡ ok file
unfolding get domus.Dict.lookup run upsert domus.Dict.insert str_eq file_key int64_succ
get_file = refl

run-IsWf_example : IsWf (run calls empty)
run-IsWf_example = run-IsWf calls empty (ann-NoColon, (ann-NoColon, tt)) empty-IsWf

get-step_other_example :
    get ann (codes "/a/b") (step (removes bob (codes "/a/b")) store) ≡ get ann (codes "/a/b") store
get-step_other_example =
    get-step_other ann (codes "/a/b") (removes bob (codes "/a/b")) store ann-NoColon
      (bob-NoColon, λ h. ann≢bob (sym h)) store-IsWf

abbrev moved_store : FileRepo
moved_store = or_keep store (move_by_prefix ann (codes "/a/") (codes "/c/") 20 store)

move_by_prefix_ok : move_by_prefix ann (codes "/a/") (codes "/c/") 20 store ≡ ok moved_store
unfolding move_by_prefix
move_by_prefix_ok = refl

get-move_by_prefix_example :
    get ann (codes "/c/" ++ codes "b") moved_store
    ≡ ok (reparented (codes "/a/") (codes "/c/") 20 file)
get-move_by_prefix_example =
    get-move_by_prefix ann (codes "/a/") (codes "/c/") (codes "b") 20 store file ann-NoColon
      store-IsWf get_file move_by_prefix_ok

abbrev renamed : FileRepo
renamed = or_keep store (move_with true ann (codes "/a/b") (codes "/a/c") (codes "c") 20 store)

move_with_ok : move_with true ann (codes "/a/b") (codes "/a/c") (codes "c") 20 store ≡ ok renamed
unfolding move_with domus.Dict.lookup run upsert domus.Dict.insert str_eq file_key
move_with_ok = refl

move_no_replace_ok :
    move_no_replace ann (codes "/a/b") (codes "/a/c") (codes "c") 20 store ≡ ok renamed
unfolding move_no_replace domus.Dict.lookup run upsert domus.Dict.insert str_eq file_key
move_no_replace_ok = refl

c-IsChild : IsChild (codes "/a/c") (codes "/a") (codes "c")
c-IsChild = (record { nonempty = λ e. absurd cc; no_slash = (omega arith, tt) }, inl refl)

get-move_example : get ann (codes "/a/c") renamed ≡ (
    if str_eq (file_key ann (codes "/a/c")) (file_key ann (codes "/a/c"))
    then ok (record file {
      path = codes "/a/c";
      parent = codes "/a" ++ codes "/";
      name = codes "c";
      updated_at = 20;
    })
    else (if str_eq (file_key ann (codes "/a/b")) (file_key ann (codes "/a/c"))
        then err record_not_found
        else get ann (codes "/a/c") store))
get-move_example =
    get-move true ann (codes "/a/b") (codes "/a/c") (codes "c") (codes "/a") (codes "c") ann
      (codes "/a/c") 20 store file c-IsChild get_file move_with_ok

move_no_replace_iff_example :
    (move_no_replace ann (codes "/a/b") (codes "/a/") (codes "a") 20 store ≡ err duplicated_key) ↔ (
      ((f : FileRecord) × (get ann (codes "/a/b") store ≡ ok f))
      × ((g : FileRecord) × (get ann (codes "/a/") store ≡ ok g))
      × (codes "/a/b" ≢ codes "/a/"))
move_no_replace_iff_example =
    move_no_replace_iff ann (codes "/a/b") (codes "/a/") (codes "a") 20 store ann-NoColon

root_shorter : length directory.parent < length (codes "/a/")
unfolding fresh domus.Model.File.Parent.parent_of domus.Prelude.last_index domus.Prelude.trim_suffix
    domus.Prelude.take
root_shorter = omega arith

get-directory : get ann (codes "/a/") store ≡ ok directory
unfolding get domus.Dict.lookup run upsert domus.Dict.insert str_eq file_key
get-directory = refl

directory_live : str_eq directory.status status_deleted ≡ false
unfolding str_eq fresh status_ready status_deleted
directory_live = refl

moved_root_still_listed_example :
    Mem
      (reparented (codes "/a/") (codes "/c/") 20 directory)
      (list_direct_children ann directory.parent moved_store)
moved_root_still_listed_example =
    moved_root_still_listed ann (codes "/a/") (codes "/c/") 20 store directory ann-NoColon
      store-IsWf get-directory root_shorter directory_live move_by_prefix_ok
