-- ===== src/Handler/Upload/Examples.antt =====
-- Upload sizes, parts and names (internal/handler/upload.go) at concrete inputs.
use domus.Prelude.{
  ℕ, suc, ◌+◌, ◌*◌, ◌≤◌, ◌<◌, Text, codes, ◌++◌, Option, none, some, List, [], ◌∷◌, map, length,
  ◌≡◌, ◌↔◌, refl, true, false, arith, pos, ltb, if◌then◌else◌,
}
use domus.Handler.Clean.{normalize_app_path}
use domus.Handler.Upload.Sizes.{
  encrypted_file_size, wanted_part_size, upload_part_size_for, encrypted_multipart_part_count,
}
use domus.Handler.Upload.Parts.{PartInfo, completed, authoritative_complete_parts}
use domus.Handler.Upload.Requests.{valid_upload_name, presign_range}
use domus.Handler.Upload.PartSize.{direct_part_size_iff}
use domus.Handler.Upload.Overflow.{upload_part_size_for_bounds, overflow_direct}
use domus.Handler.Upload.Complete.{AreComplete, authoritative_complete_parts_iff}
use domus.Handler.Upload.Target.{upload_target}

direct_part_size_iff_example :
    (upload_part_size_for (pos 83230781953) ≡ some (pos 8388608)) ↔ (83230781953 ≤ 83230781952)
direct_part_size_iff_example = direct_part_size_iff 83230781953 (omega arith)

hundred_bytes : upload_part_size_for (pos 100) ≡ some (pos 8388608)
hundred_bytes = (direct_part_size_iff 100 (omega arith)).1 (omega arith)

upload_part_size_for_bounds_example :
    (s : ℕ) × (pos 8388608 ≡ pos s)
    × (8388608 ≤ s)
    × (s ≤ 5368709120)
    × (encrypted_multipart_part_count (pos 100) (pos 8388608) ≤ 10000)
upload_part_size_for_bounds_example =
    upload_part_size_for_bounds (pos 100) (pos 8388608) hundred_bytes

overflow_direct_example :
    wanted_part_size (encrypted_file_size (pos 9223372036854700000)) ≡ pos 8388608
overflow_direct_example = overflow_direct 9223372036854700000 (omega arith) (omega arith)

abbrev two_parts : List PartInfo
two_parts =
    record { part_number = pos 1; etag = codes "e1"; size = pos 6000000 }
    ∷ record { part_number = pos 2; etag = codes "e2"; size = pos 10 }
    ∷ []

authoritative_complete_parts_iff_example :
    (authoritative_complete_parts two_parts (pos 10000) (pos 6000010)
      ≡ some (map completed two_parts))
    ↔ ((0 < length two_parts)
        × (length two_parts ≤ 10000)
        × (0 < 6000010)
        × (map completed two_parts ≡ map completed two_parts)
        × AreComplete 0 6000010 two_parts)
authoritative_complete_parts_iff_example =
    authoritative_complete_parts_iff two_parts 10000 6000010 (map completed two_parts) (omega arith)

good_name : valid_upload_name (codes "a.txt") ≡ true
unfolding valid_upload_name domus.Prelude.is_empty domus.Prelude.str_eq
    domus.Handler.Upload.Requests.has_separator
good_name = refl

upload_target_example :
    normalize_app_path (codes "docs" ++ (b'/' ∷ codes "a.txt"))
    ≡ normalize_app_path (codes "docs" ++ codes "/") ++ codes "a.txt"
upload_target_example = upload_target (codes "docs") (codes "a.txt") good_name

last_batch : presign_range (pos 250) (pos 100) (pos 100) (pos 300) ≡ some (pos 250, pos 51)
unfolding presign_range domus.Prelude.int_lt domus.Prelude.int64_add domus.Prelude.int64_sub
    domus.Prelude.is_nonpositive domus.Handler.Upload.Requests.within_parts
    domus.Handler.Upload.Requests.first_part_of domus.Handler.Upload.Requests.count_of
    domus.Handler.Upload.Requests.max_batch_of
last_batch = refl
