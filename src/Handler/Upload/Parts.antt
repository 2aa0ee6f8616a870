-- ===== src/Handler/Upload/Parts.antt =====
-- `authoritativeCompleteParts` of internal/handler/upload.go, with `PartInfo` and `CompletePart` of
-- internal/store/oss.go.
use domus.Prelude.{
  ℕ, suc, ◌+◌, ◌==◌, ltb, Text, Bool, not, ◌&&◌, ◌||◌, Option, none, some, List, [], ◌∷◌, length,
  if◌then◌else◌, ℤ, pos, int_lt, int_eq, is_blank, is_nonpositive, int64_add, int64_sub,
}
use domus.Handler.Upload.Sizes.{s3_minimum_part_size, s3_maximum_part_size}

pub record PartInfo : Type 0 where
  pub part_number : ℤ
  pub etag : Text
  pub size : ℤ

pub record CompletePart : Type 0 where
  pub part_number : ℤ
  pub etag : Text

-- The tests of one part, at its index; `last` is `i == len(parts)-1`.
unfoldable pub is_bad_part : ℕ → Bool → ℤ → ℤ → PartInfo → Bool
unfolding int_eq int_lt is_nonpositive int64_sub
is_bad_part i last total_size expected_size part =
    (not (int_eq part.part_number (pos (i + 1)))
      || (is_blank part.etag
          || (is_nonpositive part.size || int_lt (pos s3_maximum_part_size) part.size)))
    || ((not last && int_lt part.size (pos s3_minimum_part_size))
        || int_lt (int64_sub expected_size part.size) total_size)

abbrev pub completed : PartInfo → CompletePart
completed part = record { part_number = part.part_number; etag = part.etag }

-- The loop, and the test after it.
unfoldable pub complete_from : ℕ → ℕ → ℤ → ℤ → List PartInfo → Option (List CompletePart)
unfolding is_bad_part int_eq int64_add
complete_from count i total_size expected_size [] =
    if int_eq total_size expected_size then some [] else none
complete_from count i total_size expected_size (part ∷ parts) =
    let rest = complete_from count (suc i) (int64_add total_size part.size) expected_size parts in
    if is_bad_part i (not (ltb (suc i) count)) total_size expected_size part
    then none
    else elim rest [ none ↦ none | some done ↦ some (completed part ∷ done) ]

-- `none` stands for `nil, false`.
unfoldable pub authoritative_complete_parts : List PartInfo → ℤ → ℤ → Option (List CompletePart)
unfolding int_lt is_nonpositive complete_from
authoritative_complete_parts parts maximum_count expected_size =
    if (length parts == 0)
      || (int_lt maximum_count (pos (length parts)) || is_nonpositive expected_size)
    then none
    else complete_from (length parts) 0 (pos 0) expected_size parts
