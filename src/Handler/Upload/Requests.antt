-- ===== src/Handler/Upload/Requests.antt =====
-- What upload requests may say: internal/handler/upload.go.
use domus.Prelude.{
  ℕ, zero, suc, ltb, leb, Text, codes, str_eq, is_empty, ◌==◌, length, Bool, true, false, not, ◌&&◌,
  ◌||◌, Option, none, some, List, [], ◌∷◌, if◌then◌else◌, ℤ, pos, int_lt, is_nonpositive, int64_add,
  int64_sub,
}
use domus.Handler.TrashPath.{has_nul}

unfoldable valid_upload_path : Text → Bool
valid_upload_path value = not (ltb 4096 (length value)) && not (has_nul value)

-- strings.ContainsAny(value, "/\\\x00")
unfoldable pub has_separator : Text → Bool
has_separator [] = false
has_separator (c ∷ s) =
    let rest = has_separator s in ((c == b'/') || ((c == 92) || (c == 0))) || rest

unfoldable pub valid_upload_name : Text → Bool
valid_upload_name value =
    not (is_empty value)
    && (not (str_eq value (codes "."))
        && (not (str_eq value (codes ".."))
            && (not (ltb 255 (length value)) && not (has_separator value))))

unfoldable is_hex_digit : ℕ → Bool
is_hex_digit c =
    (leb b'0' c && leb c b'9') || ((leb b'a' c && leb c b'f') || (leb b'A' c && leb c b'F'))

-- hex.DecodeString: the number of bytes, `none` for an error.
unfoldable hex_length : Text → Option ℕ
unfolding is_hex_digit
hex_length [] = some 0
hex_length (a ∷ []) = none
hex_length (a ∷ b ∷ s) =
    let rest = hex_length s in
    if is_hex_digit a && is_hex_digit b
    then elim rest [ none ↦ none | some n ↦ some (suc n) ]
    else none

unfoldable valid_hex_digest : Text → Bool
unfolding hex_length
valid_hex_digest value =
    if is_empty value then true else elim (hex_length value) [ none ↦ false | some n ↦ n == 32 ]

unfoldable has_field : Text → List Text → Bool
has_field name [] = false
has_field name (f ∷ fields) = let rest = has_field name fields in str_eq f name || rest

abbrev pub upload_init_fields : List Text
upload_init_fields =
    codes "path"
    ∷ codes "file_name"
    ∷ codes "file_size"
    ∷ codes "content_type"
    ∷ codes "conflict_strategy"
    ∷ codes "client_instance_id"
    ∷ codes "internal"
    ∷ codes "dek"
    ∷ codes "expected_generation"
    ∷ []

abbrev pub upload_conflict_fields : List Text
upload_conflict_fields = codes "path" ∷ codes "names" ∷ []

abbrev pub upload_complete_fields : List Text
upload_complete_fields =
    codes "upload_id"
    ∷ codes "content_hash"
    ∷ codes "encrypted_size"
    ∷ codes "media_width"
    ∷ codes "media_height"
    ∷ codes "media_duration"
    ∷ codes "thumbnail_upload_id"
    ∷ []

-- Whether no field is refused.
unfoldable are_allowed : List Text → List Text → Bool
are_allowed allowed [] = true
are_allowed allowed (f ∷ fields) =
    let rest = are_allowed allowed fields in has_field f allowed && rest

pub data Dispatch : Type 0 where
  invalid_control_message invalid_request to_complete to_conflict_check to_init : Dispatch

-- What follows `decodeUploadControlFields`: `fields` are the keys of the request's object, and
-- `parses` says whether `BodyParser` succeeds.
unfoldable fields_decoded : Bool → List Text → Dispatch
fields_decoded parses fields =
    let complete = has_field (codes "upload_id") fields in
    let conflict = has_field (codes "names") fields in
    let allowed =
      if complete
      then upload_complete_fields
      else if conflict
      then upload_conflict_fields
      else upload_init_fields in
    if not (are_allowed allowed fields)
    then invalid_control_message
    else if not parses
    then invalid_request
    else if complete
    then to_complete
    else if conflict
    then to_conflict_check
    else to_init

-- `none` stands for a body that is no object.
unfoldable handle_upload_dispatch : Bool → Option (List Text) → Dispatch
handle_upload_dispatch parses none = invalid_control_message
handle_upload_dispatch parses (some fields) = fields_decoded parses fields

-- `start` and `count` are the numbers of the request's query.
unfoldable pub first_part_of : ℤ → ℤ
first_part_of start = if int_lt start (pos 1) then pos 1 else start

unfoldable pub max_batch_of : ℤ → ℤ
max_batch_of max_presign_batch =
    if is_nonpositive max_presign_batch then pos 100 else max_presign_batch

unfoldable pub count_of : ℤ → ℤ → ℤ
count_of count max_batch =
    if int_lt count (pos 1) || int_lt max_batch count then max_batch else count

-- The first part number and how many, within the parts that there are; `none` when the first is
-- above the last part.
unfoldable pub within_parts : ℤ → ℤ → ℤ → Option (ℤ × ℤ)
within_parts total_parts start count =
    if int_lt total_parts start
    then none
    else let remaining = int64_add (int64_sub total_parts start) (pos 1) in
      some (start, if int_lt remaining count then remaining else count)

-- The range of part numbers of `handleUploadPresign`.
unfoldable pub presign_range : ℤ → ℤ → ℤ → ℤ → Option (ℤ × ℤ)
presign_range start count max_presign_batch total_parts =
    within_parts total_parts (first_part_of start) (count_of count (max_batch_of max_presign_batch))

-- `for i := 0; i < count; i++ { pn := start + i }`
unfoldable part_numbers : ℕ → ℤ → List ℤ
part_numbers zero start = []
part_numbers (suc count) start = start ∷ part_numbers count (int64_add start (pos 1))
