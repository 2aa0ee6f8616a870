-- ===== src/Handler/Upload/Sizes.antt =====
-- The sizes of an upload: internal/handler/upload.go, with the sizes of internal/auth/crypto.go. All
-- numbers are int64 and wrap.
use domus.Prelude.{
  ℕ, suc, zero, ltb, Option, none, some, if◌then◌else◌, ℤ, pos, int_lt, int_eq, is_nonpositive,
  to_index, int64_add, int64_sub, int64_mul, int64_div, int64_rem,
}

-- auth.NonceSize + auth.DefaultChunkSize + auth.TagSize
abbrev pub encrypted_chunk : ℕ
encrypted_chunk = 65564

abbrev pub default_chunk_size : ℕ
default_chunk_size = 65536

abbrev pub direct_upload_part_size : ℕ
direct_upload_part_size = 8388608

abbrev pub max_multipart_parts : ℕ
max_multipart_parts = 10000

abbrev pub s3_minimum_part_size : ℕ
s3_minimum_part_size = 5242880

abbrev pub s3_maximum_part_size : ℕ
s3_maximum_part_size = 5368709120

unfoldable pub encrypted_file_size : ℤ → ℤ
unfolding is_nonpositive int64_add int64_sub int64_mul int64_div
encrypted_file_size plain_size =
    if is_nonpositive plain_size
    then pos 5
    else let num_chunks =
        int64_div (int64_sub (int64_add plain_size (pos default_chunk_size)) (pos 1))
          default_chunk_size in
      int64_add (int64_add (pos 5) plain_size) (int64_mul num_chunks 28)

-- The parts so far, and the bytes used in the last one.
pub record Packing : Type 0 where
  pub parts : ℕ
  pub used : ℤ

unfoldable pub place_chunk : ℤ → ℤ → Packing → Packing
unfolding int_lt int64_add
place_chunk part_size chunk_size p =
    if int_lt part_size (int64_add p.used chunk_size)
    then record { parts = suc p.parts; used = int64_add (pos 0) chunk_size }
    else record { parts = p.parts; used = int64_add p.used chunk_size }

-- The loop over the full chunks.
unfoldable pub place_chunks : ℕ → ℤ → Packing → Packing
unfolding place_chunk
place_chunks zero part_size p = p
place_chunks (suc n) part_size p =
    place_chunks n part_size (place_chunk part_size (pos encrypted_chunk) p)

unfoldable pub first_part : Packing
first_part = record { parts = 1; used = pos 5 }

-- The last chunk, when the file does not end with a full one.
unfoldable pub place_rest : ℤ → ℤ → Packing → Packing
unfolding int_lt int64_add place_chunk
place_rest part_size rem p =
    if int_lt (pos 0) rem
    then place_chunk part_size (int64_add (int64_add (pos 12) rem) (pos 16)) p
    else p

unfoldable pub encrypted_multipart_part_count : ℤ → ℤ → ℕ
unfolding is_nonpositive int64_div int64_rem to_index place_chunks place_rest first_part
encrypted_multipart_part_count plain_size part_size =
    if is_nonpositive part_size
    then 1
    else let full_chunks = int64_div plain_size default_chunk_size in
      let placed = place_chunks (to_index full_chunks) part_size first_part in
      (place_rest part_size (int64_rem plain_size default_chunk_size) placed).parts

-- The size of a whole number of encrypted chunks.
unfoldable pub round_up : ℤ → ℤ
unfolding int_eq int64_add int64_sub int64_rem
round_up part_size =
    let remainder = int64_rem part_size encrypted_chunk in
    if int_eq remainder (pos 0)
    then part_size
    else int64_add part_size (int64_sub (pos encrypted_chunk) remainder)

-- The part size before the last test.
unfoldable pub wanted_part_size : ℤ → ℤ
unfolding int_lt int64_add int64_sub int64_div round_up
wanted_part_size encrypted =
    let needed =
      int64_div (int64_sub (int64_add encrypted (pos max_multipart_parts)) (pos 1))
        max_multipart_parts in
    if int_lt (pos direct_upload_part_size) needed
    then round_up needed
    else pos direct_upload_part_size

-- `none` stands for the two errors. `||` does not count the parts when the size is too large.
unfoldable pub upload_part_size_for : ℤ → Option ℤ
unfolding int_lt encrypted_file_size wanted_part_size encrypted_multipart_part_count
upload_part_size_for plain_size =
    if int_lt plain_size (pos 0)
    then none
    else let part_size = wanted_part_size (encrypted_file_size plain_size) in
      if int_lt (pos s3_maximum_part_size) part_size
      then none
      else if ltb max_multipart_parts (encrypted_multipart_part_count plain_size part_size)
      then none
      else some part_size
