-- ===== src/Handler/Names/Examples.antt =====
-- A free name among used ones (internal/handler/upload.go).
use domus.Prelude.{ℕ, ◌<◌, Text, codes, some, List, [], ◌∷◌, ◌≡◌, refl, arith}
use domus.Handler.Names.{split_file_name, next_available_name}
use domus.Handler.Names.Free.{IsFirstFree, next_available_name_total}

abbrev used : List Text
used = codes "a.txt" ∷ codes "a (1).txt" ∷ []

next_available_name_total_example :
    (free : Text) × (next_available_name 3 (codes "a.txt") used ≡ some free)
    × IsFirstFree
        (split_file_name (codes "a.txt")).0
        (split_file_name (codes "a.txt")).1
        used
        1
        free
next_available_name_total_example = next_available_name_total 3 (codes "a.txt") used (omega arith)

taken_twice : next_available_name 3 (codes "a.txt") used ≡ some (codes "a (2).txt")
unfolding next_available_name domus.Prelude.str_eq domus.Prelude.last_index domus.Prelude.take
    domus.Handler.Names.Decimal.decimal domus.Prelude.drop
taken_twice = refl
