-- ===== src/Handler/Names.antt =====
-- The names that a conflicting upload or restore takes: `nextAvailableName` and `splitFileName` of
-- internal/handler/upload.go. The loop runs on fuel; `Free` shows that one more than the number of
-- used names is enough.
pub mod Decimal
mod Free
mod Examples
use domus.Prelude.{
  ℕ, suc, zero, ◌+◌, Text, codes, str_eq, is_empty, last_index, Bool, true, false, ◌||◌, Option,
  none, some, List, [], ◌∷◌, ◌++◌, take, drop, length, if◌then◌else◌,
}
use domus.Handler.Names.Decimal.{decimal}

-- `_, exists := used[name]`
unfoldable pub is_used : List Text → Text → Bool
is_used [] name = false
is_used (u ∷ used) name = let rest = is_used used name in str_eq u name || rest

-- The name without its extension, and the extension with its dot.
unfoldable pub split_file_name : Text → Text × Text
split_file_name name = elim (last_index name b'.') [
  | none ↦ (name, [])
  | some zero ↦ (name, [])
  | some (suc dot) ↦ (take (suc dot) name, drop (suc dot) name)
]

-- `fmt.Sprintf("%s (%d)%s", base, index, ext)`
unfoldable pub candidate : Text → Text → ℕ → Text
candidate base ext index = base ++ (codes " (" ++ (decimal index ++ (codes ")" ++ ext)))

-- The loop from `index` on; `none` when the fuel ends.
unfoldable pub first_free : ℕ → Text → Text → List Text → ℕ → Option Text
unfolding is_used candidate
first_free zero base ext used index = none
first_free (suc fuel) base ext used index =
    let rest = first_free fuel base ext used (suc index) in
    if is_used used (candidate base ext index) then rest else some (candidate base ext index)

unfoldable pub next_available_name : ℕ → Text → List Text → Option Text
unfolding split_file_name first_free
next_available_name fuel name used =
    let (base, ext) = split_file_name name in first_free fuel base ext used 1
