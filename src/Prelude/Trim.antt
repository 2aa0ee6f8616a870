-- ===== src/Prelude/Trim.antt =====
-- strings.TrimSpace: the white space of unicode.IsSpace, in UTF-8, is cut off at both ends.
use Prim.Native.Nat.{ℕ, zero, suc}
use mathlib.Core.Bool.{Bool, false, ◌&&◌, ◌||◌}
use mathlib.Core.List.{[], ◌∷◌}
use domus.Prelude.Tests.{◌==◌, leb, if◌then◌else◌}
use domus.Prelude.Strings.{Text}

abbrev pub is_space1 : ℕ → Bool
is_space1 c = (leb 9 c && leb c 13) || (c == 32)

-- U+0085 and U+00A0
abbrev pub is_space2 : ℕ → ℕ → Bool
is_space2 a b = (a == 194) && ((b == 133) || (b == 160))

-- U+1680, U+2000 to U+200A, U+2028, U+2029, U+202F, U+205F and U+3000
abbrev pub is_space3 : ℕ → ℕ → ℕ → Bool
is_space3 a b c =
    ((a == 225) && ((b == 154) && (c == 128)))
    || (((a == 226)
          && (((b == 128)
                && ((leb 128 c && leb c 138) || ((c == 168) || ((c == 169) || (c == 175)))))
              || ((b == 129) && (c == 159))))
        || ((a == 227) && ((b == 128) && (c == 128))))

-- The number of bytes of the white space character that a text begins with, 0 if it has none.
unfoldable pub space_width : Text → ℕ
space_width [] = 0
space_width (a ∷ []) = if is_space1 a then 1 else 0
space_width (a ∷ b ∷ []) = if is_space1 a then 1 else if is_space2 a b then 2 else 0
space_width (a ∷ b ∷ c ∷ s) =
    if is_space1 a then 1 else if is_space2 a b then 2 else if is_space3 a b c then 3 else 0

-- `skip` bytes belong to a character that is cut off.
unfoldable pub trim_left_from : ℕ → Text → Text
unfolding space_width
trim_left_from skip [] = []
trim_left_from (suc skip) (c ∷ s) = trim_left_from skip s
trim_left_from zero (c ∷ s) = elim (space_width (c ∷ s)) [
  | zero ↦ c ∷ s
  | suc skip ↦ trim_left_from skip s
]

-- The text is one white space character.
unfoldable pub is_space : Text → Bool
is_space (a ∷ []) = is_space1 a
is_space (a ∷ b ∷ []) = is_space2 a b
is_space (a ∷ b ∷ c ∷ []) = is_space3 a b c
is_space _ = false

-- The character in front is cut off only when nothing is left behind it.
unfoldable pub trim_right : Text → Text
unfolding is_space
trim_right [] = []
trim_right (c ∷ s) = let rest = trim_right s in if is_space (c ∷ rest) then [] else c ∷ rest

unfoldable pub trim_space : Text → Text
unfolding trim_left_from trim_right
trim_space s = trim_right (trim_left_from zero s)
