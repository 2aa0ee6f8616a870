-- ===== src/Prelude/Blank.antt =====
-- `strings.TrimSpace(s) == ""`: every character is white space (unicode.IsSpace), read byte by byte.
use Prim.Native.Nat.{ℕ}
use mathlib.Core.Option.{Option, none, some}
use mathlib.Core.Bool.{Bool, true, false, ◌&&◌, ◌||◌}
use mathlib.Core.List.{[], ◌∷◌}
use domus.Prelude.Tests.{◌==◌, leb, if◌then◌else◌}
use domus.Prelude.Strings.{Text}

-- The bytes of a character that were read: none, or the first ones of a white space character.
pub data Prefix : Type 0 where
  at_start after_c2 after_e1 after_e1_9a after_e2 after_e2_80 after_e2_81 after_e3 after_e3_80 :
      Prefix

-- A character's first byte.
unfoldable first_byte : ℕ → Option Prefix
first_byte c =
    if (leb 9 c && leb c 13) || (c == 32)
    then some at_start
    else if c == 194
    then some after_c2
    else if c == 225
    then some after_e1
    else if c == 226
    then some after_e2
    else if c == 227
    then some after_e3
    else none

unfoldable next_byte : Prefix → ℕ → Option Prefix
unfolding first_byte
next_byte at_start c = first_byte c
next_byte after_c2 c = if (c == 133) || (c == 160) then some at_start else none
next_byte after_e1 c = if c == 154 then some after_e1_9a else none
next_byte after_e1_9a c = if c == 128 then some at_start else none
next_byte after_e2 c =
    if c == 128 then some after_e2_80 else if c == 129 then some after_e2_81 else none
next_byte after_e2_80 c =
    if (leb 128 c && leb c 138) || ((c == 168) || ((c == 169) || (c == 175)))
    then some at_start
    else none
next_byte after_e2_81 c = if c == 159 then some at_start else none
next_byte after_e3 c = if c == 128 then some after_e3_80 else none
next_byte after_e3_80 c = if c == 128 then some at_start else none

unfoldable is_blank_from : Prefix → Text → Bool
unfolding next_byte
is_blank_from at_start [] = true
is_blank_from _ [] = false
is_blank_from p (c ∷ s) = elim (next_byte p c) [ none ↦ false | some q ↦ is_blank_from q s ]

unfoldable pub is_blank : Text → Bool
unfolding is_blank_from
is_blank s = is_blank_from at_start s
