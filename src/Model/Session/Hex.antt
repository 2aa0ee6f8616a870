-- ===== src/Model/Session/Hex.antt =====
-- Session ids are the hexadecimal text of 32 random bytes: distinct bytes give distinct ids.
use Prim.Native.Nat.{◌/◌, ◌%◌}
use domus.Prelude.{ℕ, ◌<◌, ◌≡◌, refl, [], ◌∷◌, List, All, arith}
use domus.Model.Session.{hex_digit, hex_encode}

hex_digit-injective : (a b : ℕ) → a < 16 → b < 16 → hex_digit a ≡ hex_digit b → a ≡ b
unfolding hex_digit
hex_digit-injective a b h k e = ground arith

byte_parts : (a b : ℕ) → a / 16 ≡ b / 16 → a % 16 ≡ b % 16 → a ≡ b
byte_parts a b h k = omega arith

-- Two encodings of byte strings are equal only if the byte strings are, and an encoding has two
-- characters for a byte.
hex_encode-injective :
    (a b : List ℕ)
    → All (λ x. x < 256) a
    → All (λ x. x < 256) b
    → hex_encode a ≡ hex_encode b
    → a ≡ b
unfolding hex_encode
hex_encode-injective [] [] h k e = refl
hex_encode-injective [] (y ∷ ys) h k e = cc
hex_encode-injective (x ∷ xs) [] h k e = cc
hex_encode-injective (x ∷ xs) (y ∷ ys) h k e =
    let hi : hex_digit (x / 16) ≡ hex_digit (y / 16) = cc in
    let lo : hex_digit (x % 16) ≡ hex_digit (y % 16) = cc in
    let same : x ≡ y =
      byte_parts x y (hex_digit-injective (x / 16) (y / 16) (omega arith) (omega arith) hi)
        (hex_digit-injective (x % 16) (y % 16) (omega arith) (omega arith) lo) in
    cc (same, hex_encode-injective xs ys h.1 k.1 (cc))
