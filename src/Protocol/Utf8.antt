-- ===== src/Protocol/Utf8.antt =====
-- UTF-8 as Python decodes it, for the strings of kafka/protocol/types.py.
use kafka_python.Common.{
  ℕ, zero, suc, Bool, true, false, ◌&&◌, List, [], ◌∷◌, length, drop, Option, none, some, ltb, leb,
  nat_beq, if◌then◌else◌,
}

-- One or more continuation bytes of UTF-8, the first from `low` to `high`.
abbrev within : ℕ → ℕ → ℕ → Bool
within low high b = leb low b && leb b high

unfoldable pub continues : ℕ → ℕ → ℕ → List ℕ → Bool
continues zero low high bs = true
continues (suc n) low high [] = false
continues (suc n) low high (b ∷ bs) = within low high b && continues n 128 191 bs

-- How many continuation bytes follow a leading byte, and where the first may lie.
unfoldable pub leading : ℕ → Option (ℕ × ℕ × ℕ)
leading b =
    if ltb b 128
    then some (0, 128, 191)
    else if within 194 223 b
    then some (1, 128, 191)
    else if nat_beq b 224
    then some (2, 160, 191)
    else if nat_beq b 237
    then some (2, 128, 159)
    else if within 225 239 b
    then some (2, 128, 191)
    else if nat_beq b 240
    then some (3, 144, 191)
    else if within 241 243 b
    then some (3, 128, 191)
    else if nat_beq b 244
    then some (3, 128, 143)
    else none

abbrev followed : (List ℕ → Bool) → Option (ℕ × ℕ × ℕ) → List ℕ → Bool
followed more none bs = false
followed more (some (n, low, high)) bs = continues n low high bs && more (drop n bs)

-- The bytes that `decode('utf-8')` accepts; each round takes a byte or more.
unfoldable pub utf8_loop : ℕ → List ℕ → Bool
utf8_loop zero bs = true
utf8_loop (suc fuel) [] = true
utf8_loop (suc fuel) (b ∷ bs) = followed (utf8_loop fuel) (leading b) bs

unfoldable pub is_utf8 : List ℕ → Bool
is_utf8 bs = utf8_loop (length bs) bs
