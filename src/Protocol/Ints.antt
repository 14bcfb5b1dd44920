-- ===== src/Protocol/Ints.antt =====
-- kafka/protocol/types.py: the integers of a fixed width, big-endian in two's complement.
pub mod RoundTrip
use kafka_python.Common.{
  ℕ, zero, suc, ◌+◌, ◌*◌, ◌-◌, ◌/◌, ◌%◌, ◌^◌, List, [], ◌∷◌, ◌++◌, length, ltb, nat_beq,
  if◌then◌else◌,
}
use kafka_python.Common.Int.{ℤ, pos, negsuc}
use kafka_python.Errors.{value_error}
use kafka_python.Exec.{Result, ok, err}

-- The `width` low bytes of a number, the highest first.
unfoldable pub big_endian : ℕ → ℕ → List ℕ
big_endian zero u = []
big_endian (suc width) u = big_endian width (u / 256) ++ u % 256 ∷ []

-- The number that bytes stand for, after those that gave `high`.
unfoldable pub number : ℕ → List ℕ → ℕ
number high [] = high
number high (b ∷ bytes) = number (high * 256 + b) bytes

-- `struct.Struct(...).pack` for the integers of `suc width` bytes: out of range it raises
-- struct.error, which `_pack` turns into ValueError.
unfoldable pub pack : ℕ → ℤ → Result (List ℕ)
pack width (pos n) =
    if ltb n (128 * 256 ^ width) then ok (big_endian (suc width) n) else err value_error
pack width (negsuc n) =
    if ltb n (128 * 256 ^ width)
    then ok (big_endian (suc width) (256 * 256 ^ width - 1 - n))
    else err value_error

unfoldable pub signed : ℕ → ℕ → ℤ
signed width u = if ltb u (128 * 256 ^ width) then pos u else negsuc (256 * 256 ^ width - 1 - u)

-- `struct.Struct(...).unpack`: the wrong number of bytes raises, and `_unpack` turns it into
-- ValueError.
unfoldable pub unpack : ℕ → List ℕ → Result ℤ
unpack width bytes =
    if nat_beq (length bytes) (suc width)
    then ok (signed width (number 0 bytes))
    else err value_error
