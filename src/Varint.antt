-- ===== src/Varint.antt =====
-- kafka/record/util.py: integers as varints, as the records of a batch hold them.
mod Groups
pub mod RoundTrip
mod Tests
use Prim.Native.Nat.{bit_xor}
use kafka_python.Common.{
  ℕ, zero, suc, ◌+◌, ◌*◌, ◌/◌, ◌%◌, ◌^◌, ◌&&◌, Bool, List, [], ◌∷◌, leb, ltb, nat_beq, drop,
  if◌then◌else◌,
}
use kafka_python.Common.Int.{ℤ, pos, negsuc}

-- `(value << 1) ^ (value >> 63)`. The two have the same sign: the shifts of `negsuc n`, that is of
-- the complement of `n`, are the complements of `2 * n + 1` and of `n / 2 ^ 63`.
unfoldable pub zigzag : ℤ → ℕ
zigzag (pos n) = bit_xor (n / 2 ^ 63) (2 * n)
zigzag (negsuc n) = bit_xor (n / 2 ^ 63) (2 * n + 1)

-- The loop `while value`, with what the function writes and returns after it. A byte `0x80 | bits`
-- is `128 + bits`, since `bits` is below 128.
unfoldable pub general : ℕ → ℕ → ℕ → ℕ → List ℕ × ℕ
general zero value bits i = (bits ∷ [], i)
general (suc fuel) value bits i =
    let (rest, n) = general fuel (value / 128) (value % 128) (i + 1) in
    if nat_beq value 0 then (bits ∷ [], i) else ((128 + bits) ∷ rest, n)

-- The bytes written and the number returned, for the zigzag number. Each round divides the value,
-- so it is fuel enough for the loop.
unfoldable pub encode_unsigned : ℕ → List ℕ × ℕ
encode_unsigned value =
    if leb value 0x7f
    then (value ∷ [], 1)
    else if leb value 0x3fff
    then ((128 + value % 128) ∷ value / 128 ∷ [], 2)
    else if leb value 0x1fffff
    then ((128 + value % 128) ∷ (128 + value / 128 % 128) ∷ value / 2 ^ 14 ∷ [], 3)
    else if leb value 0xfffffff
    then (
      (128 + value % 128)
          ∷ (128 + value / 128 % 128)
          ∷ (128 + value / 2 ^ 14 % 128)
          ∷ value / 2 ^ 21
          ∷ [],
      4,
    )
    else if leb value 0x7ffffffff
    then (
      (128 + value % 128)
          ∷ (128 + value / 128 % 128)
          ∷ (128 + value / 2 ^ 14 % 128)
          ∷ (128 + value / 2 ^ 21 % 128)
          ∷ value / 2 ^ 28
          ∷ [],
      5,
    )
    else general value (value / 128) (value % 128) 0

unfoldable pub encode_varint : ℤ → List ℕ × ℕ
encode_varint value = encode_unsigned (zigzag value)

-- The size for the zigzag number.
unfoldable pub size_of_unsigned : ℕ → ℕ
size_of_unsigned z =
    if leb z 0x7f
    then 1
    else if leb z 0x3fff
    then 2
    else if leb z 0x1fffff
    then 3
    else if leb z 0xfffffff
    then 4
    else if leb z 0x7ffffffff
    then 5
    else if leb z 0x3ffffffffff
    then 6
    else if leb z 0x1ffffffffffff
    then 7
    else if leb z 0xffffffffffffff
    then 8
    else if leb z 0x7fffffffffffffff
    then 9
    else 10

unfoldable pub size_of_varint : ℤ → ℕ
size_of_varint value = size_of_unsigned (zigzag value)

-- The value and the next read position, or what the call raises.
pub data Decoded : Type 0 where
  decoded : ℤ → ℕ → Decoded
  index_error value_error : Decoded

-- `(result >> 1) ^ -(result & 1)`
unfoldable pub unzigzag : ℕ → ℤ
unzigzag result = if nat_beq (result % 2) 0 then pos (result / 2) else negsuc (result / 2)

-- The loop `while 1`, on the bytes from `next` on. The `|` adds, since `result` is below
-- `2 ^ shift`. The shift starts at 7 and stays below 64, so nine rounds are fuel enough.
unfoldable pub decode_loop : ℕ → List ℕ → ℕ → ℕ → ℕ → Decoded
decode_loop zero bytes next result shift = value_error
decode_loop (suc fuel) [] next result shift = index_error
decode_loop (suc fuel) (b ∷ bytes) next result shift =
    let more = result + b % 128 * 2 ^ shift in
    let rest = decode_loop fuel bytes (next + 1) more (shift + 7) in
    if ltb b 128
    then decoded (unzigzag more) (next + 1)
    else if leb 64 (shift + 7)
    then value_error
    else rest

-- `decode_varint` on the bytes from `next` on.
unfoldable pub decode_bytes : List ℕ → ℕ → Decoded
decode_bytes [] next = index_error
decode_bytes (b ∷ bytes) next =
    if ltb b 128 && nat_beq (b % 2) 0
    then decoded (pos (b / 2)) (next + 1)
    else if ltb b 128
    then decoded (negsuc (b / 2)) (next + 1)
    else decode_loop 9 bytes (next + 1) (b % 128) 7

unfoldable pub decode_varint : List ℕ → ℕ → Decoded
decode_varint buffer next = decode_bytes (drop next buffer) next
