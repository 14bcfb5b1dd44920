-- ===== src/WireTypes.antt =====
-- kafka/protocol/types.py: the variable-length integers of 32 bits.
pub mod RoundTrip
mod Tests
use kafka_python.Common.{
  ℕ, zero, suc, ◌+◌, ◌*◌, ◌-◌, ◌/◌, ◌%◌, ◌^◌, List, [], ◌∷◌, ltb, if◌then◌else◌,
}
use kafka_python.Common.Int.{ℤ, pos, negsuc}
use kafka_python.Varint.{unzigzag}

-- The loop of UnsignedVarInt32.encode: below 2 ^ 32, `value & 0xffffff80` is 0 exactly below 128.
unfoldable pub encode_loop : ℕ → ℕ → List ℕ
encode_loop zero value = value ∷ []
encode_loop (suc fuel) value =
    let rest = encode_loop fuel (value / 128) in
    if ltb value 128 then value ∷ [] else (value % 128 + 128) ∷ rest

-- UnsignedVarInt32.encode. Below 2 ^ 32 four rounds are enough.
unfoldable pub encode_unsigned32 : ℕ → List ℕ
encode_unsigned32 value = encode_loop 4 (value % 2 ^ 32)

-- The value and the bytes left, or what the call raises.
pub data Read (A : Type 0) : Type 0 where
  got : A → List ℕ → Read A
  struct_error invalid_value : Read A

-- The loop of UnsignedVarInt32.decode. `i` is at most 28, so five rounds are enough; each `|` adds,
-- since the value is below `2 ^ i`.
unfoldable pub decode_loop32 : ℕ → List ℕ → ℕ → ℕ → Read ℕ
decode_loop32 zero bytes value i = invalid_value
decode_loop32 (suc fuel) [] value i = struct_error
decode_loop32 (suc fuel) (b ∷ bytes) value i =
    let rest = decode_loop32 fuel bytes (value + b % 128 * 2 ^ i) (i + 7) in
    if ltb b 128
    then got (value + b * 2 ^ i) bytes
    else if ltb 28 (i + 7)
    then invalid_value
    else rest

unfoldable pub decode_unsigned32 : List ℕ → Read ℕ
decode_unsigned32 bytes = decode_loop32 5 bytes 0 0

-- `value & 0xffffffff`
unfoldable pub low_word : ℤ → ℕ
low_word (pos n) = n % 2 ^ 32
low_word (negsuc n) = 2 ^ 32 - 1 - n % 2 ^ 32

-- VarInt32.encode. The shift right gives 0 or 1, which `^` adds to an even number.
unfoldable pub encode_signed32 : ℤ → List ℕ
encode_signed32 value = let v = low_word value in encode_unsigned32 (v * 2 + v / 2 ^ 31)

abbrev pub signed : Read ℕ → Read ℤ
signed (got value rest) = got (unzigzag value) rest
signed struct_error = struct_error
signed invalid_value = invalid_value

unfoldable pub decode_signed32 : List ℕ → Read ℤ
decode_signed32 bytes = signed (decode_unsigned32 bytes)
