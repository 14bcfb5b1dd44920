-- ===== src/Protocol/Decoding.antt =====
-- kafka/protocol/types.py: how the values of the fields are read.
pub mod Reads
pub mod RoundTrip
use kafka_python.Common.{
  ℕ, zero, suc, ◌+◌, Bool, true, false, not, ◌&&◌, List, [], ◌∷◌, length, take, drop, Option, none,
  some, ltb, nat_beq, if◌then◌else◌,
}
use kafka_python.Common.Int.{ℤ, pos, negsuc}
use kafka_python.Errors.{value_error, struct_error}
use kafka_python.Exec.{Exec, Result, ok, err, ◌>>=◌, pure, raise}
use kafka_python.Protocol.Ints.{unpack}
use kafka_python.Protocol.Types.{
  Ty, int8, int16, int32, int64, boolean, string, bytes, compact_string, compact_bytes,
  tagged_fields, array, compact_array, schema, Fields, end, field, Val, Item,
}
use kafka_python.Protocol.Utf8.{is_utf8}
use kafka_python.WireTypes.{Read, got, invalid_value, decode_unsigned32}

-- The buffer that is read is the list of the bytes left in it.
-- `data.read(n)`
unfoldable pub read_n : ℕ → Exec (List ℕ) (List ℕ)
read_n n s = (ok (take n s), drop n s)

unfoldable pub decode_int : ℕ → Exec (List ℕ) ℤ
decode_int width s = (unpack width (take (suc width) s), drop (suc width) s)

abbrev bool_of : List ℕ → Result Bool
bool_of (b ∷ []) = ok (not_zero b)
  where
    not_zero : ℕ → Bool
    not_zero zero = false
    not_zero (suc n) = true
bool_of _ = err value_error

unfoldable pub decode_boolean : Exec (List ℕ) Bool
decode_boolean s = (bool_of (take 1 s), drop 1 s)

abbrev of_read : Read ℕ → List ℕ → Result ℕ × List ℕ
of_read (got n rest) s = (ok n, rest)
of_read invalid_value s = (err value_error, drop 5 s)
of_read _ s = (err struct_error, [])

-- UnsignedVarInt32.decode
unfoldable pub decode_varint32 : Exec (List ℕ) ℕ
decode_varint32 s = of_read (decode_unsigned32 s) s

-- String.decode and Bytes.decode behind the length. What is a `str` must be UTF-8.
abbrev text : Bool → List ℕ → Result (Option (List ℕ))
text is_str value = if is_str && not (is_utf8 value) then err value_error else ok (some value)

unfoldable pub read_value : Bool → ℕ → Exec (List ℕ) (Option (List ℕ))
read_value is_str n s =
    (if nat_beq (length (take n s)) n then text is_str (take n s) else err value_error, drop n s)

abbrev sized : Bool → ℤ → Exec (List ℕ) (Option (List ℕ))
sized is_str (negsuc n) s = (ok none, s)
sized is_str (pos n) s = read_value is_str n s

unfoldable pub decode_sized : Bool → ℕ → Exec (List ℕ) (Option (List ℕ))
decode_sized is_str width = decode_int width >>= sized is_str

-- CompactString.decode and CompactBytes.decode: the length is one less than the number read.
abbrev compact : Bool → ℕ → Exec (List ℕ) (Option (List ℕ))
compact is_str zero s = (ok none, s)
compact is_str (suc n) s = read_value is_str n s

unfoldable pub decode_compact : Bool → Exec (List ℕ) (Option (List ℕ))
decode_compact is_str = decode_varint32 >>= compact is_str

-- The loop of TaggedFields.decode; `low` is `prev_tag + 1`. The tags ascend, so that each is new in
-- the dict. A value that ends early is not noticed.
unfoldable pub decode_tags : ℕ → ℕ → Exec (List ℕ) (List (ℕ × List ℕ))
decode_tags zero low s = (ok [], s)
decode_tags (suc n) low s =
    (decode_varint32 >>= λ tag.
    if ltb tag low
    then raise value_error
    else (decode_varint32 >>= λ size.
        read_n size >>= λ value. decode_tags n (tag + 1) >>= λ rest. pure ((tag, value) ∷ rest)))
      s

unfoldable pub decode_tagged : Exec (List ℕ) (List (ℕ × List ℕ))
decode_tagged = decode_varint32 >>= λ num_fields. decode_tags num_fields 0

-- `[decode(data) for _ in range(n)]`
unfoldable pub decode_all : {A : Type 0} → Exec (List ℕ) A → ℕ → Exec (List ℕ) (List A)
decode_all f zero s = (ok [], s)
decode_all f (suc n) s = (f >>= λ x. decode_all f n >>= λ xs. pure (x ∷ xs)) s

-- Array.decode: a length of -1 is None, and below that `range` is empty.
abbrev pub items : {A : Type 0} → Exec (List ℕ) A → ℤ → Exec (List ℕ) (Option (List A))
items f (negsuc zero) s = (ok none, s)
items f (negsuc (suc n)) s = (ok (some []), s)
items f (pos n) s = (decode_all f n >>= λ xs. pure (some xs)) s

abbrev pub compact_items : {A : Type 0} → Exec (List ℕ) A → ℕ → Exec (List ℕ) (Option (List A))
compact_items f zero s = (ok none, s)
compact_items f (suc n) s = (decode_all f n >>= λ xs. pure (some xs)) s

unfoldable mutual
  pub decode : (t : Ty) → Exec (List ℕ) (Val t)
  decode int8 = decode_int 0
  decode int16 = decode_int 1
  decode int32 = decode_int 3
  decode int64 = decode_int 7
  decode boolean = decode_boolean
  decode string = decode_sized true 1
  decode bytes = decode_sized false 3
  decode compact_string = decode_compact true
  decode compact_bytes = decode_compact false
  decode tagged_fields = decode_tagged
  decode (array t) = decode_int 3 >>= items (decode t)
  decode (compact_array t) = decode_varint32 >>= compact_items (decode t)
  decode (schema fs) = decode_item fs

  -- Schema.decode
  pub decode_item : (fs : Fields) → Exec (List ℕ) (Item fs)
  decode_item end = pure tt
  decode_item (field name t fs) = decode t >>= λ v. decode_item fs >>= λ vs. pure (v, vs)
