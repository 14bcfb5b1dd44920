-- ===== src/Varint/Tests.antt =====
-- Varints at concrete inputs.
use kafka_python.Common.{◌+◌, ◌≡◌, refl, [], ◌∷◌, ◌++◌, length, leb, arith, if◌then◌else◌}
use kafka_python.Common.Int.{ℤ, pos, negsuc}
use kafka_python.Varint.{
  zigzag, encode_unsigned, general, encode_varint, size_of_varint, decoded, decode_varint,
}
use kafka_python.Varint.RoundTrip.{decode_varint-encode_varint, size_of_varint_lem}

abbrev five_bytes_past : ℤ
five_bytes_past = pos 34359738368

-- Six bytes are written, and 5 is returned.
six_bytes : encode_varint five_bytes_past ≡ (128 ∷ 128 ∷ 128 ∷ 128 ∷ 128 ∷ 2 ∷ [], 5)
unfolding encode_varint encode_unsigned general zigzag
six_bytes = refl

decode_varint-encode_varint_example :
    decode_varint (9 ∷ 9 ∷ ((encode_varint (negsuc 300)).0 ++ (7 ∷ []))) 2
    ≡ decoded (negsuc 300) (2 + length (encode_varint (negsuc 300)).0)
decode_varint-encode_varint_example =
    decode_varint-encode_varint (negsuc 300) (9 ∷ 9 ∷ []) (7 ∷ []) (omega arith)

size_of_varint_example :
    (size_of_varint five_bytes_past ≡ length (encode_varint five_bytes_past).0)
    × ((encode_varint five_bytes_past).1 + (if leb (size_of_varint five_bytes_past) 5 then 0 else 1)
        ≡ length (encode_varint five_bytes_past).0)
size_of_varint_example = size_of_varint_lem five_bytes_past (omega arith)
