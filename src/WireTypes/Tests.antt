-- ===== src/WireTypes/Tests.antt =====
-- Integers written and read back.
use kafka_python.Common.{◌%◌, ◌^◌, ◌≡◌, [], ◌∷◌, ◌++◌, arith}
use kafka_python.Common.Int.{negsuc}
use kafka_python.WireTypes.{
  encode_unsigned32, decode_unsigned32, encode_signed32, decode_signed32, got,
}
use kafka_python.WireTypes.RoundTrip.{
  decode_unsigned32-encode_unsigned32, decode_signed32-encode_signed32, read_back,
}

decode_unsigned32_example :
    decode_unsigned32 (encode_unsigned32 300 ++ (7 ∷ [])) ≡ got (300 % 2 ^ 32) (7 ∷ [])
decode_unsigned32_example = decode_unsigned32-encode_unsigned32 300 (7 ∷ [])

-- -1 is read back as -2147483648.
decode_signed32_example :
    decode_signed32 (encode_signed32 (negsuc 0) ++ (7 ∷ [])) ≡ got (read_back (negsuc 0)) (7 ∷ [])
decode_signed32_example = decode_signed32-encode_signed32 (negsuc 0) (7 ∷ []) (omega arith)
