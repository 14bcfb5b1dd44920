-- ===== src/WireTypes/RoundTrip.antt =====
-- What is read back of the integers that are written.
use native.Mathlib.Nat.{pow-suc}
use kafka_python.Common.{
  ℕ, zero, suc, ◌+◌, ◌*◌, ◌-◌, ◌/◌, ◌%◌, ◌^◌, ◌≤◌, ◌<◌, ◌≡◌, refl, false, List, ◌++◌, ltb, arith,
  subst, Bool-cases, inl, inr,
}
use kafka_python.Common.Int.{ℤ, pos, negsuc}
use kafka_python.Varint.{unzigzag}
use kafka_python.Varint.RoundTrip.{split_mul, pow-add_seven}
use kafka_python.WireTypes.{
  encode_loop, encode_unsigned32, got, decode_loop32, decode_unsigned32, low_word, encode_signed32,
  decode_signed32,
}

decode_loop32-encode_loop :
    (f fuel z value i : ℕ) (rest : List ℕ)
    → z < 128 ^ suc f
    → f < fuel
    → i + 7 * f ≤ 28
    → decode_loop32 fuel (encode_loop f z ++ rest) value i ≡ got (value + z * 2 ^ i) rest
unfolding decode_loop32 encode_loop
decode_loop32-encode_loop f zero z value i rest h k l = absurd (omega arith)
decode_loop32-encode_loop zero (suc fuel) z value i rest h k l = ground arith
decode_loop32-encode_loop (suc f) (suc fuel) z value i rest h k l = elim (Bool-cases (ltb z 128)) [
  | inl c ↦ rw c (rw c refl)
  | inr c ↦
      let w : z < 128 ^ suc f * 128 = subst (λ x. z < x) (pow-suc 128 (suc f)) h in
      let low : (z % 128 + 128) % 128 ≡ z % 128 = omega arith in
      let big : ltb (z % 128 + 128) 128 ≡ false = ground arith in
      let goes : ltb 28 (i + 7) ≡ false = ground arith in
      let ih =
        decode_loop32-encode_loop f fuel (z / 128) (value + z % 128 * 2 ^ i) (i + 7) rest
          (omega arith) (omega arith) (omega arith) in
      let sum : value + z % 128 * 2 ^ i + z / 128 * 2 ^ (i + 7) ≡ value + z * 2 ^ i =
        rw (pow-add_seven i) (split_mul z (2 ^ i) value) in
      rw (c, low, big, goes, ih, sum) refl
]

-- A number is read back modulo 2 ^ 32, with the bytes behind it left.
pub decode_unsigned32-encode_unsigned32 :
    (v : ℕ) (rest : List ℕ)
    → decode_unsigned32 (encode_unsigned32 v ++ rest) ≡ got (v % 2 ^ 32) rest
unfolding decode_unsigned32 encode_unsigned32
decode_unsigned32-encode_unsigned32 v rest =
    let value : 0 + v % 2 ^ 32 * 2 ^ 0 ≡ v % 2 ^ 32 = omega arith in
    rw
      (
        decode_loop32-encode_loop 4 5 (v % 2 ^ 32) 0 0 rest (omega arith) (omega arith)
            (omega arith),
        value,
      )
      refl

-- What VarInt32 reads back for a value.
abbrev pub read_back : ℤ → ℤ
read_back (pos n) = pos n
read_back (negsuc n) = negsuc (2 ^ 31 - 1 - n)

abbrev pub IsInt32 : ℤ → Type 0
IsInt32 (pos n) = n < 2 ^ 31
IsInt32 (negsuc n) = n < 2 ^ 31

-- An integer of 32 bits that is not negative is read back as it was; a negative one, the complement
-- of `n`, is read back as the complement of `2 ^ 31 - 1 - n`.
pub decode_signed32-encode_signed32 :
    (v : ℤ) (rest : List ℕ)
    → IsInt32 v
    → decode_signed32 (encode_signed32 v ++ rest) ≡ got (read_back v) rest
unfolding decode_signed32 encode_signed32 low_word unzigzag
decode_signed32-encode_signed32 (pos n) rest h =
    let word : (n % 2 ^ 32 * 2 + n % 2 ^ 32 / 2 ^ 31) % 2 ^ 32 ≡ 2 * n = omega arith in
    let even : 2 * n % 2 ≡ 0 = omega arith in
    let half : 2 * n / 2 ≡ n = omega arith in
    rw
      (
        decode_unsigned32-encode_unsigned32 (n % 2 ^ 32 * 2 + n % 2 ^ 32 / 2 ^ 31) rest,
        word,
        even,
        half,
      )
      refl
decode_signed32-encode_signed32 (negsuc n) rest h =
    let v = 2 ^ 32 - 1 - n % 2 ^ 32 in
    let word : (v * 2 + v / 2 ^ 31) % 2 ^ 32 ≡ 2 * (2 ^ 31 - 1 - n) + 1 = omega arith in
    let odd : (2 * (2 ^ 31 - 1 - n) + 1) % 2 ≡ 1 = omega arith in
    let half : (2 * (2 ^ 31 - 1 - n) + 1) / 2 ≡ 2 ^ 31 - 1 - n = omega arith in
    rw (decode_unsigned32-encode_unsigned32 (v * 2 + v / 2 ^ 31) rest, word, odd, half) refl
