-- ===== src/Varint/RoundTrip.antt =====
-- The round trip of a varint.
use Prim.Native.Nat.{bit_xor-bitwise}
use native.Mathlib.Nat.{pow-suc, add-mul, mul_comm, mul_assoc}
use kafka_python.Common.{
  ℕ, zero, suc, ◌+◌, ◌*◌, ◌/◌, ◌%◌, ◌^◌, ◌<◌, ◌≡◌, refl, false, List, [], ◌∷◌, ◌++◌, length, leb,
  ltb, arith, ap, subst, if◌then◌else◌, Bool-cases, inl, inr, sym, ◌∙◌, drop,
}
use kafka_python.Common.Int.{ℤ, pos, negsuc}
use kafka_python.Varint.{
  zigzag, unzigzag, encode_unsigned, encode_varint, size_of_varint, size_of_unsigned, decoded,
  decode_loop, decode_bytes, decode_varint,
}
use kafka_python.Varint.Groups.{groups, encode_unsigned-groups, encode_unsigned-count, groups-fuel}

-- The place value of a group.
pub split_mul : (z w r : ℕ) → r + z % 128 * w + z / 128 * (w * 128) ≡ r + z * w
split_mul z w r =
    let whole : z / 128 * 128 + z % 128 ≡ z = omega arith in
    let spread : (z / 128 * 128 + z % 128) * w ≡ z / 128 * 128 * w + z % 128 * w =
      add-mul (z / 128 * 128) (z % 128) w in
    let shift : z / 128 * (w * 128) ≡ z / 128 * 128 * w =
      ap (λ x. z / 128 * x) (mul_comm w 128) ∙ sym (mul_assoc (z / 128) 128 w) in
    let spread' : z * w ≡ z / 128 * 128 * w + z % 128 * w = rw whole at spread in
    rw (shift, spread') (omega arith)

pub pow-add_seven : (n : ℕ) → 2 ^ (n + 7) ≡ 2 ^ n * 128
pow-add_seven n =
    let e : n + 7 ≡ suc (suc (suc (suc (suc (suc (suc n)))))) = omega arith in
    rw
      (
        e,
        pow-suc 2 (suc (suc (suc (suc (suc (suc n)))))),
        pow-suc 2 (suc (suc (suc (suc (suc n))))),
        pow-suc 2 (suc (suc (suc (suc n)))),
        pow-suc 2 (suc (suc (suc n))),
        pow-suc 2 (suc (suc n)),
        pow-suc 2 (suc n),
        pow-suc 2 n,
      )
      (omega arith)

decode_loop-groups :
    (f fuel z result shift next : ℕ) (rest : List ℕ)
    → z < 128 ^ suc f
    → f < fuel
    → shift + 7 * f < 64
    → decode_loop fuel (groups f z ++ rest) next result shift
      ≡ decoded (unzigzag (result + z * 2 ^ shift)) (next + length (groups f z))
unfolding decode_loop
decode_loop-groups f zero z result shift next rest h k l = absurd (omega arith)
decode_loop-groups zero (suc fuel) z result shift next rest h k l =
    let low : z % 128 ≡ z = omega arith in rw low (ground arith)
decode_loop-groups (suc f) (suc fuel) z result shift next rest h k l =
    elim (Bool-cases (ltb z 128)) [
      | inl c ↦ let low : z % 128 ≡ z = ground arith in rw (c, low) (rw c refl)
      | inr c ↦
          let w : z < 128 ^ suc f * 128 = subst (λ x. z < x) (pow-suc 128 (suc f)) h in
          let more = result + z % 128 * 2 ^ shift in
          let low : (128 + z % 128) % 128 ≡ z % 128 = omega arith in
          let big : ltb (128 + z % 128) 128 ≡ false = ground arith in
          let goes : leb 64 (shift + 7) ≡ false = ground arith in
          let ih =
            decode_loop-groups f fuel (z / 128) more (shift + 7) (next + 1) rest (omega arith)
              (omega arith) (omega arith) in
          let value : more + z / 128 * 2 ^ (shift + 7) ≡ result + z * 2 ^ shift =
            rw (pow-add_seven shift) (split_mul z (2 ^ shift) result) in
          let count : next + 1 + length (groups f (z / 128))
              ≡ next + suc (length (groups f (z / 128))) =
            omega arith in
          rw (c, low, big, goes, ih, value, count) refl
    ]

-- The integers of 64 bits.
abbrev pub IsInt64 : ℤ → Type 0
IsInt64 (pos n) = n < 2 ^ 63
IsInt64 (negsuc n) = n < 2 ^ 63

zigzag_pos : (n : ℕ) → n < 2 ^ 63 → zigzag (pos n) ≡ 2 * n
unfolding zigzag
zigzag_pos n h = let small : n / 2 ^ 63 ≡ 0 = omega arith in rw small (bit_xor-bitwise 0 (2 * n))

zigzag_negsuc : (n : ℕ) → n < 2 ^ 63 → zigzag (negsuc n) ≡ 2 * n + 1
unfolding zigzag
zigzag_negsuc n h =
    let small : n / 2 ^ 63 ≡ 0 = omega arith in rw small (bit_xor-bitwise 0 (2 * n + 1))

zigzag_lt : (v : ℤ) → IsInt64 v → zigzag v < 2 ^ 64
zigzag_lt (pos n) h = omega (arith, zigzag_pos n h)
zigzag_lt (negsuc n) h = omega (arith, zigzag_negsuc n h)

unzigzag-zigzag : (v : ℤ) → IsInt64 v → unzigzag (zigzag v) ≡ v
unfolding unzigzag
unzigzag-zigzag (pos n) h =
    let even : 2 * n % 2 ≡ 0 = omega arith in
    let half : 2 * n / 2 ≡ n = omega arith in rw (zigzag_pos n h, even, half) refl
unzigzag-zigzag (negsuc n) h =
    let odd : (2 * n + 1) % 2 ≡ 1 = omega arith in
    let half : (2 * n + 1) / 2 ≡ n = omega arith in rw (zigzag_negsuc n h, odd, half) refl

drop-append {ℓ} : {A : Type ℓ} (xs ys : List A) → drop (length xs) (xs ++ ys) ≡ ys
drop-append [] ys = refl
drop-append (x ∷ xs) ys = drop-append xs ys

decode_bytes-groups :
    (z next : ℕ) (rest : List ℕ)
    → z < 2 ^ 64
    → decode_bytes (groups z z ++ rest) next ≡ decoded (unzigzag z) (next + length (groups z z))
decode_bytes-groups z next rest h = elim (Bool-cases (ltb z 128)) [
  | inl c ↦
      rw (groups-fuel 0 z z (ground arith) (omega arith))
        (unfold decode_bytes unzigzag in ground arith)
  | inr c ↦
      let low : (128 + z % 128) % 128 ≡ z % 128 = omega arith in
      let big : ltb (128 + z % 128) 128 ≡ false = ground arith in
      let loop =
        decode_loop-groups 8 9 (z / 128) (z % 128) 7 (next + 1) rest (omega arith) (omega arith)
          (omega arith) in
      let value : z % 128 + z / 128 * 2 ^ 7 ≡ z = omega arith in
      let count : next + 1 + length (groups 8 (z / 128))
          ≡ next + suc (length (groups 8 (z / 128))) =
        omega arith in
      rw (groups-fuel 9 z z (omega arith) (ground arith), c)
        (unfold decode_bytes in rw (big, low, loop, value, count) refl)
]

-- An integer of 64 bits that was written at any place of a buffer is read back from there, and the
-- next read position is the first one behind its bytes.
pub decode_varint-encode_varint :
    (v : ℤ) (before after : List ℕ)
    → IsInt64 v
    → decode_varint (before ++ ((encode_varint v).0 ++ after)) (length before)
      ≡ decoded v (length before + length (encode_varint v).0)
unfolding decode_varint encode_varint
decode_varint-encode_varint v before after h =
    rw
      (
        drop-append before ((encode_unsigned (zigzag v)).0 ++ after),
        encode_unsigned-groups (zigzag v),
        decode_bytes-groups (zigzag v) (length before) after (zigzag_lt v h),
        unzigzag-zigzag v h,
      )
      refl

size_of_groups : (z : ℕ) → z < 2 ^ 64 → size_of_unsigned z ≡ length (groups 9 z)
unfolding size_of_unsigned
size_of_groups z h = ground arith

size_of_five : (z : ℕ) → leb (size_of_unsigned z) 5 ≡ leb z 0x7ffffffff
unfolding size_of_unsigned
size_of_five z = ground arith

size_of_bytes : (z : ℕ) → z < 2 ^ 64 → size_of_unsigned z ≡ length (encode_unsigned z).0
size_of_bytes z h = elim (Bool-cases (ltb z 128)) [
  | inl c ↦
      rw (encode_unsigned-groups z, groups-fuel 0 z z (ground arith) (omega arith))
        (unfold size_of_unsigned in ground arith)
  | inr c ↦
      rw (encode_unsigned-groups z, groups-fuel 9 z z (omega arith) (ground arith))
        (size_of_groups z h)
]

-- For an integer of 64 bits, `size_of_varint` is the number of bytes that `encode_varint` writes.
-- What `encode_varint` returns is that number up to five bytes, and one less beyond.
pub size_of_varint_lem :
    (v : ℤ)
    → IsInt64 v
    → (size_of_varint v ≡ length (encode_varint v).0)
      × ((encode_varint v).1 + (if leb (size_of_varint v) 5 then 0 else 1)
          ≡ length (encode_varint v).0)
unfolding size_of_varint encode_varint
size_of_varint_lem v h = (
  size_of_bytes (zigzag v) (zigzag_lt v h),
  rw (size_of_five (zigzag v)) (encode_unsigned-count (zigzag v)),
)
