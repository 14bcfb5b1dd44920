-- ===== src/Varint/Groups.antt =====
-- What the encoder writes, as one recursion on groups of seven bits.
use kafka_python.Common.{
  ℕ, zero, suc, ◌+◌, ◌*◌, ◌/◌, ◌%◌, ◌^◌, ◌≤◌, ◌<◌, ◌≡◌, refl, true, false, List, [], ◌∷◌, length,
  leb, ltb, nat_beq, arith, subst, if◌then◌else◌, Bool-cases, inl, inr, sym, ◌∙◌,
}
use native.Mathlib.Nat.{pow-suc}
use kafka_python.Varint.{general, encode_unsigned}

abbrev pub groups : ℕ → ℕ → List ℕ
groups zero z = z ∷ []
groups (suc f) z =
    let rest = groups f (z / 128) in if ltb z 128 then z ∷ [] else (128 + z % 128) ∷ rest

-- More fuel changes nothing once there is enough.
general-groups :
    (f v bits i : ℕ)
    → bits < 128
    → v < 128 ^ f
    → ((general f v bits i).0 ≡ groups f (128 * v + bits))
      × ((general f v bits i).1 + 1 ≡ i + length (general f v bits i).0)
unfolding general
general-groups zero v bits i h k = ground arith
general-groups (suc f) v bits i h k =
    let w : v < 128 ^ f * 128 = subst (λ x. v < x) (pow-suc 128 f) k in
    let (same, count) = general-groups f (v / 128) (v % 128) (i + 1) (omega arith) (omega arith) in
    let low : (128 * v + bits) % 128 ≡ bits = omega arith in
    let high : (128 * v + bits) / 128 ≡ v = omega arith in
    let whole : 128 * (v / 128) + v % 128 ≡ v = omega arith in
    let same' : (general f (v / 128) (v % 128) (i + 1)).0 ≡ groups f v = rw whole at same in
    elim (Bool-cases (nat_beq v 0)) [
      | inl c ↦ ground arith
      | inr c ↦ rw (c, low, high, same') (ground (arith, count))
    ]

pub groups-fuel : (f g z : ℕ) → z < 128 ^ suc f → f ≤ g → groups g z ≡ groups f z
groups-fuel zero zero z h k = refl
groups-fuel zero (suc g) z h k = ground arith
groups-fuel (suc f) zero z h k = absurd (omega arith)
groups-fuel (suc f) (suc g) z h k =
    let w : z < 128 ^ suc f * 128 = subst (λ x. z < x) (pow-suc 128 (suc f)) h in
    rw (groups-fuel f g (z / 128) (omega arith) (omega arith)) refl

lt-pow : (n : ℕ) → n < 128 ^ n
lt-pow zero = omega arith
lt-pow (suc n) = rw (pow-suc 128 n) (omega (arith, lt-pow n))

low_bytes :
    (z : ℕ) → ltb 0x7f z ≡ true → leb z 0x7ffffffff ≡ true → (encode_unsigned z).0 ≡ groups 4 z
unfolding encode_unsigned
low_bytes z h k = ground arith

high_bytes :
    (z : ℕ) → leb z 0x7ffffffff ≡ false → encode_unsigned z ≡ general z (z / 128) (z % 128) 0
unfolding encode_unsigned
high_bytes z h = ground arith

-- The encoder writes the groups.
pub encode_unsigned-groups : (z : ℕ) → (encode_unsigned z).0 ≡ groups z z
encode_unsigned-groups z = elim (Bool-cases (leb z 0x7f)) [
  | inl c ↦
      rw (groups-fuel 0 z z (ground arith) (omega arith)) (unfold encode_unsigned in ground arith)
  | inr c ↦ elim (Bool-cases (leb z 0x7ffffffff)) [
    | inl d ↦ low_bytes z (ground arith) d ∙ sym (groups-fuel 4 z z (ground arith) (ground arith))
    | inr d ↦
        let (same, count) =
          general-groups z (z / 128) (z % 128) 0 (omega arith) (omega (arith, lt-pow z)) in
        let whole : 128 * (z / 128) + z % 128 ≡ z = omega arith in
        rw (high_bytes z d)
          (subst (λ x. (general z (z / 128) (z % 128) 0).0 ≡ groups z x) whole same)
  ]
]

-- The number returned is one short past five bytes.
pub encode_unsigned-count :
    (z : ℕ)
    → (encode_unsigned z).1 + (if leb z 0x7ffffffff then 0 else 1) ≡ length (encode_unsigned z).0
encode_unsigned-count z = elim (Bool-cases (leb z 0x7ffffffff)) [
  | inl c ↦ unfold encode_unsigned in ground arith
  | inr c ↦
      let (same, count) =
        general-groups z (z / 128) (z % 128) 0 (omega arith) (omega (arith, lt-pow z)) in
      rw (c, high_bytes z c) (omega (arith, count))
]
