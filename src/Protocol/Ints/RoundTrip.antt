-- ===== src/Protocol/Ints/RoundTrip.antt =====
-- The round trip of the integers of a fixed width.
use native.Mathlib.Nat.{pow-suc}
use kafka_python.Common.{
  ℕ, zero, suc, ◌+◌, ◌*◌, ◌-◌, ◌/◌, ◌%◌, ◌^◌, ◌<◌, ◌≡◌, refl, List, [], ◌∷◌, ◌++◌, length,
  length-append, ltb, nat_beq, arith, subst, Bool-cases, inl, inr, true, false,
}
use kafka_python.Common.Int.{ℤ, pos, negsuc}
use kafka_python.Exec.{ok, err}
use kafka_python.Protocol.Ints.{big_endian, number, pack, signed, unpack}

pub length-big_endian : (width u : ℕ) → length (big_endian width u) ≡ width
unfolding big_endian
length-big_endian zero u = refl
length-big_endian (suc width) u = omega (
  arith,
  length-append (big_endian width (u / 256)) (u % 256 ∷ []),
  length-big_endian width (u / 256),
)

number-append :
    (high : ℕ) (bytes : List ℕ) (b : ℕ)
    → number high (bytes ++ b ∷ []) ≡ number high bytes * 256 + b
unfolding number
number-append high [] b = refl
number-append high (c ∷ bytes) b = number-append (high * 256 + c) bytes b

number-big_endian : (width u : ℕ) → u < 256 ^ width → number 0 (big_endian width u) ≡ u
unfolding big_endian
number-big_endian zero u h = unfold number in omega arith
number-big_endian (suc width) u h =
    let w : u < 256 ^ width * 256 = subst (λ x. u < x) (pow-suc 256 width) h in
    rw
      (
        number-append 0 (big_endian width (u / 256)) (u % 256),
        number-big_endian width (u / 256) (omega arith),
      )
      (omega arith)

unpack-big_endian :
    (width u : ℕ)
    → u < 256 * 256 ^ width
    → unpack width (big_endian (suc width) u) ≡ ok (signed width u)
unfolding unpack
unpack-big_endian width u h =
    let w : u < 256 ^ suc width = rw (pow-suc 256 width) (omega arith) in
    let size : nat_beq (suc width) (suc width) ≡ true = ground arith in
    rw (length-big_endian (suc width) u, number-big_endian (suc width) u w, size) refl

-- What an integer is packed into has its width and is unpacked to the integer.
pub unpack-pack :
    (width : ℕ) (v : ℤ) (bytes : List ℕ)
    → pack width v ≡ ok bytes
    → (length bytes ≡ suc width) × (unpack width bytes ≡ ok v)
unfolding pack signed
unpack-pack width (pos n) bytes h = elim (Bool-cases (ltb n (128 * 256 ^ width))) [
  | inl c ↦
      let e : ok (big_endian (suc width) n) ≡ ok bytes = rw c at h in
      let same : big_endian (suc width) n ≡ bytes = cc in
      let value = unpack-big_endian width n (ground arith) in
      (rw (← same) (length-big_endian (suc width) n), rw (← same, value, c) refl)
  | inr c ↦ let e : err _ ≡ ok bytes = rw c at h in absurd cc
]
unpack-pack width (negsuc n) bytes h = elim (Bool-cases (ltb n (128 * 256 ^ width))) [
  | inl c ↦
      let u = 256 * 256 ^ width - 1 - n in
      let e : ok (big_endian (suc width) u) ≡ ok bytes = rw c at h in
      let same : big_endian (suc width) u ≡ bytes = cc in
      let value = unpack-big_endian width u (ground arith) in
      let high : ltb u (128 * 256 ^ width) ≡ false = ground arith in
      let back : 256 * 256 ^ width - 1 - u ≡ n = ground arith in
      (rw (← same) (length-big_endian (suc width) u), rw (← same, value, high, back) refl)
  | inr c ↦ let e : err _ ≡ ok bytes = rw c at h in absurd cc
]
