-- ===== src/Protocol/Decoding/Reads.antt =====
-- What is read back of the lengths, the integers and the byte strings.
use mathlib.Core.List.{append_assoc}
use kafka_python.Common.{
  ℕ, suc, ◌+◌, ◌%◌, ◌^◌, ◌<◌, ◌≡◌, refl, ◌∙◌, ap, Bool, true, false, not, ◌&&◌, List, [], ◌∷◌, ◌++◌,
  length, take, drop, Option, none, some, nat_beq, arith, subst,
}
use kafka_python.Common.Int.{ℤ, pos, negsuc}
use kafka_python.Exec.{Exec, Result, ok, err, ◌>>=◌, pure}
use kafka_python.Protocol.Ints.{pack}
use kafka_python.Protocol.Ints.RoundTrip.{unpack-pack}
use kafka_python.Protocol.Types.{prefixed, encode_sized, encode_compact, encode_boolean}
use kafka_python.Protocol.Utf8.{is_utf8}
use kafka_python.Protocol.Decoding.{
  decode_int, decode_boolean, decode_varint32, read_value, decode_sized, decode_compact,
}
use kafka_python.WireTypes.{encode_unsigned32}
use kafka_python.WireTypes.RoundTrip.{decode_unsigned32-encode_unsigned32}

pub bind_ok {ℓ} :
    {S A B : Type ℓ} (m : Exec S A) (f : A → Exec S B) (s t : S) (a : A)
    → m s ≡ (ok a, t)
    → (m >>= f) s ≡ f a t
unfolding ◌>>=◌
bind_ok m f s t a h = rw h refl

pub pure_ok {ℓ} : {S A : Type ℓ} (a : A) (s : S) → pure a s ≡ (ok a, s)
unfolding ◌>>=◌
pure_ok a s = refl

-- The two parts of what was written.
pub prefixed_ok :
    (r q : Result (List ℕ)) (bs : List ℕ)
    → prefixed r q ≡ ok bs
    → (xs : List ℕ) × ((ys : List ℕ) × (r ≡ ok xs) × (q ≡ ok ys) × (bs ≡ xs ++ ys))
prefixed_ok (ok xs) (ok ys) bs h = (xs, (ys, refl, refl, cc))
prefixed_ok (ok xs) (err e) bs h = absurd cc
prefixed_ok (err e) q bs h = absurd cc

pub take-append {ℓ} :
    {A : Type ℓ} (xs ys : List A)
    → (take (length xs) (xs ++ ys) ≡ xs) × (drop (length xs) (xs ++ ys) ≡ ys)
take-append [] ys = (refl, refl)
take-append (x ∷ xs) ys = let (t, d) = take-append xs ys in (ap (λ l. x ∷ l) t, d)

-- `decode` reads back what `encode` writes of the values that satisfy `P`, and no byte more.
abbrev pub Inverts {ℓ} :
    {A : Type 0} → (A → Type ℓ) → (A → Result (List ℕ)) → Exec (List ℕ) A → Type ℓ
Inverts P encode decode =
    (v : _) (bs rest : List ℕ) → P v → encode v ≡ ok bs → decode (bs ++ rest) ≡ (ok v, rest)

pub decode_int-pack :
    (width : ℕ) (v : ℤ) (bs rest : List ℕ)
    → pack width v ≡ ok bs
    → decode_int width (bs ++ rest) ≡ (ok v, rest)
unfolding decode_int
decode_int-pack width v bs rest h =
    let (size, value) = unpack-pack width v bs h in
    let (t, d) = take-append bs rest in
    let t' : take (suc width) (bs ++ rest) ≡ bs = subst (λ n. take n (bs ++ rest) ≡ bs) size t in
    let d' : drop (suc width) (bs ++ rest) ≡ rest =
      subst (λ n. drop n (bs ++ rest) ≡ rest) size d in
    rw (t', d', value) refl

pub decode_varint32_lem :
    (n : ℕ) (rest : List ℕ)
    → n < 2 ^ 32
    → decode_varint32 (encode_unsigned32 n ++ rest) ≡ (ok n, rest)
unfolding decode_varint32
decode_varint32_lem n rest h =
    let whole : n % 2 ^ 32 ≡ n = omega arith in
    rw (decode_unsigned32-encode_unsigned32 n rest, whole) refl

-- What a `str` may hold, or bytes.
abbrev pub IsText : Bool → List ℕ → Type 0
IsText is_str value = (is_str && not (is_utf8 value)) ≡ false

pub read_value_lem :
    (is_str : Bool) (value rest : List ℕ)
    → IsText is_str value
    → read_value is_str (length value) (value ++ rest) ≡ (ok (some value), rest)
unfolding read_value
read_value_lem is_str value rest h =
    let same : nat_beq (length value) (length value) ≡ true = ground arith in
    rw ((take-append value rest).0, (take-append value rest).1, same, h) refl

abbrev pub IsTextOrNone : Bool → Option (List ℕ) → Type 0
IsTextOrNone is_str none = Unit
IsTextOrNone is_str (some value) = IsText is_str value

-- A length that is one more fits in 32 bits.
abbrev pub IsCompactText : Bool → Option (List ℕ) → Type 0
IsCompactText is_str none = Unit
IsCompactText is_str (some value) = IsText is_str value × (length value + 1 < 2 ^ 32)

pub sized-Inverts :
    (is_str : Bool) (width : ℕ)
    → Inverts (IsTextOrNone is_str) (encode_sized width) (decode_sized is_str width)
unfolding encode_sized decode_sized
sized-Inverts is_str width none bs rest p h =
    bind_ok (decode_int width) _ (bs ++ rest) rest (negsuc 0)
      (decode_int-pack width (negsuc 0) bs rest h)
sized-Inverts is_str width (some value) bs rest p h =
    let (xs, (ys, hx, hy, e)) = prefixed_ok (pack width (pos (length value))) (ok value) bs h in
    let same : value ≡ ys = cc in
    rw (e, append_assoc xs ys rest, ← same)
      (bind_ok (decode_int width) _ (xs ++ (value ++ rest)) (value ++ rest) (pos (length value))
          (decode_int-pack width (pos (length value)) xs (value ++ rest) hx)
        ∙ read_value_lem is_str value rest p)

pub compact-Inverts :
    (is_str : Bool) → Inverts (IsCompactText is_str) encode_compact (decode_compact is_str)
unfolding encode_compact decode_compact
compact-Inverts is_str none bs rest p h =
    let e : encode_unsigned32 0 ≡ bs = cc in
    rw (← e) (bind_ok decode_varint32 _ _ rest 0 (decode_varint32_lem 0 rest (omega arith)))
compact-Inverts is_str (some value) bs rest p h =
    let n = length value + 1 in
    let e : encode_unsigned32 n ++ value ≡ bs = cc in
    let more : length value + 1 ≡ suc (length value) = omega arith in
    rw (← e, append_assoc (encode_unsigned32 n) value rest)
      (bind_ok decode_varint32 _ _ (value ++ rest) (suc (length value))
          (decode_varint32_lem n (value ++ rest) p.1 ∙ rw more refl)
        ∙ read_value_lem is_str value rest p.0)

pub boolean-Inverts : Inverts (λ b. Unit {0}) encode_boolean decode_boolean
unfolding encode_boolean decode_boolean
boolean-Inverts true bs rest p h = let e : 1 ∷ [] ≡ bs = cc in rw (← e) refl
boolean-Inverts false bs rest p h = let e : 0 ∷ [] ≡ bs = cc in rw (← e) refl
