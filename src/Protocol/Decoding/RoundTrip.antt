-- ===== src/Protocol/Decoding/RoundTrip.antt =====
-- What is read back of the values of any type.
use mathlib.Core.List.{append_assoc}
use kafka_python.Common.{
  ℕ, suc, ◌+◌, ◌^◌, ◌<◌, ◌≡◌, refl, ◌∙◌, true, false, List, [], ◌∷◌, ◌++◌, length, Option, none,
  some, arith, All,
}
use kafka_python.Common.Int.{pos, negsuc}
use kafka_python.Exec.{Exec, Result, ok, ◌>>=◌}
use kafka_python.Protocol.Ints.{pack}
use kafka_python.Protocol.Types.{
  Ty, int8, int16, int32, int64, boolean, string, bytes, compact_string, compact_bytes,
  tagged_fields, array, compact_array, schema, Fields, end, field, Val, Item, encode, encode_item,
  encode_all, encode_tagged, encode_array, encode_compact_array, encode_tags,
}
use kafka_python.Protocol.Decoding.{
  decode, decode_item, decode_all, decode_int, decode_varint32, items, compact_items, decode_tagged,
  decode_tags,
}
use kafka_python.Protocol.Decoding.Reads.{
  Inverts, IsTextOrNone, IsCompactText, bind_ok, pure_ok, prefixed_ok, decode_int-pack,
  decode_varint32_lem, sized-Inverts, compact-Inverts, boolean-Inverts,
}
use kafka_python.WireTypes.{encode_unsigned32}

abbrev pub IsItems : {A : Type 0} → (A → Type 0) → Option (List A) → Type 0
IsItems P none = Unit
IsItems P (some xs) = All P xs

abbrev pub IsCompactItems : {A : Type 0} → (A → Type 0) → Option (List A) → Type 0
IsCompactItems P none = Unit
IsCompactItems P (some xs) = All P xs × (length xs + 1 < 2 ^ 32)

-- The values that can be sent: the strings are UTF-8, the lengths of the compact forms fit, and
-- there are no tagged fields.
abbrev mutual
  pub IsValue : (t : Ty) → Val t → Type 0
  IsValue int8 v = Unit
  IsValue int16 v = Unit
  IsValue int32 v = Unit
  IsValue int64 v = Unit
  IsValue boolean v = Unit
  IsValue string v = IsTextOrNone true v
  IsValue bytes v = IsTextOrNone false v
  IsValue compact_string v = IsCompactText true v
  IsValue compact_bytes v = IsCompactText false v
  IsValue tagged_fields v = v ≡ []
  IsValue (array t) v = IsItems (IsValue t) v
  IsValue (compact_array t) v = IsCompactItems (IsValue t) v
  IsValue (schema fs) v = IsItem fs v

  pub IsItem : (fs : Fields) → Item fs → Type 0
  IsItem end v = Unit
  IsItem (field name t fs) v = IsValue t v.0 × IsItem fs v.1

module _ {A : Type 0} (P : A → Type 0) (f : A → Result (List ℕ)) (d : Exec (List ℕ) A)
    (inverts : Inverts P f d) where
  decode_all-encode_all :
      (xs : List A) (bs rest : List ℕ)
      → All P xs
      → encode_all f xs ≡ ok bs
      → decode_all d (length xs) (bs ++ rest) ≡ (ok xs, rest)
  unfolding decode_all encode_all
  decode_all-encode_all [] bs rest p h = let e : [] ≡ bs = cc in rw (← e) refl
  decode_all-encode_all (x ∷ xs) bs rest p h =
      let (ys, (zs, hy, hz, e)) = prefixed_ok (f x) (encode_all f xs) bs h in
      rw (e, append_assoc ys zs rest)
        (bind_ok d _ _ (zs ++ rest) x (inverts x ys (zs ++ rest) p.0 hy)
          ∙ bind_ok (decode_all d (length xs)) _ _ rest xs (decode_all-encode_all xs zs rest p.1 hz)
          ∙ pure_ok _ _)

  array-Inverts : Inverts (IsItems P) (encode_array f) (decode_int 3 >>= items d)
  array-Inverts none bs rest p h =
      bind_ok (decode_int 3) _ _ rest (negsuc 0) (decode_int-pack 3 (negsuc 0) bs rest h)
  array-Inverts (some xs) bs rest p h =
      let (ys, (zs, hy, hz, e)) = prefixed_ok (pack 3 (pos (length xs))) (encode_all f xs) bs h in
      rw (e, append_assoc ys zs rest)
        (bind_ok (decode_int 3) _ _ (zs ++ rest) (pos (length xs))
            (decode_int-pack 3 (pos (length xs)) ys (zs ++ rest) hy)
          ∙ bind_ok (decode_all d (length xs)) _ _ rest xs (decode_all-encode_all xs zs rest p hz)
          ∙ pure_ok _ _)

  compact_array-Inverts :
      Inverts (IsCompactItems P) (encode_compact_array f) (decode_varint32 >>= compact_items d)
  compact_array-Inverts none bs rest p h =
      let e : encode_unsigned32 0 ≡ bs = cc in
      rw (← e) (bind_ok decode_varint32 _ _ rest 0 (decode_varint32_lem 0 rest (omega arith)))
  compact_array-Inverts (some xs) bs rest p h =
      let n = length xs + 1 in
      let more : length xs + 1 ≡ suc (length xs) = omega arith in
      let (ys, (zs, hy, hz, e)) = prefixed_ok (ok (encode_unsigned32 n)) (encode_all f xs) bs h in
      let first : encode_unsigned32 n ≡ ys = cc in
      rw (e, append_assoc ys zs rest, ← first)
        (bind_ok decode_varint32 _ _ (zs ++ rest) (suc (length xs))
            (decode_varint32_lem n (zs ++ rest) p.1 ∙ rw more refl)
          ∙ bind_ok (decode_all d (length xs)) _ _ rest xs (decode_all-encode_all xs zs rest p.0 hz)
          ∙ pure_ok _ _)

tagged-Inverts : Inverts (λ v. v ≡ []) encode_tagged decode_tagged
unfolding encode_tagged decode_tagged encode_tags decode_tags
tagged-Inverts [] bs rest p h =
    let e : encode_unsigned32 0 ++ [] ≡ bs = cc in
    rw (← e, append_assoc (encode_unsigned32 0) [] rest)
      (bind_ok decode_varint32 _ _ rest 0 (decode_varint32_lem 0 rest (omega arith)))
tagged-Inverts (x ∷ xs) bs rest p h = absurd cc

mutual
  unfolding encode decode

  pub IsValue-Inverts : (t : Ty) → Inverts (IsValue t) (encode t) (decode t)
  IsValue-Inverts int8 v bs rest p h = decode_int-pack 0 v bs rest h
  IsValue-Inverts int16 v bs rest p h = decode_int-pack 1 v bs rest h
  IsValue-Inverts int32 v bs rest p h = decode_int-pack 3 v bs rest h
  IsValue-Inverts int64 v bs rest p h = decode_int-pack 7 v bs rest h
  IsValue-Inverts boolean v bs rest p h = boolean-Inverts v bs rest tt h
  IsValue-Inverts string v bs rest p h = sized-Inverts true 1 v bs rest p h
  IsValue-Inverts bytes v bs rest p h = sized-Inverts false 3 v bs rest p h
  IsValue-Inverts compact_string v bs rest p h = compact-Inverts true v bs rest p h
  IsValue-Inverts compact_bytes v bs rest p h = compact-Inverts false v bs rest p h
  IsValue-Inverts tagged_fields v bs rest p h = tagged-Inverts v bs rest p h
  IsValue-Inverts (array t) v bs rest p h =
      array-Inverts (IsValue t) (encode t) (decode t) (IsValue-Inverts t) v bs rest p h
  IsValue-Inverts (compact_array t) v bs rest p h =
      compact_array-Inverts (IsValue t) (encode t) (decode t) (IsValue-Inverts t) v bs rest p h
  IsValue-Inverts (schema fs) v bs rest p h = IsItem-Inverts fs v bs rest p h

  pub IsItem-Inverts : (fs : Fields) → Inverts (IsItem fs) (encode_item fs) (decode_item fs)
  IsItem-Inverts end v bs rest p h = let e : [] ≡ bs = cc in rw (← e) (pure_ok _ _)
  IsItem-Inverts (field name t fs) v bs rest p h =
      let (ys, (zs, hy, hz, e)) = prefixed_ok (encode t v.0) (encode_item fs v.1) bs h in
      rw (e, append_assoc ys zs rest)
        (bind_ok (decode t) _ _ (zs ++ rest) v.0 (IsValue-Inverts t v.0 ys (zs ++ rest) p.0 hy)
          ∙ bind_ok (decode_item fs) _ _ rest v.1 (IsItem-Inverts fs v.1 zs rest p.1 hz)
          ∙ pure_ok _ _)

-- A value that can be sent (its strings are UTF-8, the lengths of its compact forms fit, and it has
-- no tagged fields) and whose encoding raises nothing is read back as it was, with the bytes behind
-- it left.
pub decode-encode :
    (t : Ty) (v : Val t) (bs rest : List ℕ)
    → IsValue t v
    → encode t v ≡ ok bs
    → decode t (bs ++ rest) ≡ (ok v, rest)
decode-encode t = IsValue-Inverts t
