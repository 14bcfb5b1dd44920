-- ===== src/Protocol/Types.antt =====
-- kafka/protocol/types.py: the types of the fields of requests and responses, and how their values
-- are written and read.
use kafka_python.Common.{
  ℕ, ◌+◌, String, Bool, List, [], ◌∷◌, ◌++◌, length, Option, none, some, ltb, if◌then◌else◌,
}
use kafka_python.Common.Int.{ℤ, pos, negsuc}
use kafka_python.Errors.{assertion_error}
use kafka_python.Exec.{Result, ok, err}
use kafka_python.Protocol.Ints.{pack}
use kafka_python.WireTypes.{encode_unsigned32}

-- The classes, and `Schema` with the names and the types of its fields.
mutual
  pub data Ty : Type 0 where
    int8 int16 int32 int64 boolean string bytes compact_string compact_bytes tagged_fields : Ty
    array compact_array : Ty → Ty
    schema : Fields → Ty

  pub data Fields : Type 0 where
    end : Fields
    field : String → Ty → Fields → Fields

-- A schema as `Schema` takes it, the name and the type of one field after the other.
infixr 40 ◌▸◌
infix 45 ◌⦂◌
abbrev pub ◌⦂◌ : String → Ty → String × Ty
name ⦂ t = (name, t)

abbrev pub ◌▸◌ : String × Ty → Fields → Fields
(name, t) ▸ fs = field name t fs

-- `Array(*fields)` and `CompactArray(*fields)`
abbrev pub array_of : Fields → Ty
array_of fs = array (schema fs)

abbrev pub compact_array_of : Fields → Ty
compact_array_of fs = compact_array (schema fs)

-- The values that a type takes. A `str` stands for its bytes in UTF-8, and an item of a schema has
-- one value for each field.
abbrev mutual
  pub Val : Ty → Type 0
  Val int8 = ℤ
  Val int16 = ℤ
  Val int32 = ℤ
  Val int64 = ℤ
  Val boolean = Bool
  Val string = Option (List ℕ)
  Val bytes = Option (List ℕ)
  Val compact_string = Option (List ℕ)
  Val compact_bytes = Option (List ℕ)
  Val tagged_fields = List (ℕ × List ℕ)
  Val (array t) = Option (List (Val t))
  Val (compact_array t) = Option (List (Val t))
  Val (schema fs) = Item fs

  pub Item : Fields → Type 0
  Item end = Unit
  Item (field name t fs) = Val t × Item fs

abbrev pub prefixed : Result (List ℕ) → Result (List ℕ) → Result (List ℕ)
prefixed (ok xs) (ok ys) = ok (xs ++ ys)
prefixed (ok xs) (err e) = err e
prefixed (err e) r = err e

-- `b''.join([encode(item) for item in items])`
unfoldable pub encode_all : {A : Type 0} → (A → Result (List ℕ)) → List A → Result (List ℕ)
encode_all f [] = ok []
encode_all f (x ∷ xs) = prefixed (f x) (encode_all f xs)

unfoldable pub encode_boolean : Bool → Result (List ℕ)
encode_boolean b = ok ((if b then 1 else 0) ∷ [])

-- String and Bytes, whose lengths have 2 bytes and 4.
unfoldable pub encode_sized : ℕ → Option (List ℕ) → Result (List ℕ)
encode_sized width none = pack width (negsuc 0)
encode_sized width (some value) = prefixed (pack width (pos (length value))) (ok value)

-- CompactString and CompactBytes
unfoldable pub encode_compact : Option (List ℕ) → Result (List ℕ)
encode_compact none = ok (encode_unsigned32 0)
encode_compact (some value) = ok (encode_unsigned32 (length value + 1) ++ value)

-- The size of the value is not written.
unfoldable pub encode_tags : List (ℕ × List ℕ) → Result (List ℕ)
encode_tags [] = ok []
encode_tags ((k, v) ∷ rest) =
    if ltb 0 k
    then prefixed (ok (encode_unsigned32 k ++ v)) (encode_tags rest)
    else err assertion_error

unfoldable pub encode_tagged : List (ℕ × List ℕ) → Result (List ℕ)
encode_tagged value = prefixed (ok (encode_unsigned32 (length value))) (encode_tags value)

abbrev pub encode_array : {A : Type 0} → (A → Result (List ℕ)) → Option (List A) → Result (List ℕ)
encode_array f none = pack 3 (negsuc 0)
encode_array f (some items) = prefixed (pack 3 (pos (length items))) (encode_all f items)

abbrev pub encode_compact_array :
    {A : Type 0} → (A → Result (List ℕ)) → Option (List A) → Result (List ℕ)
encode_compact_array f none = ok (encode_unsigned32 0)
encode_compact_array f (some items) =
    prefixed (ok (encode_unsigned32 (length items + 1))) (encode_all f items)

unfoldable mutual
  pub encode : (t : Ty) → Val t → Result (List ℕ)
  encode int8 v = pack 0 v
  encode int16 v = pack 1 v
  encode int32 v = pack 3 v
  encode int64 v = pack 7 v
  encode boolean v = encode_boolean v
  encode string v = encode_sized 1 v
  encode bytes v = encode_sized 3 v
  encode compact_string v = encode_compact v
  encode compact_bytes v = encode_compact v
  encode tagged_fields v = encode_tagged v
  encode (array t) v = encode_array (encode t) v
  encode (compact_array t) v = encode_compact_array (encode t) v
  encode (schema fs) v = encode_item fs v

  -- Schema.encode
  pub encode_item : (fs : Fields) → Item fs → Result (List ℕ)
  encode_item end v = ok []
  encode_item (field name t fs) v = prefixed (encode t v.0) (encode_item fs v.1)
