-- ===== src/Protocol/Classes.antt =====
-- kafka/protocol/api.py and kafka/protocol/produce.py: what the parser calls of the classes of
-- requests and responses.
pub mod Answered
use kafka_python.Common.{
  ℕ, zero, suc, ◌+◌, ◌-◌, Bool, true, false, not, ◌&&◌, String, Option, none, some, List, [],
  length, drop, nat_beq, if◌then◌else◌,
}
use kafka_python.Common.Int.{ℤ, pos, int_beq}
use kafka_python.Common.Eq.{string_eq, ◌==◌}
use kafka_python.Exec.{Exec, Result, ok, err}
use kafka_python.Protocol.Types.{
  Ty, int8, int16, int32, int64, boolean, string, bytes, compact_string, compact_bytes,
  tagged_fields, array, compact_array, schema, Fields, end, field, Val, Item,
}
use kafka_python.Protocol.Frame.{KafkaBytes, seek}
use kafka_python.Protocol.Decoding.{decode_item, decode_int}
use kafka_python.Protocol.Message.{
  ResponseType, RequestType, Request, Response, build_header, encode_request, parse_header,
}
use kafka_python.Protocol.Messages.ApiVersions.{api_versions_response_v0}
use kafka_python.Protocol.Parser.{Api}

-- An integer attribute of an instance, by the name of its field.
abbrev int_of : (t : Ty) → Val t → Option ℤ
int_of int16 v = some v
int_of int32 v = some v
int_of _ v = none

unfoldable pub get_int : String → (fs : Fields) → Item fs → Option ℤ
get_int wanted end v = none
get_int wanted (field name t fs) v =
    let rest = get_int wanted fs v.1 in if name == wanted then int_of t v.0 else rest

abbrev is_zero : Option ℤ → Bool
is_zero none = false
is_zero (some n) = int_beq n (pos 0)

-- `expect_response`, which ProduceRequest overrides.
unfoldable pub expect_response : Request → Bool
expect_response r =
    not (nat_beq r.type_of.api_key 0 && is_zero (get_int "required_acks" r.type_of.fields r.values))

abbrev made : (type : ResponseType) → Result (Item type.fields) × List ℕ → Result Response × List ℕ
made type (ok values, s) = (ok (record { type_of = type; values = values }), s)
made type (err e, s) = (err e, s)

-- Response.decode, that is Struct.decode
unfoldable pub decode_struct : ResponseType → Exec (List ℕ) Response
decode_struct type s = made type (decode_item type.fields s)

-- BaseApiVersionsResponse.decode, behind the error code, which it reads again.
abbrev by_error : ResponseType → Result ℤ × List ℕ → Exec (List ℕ) Response
by_error type (err e, rest) s = (err e, rest)
by_error type (ok code, rest) s =
    if int_beq code (pos 0) then decode_struct type s else decode_struct api_versions_response_v0 s

unfoldable pub decode_response : ResponseType → Exec (List ℕ) Response
decode_response type s =
    if type.v0_on_error then by_error type (decode_int 1 s) s else decode_struct type s

-- A decoder run on a buffer from its position on.
abbrev moved : {A : Type 0} → KafkaBytes → Result A × List ℕ → Result A × KafkaBytes
moved b (r, rest) = (r, seek (length b.bytes - length rest) b)

unfoldable pub on_buffer : {A : Type 0} → Exec (List ℕ) A → KafkaBytes → Result A × KafkaBytes
on_buffer f b = moved b (f (drop b.idx b.bytes))

-- The classes as the parser calls them.
unfoldable pub api : Api Request Response
api = record {
  build_header = λ r id client_id. build_header r.type_of id client_id;
  encode = encode_request;
  expect_response = expect_response;
  parse_header = λ r. on_buffer (parse_header r.type_of.response_type);
  decode = λ r. on_buffer (decode_response r.type_of.response_type);
  is_find_coordinator_v0 = λ r.
      nat_beq r.type_of.response_type.api_key 10 && nat_beq r.type_of.response_type.api_version 0;
}
