-- ===== src/Protocol/Message.antt =====
-- kafka/protocol/api.py and kafka/protocol/struct.py: the classes of requests and responses, and the
-- headers in front of them.
use kafka_python.Common.{ℕ, Bool, true, false, List, [], some, if◌then◌else◌}
use kafka_python.Common.Int.{ℤ, pos}
use kafka_python.Exec.{Exec, Result}
use kafka_python.Protocol.Types.{
  int16, int32, string, tagged_fields, Fields, end, ◌▸◌, ◌⦂◌, Item, encode_item,
}
use kafka_python.Protocol.Decoding.{decode_item}

-- A subclass of Response: its constants and the fields of its SCHEMA. `v0_on_error` marks the
-- subclasses of BaseApiVersionsResponse, which decode otherwise.
pub record ResponseType : Type 0 where
  pub api_key : ℕ
  pub api_version : ℕ
  pub flexible_version : Bool
  pub v0_on_error : Bool
  pub fields : Fields

pub record RequestType : Type 0 where
  pub api_key : ℕ
  pub api_version : ℕ
  pub flexible_version : Bool
  pub fields : Fields
  pub response_type : ResponseType

-- A class by its API_KEY, its API_VERSION and its SCHEMA, and a request's by its RESPONSE_TYPE; the
-- flexible ones set FLEXIBLE_VERSION.
abbrev pub response : ℕ → ℕ → Fields → ResponseType
response api_key api_version fields = record {
  api_key = api_key;
  api_version = api_version;
  flexible_version = false;
  v0_on_error = false;
  fields = fields;
}

abbrev pub flexible_response : ℕ → ℕ → Fields → ResponseType
flexible_response api_key api_version fields = record (response api_key api_version fields) {
  flexible_version = true;
}

abbrev pub falling_back_response : ℕ → ℕ → Fields → ResponseType
falling_back_response api_key api_version fields = record (response api_key api_version fields) {
  v0_on_error = true;
}

abbrev pub request : ℕ → ℕ → Fields → ResponseType → RequestType
request api_key api_version fields response_type = record {
  api_key = api_key;
  api_version = api_version;
  flexible_version = false;
  fields = fields;
  response_type = response_type;
}

abbrev pub flexible_request : ℕ → ℕ → Fields → ResponseType → RequestType
flexible_request api_key api_version fields response_type =
    record (request api_key api_version fields response_type) { flexible_version = true }

-- An instance: the class with its attributes, in the order of the fields.
pub record Request : Type 0 where
  pub type_of : RequestType
  pub values : Item type_of.fields

pub record Response : Type 0 where
  pub type_of : ResponseType
  pub values : Item type_of.fields

-- RequestHeader and RequestHeaderV2
abbrev pub request_header : Fields
request_header =
    "api_key" ⦂ int16
    ▸ "api_version" ⦂ int16
    ▸ "correlation_id" ⦂ int32
    ▸ "client_id" ⦂ string
    ▸ end

abbrev pub request_header_v2 : Fields
request_header_v2 =
    "api_key" ⦂ int16
    ▸ "api_version" ⦂ int16
    ▸ "correlation_id" ⦂ int32
    ▸ "client_id" ⦂ string
    ▸ "tags" ⦂ tagged_fields
    ▸ end

-- ResponseHeader and ResponseHeaderV2
abbrev pub response_header : Fields
response_header = "correlation_id" ⦂ int32 ▸ end

abbrev pub response_header_v2 : Fields
response_header_v2 = "correlation_id" ⦂ int32 ▸ "tags" ⦂ tagged_fields ▸ end

-- `request.build_header(correlation_id, client_id).encode()`
unfoldable pub build_header : RequestType → ℤ → List ℕ → Result (List ℕ)
build_header r correlation_id client_id =
    if r.flexible_version
    then encode_item request_header_v2
        (pos r.api_key, (pos r.api_version, (correlation_id, (some client_id, ([], tt)))))
    else encode_item request_header
        (pos r.api_key, (pos r.api_version, (correlation_id, (some client_id, tt))))

-- Struct.encode of an instance
unfoldable pub encode_request : Request → Result (List ℕ)
encode_request r = encode_item r.type_of.fields r.values

abbrev id_of : {A : Type 0} → Result (ℤ × A) × List ℕ → Result ℤ × List ℕ
id_of (Result.ok (id, rest), s) = (Result.ok id, s)
id_of (Result.err e, s) = (Result.err e, s)

-- `response_type.parse_header(read_buffer).correlation_id`
unfoldable pub parse_header : ResponseType → Exec (List ℕ) ℤ
parse_header r s =
    if r.flexible_version
    then id_of (decode_item response_header_v2 s)
    else id_of (decode_item response_header s)
