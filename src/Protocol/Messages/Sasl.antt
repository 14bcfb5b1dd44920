-- ===== src/Protocol/Messages/Sasl.antt =====
-- kafka/protocol/sasl_authenticate.py, sasl_handshake.py: the classes.
use kafka_python.Common.{List, [], ◌∷◌}
use kafka_python.Protocol.Types.{int16, int64, string, bytes, array, end, ◌▸◌, ◌⦂◌}
use kafka_python.Protocol.Message.{RequestType, ResponseType, response, request}

abbrev pub sasl_authenticate_response_v0 : ResponseType
sasl_authenticate_response_v0 =
    response 36 0 ("error_code" ⦂ int16 ▸ "error_message" ⦂ string ▸ "auth_bytes" ⦂ bytes ▸ end)

abbrev pub sasl_authenticate_response_v1 : ResponseType
sasl_authenticate_response_v1 = response 36 1 (
    "error_code" ⦂ int16
    ▸ "error_message" ⦂ string
    ▸ "auth_bytes" ⦂ bytes
    ▸ "session_lifetime_ms" ⦂ int64
    ▸ end)

abbrev pub sasl_authenticate_request_v0 : RequestType
sasl_authenticate_request_v0 =
    request 36 0 ("auth_bytes" ⦂ bytes ▸ end) sasl_authenticate_response_v0

abbrev pub sasl_authenticate_request_v1 : RequestType
sasl_authenticate_request_v1 =
    request 36 1 sasl_authenticate_request_v0.fields sasl_authenticate_response_v1

abbrev pub sasl_authenticate_request : List RequestType
sasl_authenticate_request = sasl_authenticate_request_v0 ∷ sasl_authenticate_request_v1 ∷ []

abbrev pub sasl_authenticate_response : List ResponseType
sasl_authenticate_response = sasl_authenticate_response_v0 ∷ sasl_authenticate_response_v1 ∷ []

abbrev pub sasl_handshake_response_v0 : ResponseType
sasl_handshake_response_v0 =
    response 17 0 ("error_code" ⦂ int16 ▸ "enabled_mechanisms" ⦂ array string ▸ end)

abbrev pub sasl_handshake_response_v1 : ResponseType
sasl_handshake_response_v1 = response 17 1 sasl_handshake_response_v0.fields

abbrev pub sasl_handshake_request_v0 : RequestType
sasl_handshake_request_v0 = request 17 0 ("mechanism" ⦂ string ▸ end) sasl_handshake_response_v0

abbrev pub sasl_handshake_request_v1 : RequestType
sasl_handshake_request_v1 = request 17 1 sasl_handshake_request_v0.fields sasl_handshake_response_v1

abbrev pub sasl_handshake_request : List RequestType
sasl_handshake_request = sasl_handshake_request_v0 ∷ sasl_handshake_request_v1 ∷ []

abbrev pub sasl_handshake_response : List ResponseType
sasl_handshake_response = sasl_handshake_response_v0 ∷ sasl_handshake_response_v1 ∷ []
