-- ===== src/Protocol/Messages/ApiVersions.antt =====
-- kafka/protocol/api_versions.py: the classes.
use kafka_python.Common.{List, [], ◌∷◌}
use kafka_python.Protocol.Types.{
  int16, int32, compact_string, tagged_fields, array_of, compact_array_of, end, ◌▸◌, ◌⦂◌,
}
use kafka_python.Protocol.Message.{
  RequestType, ResponseType, response, falling_back_response, request, flexible_request,
}

abbrev pub api_versions_response_v0 : ResponseType
api_versions_response_v0 = response 18 0 (
    "error_code" ⦂ int16
    ▸ "api_versions"
      ⦂ array_of ("api_key" ⦂ int16 ▸ "min_version" ⦂ int16 ▸ "max_version" ⦂ int16 ▸ end)
    ▸ end)

abbrev pub api_versions_response_v1 : ResponseType
api_versions_response_v1 = falling_back_response 18 1 (
    "error_code" ⦂ int16
    ▸ "api_versions"
      ⦂ array_of ("api_key" ⦂ int16 ▸ "min_version" ⦂ int16 ▸ "max_version" ⦂ int16 ▸ end)
    ▸ "throttle_time_ms" ⦂ int32
    ▸ end)

abbrev pub api_versions_response_v2 : ResponseType
api_versions_response_v2 = falling_back_response 18 2 api_versions_response_v1.fields

abbrev pub api_versions_response_v3 : ResponseType
api_versions_response_v3 = falling_back_response 18 3 (
    "error_code" ⦂ int16
    ▸ "api_versions"
      ⦂ compact_array_of (
          "api_key" ⦂ int16
          ▸ "min_version" ⦂ int16
          ▸ "max_version" ⦂ int16
          ▸ "_tagged_fields" ⦂ tagged_fields
          ▸ end)
    ▸ "throttle_time_ms" ⦂ int32
    ▸ "_tagged_fields" ⦂ tagged_fields
    ▸ end)

abbrev pub api_versions_response_v4 : ResponseType
api_versions_response_v4 = falling_back_response 18 4 api_versions_response_v3.fields

abbrev pub api_versions_request_v0 : RequestType
api_versions_request_v0 = request 18 0 end api_versions_response_v0

abbrev pub api_versions_request_v1 : RequestType
api_versions_request_v1 = request 18 1 api_versions_request_v0.fields api_versions_response_v1

abbrev pub api_versions_request_v2 : RequestType
api_versions_request_v2 = request 18 2 api_versions_request_v1.fields api_versions_response_v2

abbrev pub api_versions_request_v3 : RequestType
api_versions_request_v3 =
    flexible_request 18 3
      ("client_software_name" ⦂ compact_string
        ▸ "client_software_version" ⦂ compact_string
        ▸ "_tagged_fields" ⦂ tagged_fields
        ▸ end)
      api_versions_response_v3

abbrev pub api_versions_request_v4 : RequestType
api_versions_request_v4 =
    flexible_request 18 4 api_versions_request_v3.fields api_versions_response_v4

abbrev pub api_versions_request : List RequestType
api_versions_request =
    api_versions_request_v0 ∷ api_versions_request_v1 ∷ api_versions_request_v2
    ∷ api_versions_request_v3 ∷ api_versions_request_v4 ∷ []

abbrev pub api_versions_response : List ResponseType
api_versions_response =
    api_versions_response_v0 ∷ api_versions_response_v1 ∷ api_versions_response_v2
    ∷ api_versions_response_v3 ∷ api_versions_response_v4 ∷ []
