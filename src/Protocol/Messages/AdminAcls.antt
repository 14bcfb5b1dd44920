-- ===== src/Protocol/Messages/AdminAcls.antt =====
-- kafka/protocol/admin.py: the classes of DescribeAcls, CreateAcls, DeleteAcls.
use kafka_python.Common.{List, [], ◌∷◌}
use kafka_python.Protocol.Types.{int8, int16, int32, string, array_of, end, ◌▸◌, ◌⦂◌}
use kafka_python.Protocol.Message.{RequestType, ResponseType, response, request}

abbrev pub describe_acls_response_v0 : ResponseType
describe_acls_response_v0 = response 29 0 (
    "throttle_time_ms" ⦂ int32
    ▸ "error_code" ⦂ int16
    ▸ "error_message" ⦂ string
    ▸ "resources"
      ⦂ array_of (
          "resource_type" ⦂ int8
          ▸ "resource_name" ⦂ string
          ▸ "acls"
            ⦂ array_of (
                "principal" ⦂ string
                ▸ "host" ⦂ string
                ▸ "operation" ⦂ int8
                ▸ "permission_type" ⦂ int8
                ▸ end)
          ▸ end)
    ▸ end)

abbrev pub describe_acls_response_v1 : ResponseType
describe_acls_response_v1 = response 29 1 (
    "throttle_time_ms" ⦂ int32
    ▸ "error_code" ⦂ int16
    ▸ "error_message" ⦂ string
    ▸ "resources"
      ⦂ array_of (
          "resource_type" ⦂ int8
          ▸ "resource_name" ⦂ string
          ▸ "resource_pattern_type" ⦂ int8
          ▸ "acls"
            ⦂ array_of (
                "principal" ⦂ string
                ▸ "host" ⦂ string
                ▸ "operation" ⦂ int8
                ▸ "permission_type" ⦂ int8
                ▸ end)
          ▸ end)
    ▸ end)

abbrev pub describe_acls_response_v2 : ResponseType
describe_acls_response_v2 = response 29 2 describe_acls_response_v1.fields

abbrev pub describe_acls_request_v0 : RequestType
describe_acls_request_v0 =
    request 29 0
      ("resource_type" ⦂ int8
        ▸ "resource_name" ⦂ string
        ▸ "principal" ⦂ string
        ▸ "host" ⦂ string
        ▸ "operation" ⦂ int8
        ▸ "permission_type" ⦂ int8
        ▸ end)
      describe_acls_response_v0

abbrev pub describe_acls_request_v1 : RequestType
describe_acls_request_v1 =
    request 29 1
      ("resource_type" ⦂ int8
        ▸ "resource_name" ⦂ string
        ▸ "resource_pattern_type_filter" ⦂ int8
        ▸ "principal" ⦂ string
        ▸ "host" ⦂ string
        ▸ "operation" ⦂ int8
        ▸ "permission_type" ⦂ int8
        ▸ end)
      describe_acls_response_v1

abbrev pub describe_acls_request_v2 : RequestType
describe_acls_request_v2 = request 29 2 describe_acls_request_v1.fields describe_acls_response_v2

abbrev pub create_acls_response_v0 : ResponseType
create_acls_response_v0 = response 30 0 (
    "throttle_time_ms" ⦂ int32
    ▸ "creation_responses" ⦂ array_of ("error_code" ⦂ int16 ▸ "error_message" ⦂ string ▸ end)
    ▸ end)

abbrev pub create_acls_response_v1 : ResponseType
create_acls_response_v1 = response 30 1 create_acls_response_v0.fields

abbrev pub create_acls_request_v0 : RequestType
create_acls_request_v0 =
    request 30 0
      ("creations"
          ⦂ array_of (
              "resource_type" ⦂ int8
              ▸ "resource_name" ⦂ string
              ▸ "principal" ⦂ string
              ▸ "host" ⦂ string
              ▸ "operation" ⦂ int8
              ▸ "permission_type" ⦂ int8
              ▸ end)
        ▸ end)
      create_acls_response_v0

abbrev pub create_acls_request_v1 : RequestType
create_acls_request_v1 =
    request 30 1
      ("creations"
          ⦂ array_of (
              "resource_type" ⦂ int8
              ▸ "resource_name" ⦂ string
              ▸ "resource_pattern_type" ⦂ int8
              ▸ "principal" ⦂ string
              ▸ "host" ⦂ string
              ▸ "operation" ⦂ int8
              ▸ "permission_type" ⦂ int8
              ▸ end)
        ▸ end)
      create_acls_response_v1

abbrev pub delete_acls_response_v0 : ResponseType
delete_acls_response_v0 = response 31 0 (
    "throttle_time_ms" ⦂ int32
    ▸ "filter_responses"
      ⦂ array_of (
          "error_code" ⦂ int16
          ▸ "error_message" ⦂ string
          ▸ "matching_acls"
            ⦂ array_of (
                "error_code" ⦂ int16
                ▸ "error_message" ⦂ string
                ▸ "resource_type" ⦂ int8
                ▸ "resource_name" ⦂ string
                ▸ "principal" ⦂ string
                ▸ "host" ⦂ string
                ▸ "operation" ⦂ int8
                ▸ "permission_type" ⦂ int8
                ▸ end)
          ▸ end)
    ▸ end)

abbrev pub delete_acls_response_v1 : ResponseType
delete_acls_response_v1 = response 31 1 (
    "throttle_time_ms" ⦂ int32
    ▸ "filter_responses"
      ⦂ array_of (
          "error_code" ⦂ int16
          ▸ "error_message" ⦂ string
          ▸ "matching_acls"
            ⦂ array_of (
                "error_code" ⦂ int16
                ▸ "error_message" ⦂ string
                ▸ "resource_type" ⦂ int8
                ▸ "resource_name" ⦂ string
                ▸ "resource_pattern_type" ⦂ int8
                ▸ "principal" ⦂ string
                ▸ "host" ⦂ string
                ▸ "operation" ⦂ int8
                ▸ "permission_type" ⦂ int8
                ▸ end)
          ▸ end)
    ▸ end)

abbrev pub delete_acls_request_v0 : RequestType
delete_acls_request_v0 =
    request 31 0
      ("filters"
          ⦂ array_of (
              "resource_type" ⦂ int8
              ▸ "resource_name" ⦂ string
              ▸ "principal" ⦂ string
              ▸ "host" ⦂ string
              ▸ "operation" ⦂ int8
              ▸ "permission_type" ⦂ int8
              ▸ end)
        ▸ end)
      delete_acls_response_v0

abbrev pub delete_acls_request_v1 : RequestType
delete_acls_request_v1 =
    request 31 1
      ("filters"
          ⦂ array_of (
              "resource_type" ⦂ int8
              ▸ "resource_name" ⦂ string
              ▸ "resource_pattern_type_filter" ⦂ int8
              ▸ "principal" ⦂ string
              ▸ "host" ⦂ string
              ▸ "operation" ⦂ int8
              ▸ "permission_type" ⦂ int8
              ▸ end)
        ▸ end)
      delete_acls_response_v1

abbrev pub describe_acls_request : List RequestType
describe_acls_request =
    describe_acls_request_v0 ∷ describe_acls_request_v1 ∷ describe_acls_request_v2 ∷ []

abbrev pub describe_acls_response : List ResponseType
describe_acls_response =
    describe_acls_response_v0 ∷ describe_acls_response_v1 ∷ describe_acls_response_v2 ∷ []

abbrev pub create_acls_request : List RequestType
create_acls_request = create_acls_request_v0 ∷ create_acls_request_v1 ∷ []

abbrev pub create_acls_response : List ResponseType
create_acls_response = create_acls_response_v0 ∷ create_acls_response_v1 ∷ []

abbrev pub delete_acls_request : List RequestType
delete_acls_request = delete_acls_request_v0 ∷ delete_acls_request_v1 ∷ []

abbrev pub delete_acls_response : List ResponseType
delete_acls_response = delete_acls_response_v0 ∷ delete_acls_response_v1 ∷ []
