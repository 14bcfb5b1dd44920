-- ===== src/Protocol/Messages/AdminGroups.antt =====
-- kafka/protocol/admin.py: the classes of ListGroups, DescribeGroups, DeleteGroups.
use kafka_python.Common.{List, [], ◌∷◌}
use kafka_python.Protocol.Types.{
  int16, int32, boolean, string, bytes, array, array_of, end, ◌▸◌, ◌⦂◌,
}
use kafka_python.Protocol.Message.{RequestType, ResponseType, response, request}

abbrev pub list_groups_response_v0 : ResponseType
list_groups_response_v0 = response 16 0 (
    "error_code" ⦂ int16
    ▸ "groups" ⦂ array_of ("group" ⦂ string ▸ "protocol_type" ⦂ string ▸ end)
    ▸ end)

abbrev pub list_groups_response_v1 : ResponseType
list_groups_response_v1 = response 16 1 (
    "throttle_time_ms" ⦂ int32
    ▸ "error_code" ⦂ int16
    ▸ "groups" ⦂ array_of ("group" ⦂ string ▸ "protocol_type" ⦂ string ▸ end)
    ▸ end)

abbrev pub list_groups_response_v2 : ResponseType
list_groups_response_v2 = response 16 2 list_groups_response_v1.fields

abbrev pub list_groups_request_v0 : RequestType
list_groups_request_v0 = request 16 0 end list_groups_response_v0

abbrev pub list_groups_request_v1 : RequestType
list_groups_request_v1 = request 16 1 list_groups_request_v0.fields list_groups_response_v1

abbrev pub list_groups_request_v2 : RequestType
list_groups_request_v2 = request 16 1 list_groups_request_v0.fields list_groups_response_v2

abbrev pub describe_groups_response_v0 : ResponseType
describe_groups_response_v0 = response 15 0 (
    "groups"
      ⦂ array_of (
          "error_code" ⦂ int16
          ▸ "group" ⦂ string
          ▸ "state" ⦂ string
          ▸ "protocol_type" ⦂ string
          ▸ "protocol" ⦂ string
          ▸ "members"
            ⦂ array_of (
                "member_id" ⦂ string
                ▸ "client_id" ⦂ string
                ▸ "client_host" ⦂ string
                ▸ "member_metadata" ⦂ bytes
                ▸ "member_assignment" ⦂ bytes
                ▸ end)
          ▸ end)
    ▸ end)

abbrev pub describe_groups_response_v1 : ResponseType
describe_groups_response_v1 = response 15 1 (
    "throttle_time_ms" ⦂ int32
    ▸ "groups"
      ⦂ array_of (
          "error_code" ⦂ int16
          ▸ "group" ⦂ string
          ▸ "state" ⦂ string
          ▸ "protocol_type" ⦂ string
          ▸ "protocol" ⦂ string
          ▸ "members"
            ⦂ array_of (
                "member_id" ⦂ string
                ▸ "client_id" ⦂ string
                ▸ "client_host" ⦂ string
                ▸ "member_metadata" ⦂ bytes
                ▸ "member_assignment" ⦂ bytes
                ▸ end)
          ▸ end)
    ▸ end)

abbrev pub describe_groups_response_v2 : ResponseType
describe_groups_response_v2 = response 15 2 describe_groups_response_v1.fields

-- The tuple of 'groups' holds more than a name and a type in the source. `Schema` takes the tuples
-- apart with `zip`, which keeps the first two elements of each.
abbrev pub describe_groups_response_v3 : ResponseType
describe_groups_response_v3 = response 15 3 (
    "throttle_time_ms" ⦂ int32
    ▸ "groups"
      ⦂ array_of (
          "error_code" ⦂ int16
          ▸ "group" ⦂ string
          ▸ "state" ⦂ string
          ▸ "protocol_type" ⦂ string
          ▸ "protocol" ⦂ string
          ▸ "members"
            ⦂ array_of (
                "member_id" ⦂ string
                ▸ "client_id" ⦂ string
                ▸ "client_host" ⦂ string
                ▸ "member_metadata" ⦂ bytes
                ▸ "member_assignment" ⦂ bytes
                ▸ end)
          ▸ end)
    ▸ end)

abbrev pub describe_groups_request_v0 : RequestType
describe_groups_request_v0 =
    request 15 0 ("groups" ⦂ array string ▸ end) describe_groups_response_v0

abbrev pub describe_groups_request_v1 : RequestType
describe_groups_request_v1 =
    request 15 1 describe_groups_request_v0.fields describe_groups_response_v1

abbrev pub describe_groups_request_v2 : RequestType
describe_groups_request_v2 =
    request 15 2 describe_groups_request_v0.fields describe_groups_response_v2

abbrev pub describe_groups_request_v3 : RequestType
describe_groups_request_v3 =
    request 15 3 ("groups" ⦂ array string ▸ "include_authorized_operations" ⦂ boolean ▸ end)
      describe_groups_response_v2

abbrev pub delete_groups_response_v0 : ResponseType
delete_groups_response_v0 = response 42 0 (
    "throttle_time_ms" ⦂ int32
    ▸ "results" ⦂ array_of ("group_id" ⦂ string ▸ "error_code" ⦂ int16 ▸ end)
    ▸ end)

abbrev pub delete_groups_response_v1 : ResponseType
delete_groups_response_v1 = response 42 1 delete_groups_response_v0.fields

abbrev pub delete_groups_request_v0 : RequestType
delete_groups_request_v0 =
    request 42 0 ("groups_names" ⦂ array string ▸ end) delete_groups_response_v0

abbrev pub delete_groups_request_v1 : RequestType
delete_groups_request_v1 = request 42 1 delete_groups_request_v0.fields delete_groups_response_v1

abbrev pub list_groups_request : List RequestType
list_groups_request = list_groups_request_v0 ∷ list_groups_request_v1 ∷ list_groups_request_v2 ∷ []

abbrev pub list_groups_response : List ResponseType
list_groups_response =
    list_groups_response_v0 ∷ list_groups_response_v1 ∷ list_groups_response_v2 ∷ []

abbrev pub describe_groups_request : List RequestType
describe_groups_request =
    describe_groups_request_v0 ∷ describe_groups_request_v1 ∷ describe_groups_request_v2
    ∷ describe_groups_request_v3 ∷ []

abbrev pub describe_groups_response : List ResponseType
describe_groups_response =
    describe_groups_response_v0 ∷ describe_groups_response_v1 ∷ describe_groups_response_v2
    ∷ describe_groups_response_v3 ∷ []

abbrev pub delete_groups_request : List RequestType
delete_groups_request = delete_groups_request_v0 ∷ delete_groups_request_v1 ∷ []

abbrev pub delete_groups_response : List ResponseType
delete_groups_response = delete_groups_response_v0 ∷ delete_groups_response_v1 ∷ []
