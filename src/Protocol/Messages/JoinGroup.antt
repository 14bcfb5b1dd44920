-- ===== src/Protocol/Messages/JoinGroup.antt =====
-- kafka/protocol/group.py: the classes of JoinGroup.
use kafka_python.Common.{List, [], ◌∷◌}
use kafka_python.Protocol.Types.{int16, int32, string, bytes, array_of, end, ◌▸◌, ◌⦂◌}
use kafka_python.Protocol.Message.{RequestType, ResponseType, response, request}

abbrev pub join_group_response_v0 : ResponseType
join_group_response_v0 = response 11 0 (
    "error_code" ⦂ int16
    ▸ "generation_id" ⦂ int32
    ▸ "group_protocol" ⦂ string
    ▸ "leader_id" ⦂ string
    ▸ "member_id" ⦂ string
    ▸ "members" ⦂ array_of ("member_id" ⦂ string ▸ "member_metadata" ⦂ bytes ▸ end)
    ▸ end)

abbrev pub join_group_response_v1 : ResponseType
join_group_response_v1 = response 11 1 join_group_response_v0.fields

abbrev pub join_group_response_v2 : ResponseType
join_group_response_v2 = response 11 2 (
    "throttle_time_ms" ⦂ int32
    ▸ "error_code" ⦂ int16
    ▸ "generation_id" ⦂ int32
    ▸ "group_protocol" ⦂ string
    ▸ "leader_id" ⦂ string
    ▸ "member_id" ⦂ string
    ▸ "members" ⦂ array_of ("member_id" ⦂ string ▸ "member_metadata" ⦂ bytes ▸ end)
    ▸ end)

abbrev pub join_group_response_v3 : ResponseType
join_group_response_v3 = response 11 3 join_group_response_v2.fields

abbrev pub join_group_response_v4 : ResponseType
join_group_response_v4 = response 11 4 join_group_response_v3.fields

abbrev pub join_group_request_v0 : RequestType
join_group_request_v0 =
    request 11 0
      ("group" ⦂ string
        ▸ "session_timeout" ⦂ int32
        ▸ "member_id" ⦂ string
        ▸ "protocol_type" ⦂ string
        ▸ "group_protocols"
          ⦂ array_of ("protocol_name" ⦂ string ▸ "protocol_metadata" ⦂ bytes ▸ end)
        ▸ end)
      join_group_response_v0

abbrev pub join_group_request_v1 : RequestType
join_group_request_v1 =
    request 11 1
      ("group" ⦂ string
        ▸ "session_timeout" ⦂ int32
        ▸ "rebalance_timeout" ⦂ int32
        ▸ "member_id" ⦂ string
        ▸ "protocol_type" ⦂ string
        ▸ "group_protocols"
          ⦂ array_of ("protocol_name" ⦂ string ▸ "protocol_metadata" ⦂ bytes ▸ end)
        ▸ end)
      join_group_response_v1

abbrev pub join_group_request_v2 : RequestType
join_group_request_v2 = request 11 2 join_group_request_v1.fields join_group_response_v2

abbrev pub join_group_request_v3 : RequestType
join_group_request_v3 = request 11 3 join_group_request_v2.fields join_group_response_v3

abbrev pub join_group_request_v4 : RequestType
join_group_request_v4 = request 11 4 join_group_request_v3.fields join_group_response_v4

abbrev pub join_group_request : List RequestType
join_group_request =
    join_group_request_v0 ∷ join_group_request_v1 ∷ join_group_request_v2 ∷ join_group_request_v3
    ∷ join_group_request_v4 ∷ []

abbrev pub join_group_response : List ResponseType
join_group_response =
    join_group_response_v0 ∷ join_group_response_v1 ∷ join_group_response_v2
    ∷ join_group_response_v3 ∷ join_group_response_v4 ∷ []
