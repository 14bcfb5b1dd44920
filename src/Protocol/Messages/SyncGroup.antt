-- ===== src/Protocol/Messages/SyncGroup.antt =====
-- kafka/protocol/group.py: the classes of SyncGroup, Heartbeat, LeaveGroup.
use kafka_python.Common.{List, [], ◌∷◌}
use kafka_python.Protocol.Types.{int16, int32, string, bytes, array_of, end, ◌▸◌, ◌⦂◌}
use kafka_python.Protocol.Message.{RequestType, ResponseType, response, request}

abbrev pub sync_group_response_v0 : ResponseType
sync_group_response_v0 = response 14 0 ("error_code" ⦂ int16 ▸ "member_assignment" ⦂ bytes ▸ end)

abbrev pub sync_group_response_v1 : ResponseType
sync_group_response_v1 =
    response 14 1
      ("throttle_time_ms" ⦂ int32 ▸ "error_code" ⦂ int16 ▸ "member_assignment" ⦂ bytes ▸ end)

abbrev pub sync_group_response_v2 : ResponseType
sync_group_response_v2 = response 14 2 sync_group_response_v1.fields

abbrev pub sync_group_request_v0 : RequestType
sync_group_request_v0 =
    request 14 0
      ("group" ⦂ string
        ▸ "generation_id" ⦂ int32
        ▸ "member_id" ⦂ string
        ▸ "group_assignment" ⦂ array_of ("member_id" ⦂ string ▸ "member_metadata" ⦂ bytes ▸ end)
        ▸ end)
      sync_group_response_v0

abbrev pub sync_group_request_v1 : RequestType
sync_group_request_v1 = request 14 1 sync_group_request_v0.fields sync_group_response_v1

abbrev pub sync_group_request_v2 : RequestType
sync_group_request_v2 = request 14 2 sync_group_request_v1.fields sync_group_response_v2

abbrev pub heartbeat_response_v0 : ResponseType
heartbeat_response_v0 = response 12 0 ("error_code" ⦂ int16 ▸ end)

abbrev pub heartbeat_response_v1 : ResponseType
heartbeat_response_v1 = response 12 1 ("throttle_time_ms" ⦂ int32 ▸ "error_code" ⦂ int16 ▸ end)

abbrev pub heartbeat_response_v2 : ResponseType
heartbeat_response_v2 = response 12 2 heartbeat_response_v1.fields

abbrev pub heartbeat_request_v0 : RequestType
heartbeat_request_v0 =
    request 12 0 ("group" ⦂ string ▸ "generation_id" ⦂ int32 ▸ "member_id" ⦂ string ▸ end)
      heartbeat_response_v0

abbrev pub heartbeat_request_v1 : RequestType
heartbeat_request_v1 = request 12 1 heartbeat_request_v0.fields heartbeat_response_v1

abbrev pub heartbeat_request_v2 : RequestType
heartbeat_request_v2 = request 12 2 heartbeat_request_v1.fields heartbeat_response_v2

abbrev pub leave_group_response_v0 : ResponseType
leave_group_response_v0 = response 13 0 ("error_code" ⦂ int16 ▸ end)

abbrev pub leave_group_response_v1 : ResponseType
leave_group_response_v1 = response 13 1 ("throttle_time_ms" ⦂ int32 ▸ "error_code" ⦂ int16 ▸ end)

abbrev pub leave_group_response_v2 : ResponseType
leave_group_response_v2 = response 13 2 leave_group_response_v1.fields

abbrev pub leave_group_request_v0 : RequestType
leave_group_request_v0 =
    request 13 0 ("group" ⦂ string ▸ "member_id" ⦂ string ▸ end) leave_group_response_v0

abbrev pub leave_group_request_v1 : RequestType
leave_group_request_v1 = request 13 1 leave_group_request_v0.fields leave_group_response_v1

abbrev pub leave_group_request_v2 : RequestType
leave_group_request_v2 = request 13 2 leave_group_request_v1.fields leave_group_response_v2

abbrev pub sync_group_request : List RequestType
sync_group_request = sync_group_request_v0 ∷ sync_group_request_v1 ∷ sync_group_request_v2 ∷ []

abbrev pub sync_group_response : List ResponseType
sync_group_response = sync_group_response_v0 ∷ sync_group_response_v1 ∷ sync_group_response_v2 ∷ []

abbrev pub heartbeat_request : List RequestType
heartbeat_request = heartbeat_request_v0 ∷ heartbeat_request_v1 ∷ heartbeat_request_v2 ∷ []

abbrev pub heartbeat_response : List ResponseType
heartbeat_response = heartbeat_response_v0 ∷ heartbeat_response_v1 ∷ heartbeat_response_v2 ∷ []

abbrev pub leave_group_request : List RequestType
leave_group_request = leave_group_request_v0 ∷ leave_group_request_v1 ∷ leave_group_request_v2 ∷ []

abbrev pub leave_group_response : List ResponseType
leave_group_response =
    leave_group_response_v0 ∷ leave_group_response_v1 ∷ leave_group_response_v2 ∷ []
