-- ===== src/Protocol/Messages/OffsetForLeaderEpoch.antt =====
-- kafka/protocol/offset_for_leader_epoch.py: the classes.
use kafka_python.Common.{List, [], ◌∷◌}
use kafka_python.Protocol.Types.{
  int16, int32, int64, string, compact_string, tagged_fields, array_of, compact_array_of, end, ◌▸◌,
  ◌⦂◌,
}
use kafka_python.Protocol.Message.{RequestType, ResponseType, response, request}

abbrev pub offset_for_leader_epoch_response_v0 : ResponseType
offset_for_leader_epoch_response_v0 = response 23 0 (
    "topics"
      ⦂ array_of (
          "topic" ⦂ string
          ▸ "partitions"
            ⦂ array_of ("error_code" ⦂ int16 ▸ "partition" ⦂ int32 ▸ "end_offset" ⦂ int64 ▸ end)
          ▸ end)
    ▸ end)

abbrev pub offset_for_leader_epoch_response_v1 : ResponseType
offset_for_leader_epoch_response_v1 = response 23 1 (
    "topics"
      ⦂ array_of (
          "topic" ⦂ string
          ▸ "partitions"
            ⦂ array_of (
                "error_code" ⦂ int16
                ▸ "partition" ⦂ int32
                ▸ "leader_epoch" ⦂ int32
                ▸ "end_offset" ⦂ int64
                ▸ end)
          ▸ end)
    ▸ end)

abbrev pub offset_for_leader_epoch_response_v2 : ResponseType
offset_for_leader_epoch_response_v2 = response 23 2 (
    "throttle_time_ms" ⦂ int32
    ▸ "topics"
      ⦂ array_of (
          "topic" ⦂ string
          ▸ "partitions"
            ⦂ array_of (
                "error_code" ⦂ int16
                ▸ "partition" ⦂ int32
                ▸ "leader_epoch" ⦂ int32
                ▸ "end_offset" ⦂ int64
                ▸ end)
          ▸ end)
    ▸ end)

abbrev pub offset_for_leader_epoch_response_v3 : ResponseType
offset_for_leader_epoch_response_v3 = response 23 3 offset_for_leader_epoch_response_v2.fields

abbrev pub offset_for_leader_epoch_response_v4 : ResponseType
offset_for_leader_epoch_response_v4 = response 23 4 (
    "throttle_time_ms" ⦂ int32
    ▸ "topics"
      ⦂ compact_array_of (
          "topic" ⦂ compact_string
          ▸ "partitions"
            ⦂ compact_array_of (
                "error_code" ⦂ int16
                ▸ "partition" ⦂ int32
                ▸ "leader_epoch" ⦂ int32
                ▸ "end_offset" ⦂ int64
                ▸ "tags" ⦂ tagged_fields
                ▸ end)
          ▸ "tags" ⦂ tagged_fields
          ▸ end)
    ▸ "tags" ⦂ tagged_fields
    ▸ end)

abbrev pub offset_for_leader_epoch_request_v0 : RequestType
offset_for_leader_epoch_request_v0 =
    request 23 0
      ("topics"
          ⦂ array_of (
              "topic" ⦂ string
              ▸ "partitions" ⦂ array_of ("partition" ⦂ int32 ▸ "leader_epoch" ⦂ int32 ▸ end)
              ▸ end)
        ▸ end)
      offset_for_leader_epoch_response_v0

abbrev pub offset_for_leader_epoch_request_v1 : RequestType
offset_for_leader_epoch_request_v1 =
    request 23 1 offset_for_leader_epoch_request_v0.fields offset_for_leader_epoch_response_v1

abbrev pub offset_for_leader_epoch_request_v2 : RequestType
offset_for_leader_epoch_request_v2 =
    request 23 2
      ("topics"
          ⦂ array_of (
              "topic" ⦂ string
              ▸ "partitions"
                ⦂ array_of (
                    "partition" ⦂ int32
                    ▸ "current_leader_epoch" ⦂ int32
                    ▸ "leader_epoch" ⦂ int32
                    ▸ end)
              ▸ end)
        ▸ end)
      offset_for_leader_epoch_response_v2

abbrev pub offset_for_leader_epoch_request_v3 : RequestType
offset_for_leader_epoch_request_v3 =
    request 23 3
      ("replica_id" ⦂ int32
        ▸ "topics"
          ⦂ array_of (
              "topic" ⦂ string
              ▸ "partitions"
                ⦂ array_of (
                    "partition" ⦂ int32
                    ▸ "current_leader_epoch" ⦂ int32
                    ▸ "leader_epoch" ⦂ int32
                    ▸ end)
              ▸ end)
        ▸ end)
      offset_for_leader_epoch_response_v3

abbrev pub offset_for_leader_epoch_request_v4 : RequestType
offset_for_leader_epoch_request_v4 =
    request 23 4
      ("replica_id" ⦂ int32
        ▸ "topics"
          ⦂ compact_array_of (
              "topic" ⦂ compact_string
              ▸ "partitions"
                ⦂ compact_array_of (
                    "partition" ⦂ int32
                    ▸ "current_leader_epoch" ⦂ int32
                    ▸ "leader_epoch" ⦂ int32
                    ▸ "tags" ⦂ tagged_fields
                    ▸ end)
              ▸ "tags" ⦂ tagged_fields
              ▸ end)
        ▸ "tags" ⦂ tagged_fields
        ▸ end)
      offset_for_leader_epoch_response_v4

abbrev pub offset_for_leader_epoch_request : List RequestType
offset_for_leader_epoch_request =
    offset_for_leader_epoch_request_v0 ∷ offset_for_leader_epoch_request_v1
    ∷ offset_for_leader_epoch_request_v2 ∷ offset_for_leader_epoch_request_v3
    ∷ offset_for_leader_epoch_request_v4 ∷ []

abbrev pub offset_for_leader_epoch_response : List ResponseType
offset_for_leader_epoch_response =
    offset_for_leader_epoch_response_v0 ∷ offset_for_leader_epoch_response_v1
    ∷ offset_for_leader_epoch_response_v2 ∷ offset_for_leader_epoch_response_v3
    ∷ offset_for_leader_epoch_response_v4 ∷ []
