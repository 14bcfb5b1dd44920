-- ===== src/Protocol/Messages/ListOffsets.antt =====
-- kafka/protocol/list_offsets.py: the classes.
use kafka_python.Common.{List, [], ◌∷◌}
use kafka_python.Protocol.Types.{int8, int16, int32, int64, string, array, array_of, end, ◌▸◌, ◌⦂◌}
use kafka_python.Protocol.Message.{RequestType, ResponseType, response, request}

abbrev pub list_offsets_response_v0 : ResponseType
list_offsets_response_v0 = response 2 0 (
    "topics"
      ⦂ array_of (
          "topic" ⦂ string
          ▸ "partitions"
            ⦂ array_of ("partition" ⦂ int32 ▸ "error_code" ⦂ int16 ▸ "offsets" ⦂ array int64 ▸ end)
          ▸ end)
    ▸ end)

abbrev pub list_offsets_response_v1 : ResponseType
list_offsets_response_v1 = response 2 1 (
    "topics"
      ⦂ array_of (
          "topic" ⦂ string
          ▸ "partitions"
            ⦂ array_of (
                "partition" ⦂ int32
                ▸ "error_code" ⦂ int16
                ▸ "timestamp" ⦂ int64
                ▸ "offset" ⦂ int64
                ▸ end)
          ▸ end)
    ▸ end)

abbrev pub list_offsets_response_v2 : ResponseType
list_offsets_response_v2 = response 2 2 (
    "throttle_time_ms" ⦂ int32
    ▸ "topics"
      ⦂ array_of (
          "topic" ⦂ string
          ▸ "partitions"
            ⦂ array_of (
                "partition" ⦂ int32
                ▸ "error_code" ⦂ int16
                ▸ "timestamp" ⦂ int64
                ▸ "offset" ⦂ int64
                ▸ end)
          ▸ end)
    ▸ end)

abbrev pub list_offsets_response_v3 : ResponseType
list_offsets_response_v3 = response 2 3 list_offsets_response_v2.fields

abbrev pub list_offsets_response_v4 : ResponseType
list_offsets_response_v4 = response 2 4 (
    "throttle_time_ms" ⦂ int32
    ▸ "topics"
      ⦂ array_of (
          "topic" ⦂ string
          ▸ "partitions"
            ⦂ array_of (
                "partition" ⦂ int32
                ▸ "error_code" ⦂ int16
                ▸ "timestamp" ⦂ int64
                ▸ "offset" ⦂ int64
                ▸ "leader_epoch" ⦂ int32
                ▸ end)
          ▸ end)
    ▸ end)

abbrev pub list_offsets_response_v5 : ResponseType
list_offsets_response_v5 = response 2 5 list_offsets_response_v4.fields

abbrev pub list_offsets_request_v0 : RequestType
list_offsets_request_v0 =
    request 2 0
      ("replica_id" ⦂ int32
        ▸ "topics"
          ⦂ array_of (
              "topic" ⦂ string
              ▸ "partitions"
                ⦂ array_of ("partition" ⦂ int32 ▸ "timestamp" ⦂ int64 ▸ "max_offsets" ⦂ int32 ▸ end)
              ▸ end)
        ▸ end)
      list_offsets_response_v0

abbrev pub list_offsets_request_v1 : RequestType
list_offsets_request_v1 =
    request 2 1
      ("replica_id" ⦂ int32
        ▸ "topics"
          ⦂ array_of (
              "topic" ⦂ string
              ▸ "partitions" ⦂ array_of ("partition" ⦂ int32 ▸ "timestamp" ⦂ int64 ▸ end)
              ▸ end)
        ▸ end)
      list_offsets_response_v1

abbrev pub list_offsets_request_v2 : RequestType
list_offsets_request_v2 =
    request 2 2
      ("replica_id" ⦂ int32
        ▸ "isolation_level" ⦂ int8
        ▸ "topics"
          ⦂ array_of (
              "topic" ⦂ string
              ▸ "partitions" ⦂ array_of ("partition" ⦂ int32 ▸ "timestamp" ⦂ int64 ▸ end)
              ▸ end)
        ▸ end)
      list_offsets_response_v2

abbrev pub list_offsets_request_v3 : RequestType
list_offsets_request_v3 = request 2 3 list_offsets_request_v2.fields list_offsets_response_v3

abbrev pub list_offsets_request_v4 : RequestType
list_offsets_request_v4 =
    request 2 4
      ("replica_id" ⦂ int32
        ▸ "isolation_level" ⦂ int8
        ▸ "topics"
          ⦂ array_of (
              "topic" ⦂ string
              ▸ "partitions"
                ⦂ array_of (
                    "partition" ⦂ int32
                    ▸ "current_leader_epoch" ⦂ int32
                    ▸ "timestamp" ⦂ int64
                    ▸ end)
              ▸ end)
        ▸ end)
      list_offsets_response_v4

abbrev pub list_offsets_request_v5 : RequestType
list_offsets_request_v5 = request 2 5 list_offsets_request_v4.fields list_offsets_response_v5

abbrev pub list_offsets_request : List RequestType
list_offsets_request =
    list_offsets_request_v0 ∷ list_offsets_request_v1 ∷ list_offsets_request_v2
    ∷ list_offsets_request_v3 ∷ list_offsets_request_v4 ∷ list_offsets_request_v5 ∷ []

abbrev pub list_offsets_response : List ResponseType
list_offsets_response =
    list_offsets_response_v0 ∷ list_offsets_response_v1 ∷ list_offsets_response_v2
    ∷ list_offsets_response_v3 ∷ list_offsets_response_v4 ∷ list_offsets_response_v5 ∷ []
