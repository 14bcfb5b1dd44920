-- ===== src/Protocol/Messages/OffsetFetch.antt =====
-- kafka/protocol/commit.py: the classes of OffsetFetch.
use kafka_python.Common.{List, [], ◌∷◌}
use kafka_python.Protocol.Types.{int16, int32, int64, string, array, array_of, end, ◌▸◌, ◌⦂◌}
use kafka_python.Protocol.Message.{RequestType, ResponseType, response, request}

abbrev pub offset_fetch_response_v0 : ResponseType
offset_fetch_response_v0 = response 9 0 (
    "topics"
      ⦂ array_of (
          "topic" ⦂ string
          ▸ "partitions"
            ⦂ array_of (
                "partition" ⦂ int32
                ▸ "offset" ⦂ int64
                ▸ "metadata" ⦂ string
                ▸ "error_code" ⦂ int16
                ▸ end)
          ▸ end)
    ▸ end)

abbrev pub offset_fetch_response_v1 : ResponseType
offset_fetch_response_v1 = response 9 1 offset_fetch_response_v0.fields

abbrev pub offset_fetch_response_v2 : ResponseType
offset_fetch_response_v2 = response 9 2 (
    "topics"
      ⦂ array_of (
          "topic" ⦂ string
          ▸ "partitions"
            ⦂ array_of (
                "partition" ⦂ int32
                ▸ "offset" ⦂ int64
                ▸ "metadata" ⦂ string
                ▸ "error_code" ⦂ int16
                ▸ end)
          ▸ end)
    ▸ "error_code" ⦂ int16
    ▸ end)

abbrev pub offset_fetch_response_v3 : ResponseType
offset_fetch_response_v3 = response 9 3 (
    "throttle_time_ms" ⦂ int32
    ▸ "topics"
      ⦂ array_of (
          "topic" ⦂ string
          ▸ "partitions"
            ⦂ array_of (
                "partition" ⦂ int32
                ▸ "offset" ⦂ int64
                ▸ "metadata" ⦂ string
                ▸ "error_code" ⦂ int16
                ▸ end)
          ▸ end)
    ▸ "error_code" ⦂ int16
    ▸ end)

abbrev pub offset_fetch_response_v4 : ResponseType
offset_fetch_response_v4 = response 9 4 offset_fetch_response_v3.fields

abbrev pub offset_fetch_response_v5 : ResponseType
offset_fetch_response_v5 = response 9 5 (
    "throttle_time_ms" ⦂ int32
    ▸ "topics"
      ⦂ array_of (
          "topic" ⦂ string
          ▸ "partitions"
            ⦂ array_of (
                "partition" ⦂ int32
                ▸ "offset" ⦂ int64
                ▸ "leader_epoch" ⦂ int32
                ▸ "metadata" ⦂ string
                ▸ "error_code" ⦂ int16
                ▸ end)
          ▸ end)
    ▸ "error_code" ⦂ int16
    ▸ end)

abbrev pub offset_fetch_request_v0 : RequestType
offset_fetch_request_v0 =
    request 9 0
      ("consumer_group" ⦂ string
        ▸ "topics" ⦂ array_of ("topic" ⦂ string ▸ "partitions" ⦂ array int32 ▸ end)
        ▸ end)
      offset_fetch_response_v0

abbrev pub offset_fetch_request_v1 : RequestType
offset_fetch_request_v1 = request 9 1 offset_fetch_request_v0.fields offset_fetch_response_v1

abbrev pub offset_fetch_request_v2 : RequestType
offset_fetch_request_v2 = request 9 2 offset_fetch_request_v1.fields offset_fetch_response_v2

abbrev pub offset_fetch_request_v3 : RequestType
offset_fetch_request_v3 = request 9 3 offset_fetch_request_v2.fields offset_fetch_response_v3

abbrev pub offset_fetch_request_v4 : RequestType
offset_fetch_request_v4 = request 9 4 offset_fetch_request_v3.fields offset_fetch_response_v4

abbrev pub offset_fetch_request_v5 : RequestType
offset_fetch_request_v5 = request 9 5 offset_fetch_request_v4.fields offset_fetch_response_v5

abbrev pub offset_fetch_request : List RequestType
offset_fetch_request =
    offset_fetch_request_v0 ∷ offset_fetch_request_v1 ∷ offset_fetch_request_v2
    ∷ offset_fetch_request_v3 ∷ offset_fetch_request_v4 ∷ offset_fetch_request_v5 ∷ []

abbrev pub offset_fetch_response : List ResponseType
offset_fetch_response =
    offset_fetch_response_v0 ∷ offset_fetch_response_v1 ∷ offset_fetch_response_v2
    ∷ offset_fetch_response_v3 ∷ offset_fetch_response_v4 ∷ offset_fetch_response_v5 ∷ []
