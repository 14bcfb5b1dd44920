-- ===== src/Protocol/Messages/OffsetCommit.antt =====
-- kafka/protocol/commit.py: the classes of OffsetCommit.
use kafka_python.Common.{List, [], ◌∷◌}
use kafka_python.Protocol.Types.{int16, int32, int64, string, array_of, end, ◌▸◌, ◌⦂◌}
use kafka_python.Protocol.Message.{RequestType, ResponseType, response, request}

abbrev pub offset_commit_response_v0 : ResponseType
offset_commit_response_v0 = response 8 0 (
    "topics"
      ⦂ array_of (
          "topic" ⦂ string
          ▸ "partitions" ⦂ array_of ("partition" ⦂ int32 ▸ "error_code" ⦂ int16 ▸ end)
          ▸ end)
    ▸ end)

abbrev pub offset_commit_response_v1 : ResponseType
offset_commit_response_v1 = response 8 1 offset_commit_response_v0.fields

abbrev pub offset_commit_response_v2 : ResponseType
offset_commit_response_v2 = response 8 2 offset_commit_response_v1.fields

abbrev pub offset_commit_response_v3 : ResponseType
offset_commit_response_v3 = response 8 3 (
    "throttle_time_ms" ⦂ int32
    ▸ "topics"
      ⦂ array_of (
          "topic" ⦂ string
          ▸ "partitions" ⦂ array_of ("partition" ⦂ int32 ▸ "error_code" ⦂ int16 ▸ end)
          ▸ end)
    ▸ end)

abbrev pub offset_commit_response_v4 : ResponseType
offset_commit_response_v4 = response 8 4 offset_commit_response_v3.fields

abbrev pub offset_commit_response_v5 : ResponseType
offset_commit_response_v5 = response 8 5 offset_commit_response_v4.fields

abbrev pub offset_commit_response_v6 : ResponseType
offset_commit_response_v6 = response 8 6 offset_commit_response_v5.fields

abbrev pub offset_commit_request_v0 : RequestType
offset_commit_request_v0 =
    request 8 0
      ("consumer_group" ⦂ string
        ▸ "topics"
          ⦂ array_of (
              "topic" ⦂ string
              ▸ "partitions"
                ⦂ array_of ("partition" ⦂ int32 ▸ "offset" ⦂ int64 ▸ "metadata" ⦂ string ▸ end)
              ▸ end)
        ▸ end)
      offset_commit_response_v0

abbrev pub offset_commit_request_v1 : RequestType
offset_commit_request_v1 =
    request 8 1
      ("consumer_group" ⦂ string
        ▸ "consumer_group_generation_id" ⦂ int32
        ▸ "consumer_id" ⦂ string
        ▸ "topics"
          ⦂ array_of (
              "topic" ⦂ string
              ▸ "partitions"
                ⦂ array_of (
                    "partition" ⦂ int32
                    ▸ "offset" ⦂ int64
                    ▸ "timestamp" ⦂ int64
                    ▸ "metadata" ⦂ string
                    ▸ end)
              ▸ end)
        ▸ end)
      offset_commit_response_v1

abbrev pub offset_commit_request_v2 : RequestType
offset_commit_request_v2 =
    request 8 2
      ("consumer_group" ⦂ string
        ▸ "consumer_group_generation_id" ⦂ int32
        ▸ "consumer_id" ⦂ string
        ▸ "retention_time" ⦂ int64
        ▸ "topics"
          ⦂ array_of (
              "topic" ⦂ string
              ▸ "partitions"
                ⦂ array_of ("partition" ⦂ int32 ▸ "offset" ⦂ int64 ▸ "metadata" ⦂ string ▸ end)
              ▸ end)
        ▸ end)
      offset_commit_response_v2

abbrev pub offset_commit_request_v3 : RequestType
offset_commit_request_v3 = request 8 3 offset_commit_request_v2.fields offset_commit_response_v3

abbrev pub offset_commit_request_v4 : RequestType
offset_commit_request_v4 = request 8 4 offset_commit_request_v3.fields offset_commit_response_v4

abbrev pub offset_commit_request_v5 : RequestType
offset_commit_request_v5 =
    request 8 5
      ("consumer_group" ⦂ string
        ▸ "consumer_group_generation_id" ⦂ int32
        ▸ "consumer_id" ⦂ string
        ▸ "topics"
          ⦂ array_of (
              "topic" ⦂ string
              ▸ "partitions"
                ⦂ array_of ("partition" ⦂ int32 ▸ "offset" ⦂ int64 ▸ "metadata" ⦂ string ▸ end)
              ▸ end)
        ▸ end)
      offset_commit_response_v5

abbrev pub offset_commit_request_v6 : RequestType
offset_commit_request_v6 =
    request 8 6
      ("consumer_group" ⦂ string
        ▸ "consumer_group_generation_id" ⦂ int32
        ▸ "consumer_id" ⦂ string
        ▸ "topics"
          ⦂ array_of (
              "topic" ⦂ string
              ▸ "partitions"
                ⦂ array_of (
                    "partition" ⦂ int32
                    ▸ "offset" ⦂ int64
                    ▸ "leader_epoch" ⦂ int32
                    ▸ "metadata" ⦂ string
                    ▸ end)
              ▸ end)
        ▸ end)
      offset_commit_response_v6

abbrev pub offset_commit_request : List RequestType
offset_commit_request =
    offset_commit_request_v0 ∷ offset_commit_request_v1 ∷ offset_commit_request_v2
    ∷ offset_commit_request_v3 ∷ offset_commit_request_v4 ∷ offset_commit_request_v5
    ∷ offset_commit_request_v6 ∷ []

abbrev pub offset_commit_response : List ResponseType
offset_commit_response =
    offset_commit_response_v0 ∷ offset_commit_response_v1 ∷ offset_commit_response_v2
    ∷ offset_commit_response_v3 ∷ offset_commit_response_v4 ∷ offset_commit_response_v5
    ∷ offset_commit_response_v6 ∷ []
