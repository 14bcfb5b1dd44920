-- ===== src/Protocol/Messages/FetchRequests.antt =====
-- kafka/protocol/fetch.py: the classes of FetchRequest.
use kafka_python.Common.{List, [], ◌∷◌}
use kafka_python.Protocol.Types.{int8, int32, int64, string, array, array_of, end, ◌▸◌, ◌⦂◌}
use kafka_python.Protocol.Message.{RequestType, request}
use kafka_python.Protocol.Messages.FetchResponses.{
  fetch_response_v0, fetch_response_v1, fetch_response_v2, fetch_response_v3, fetch_response_v4,
  fetch_response_v5, fetch_response_v6, fetch_response_v7, fetch_response_v8, fetch_response_v9,
  fetch_response_v10, fetch_response_v11,
}

abbrev pub fetch_request_v0 : RequestType
fetch_request_v0 =
    request 1 0
      ("replica_id" ⦂ int32
        ▸ "max_wait_time" ⦂ int32
        ▸ "min_bytes" ⦂ int32
        ▸ "topics"
          ⦂ array_of (
              "topic" ⦂ string
              ▸ "partitions"
                ⦂ array_of ("partition" ⦂ int32 ▸ "offset" ⦂ int64 ▸ "max_bytes" ⦂ int32 ▸ end)
              ▸ end)
        ▸ end)
      fetch_response_v0

abbrev pub fetch_request_v1 : RequestType
fetch_request_v1 = request 1 1 fetch_request_v0.fields fetch_response_v1

abbrev pub fetch_request_v2 : RequestType
fetch_request_v2 = request 1 2 fetch_request_v1.fields fetch_response_v2

abbrev pub fetch_request_v3 : RequestType
fetch_request_v3 =
    request 1 3
      ("replica_id" ⦂ int32
        ▸ "max_wait_time" ⦂ int32
        ▸ "min_bytes" ⦂ int32
        ▸ "max_bytes" ⦂ int32
        ▸ "topics"
          ⦂ array_of (
              "topic" ⦂ string
              ▸ "partitions"
                ⦂ array_of ("partition" ⦂ int32 ▸ "offset" ⦂ int64 ▸ "max_bytes" ⦂ int32 ▸ end)
              ▸ end)
        ▸ end)
      fetch_response_v3

abbrev pub fetch_request_v4 : RequestType
fetch_request_v4 =
    request 1 4
      ("replica_id" ⦂ int32
        ▸ "max_wait_time" ⦂ int32
        ▸ "min_bytes" ⦂ int32
        ▸ "max_bytes" ⦂ int32
        ▸ "isolation_level" ⦂ int8
        ▸ "topics"
          ⦂ array_of (
              "topic" ⦂ string
              ▸ "partitions"
                ⦂ array_of ("partition" ⦂ int32 ▸ "offset" ⦂ int64 ▸ "max_bytes" ⦂ int32 ▸ end)
              ▸ end)
        ▸ end)
      fetch_response_v4

abbrev pub fetch_request_v5 : RequestType
fetch_request_v5 =
    request 1 5
      ("replica_id" ⦂ int32
        ▸ "max_wait_time" ⦂ int32
        ▸ "min_bytes" ⦂ int32
        ▸ "max_bytes" ⦂ int32
        ▸ "isolation_level" ⦂ int8
        ▸ "topics"
          ⦂ array_of (
              "topic" ⦂ string
              ▸ "partitions"
                ⦂ array_of (
                    "partition" ⦂ int32
                    ▸ "fetch_offset" ⦂ int64
                    ▸ "log_start_offset" ⦂ int64
                    ▸ "max_bytes" ⦂ int32
                    ▸ end)
              ▸ end)
        ▸ end)
      fetch_response_v5

abbrev pub fetch_request_v6 : RequestType
fetch_request_v6 = request 1 6 fetch_request_v5.fields fetch_response_v6

abbrev pub fetch_request_v7 : RequestType
fetch_request_v7 =
    request 1 7
      ("replica_id" ⦂ int32
        ▸ "max_wait_time" ⦂ int32
        ▸ "min_bytes" ⦂ int32
        ▸ "max_bytes" ⦂ int32
        ▸ "isolation_level" ⦂ int8
        ▸ "session_id" ⦂ int32
        ▸ "session_epoch" ⦂ int32
        ▸ "topics"
          ⦂ array_of (
              "topic" ⦂ string
              ▸ "partitions"
                ⦂ array_of (
                    "partition" ⦂ int32
                    ▸ "fetch_offset" ⦂ int64
                    ▸ "log_start_offset" ⦂ int64
                    ▸ "max_bytes" ⦂ int32
                    ▸ end)
              ▸ end)
        ▸ "forgotten_topics_data" ⦂ array_of ("topic" ⦂ string ▸ "partitions" ⦂ array int32 ▸ end)
        ▸ end)
      fetch_response_v7

abbrev pub fetch_request_v8 : RequestType
fetch_request_v8 = request 1 8 fetch_request_v7.fields fetch_response_v8

abbrev pub fetch_request_v9 : RequestType
fetch_request_v9 =
    request 1 9
      ("replica_id" ⦂ int32
        ▸ "max_wait_time" ⦂ int32
        ▸ "min_bytes" ⦂ int32
        ▸ "max_bytes" ⦂ int32
        ▸ "isolation_level" ⦂ int8
        ▸ "session_id" ⦂ int32
        ▸ "session_epoch" ⦂ int32
        ▸ "topics"
          ⦂ array_of (
              "topic" ⦂ string
              ▸ "partitions"
                ⦂ array_of (
                    "partition" ⦂ int32
                    ▸ "current_leader_epoch" ⦂ int32
                    ▸ "fetch_offset" ⦂ int64
                    ▸ "log_start_offset" ⦂ int64
                    ▸ "max_bytes" ⦂ int32
                    ▸ end)
              ▸ end)
        ▸ "forgotten_topics_data" ⦂ array_of ("topic" ⦂ string ▸ "partitions" ⦂ array int32 ▸ end)
        ▸ end)
      fetch_response_v9

abbrev pub fetch_request_v10 : RequestType
fetch_request_v10 = request 1 10 fetch_request_v9.fields fetch_response_v10

abbrev pub fetch_request_v11 : RequestType
fetch_request_v11 =
    request 1 11
      ("replica_id" ⦂ int32
        ▸ "max_wait_time" ⦂ int32
        ▸ "min_bytes" ⦂ int32
        ▸ "max_bytes" ⦂ int32
        ▸ "isolation_level" ⦂ int8
        ▸ "session_id" ⦂ int32
        ▸ "session_epoch" ⦂ int32
        ▸ "topics"
          ⦂ array_of (
              "topic" ⦂ string
              ▸ "partitions"
                ⦂ array_of (
                    "partition" ⦂ int32
                    ▸ "current_leader_epoch" ⦂ int32
                    ▸ "fetch_offset" ⦂ int64
                    ▸ "log_start_offset" ⦂ int64
                    ▸ "max_bytes" ⦂ int32
                    ▸ end)
              ▸ end)
        ▸ "forgotten_topics_data" ⦂ array_of ("topic" ⦂ string ▸ "partitions" ⦂ array int32 ▸ end)
        ▸ "rack_id" ⦂ string
        ▸ end)
      fetch_response_v11

abbrev pub fetch_request : List RequestType
fetch_request =
    fetch_request_v0 ∷ fetch_request_v1 ∷ fetch_request_v2 ∷ fetch_request_v3 ∷ fetch_request_v4
    ∷ fetch_request_v5 ∷ fetch_request_v6 ∷ fetch_request_v7 ∷ fetch_request_v8 ∷ fetch_request_v9
    ∷ fetch_request_v10 ∷ fetch_request_v11 ∷ []
