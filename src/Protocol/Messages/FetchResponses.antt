-- ===== src/Protocol/Messages/FetchResponses.antt =====
-- kafka/protocol/fetch.py: the classes of FetchResponse.
use kafka_python.Common.{List, [], ◌∷◌}
use kafka_python.Protocol.Types.{int16, int32, int64, string, bytes, array_of, end, ◌▸◌, ◌⦂◌}
use kafka_python.Protocol.Message.{ResponseType, response}

abbrev pub fetch_response_v0 : ResponseType
fetch_response_v0 = response 1 0 (
    "topics"
      ⦂ array_of (
          "topics" ⦂ string
          ▸ "partitions"
            ⦂ array_of (
                "partition" ⦂ int32
                ▸ "error_code" ⦂ int16
                ▸ "highwater_offset" ⦂ int64
                ▸ "records" ⦂ bytes
                ▸ end)
          ▸ end)
    ▸ end)

abbrev pub fetch_response_v1 : ResponseType
fetch_response_v1 = response 1 1 (
    "throttle_time_ms" ⦂ int32
    ▸ "topics"
      ⦂ array_of (
          "topics" ⦂ string
          ▸ "partitions"
            ⦂ array_of (
                "partition" ⦂ int32
                ▸ "error_code" ⦂ int16
                ▸ "highwater_offset" ⦂ int64
                ▸ "records" ⦂ bytes
                ▸ end)
          ▸ end)
    ▸ end)

abbrev pub fetch_response_v2 : ResponseType
fetch_response_v2 = response 1 2 fetch_response_v1.fields

abbrev pub fetch_response_v3 : ResponseType
fetch_response_v3 = response 1 3 fetch_response_v2.fields

abbrev pub fetch_response_v4 : ResponseType
fetch_response_v4 = response 1 4 (
    "throttle_time_ms" ⦂ int32
    ▸ "topics"
      ⦂ array_of (
          "topics" ⦂ string
          ▸ "partitions"
            ⦂ array_of (
                "partition" ⦂ int32
                ▸ "error_code" ⦂ int16
                ▸ "highwater_offset" ⦂ int64
                ▸ "last_stable_offset" ⦂ int64
                ▸ "aborted_transactions"
                  ⦂ array_of ("producer_id" ⦂ int64 ▸ "first_offset" ⦂ int64 ▸ end)
                ▸ "records" ⦂ bytes
                ▸ end)
          ▸ end)
    ▸ end)

abbrev pub fetch_response_v5 : ResponseType
fetch_response_v5 = response 1 5 (
    "throttle_time_ms" ⦂ int32
    ▸ "topics"
      ⦂ array_of (
          "topics" ⦂ string
          ▸ "partitions"
            ⦂ array_of (
                "partition" ⦂ int32
                ▸ "error_code" ⦂ int16
                ▸ "highwater_offset" ⦂ int64
                ▸ "last_stable_offset" ⦂ int64
                ▸ "log_start_offset" ⦂ int64
                ▸ "aborted_transactions"
                  ⦂ array_of ("producer_id" ⦂ int64 ▸ "first_offset" ⦂ int64 ▸ end)
                ▸ "records" ⦂ bytes
                ▸ end)
          ▸ end)
    ▸ end)

abbrev pub fetch_response_v6 : ResponseType
fetch_response_v6 = response 1 6 fetch_response_v5.fields

abbrev pub fetch_response_v7 : ResponseType
fetch_response_v7 = response 1 7 (
    "throttle_time_ms" ⦂ int32
    ▸ "error_code" ⦂ int16
    ▸ "session_id" ⦂ int32
    ▸ "topics"
      ⦂ array_of (
          "topics" ⦂ string
          ▸ "partitions"
            ⦂ array_of (
                "partition" ⦂ int32
                ▸ "error_code" ⦂ int16
                ▸ "highwater_offset" ⦂ int64
                ▸ "last_stable_offset" ⦂ int64
                ▸ "log_start_offset" ⦂ int64
                ▸ "aborted_transactions"
                  ⦂ array_of ("producer_id" ⦂ int64 ▸ "first_offset" ⦂ int64 ▸ end)
                ▸ "records" ⦂ bytes
                ▸ end)
          ▸ end)
    ▸ end)

abbrev pub fetch_response_v8 : ResponseType
fetch_response_v8 = response 1 8 fetch_response_v7.fields

abbrev pub fetch_response_v9 : ResponseType
fetch_response_v9 = response 1 9 fetch_response_v7.fields

abbrev pub fetch_response_v10 : ResponseType
fetch_response_v10 = response 1 10 fetch_response_v7.fields

abbrev pub fetch_response_v11 : ResponseType
fetch_response_v11 = response 1 11 (
    "throttle_time_ms" ⦂ int32
    ▸ "error_code" ⦂ int16
    ▸ "session_id" ⦂ int32
    ▸ "topics"
      ⦂ array_of (
          "topics" ⦂ string
          ▸ "partitions"
            ⦂ array_of (
                "partition" ⦂ int32
                ▸ "error_code" ⦂ int16
                ▸ "highwater_offset" ⦂ int64
                ▸ "last_stable_offset" ⦂ int64
                ▸ "log_start_offset" ⦂ int64
                ▸ "aborted_transactions"
                  ⦂ array_of ("producer_id" ⦂ int64 ▸ "first_offset" ⦂ int64 ▸ end)
                ▸ "preferred_read_replica" ⦂ int32
                ▸ "records" ⦂ bytes
                ▸ end)
          ▸ end)
    ▸ end)

abbrev pub fetch_response : List ResponseType
fetch_response =
    fetch_response_v0 ∷ fetch_response_v1 ∷ fetch_response_v2 ∷ fetch_response_v3
    ∷ fetch_response_v4 ∷ fetch_response_v5 ∷ fetch_response_v6 ∷ fetch_response_v7
    ∷ fetch_response_v8 ∷ fetch_response_v9 ∷ fetch_response_v10 ∷ fetch_response_v11 ∷ []
