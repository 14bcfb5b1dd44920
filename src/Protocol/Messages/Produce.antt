-- ===== src/Protocol/Messages/Produce.antt =====
-- kafka/protocol/produce.py: the classes.
use kafka_python.Common.{List, [], ◌∷◌}
use kafka_python.Protocol.Types.{int16, int32, int64, string, bytes, array_of, end, ◌▸◌, ◌⦂◌}
use kafka_python.Protocol.Message.{RequestType, ResponseType, response, request}

abbrev pub produce_response_v0 : ResponseType
produce_response_v0 = response 0 0 (
    "topics"
      ⦂ array_of (
          "topic" ⦂ string
          ▸ "partitions"
            ⦂ array_of ("partition" ⦂ int32 ▸ "error_code" ⦂ int16 ▸ "offset" ⦂ int64 ▸ end)
          ▸ end)
    ▸ end)

abbrev pub produce_response_v1 : ResponseType
produce_response_v1 = response 0 1 (
    "topics"
      ⦂ array_of (
          "topic" ⦂ string
          ▸ "partitions"
            ⦂ array_of ("partition" ⦂ int32 ▸ "error_code" ⦂ int16 ▸ "offset" ⦂ int64 ▸ end)
          ▸ end)
    ▸ "throttle_time_ms" ⦂ int32
    ▸ end)

abbrev pub produce_response_v2 : ResponseType
produce_response_v2 = response 0 2 (
    "topics"
      ⦂ array_of (
          "topic" ⦂ string
          ▸ "partitions"
            ⦂ array_of (
                "partition" ⦂ int32
                ▸ "error_code" ⦂ int16
                ▸ "offset" ⦂ int64
                ▸ "timestamp" ⦂ int64
                ▸ end)
          ▸ end)
    ▸ "throttle_time_ms" ⦂ int32
    ▸ end)

abbrev pub produce_response_v3 : ResponseType
produce_response_v3 = response 0 3 produce_response_v2.fields

abbrev pub produce_response_v4 : ResponseType
produce_response_v4 = response 0 4 produce_response_v3.fields

abbrev pub produce_response_v5 : ResponseType
produce_response_v5 = response 0 5 (
    "topics"
      ⦂ array_of (
          "topic" ⦂ string
          ▸ "partitions"
            ⦂ array_of (
                "partition" ⦂ int32
                ▸ "error_code" ⦂ int16
                ▸ "offset" ⦂ int64
                ▸ "timestamp" ⦂ int64
                ▸ "log_start_offset" ⦂ int64
                ▸ end)
          ▸ end)
    ▸ "throttle_time_ms" ⦂ int32
    ▸ end)

abbrev pub produce_response_v6 : ResponseType
produce_response_v6 = response 0 6 produce_response_v5.fields

abbrev pub produce_response_v7 : ResponseType
produce_response_v7 = response 0 7 produce_response_v6.fields

-- The tuple of 'partitions' holds more than a name and a type in the source. `Schema` takes the tuples
-- apart with `zip`, which keeps the first two elements of each.
abbrev pub produce_response_v8 : ResponseType
produce_response_v8 = response 0 8 (
    "topics"
      ⦂ array_of (
          "topic" ⦂ string
          ▸ "partitions"
            ⦂ array_of (
                "partition" ⦂ int32
                ▸ "error_code" ⦂ int16
                ▸ "offset" ⦂ int64
                ▸ "timestamp" ⦂ int64
                ▸ "log_start_offset" ⦂ int64
                ▸ end)
          ▸ end)
    ▸ "throttle_time_ms" ⦂ int32
    ▸ end)

abbrev pub produce_request_v0 : RequestType
produce_request_v0 =
    request 0 0
      ("required_acks" ⦂ int16
        ▸ "timeout" ⦂ int32
        ▸ "topics"
          ⦂ array_of (
              "topic" ⦂ string
              ▸ "partitions" ⦂ array_of ("partition" ⦂ int32 ▸ "records" ⦂ bytes ▸ end)
              ▸ end)
        ▸ end)
      produce_response_v0

abbrev pub produce_request_v1 : RequestType
produce_request_v1 = request 0 1 produce_request_v0.fields produce_response_v1

abbrev pub produce_request_v2 : RequestType
produce_request_v2 = request 0 2 produce_request_v1.fields produce_response_v2

abbrev pub produce_request_v3 : RequestType
produce_request_v3 =
    request 0 3
      ("transactional_id" ⦂ string
        ▸ "required_acks" ⦂ int16
        ▸ "timeout" ⦂ int32
        ▸ "topics"
          ⦂ array_of (
              "topic" ⦂ string
              ▸ "partitions" ⦂ array_of ("partition" ⦂ int32 ▸ "records" ⦂ bytes ▸ end)
              ▸ end)
        ▸ end)
      produce_response_v3

abbrev pub produce_request_v4 : RequestType
produce_request_v4 = request 0 4 produce_request_v3.fields produce_response_v4

abbrev pub produce_request_v5 : RequestType
produce_request_v5 = request 0 5 produce_request_v4.fields produce_response_v5

abbrev pub produce_request_v6 : RequestType
produce_request_v6 = request 0 6 produce_request_v5.fields produce_response_v6

abbrev pub produce_request_v7 : RequestType
produce_request_v7 = request 0 7 produce_request_v6.fields produce_response_v7

abbrev pub produce_request_v8 : RequestType
produce_request_v8 = request 0 8 produce_request_v7.fields produce_response_v8

abbrev pub produce_request : List RequestType
produce_request =
    produce_request_v0 ∷ produce_request_v1 ∷ produce_request_v2 ∷ produce_request_v3
    ∷ produce_request_v4 ∷ produce_request_v5 ∷ produce_request_v6 ∷ produce_request_v7
    ∷ produce_request_v8 ∷ []

abbrev pub produce_response : List ResponseType
produce_response =
    produce_response_v0 ∷ produce_response_v1 ∷ produce_response_v2 ∷ produce_response_v3
    ∷ produce_response_v4 ∷ produce_response_v5 ∷ produce_response_v6 ∷ produce_response_v7
    ∷ produce_response_v8 ∷ []
