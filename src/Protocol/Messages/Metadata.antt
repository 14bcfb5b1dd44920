-- ===== src/Protocol/Messages/Metadata.antt =====
-- kafka/protocol/metadata.py: the classes.
use kafka_python.Common.{List, [], ◌∷◌}
use kafka_python.Protocol.Types.{int16, int32, boolean, string, array, array_of, end, ◌▸◌, ◌⦂◌}
use kafka_python.Protocol.Message.{RequestType, ResponseType, response, request}

abbrev pub metadata_response_v0 : ResponseType
metadata_response_v0 = response 3 0 (
    "brokers" ⦂ array_of ("node_id" ⦂ int32 ▸ "host" ⦂ string ▸ "port" ⦂ int32 ▸ end)
    ▸ "topics"
      ⦂ array_of (
          "error_code" ⦂ int16
          ▸ "topic" ⦂ string
          ▸ "partitions"
            ⦂ array_of (
                "error_code" ⦂ int16
                ▸ "partition" ⦂ int32
                ▸ "leader" ⦂ int32
                ▸ "replicas" ⦂ array int32
                ▸ "isr" ⦂ array int32
                ▸ end)
          ▸ end)
    ▸ end)

abbrev pub metadata_response_v1 : ResponseType
metadata_response_v1 = response 3 1 (
    "brokers"
      ⦂ array_of ("node_id" ⦂ int32 ▸ "host" ⦂ string ▸ "port" ⦂ int32 ▸ "rack" ⦂ string ▸ end)
    ▸ "controller_id" ⦂ int32
    ▸ "topics"
      ⦂ array_of (
          "error_code" ⦂ int16
          ▸ "topic" ⦂ string
          ▸ "is_internal" ⦂ boolean
          ▸ "partitions"
            ⦂ array_of (
                "error_code" ⦂ int16
                ▸ "partition" ⦂ int32
                ▸ "leader" ⦂ int32
                ▸ "replicas" ⦂ array int32
                ▸ "isr" ⦂ array int32
                ▸ end)
          ▸ end)
    ▸ end)

abbrev pub metadata_response_v2 : ResponseType
metadata_response_v2 = response 3 2 (
    "brokers"
      ⦂ array_of ("node_id" ⦂ int32 ▸ "host" ⦂ string ▸ "port" ⦂ int32 ▸ "rack" ⦂ string ▸ end)
    ▸ "cluster_id" ⦂ string
    ▸ "controller_id" ⦂ int32
    ▸ "topics"
      ⦂ array_of (
          "error_code" ⦂ int16
          ▸ "topic" ⦂ string
          ▸ "is_internal" ⦂ boolean
          ▸ "partitions"
            ⦂ array_of (
                "error_code" ⦂ int16
                ▸ "partition" ⦂ int32
                ▸ "leader" ⦂ int32
                ▸ "replicas" ⦂ array int32
                ▸ "isr" ⦂ array int32
                ▸ end)
          ▸ end)
    ▸ end)

abbrev pub metadata_response_v3 : ResponseType
metadata_response_v3 = response 3 3 (
    "throttle_time_ms" ⦂ int32
    ▸ "brokers"
      ⦂ array_of ("node_id" ⦂ int32 ▸ "host" ⦂ string ▸ "port" ⦂ int32 ▸ "rack" ⦂ string ▸ end)
    ▸ "cluster_id" ⦂ string
    ▸ "controller_id" ⦂ int32
    ▸ "topics"
      ⦂ array_of (
          "error_code" ⦂ int16
          ▸ "topic" ⦂ string
          ▸ "is_internal" ⦂ boolean
          ▸ "partitions"
            ⦂ array_of (
                "error_code" ⦂ int16
                ▸ "partition" ⦂ int32
                ▸ "leader" ⦂ int32
                ▸ "replicas" ⦂ array int32
                ▸ "isr" ⦂ array int32
                ▸ end)
          ▸ end)
    ▸ end)

abbrev pub metadata_response_v4 : ResponseType
metadata_response_v4 = response 3 4 metadata_response_v3.fields

abbrev pub metadata_response_v5 : ResponseType
metadata_response_v5 = response 3 5 (
    "throttle_time_ms" ⦂ int32
    ▸ "brokers"
      ⦂ array_of ("node_id" ⦂ int32 ▸ "host" ⦂ string ▸ "port" ⦂ int32 ▸ "rack" ⦂ string ▸ end)
    ▸ "cluster_id" ⦂ string
    ▸ "controller_id" ⦂ int32
    ▸ "topics"
      ⦂ array_of (
          "error_code" ⦂ int16
          ▸ "topic" ⦂ string
          ▸ "is_internal" ⦂ boolean
          ▸ "partitions"
            ⦂ array_of (
                "error_code" ⦂ int16
                ▸ "partition" ⦂ int32
                ▸ "leader" ⦂ int32
                ▸ "replicas" ⦂ array int32
                ▸ "isr" ⦂ array int32
                ▸ "offline_replicas" ⦂ array int32
                ▸ end)
          ▸ end)
    ▸ end)

abbrev pub metadata_response_v6 : ResponseType
metadata_response_v6 = response 3 6 metadata_response_v5.fields

abbrev pub metadata_response_v7 : ResponseType
metadata_response_v7 = response 3 7 (
    "throttle_time_ms" ⦂ int32
    ▸ "brokers"
      ⦂ array_of ("node_id" ⦂ int32 ▸ "host" ⦂ string ▸ "port" ⦂ int32 ▸ "rack" ⦂ string ▸ end)
    ▸ "cluster_id" ⦂ string
    ▸ "controller_id" ⦂ int32
    ▸ "topics"
      ⦂ array_of (
          "error_code" ⦂ int16
          ▸ "topic" ⦂ string
          ▸ "is_internal" ⦂ boolean
          ▸ "partitions"
            ⦂ array_of (
                "error_code" ⦂ int16
                ▸ "partition" ⦂ int32
                ▸ "leader" ⦂ int32
                ▸ "leader_epoch" ⦂ int32
                ▸ "replicas" ⦂ array int32
                ▸ "isr" ⦂ array int32
                ▸ "offline_replicas" ⦂ array int32
                ▸ end)
          ▸ end)
    ▸ end)

abbrev pub metadata_request_v0 : RequestType
metadata_request_v0 = request 3 0 ("topics" ⦂ array string ▸ end) metadata_response_v0

abbrev pub metadata_request_v1 : RequestType
metadata_request_v1 = request 3 1 metadata_request_v0.fields metadata_response_v1

abbrev pub metadata_request_v2 : RequestType
metadata_request_v2 = request 3 2 metadata_request_v1.fields metadata_response_v2

abbrev pub metadata_request_v3 : RequestType
metadata_request_v3 = request 3 3 metadata_request_v1.fields metadata_response_v3

abbrev pub metadata_request_v4 : RequestType
metadata_request_v4 =
    request 3 4 ("topics" ⦂ array string ▸ "allow_auto_topic_creation" ⦂ boolean ▸ end)
      metadata_response_v4

abbrev pub metadata_request_v5 : RequestType
metadata_request_v5 = request 3 5 metadata_request_v4.fields metadata_response_v5

abbrev pub metadata_request_v6 : RequestType
metadata_request_v6 = request 3 6 metadata_request_v5.fields metadata_response_v6

abbrev pub metadata_request_v7 : RequestType
metadata_request_v7 = request 3 7 metadata_request_v6.fields metadata_response_v7

abbrev pub metadata_request : List RequestType
metadata_request =
    metadata_request_v0 ∷ metadata_request_v1 ∷ metadata_request_v2 ∷ metadata_request_v3
    ∷ metadata_request_v4 ∷ metadata_request_v5 ∷ metadata_request_v6 ∷ metadata_request_v7 ∷ []

abbrev pub metadata_response : List ResponseType
metadata_response =
    metadata_response_v0 ∷ metadata_response_v1 ∷ metadata_response_v2 ∷ metadata_response_v3
    ∷ metadata_response_v4 ∷ metadata_response_v5 ∷ metadata_response_v6 ∷ metadata_response_v7 ∷ []
