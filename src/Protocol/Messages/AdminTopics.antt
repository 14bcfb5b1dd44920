-- ===== src/Protocol/Messages/AdminTopics.antt =====
-- kafka/protocol/admin.py: the classes of CreateTopics, DeleteTopics, DeleteRecords, CreatePartitions.
use kafka_python.Common.{List, [], ◌∷◌}
use kafka_python.Protocol.Types.{
  int16, int32, int64, boolean, string, array, array_of, schema, end, ◌▸◌, ◌⦂◌,
}
use kafka_python.Protocol.Message.{RequestType, ResponseType, response, request}

abbrev pub create_topics_response_v0 : ResponseType
create_topics_response_v0 =
    response 19 0 ("topic_errors" ⦂ array_of ("topic" ⦂ string ▸ "error_code" ⦂ int16 ▸ end) ▸ end)

abbrev pub create_topics_response_v1 : ResponseType
create_topics_response_v1 = response 19 1 (
    "topic_errors"
      ⦂ array_of ("topic" ⦂ string ▸ "error_code" ⦂ int16 ▸ "error_message" ⦂ string ▸ end)
    ▸ end)

abbrev pub create_topics_response_v2 : ResponseType
create_topics_response_v2 = response 19 2 (
    "throttle_time_ms" ⦂ int32
    ▸ "topic_errors"
      ⦂ array_of ("topic" ⦂ string ▸ "error_code" ⦂ int16 ▸ "error_message" ⦂ string ▸ end)
    ▸ end)

abbrev pub create_topics_response_v3 : ResponseType
create_topics_response_v3 = response 19 3 create_topics_response_v2.fields

abbrev pub create_topics_request_v0 : RequestType
create_topics_request_v0 =
    request 19 0
      ("create_topic_requests"
          ⦂ array_of (
              "topic" ⦂ string
              ▸ "num_partitions" ⦂ int32
              ▸ "replication_factor" ⦂ int16
              ▸ "replica_assignment"
                ⦂ array_of ("partition_id" ⦂ int32 ▸ "replicas" ⦂ array int32 ▸ end)
              ▸ "configs" ⦂ array_of ("config_key" ⦂ string ▸ "config_value" ⦂ string ▸ end)
              ▸ end)
        ▸ "timeout" ⦂ int32
        ▸ end)
      create_topics_response_v0

abbrev pub create_topics_request_v1 : RequestType
create_topics_request_v1 =
    request 19 1
      ("create_topic_requests"
          ⦂ array_of (
              "topic" ⦂ string
              ▸ "num_partitions" ⦂ int32
              ▸ "replication_factor" ⦂ int16
              ▸ "replica_assignment"
                ⦂ array_of ("partition_id" ⦂ int32 ▸ "replicas" ⦂ array int32 ▸ end)
              ▸ "configs" ⦂ array_of ("config_key" ⦂ string ▸ "config_value" ⦂ string ▸ end)
              ▸ end)
        ▸ "timeout" ⦂ int32
        ▸ "validate_only" ⦂ boolean
        ▸ end)
      create_topics_response_v1

abbrev pub create_topics_request_v2 : RequestType
create_topics_request_v2 = request 19 2 create_topics_request_v1.fields create_topics_response_v2

abbrev pub create_topics_request_v3 : RequestType
create_topics_request_v3 = request 19 3 create_topics_request_v1.fields create_topics_response_v3

abbrev pub delete_topics_response_v0 : ResponseType
delete_topics_response_v0 =
    response 20 0
      ("topic_error_codes" ⦂ array_of ("topic" ⦂ string ▸ "error_code" ⦂ int16 ▸ end) ▸ end)

abbrev pub delete_topics_response_v1 : ResponseType
delete_topics_response_v1 = response 20 1 (
    "throttle_time_ms" ⦂ int32
    ▸ "topic_error_codes" ⦂ array_of ("topic" ⦂ string ▸ "error_code" ⦂ int16 ▸ end)
    ▸ end)

abbrev pub delete_topics_response_v2 : ResponseType
delete_topics_response_v2 = response 20 2 delete_topics_response_v1.fields

abbrev pub delete_topics_response_v3 : ResponseType
delete_topics_response_v3 = response 20 3 delete_topics_response_v1.fields

abbrev pub delete_topics_request_v0 : RequestType
delete_topics_request_v0 =
    request 20 0 ("topics" ⦂ array string ▸ "timeout" ⦂ int32 ▸ end) delete_topics_response_v0

abbrev pub delete_topics_request_v1 : RequestType
delete_topics_request_v1 = request 20 1 delete_topics_request_v0.fields delete_topics_response_v1

abbrev pub delete_topics_request_v2 : RequestType
delete_topics_request_v2 = request 20 2 delete_topics_request_v0.fields delete_topics_response_v2

abbrev pub delete_topics_request_v3 : RequestType
delete_topics_request_v3 = request 20 3 delete_topics_request_v0.fields delete_topics_response_v3

abbrev pub delete_records_response_v0 : ResponseType
delete_records_response_v0 = response 21 0 (
    "throttle_time_ms" ⦂ int32
    ▸ "topics"
      ⦂ array_of (
          "name" ⦂ string
          ▸ "partitions"
            ⦂ array_of
                ("partition_index" ⦂ int32 ▸ "low_watermark" ⦂ int64 ▸ "error_code" ⦂ int16 ▸ end)
          ▸ end)
    ▸ end)

abbrev pub delete_records_request_v0 : RequestType
delete_records_request_v0 =
    request 21 0
      ("topics"
          ⦂ array_of (
              "name" ⦂ string
              ▸ "partitions" ⦂ array_of ("partition_index" ⦂ int32 ▸ "offset" ⦂ int64 ▸ end)
              ▸ end)
        ▸ "timeout_ms" ⦂ int32
        ▸ end)
      delete_records_response_v0

abbrev pub create_partitions_response_v0 : ResponseType
create_partitions_response_v0 = response 37 0 (
    "throttle_time_ms" ⦂ int32
    ▸ "topic_errors"
      ⦂ array_of ("topic" ⦂ string ▸ "error_code" ⦂ int16 ▸ "error_message" ⦂ string ▸ end)
    ▸ end)

abbrev pub create_partitions_response_v1 : ResponseType
create_partitions_response_v1 = response 37 1 create_partitions_response_v0.fields

abbrev pub create_partitions_request_v0 : RequestType
create_partitions_request_v0 =
    request 37 0
      ("topic_partitions"
          ⦂ array_of (
              "topic" ⦂ string
              ▸ "new_partitions"
                ⦂ schema ("count" ⦂ int32 ▸ "assignment" ⦂ array (array int32) ▸ end)
              ▸ end)
        ▸ "timeout" ⦂ int32
        ▸ "validate_only" ⦂ boolean
        ▸ end)
      create_partitions_response_v0

abbrev pub create_partitions_request_v1 : RequestType
create_partitions_request_v1 =
    request 37 1 create_partitions_request_v0.fields create_partitions_response_v1

abbrev pub create_topics_request : List RequestType
create_topics_request =
    create_topics_request_v0 ∷ create_topics_request_v1 ∷ create_topics_request_v2
    ∷ create_topics_request_v3 ∷ []

abbrev pub create_topics_response : List ResponseType
create_topics_response =
    create_topics_response_v0 ∷ create_topics_response_v1 ∷ create_topics_response_v2
    ∷ create_topics_response_v3 ∷ []

abbrev pub delete_topics_request : List RequestType
delete_topics_request =
    delete_topics_request_v0 ∷ delete_topics_request_v1 ∷ delete_topics_request_v2
    ∷ delete_topics_request_v3 ∷ []

abbrev pub delete_topics_response : List ResponseType
delete_topics_response =
    delete_topics_response_v0 ∷ delete_topics_response_v1 ∷ delete_topics_response_v2
    ∷ delete_topics_response_v3 ∷ []

abbrev pub delete_records_response : List ResponseType
delete_records_response = delete_records_response_v0 ∷ []

abbrev pub delete_records_request : List RequestType
delete_records_request = delete_records_request_v0 ∷ []

abbrev pub create_partitions_request : List RequestType
create_partitions_request = create_partitions_request_v0 ∷ create_partitions_request_v1 ∷ []

abbrev pub create_partitions_response : List ResponseType
create_partitions_response = create_partitions_response_v0 ∷ create_partitions_response_v1 ∷ []
