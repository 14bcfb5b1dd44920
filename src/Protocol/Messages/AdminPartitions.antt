-- ===== src/Protocol/Messages/AdminPartitions.antt =====
-- kafka/protocol/admin.py: the classes of AlterPartitionReassignments, ListPartitionReassignments, ElectLeaders.
use kafka_python.Common.{List, [], ◌∷◌}
use kafka_python.Protocol.Types.{
  int8, int16, int32, string, compact_string, tagged_fields, array, compact_array, array_of,
  compact_array_of, end, ◌▸◌, ◌⦂◌,
}
use kafka_python.Protocol.Message.{
  RequestType, ResponseType, response, flexible_response, request, flexible_request,
}

abbrev pub alter_partition_reassignments_response_v0 : ResponseType
alter_partition_reassignments_response_v0 = flexible_response 45 0 (
    "throttle_time_ms" ⦂ int32
    ▸ "error_code" ⦂ int16
    ▸ "error_message" ⦂ compact_string
    ▸ "responses"
      ⦂ compact_array_of (
          "name" ⦂ compact_string
          ▸ "partitions"
            ⦂ compact_array_of (
                "partition_index" ⦂ int32
                ▸ "error_code" ⦂ int16
                ▸ "error_message" ⦂ compact_string
                ▸ "tags" ⦂ tagged_fields
                ▸ end)
          ▸ "tags" ⦂ tagged_fields
          ▸ end)
    ▸ "tags" ⦂ tagged_fields
    ▸ end)

abbrev pub alter_partition_reassignments_request_v0 : RequestType
alter_partition_reassignments_request_v0 =
    flexible_request 45 0
      ("timeout_ms" ⦂ int32
        ▸ "topics"
          ⦂ compact_array_of (
              "name" ⦂ compact_string
              ▸ "partitions"
                ⦂ compact_array_of (
                    "partition_index" ⦂ int32
                    ▸ "replicas" ⦂ compact_array int32
                    ▸ "tags" ⦂ tagged_fields
                    ▸ end)
              ▸ "tags" ⦂ tagged_fields
              ▸ end)
        ▸ "tags" ⦂ tagged_fields
        ▸ end)
      alter_partition_reassignments_response_v0

abbrev pub list_partition_reassignments_response_v0 : ResponseType
list_partition_reassignments_response_v0 = flexible_response 46 0 (
    "throttle_time_ms" ⦂ int32
    ▸ "error_code" ⦂ int16
    ▸ "error_message" ⦂ compact_string
    ▸ "topics"
      ⦂ compact_array_of (
          "name" ⦂ compact_string
          ▸ "partitions"
            ⦂ compact_array_of (
                "partition_index" ⦂ int32
                ▸ "replicas" ⦂ compact_array int32
                ▸ "adding_replicas" ⦂ compact_array int32
                ▸ "removing_replicas" ⦂ compact_array int32
                ▸ "tags" ⦂ tagged_fields
                ▸ end)
          ▸ "tags" ⦂ tagged_fields
          ▸ end)
    ▸ "tags" ⦂ tagged_fields
    ▸ end)

abbrev pub list_partition_reassignments_request_v0 : RequestType
list_partition_reassignments_request_v0 =
    flexible_request 46 0
      ("timeout_ms" ⦂ int32
        ▸ "topics"
          ⦂ compact_array_of (
              "name" ⦂ compact_string
              ▸ "partition_index" ⦂ compact_array int32
              ▸ "tags" ⦂ tagged_fields
              ▸ end)
        ▸ "tags" ⦂ tagged_fields
        ▸ end)
      list_partition_reassignments_response_v0

abbrev pub elect_leaders_response_v0 : ResponseType
elect_leaders_response_v0 = response 43 1 (
    "throttle_time_ms" ⦂ int32
    ▸ "error_code" ⦂ int16
    ▸ "replication_election_results"
      ⦂ array_of (
          "topic" ⦂ string
          ▸ "partition_result"
            ⦂ array_of
                ("partition_id" ⦂ int32 ▸ "error_code" ⦂ int16 ▸ "error_message" ⦂ string ▸ end)
          ▸ end)
    ▸ end)

abbrev pub elect_leaders_request_v0 : RequestType
elect_leaders_request_v0 =
    request 43 1
      ("election_type" ⦂ int8
        ▸ "topic_partitions" ⦂ array_of ("topic" ⦂ string ▸ "partition_ids" ⦂ array int32 ▸ end)
        ▸ "timeout" ⦂ int32
        ▸ end)
      elect_leaders_response_v0

abbrev pub elect_leaders_response_v1 : ResponseType
elect_leaders_response_v1 = response 43 1 (
    "throttle_time_ms" ⦂ int32
    ▸ "error_code" ⦂ int16
    ▸ "replication_election_results"
      ⦂ array_of (
          "topic" ⦂ string
          ▸ "partition_result"
            ⦂ array_of
                ("partition_id" ⦂ int32 ▸ "error_code" ⦂ int16 ▸ "error_message" ⦂ string ▸ end)
          ▸ end)
    ▸ end)

abbrev pub elect_leaders_request_v1 : RequestType
elect_leaders_request_v1 =
    request 43 1
      ("election_type" ⦂ int8
        ▸ "topic_partitions" ⦂ array_of ("topic" ⦂ string ▸ "partition_ids" ⦂ array int32 ▸ end)
        ▸ "timeout" ⦂ int32
        ▸ end)
      elect_leaders_response_v1

abbrev pub alter_partition_reassignments_request : List RequestType
alter_partition_reassignments_request = alter_partition_reassignments_request_v0 ∷ []

abbrev pub alter_partition_reassignments_response : List ResponseType
alter_partition_reassignments_response = alter_partition_reassignments_response_v0 ∷ []

abbrev pub list_partition_reassignments_request : List RequestType
list_partition_reassignments_request = list_partition_reassignments_request_v0 ∷ []

abbrev pub list_partition_reassignments_response : List ResponseType
list_partition_reassignments_response = list_partition_reassignments_response_v0 ∷ []

abbrev pub elect_leaders_request : List RequestType
elect_leaders_request = elect_leaders_request_v0 ∷ elect_leaders_request_v1 ∷ []

abbrev pub elect_leaders_response : List ResponseType
elect_leaders_response = elect_leaders_response_v0 ∷ elect_leaders_response_v1 ∷ []
