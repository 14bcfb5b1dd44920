-- ===== src/Protocol/Messages/Txn.antt =====
-- kafka/protocol/add_offsets_to_txn.py, add_partitions_to_txn.py, end_txn.py, init_producer_id.py, txn_offset_commit.py: the classes.
use kafka_python.Common.{List, [], ◌∷◌}
use kafka_python.Protocol.Types.{
  int16, int32, int64, boolean, string, array, array_of, end, ◌▸◌, ◌⦂◌,
}
use kafka_python.Protocol.Message.{RequestType, ResponseType, response, request}

abbrev pub add_offsets_to_txn_response_v0 : ResponseType
add_offsets_to_txn_response_v0 =
    response 25 0 ("throttle_time_ms" ⦂ int32 ▸ "error_code" ⦂ int16 ▸ end)

abbrev pub add_offsets_to_txn_response_v1 : ResponseType
add_offsets_to_txn_response_v1 = response 25 1 add_offsets_to_txn_response_v0.fields

abbrev pub add_offsets_to_txn_response_v2 : ResponseType
add_offsets_to_txn_response_v2 = response 25 2 add_offsets_to_txn_response_v1.fields

abbrev pub add_offsets_to_txn_request_v0 : RequestType
add_offsets_to_txn_request_v0 =
    request 25 0
      ("transactional_id" ⦂ string
        ▸ "producer_id" ⦂ int64
        ▸ "producer_epoch" ⦂ int16
        ▸ "group_id" ⦂ string
        ▸ end)
      add_offsets_to_txn_response_v0

abbrev pub add_offsets_to_txn_request_v1 : RequestType
add_offsets_to_txn_request_v1 =
    request 25 1 add_offsets_to_txn_request_v0.fields add_offsets_to_txn_response_v1

abbrev pub add_offsets_to_txn_request_v2 : RequestType
add_offsets_to_txn_request_v2 =
    request 25 2 add_offsets_to_txn_request_v1.fields add_offsets_to_txn_response_v2

abbrev pub add_offsets_to_txn_request : List RequestType
add_offsets_to_txn_request =
    add_offsets_to_txn_request_v0 ∷ add_offsets_to_txn_request_v1 ∷ add_offsets_to_txn_request_v2
    ∷ []

abbrev pub add_offsets_to_txn_response : List ResponseType
add_offsets_to_txn_response =
    add_offsets_to_txn_response_v0 ∷ add_offsets_to_txn_response_v1 ∷ add_offsets_to_txn_response_v2
    ∷ []

abbrev pub add_partitions_to_txn_response_v0 : ResponseType
add_partitions_to_txn_response_v0 = response 24 0 (
    "throttle_time_ms" ⦂ int32
    ▸ "results"
      ⦂ array_of (
          "topic" ⦂ string
          ▸ "partitions" ⦂ array_of ("partition" ⦂ int32 ▸ "error_code" ⦂ int16 ▸ end)
          ▸ end)
    ▸ end)

abbrev pub add_partitions_to_txn_response_v1 : ResponseType
add_partitions_to_txn_response_v1 = response 24 1 add_partitions_to_txn_response_v0.fields

abbrev pub add_partitions_to_txn_response_v2 : ResponseType
add_partitions_to_txn_response_v2 = response 24 2 add_partitions_to_txn_response_v1.fields

abbrev pub add_partitions_to_txn_request_v0 : RequestType
add_partitions_to_txn_request_v0 =
    request 24 0
      ("transactional_id" ⦂ string
        ▸ "producer_id" ⦂ int64
        ▸ "producer_epoch" ⦂ int16
        ▸ "topics" ⦂ array_of ("topic" ⦂ string ▸ "partitions" ⦂ array int32 ▸ end)
        ▸ end)
      add_partitions_to_txn_response_v0

abbrev pub add_partitions_to_txn_request_v1 : RequestType
add_partitions_to_txn_request_v1 =
    request 24 1 add_partitions_to_txn_request_v0.fields add_partitions_to_txn_response_v1

abbrev pub add_partitions_to_txn_request_v2 : RequestType
add_partitions_to_txn_request_v2 =
    request 24 2 add_partitions_to_txn_request_v1.fields add_partitions_to_txn_response_v2

abbrev pub add_partitions_to_txn_request : List RequestType
add_partitions_to_txn_request =
    add_partitions_to_txn_request_v0 ∷ add_partitions_to_txn_request_v1
    ∷ add_partitions_to_txn_request_v2 ∷ []

abbrev pub add_partitions_to_txn_response : List ResponseType
add_partitions_to_txn_response =
    add_partitions_to_txn_response_v0 ∷ add_partitions_to_txn_response_v1
    ∷ add_partitions_to_txn_response_v2 ∷ []

abbrev pub end_txn_response_v0 : ResponseType
end_txn_response_v0 = response 26 0 ("throttle_time_ms" ⦂ int32 ▸ "error_code" ⦂ int16 ▸ end)

abbrev pub end_txn_response_v1 : ResponseType
end_txn_response_v1 = response 26 1 end_txn_response_v0.fields

abbrev pub end_txn_response_v2 : ResponseType
end_txn_response_v2 = response 26 2 end_txn_response_v1.fields

abbrev pub end_txn_request_v0 : RequestType
end_txn_request_v0 =
    request 26 0
      ("transactional_id" ⦂ string
        ▸ "producer_id" ⦂ int64
        ▸ "producer_epoch" ⦂ int16
        ▸ "committed" ⦂ boolean
        ▸ end)
      end_txn_response_v0

abbrev pub end_txn_request_v1 : RequestType
end_txn_request_v1 = request 26 1 end_txn_request_v0.fields end_txn_response_v1

abbrev pub end_txn_request_v2 : RequestType
end_txn_request_v2 = request 26 2 end_txn_request_v1.fields end_txn_response_v2

abbrev pub end_txn_request : List RequestType
end_txn_request = end_txn_request_v0 ∷ end_txn_request_v1 ∷ end_txn_request_v2 ∷ []

abbrev pub end_txn_response : List ResponseType
end_txn_response = end_txn_response_v0 ∷ end_txn_response_v1 ∷ end_txn_response_v2 ∷ []

abbrev pub init_producer_id_response_v0 : ResponseType
init_producer_id_response_v0 = response 22 0 (
    "throttle_time_ms" ⦂ int32
    ▸ "error_code" ⦂ int16
    ▸ "producer_id" ⦂ int64
    ▸ "producer_epoch" ⦂ int16
    ▸ end)

abbrev pub init_producer_id_response_v1 : ResponseType
init_producer_id_response_v1 = response 22 1 init_producer_id_response_v0.fields

abbrev pub init_producer_id_request_v0 : RequestType
init_producer_id_request_v0 =
    request 22 0 ("transactional_id" ⦂ string ▸ "transaction_timeout_ms" ⦂ int32 ▸ end)
      init_producer_id_response_v0

abbrev pub init_producer_id_request_v1 : RequestType
init_producer_id_request_v1 =
    request 22 1 init_producer_id_request_v0.fields init_producer_id_response_v1

abbrev pub init_producer_id_request : List RequestType
init_producer_id_request = init_producer_id_request_v0 ∷ init_producer_id_request_v1 ∷ []

abbrev pub init_producer_id_response : List ResponseType
init_producer_id_response = init_producer_id_response_v0 ∷ init_producer_id_response_v1 ∷ []

abbrev pub txn_offset_commit_response_v0 : ResponseType
txn_offset_commit_response_v0 = response 28 0 (
    "throttle_time_ms" ⦂ int32
    ▸ "topics"
      ⦂ array_of (
          "topic" ⦂ string
          ▸ "partitions" ⦂ array_of ("partition" ⦂ int32 ▸ "error_code" ⦂ int16 ▸ end)
          ▸ end)
    ▸ end)

abbrev pub txn_offset_commit_response_v1 : ResponseType
txn_offset_commit_response_v1 = response 28 1 txn_offset_commit_response_v0.fields

abbrev pub txn_offset_commit_response_v2 : ResponseType
txn_offset_commit_response_v2 = response 28 2 txn_offset_commit_response_v1.fields

abbrev pub txn_offset_commit_request_v0 : RequestType
txn_offset_commit_request_v0 =
    request 28 0
      ("transactional_id" ⦂ string
        ▸ "group_id" ⦂ string
        ▸ "producer_id" ⦂ int64
        ▸ "producer_epoch" ⦂ int16
        ▸ "topics"
          ⦂ array_of (
              "topic" ⦂ string
              ▸ "partitions"
                ⦂ array_of ("partition" ⦂ int32 ▸ "offset" ⦂ int64 ▸ "metadata" ⦂ string ▸ end)
              ▸ end)
        ▸ end)
      txn_offset_commit_response_v0

abbrev pub txn_offset_commit_request_v1 : RequestType
txn_offset_commit_request_v1 =
    request 28 1 txn_offset_commit_request_v0.fields txn_offset_commit_response_v1

abbrev pub txn_offset_commit_request_v2 : RequestType
txn_offset_commit_request_v2 =
    request 28 2
      ("transactional_id" ⦂ string
        ▸ "group_id" ⦂ string
        ▸ "producer_id" ⦂ int64
        ▸ "producer_epoch" ⦂ int16
        ▸ "topics"
          ⦂ array_of (
              "topic" ⦂ string
              ▸ "partitions"
                ⦂ array_of (
                    "partition" ⦂ int32
                    ▸ "offset" ⦂ int64
                    ▸ "leader_epoch" ⦂ int32
                    ▸ "metadata" ⦂ string
                    ▸ end)
              ▸ end)
        ▸ end)
      txn_offset_commit_response_v2

abbrev pub txn_offset_commit_request : List RequestType
txn_offset_commit_request =
    txn_offset_commit_request_v0 ∷ txn_offset_commit_request_v1 ∷ txn_offset_commit_request_v2 ∷ []

abbrev pub txn_offset_commit_response : List ResponseType
txn_offset_commit_response =
    txn_offset_commit_response_v0 ∷ txn_offset_commit_response_v1 ∷ txn_offset_commit_response_v2
    ∷ []
