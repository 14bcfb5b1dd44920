-- ===== src/Protocol/Messages/AdminConfigs.antt =====
-- kafka/protocol/admin.py: the classes of AlterConfigs, DescribeConfigs, DescribeLogDirs, SaslAuthenticate.
use kafka_python.Common.{List, [], ◌∷◌}
use kafka_python.Protocol.Types.{
  int8, int16, int32, int64, boolean, string, bytes, array, array_of, end, ◌▸◌, ◌⦂◌,
}
use kafka_python.Protocol.Message.{RequestType, ResponseType, response, request}

abbrev pub alter_configs_response_v0 : ResponseType
alter_configs_response_v0 = response 33 0 (
    "throttle_time_ms" ⦂ int32
    ▸ "resources"
      ⦂ array_of (
          "error_code" ⦂ int16
          ▸ "error_message" ⦂ string
          ▸ "resource_type" ⦂ int8
          ▸ "resource_name" ⦂ string
          ▸ end)
    ▸ end)

abbrev pub alter_configs_response_v1 : ResponseType
alter_configs_response_v1 = response 33 1 alter_configs_response_v0.fields

abbrev pub alter_configs_request_v0 : RequestType
alter_configs_request_v0 =
    request 33 0
      ("resources"
          ⦂ array_of (
              "resource_type" ⦂ int8
              ▸ "resource_name" ⦂ string
              ▸ "config_entries" ⦂ array_of ("config_name" ⦂ string ▸ "config_value" ⦂ string ▸ end)
              ▸ end)
        ▸ "validate_only" ⦂ boolean
        ▸ end)
      alter_configs_response_v0

abbrev pub alter_configs_request_v1 : RequestType
alter_configs_request_v1 = request 33 1 alter_configs_request_v0.fields alter_configs_response_v1

abbrev pub describe_configs_response_v0 : ResponseType
describe_configs_response_v0 = response 32 0 (
    "throttle_time_ms" ⦂ int32
    ▸ "resources"
      ⦂ array_of (
          "error_code" ⦂ int16
          ▸ "error_message" ⦂ string
          ▸ "resource_type" ⦂ int8
          ▸ "resource_name" ⦂ string
          ▸ "config_entries"
            ⦂ array_of (
                "config_names" ⦂ string
                ▸ "config_value" ⦂ string
                ▸ "read_only" ⦂ boolean
                ▸ "is_default" ⦂ boolean
                ▸ "is_sensitive" ⦂ boolean
                ▸ end)
          ▸ end)
    ▸ end)

abbrev pub describe_configs_response_v1 : ResponseType
describe_configs_response_v1 = response 32 1 (
    "throttle_time_ms" ⦂ int32
    ▸ "resources"
      ⦂ array_of (
          "error_code" ⦂ int16
          ▸ "error_message" ⦂ string
          ▸ "resource_type" ⦂ int8
          ▸ "resource_name" ⦂ string
          ▸ "config_entries"
            ⦂ array_of (
                "config_names" ⦂ string
                ▸ "config_value" ⦂ string
                ▸ "read_only" ⦂ boolean
                ▸ "config_source" ⦂ int8
                ▸ "is_sensitive" ⦂ boolean
                ▸ "config_synonyms"
                  ⦂ array_of (
                      "config_name" ⦂ string
                      ▸ "config_value" ⦂ string
                      ▸ "config_source" ⦂ int8
                      ▸ end)
                ▸ end)
          ▸ end)
    ▸ end)

abbrev pub describe_configs_response_v2 : ResponseType
describe_configs_response_v2 = response 32 2 (
    "throttle_time_ms" ⦂ int32
    ▸ "resources"
      ⦂ array_of (
          "error_code" ⦂ int16
          ▸ "error_message" ⦂ string
          ▸ "resource_type" ⦂ int8
          ▸ "resource_name" ⦂ string
          ▸ "config_entries"
            ⦂ array_of (
                "config_names" ⦂ string
                ▸ "config_value" ⦂ string
                ▸ "read_only" ⦂ boolean
                ▸ "config_source" ⦂ int8
                ▸ "is_sensitive" ⦂ boolean
                ▸ "config_synonyms"
                  ⦂ array_of (
                      "config_name" ⦂ string
                      ▸ "config_value" ⦂ string
                      ▸ "config_source" ⦂ int8
                      ▸ end)
                ▸ end)
          ▸ end)
    ▸ end)

abbrev pub describe_configs_request_v0 : RequestType
describe_configs_request_v0 =
    request 32 0
      ("resources"
          ⦂ array_of (
              "resource_type" ⦂ int8
              ▸ "resource_name" ⦂ string
              ▸ "config_names" ⦂ array string
              ▸ end)
        ▸ end)
      describe_configs_response_v0

abbrev pub describe_configs_request_v1 : RequestType
describe_configs_request_v1 =
    request 32 1
      ("resources"
          ⦂ array_of (
              "resource_type" ⦂ int8
              ▸ "resource_name" ⦂ string
              ▸ "config_names" ⦂ array string
              ▸ end)
        ▸ "include_synonyms" ⦂ boolean
        ▸ end)
      describe_configs_response_v1

abbrev pub describe_configs_request_v2 : RequestType
describe_configs_request_v2 =
    request 32 2 describe_configs_request_v1.fields describe_configs_response_v2

abbrev pub describe_log_dirs_response_v0 : ResponseType
describe_log_dirs_response_v0 = response 35 0 (
    "throttle_time_ms" ⦂ int32
    ▸ "log_dirs"
      ⦂ array_of (
          "error_code" ⦂ int16
          ▸ "log_dir" ⦂ string
          ▸ "topics"
            ⦂ array_of (
                "name" ⦂ string
                ▸ "partitions"
                  ⦂ array_of (
                      "partition_index" ⦂ int32
                      ▸ "partition_size" ⦂ int64
                      ▸ "offset_lag" ⦂ int64
                      ▸ "is_future_key" ⦂ boolean
                      ▸ end)
                ▸ end)
          ▸ end)
    ▸ end)

abbrev pub describe_log_dirs_request_v0 : RequestType
describe_log_dirs_request_v0 =
    request 35 0 ("topics" ⦂ array_of ("topic" ⦂ string ▸ "partitions" ⦂ int32 ▸ end) ▸ end)
      describe_log_dirs_response_v0

abbrev pub sasl_authenticate_response_v0 : ResponseType
sasl_authenticate_response_v0 =
    response 36 0
      ("error_code" ⦂ int16 ▸ "error_message" ⦂ string ▸ "sasl_auth_bytes" ⦂ bytes ▸ end)

abbrev pub sasl_authenticate_response_v1 : ResponseType
sasl_authenticate_response_v1 = response 36 1 (
    "error_code" ⦂ int16
    ▸ "error_message" ⦂ string
    ▸ "sasl_auth_bytes" ⦂ bytes
    ▸ "session_lifetime_ms" ⦂ int64
    ▸ end)

abbrev pub sasl_authenticate_request_v0 : RequestType
sasl_authenticate_request_v0 =
    request 36 0 ("sasl_auth_bytes" ⦂ bytes ▸ end) sasl_authenticate_response_v0

abbrev pub sasl_authenticate_request_v1 : RequestType
sasl_authenticate_request_v1 =
    request 36 1 sasl_authenticate_request_v0.fields sasl_authenticate_response_v1

abbrev pub alter_configs_request : List RequestType
alter_configs_request = alter_configs_request_v0 ∷ alter_configs_request_v1 ∷ []

abbrev pub describe_configs_request : List RequestType
describe_configs_request =
    describe_configs_request_v0 ∷ describe_configs_request_v1 ∷ describe_configs_request_v2 ∷ []

abbrev pub describe_configs_response : List ResponseType
describe_configs_response =
    describe_configs_response_v0 ∷ describe_configs_response_v1 ∷ describe_configs_response_v2 ∷ []

abbrev pub describe_log_dirs_response : List ResponseType
describe_log_dirs_response = describe_log_dirs_response_v0 ∷ []

abbrev pub describe_log_dirs_request : List RequestType
describe_log_dirs_request = describe_log_dirs_request_v0 ∷ []

abbrev pub sasl_authenticate_request : List RequestType
sasl_authenticate_request = sasl_authenticate_request_v0 ∷ sasl_authenticate_request_v1 ∷ []

abbrev pub sasl_authenticate_response : List ResponseType
sasl_authenticate_response = sasl_authenticate_response_v0 ∷ sasl_authenticate_response_v1 ∷ []
