-- ===== src/Protocol/Messages/FindCoordinator.antt =====
-- kafka/protocol/find_coordinator.py: the classes.
use kafka_python.Common.{List, [], ◌∷◌}
use kafka_python.Protocol.Types.{int8, int16, int32, string, end, ◌▸◌, ◌⦂◌}
use kafka_python.Protocol.Message.{RequestType, ResponseType, response, request}

abbrev pub find_coordinator_response_v0 : ResponseType
find_coordinator_response_v0 =
    response 10 0
      ("error_code" ⦂ int16 ▸ "coordinator_id" ⦂ int32 ▸ "host" ⦂ string ▸ "port" ⦂ int32 ▸ end)

abbrev pub find_coordinator_response_v1 : ResponseType
find_coordinator_response_v1 = response 10 1 (
    "throttle_time_ms" ⦂ int32
    ▸ "error_code" ⦂ int16
    ▸ "error_message" ⦂ string
    ▸ "coordinator_id" ⦂ int32
    ▸ "host" ⦂ string
    ▸ "port" ⦂ int32
    ▸ end)

abbrev pub find_coordinator_response_v2 : ResponseType
find_coordinator_response_v2 = response 10 2 find_coordinator_response_v1.fields

abbrev pub find_coordinator_request_v0 : RequestType
find_coordinator_request_v0 =
    request 10 0 ("consumer_group" ⦂ string ▸ end) find_coordinator_response_v0

abbrev pub find_coordinator_request_v1 : RequestType
find_coordinator_request_v1 =
    request 10 1 ("coordinator_key" ⦂ string ▸ "coordinator_type" ⦂ int8 ▸ end)
      find_coordinator_response_v1

abbrev pub find_coordinator_request_v2 : RequestType
find_coordinator_request_v2 =
    request 10 2 find_coordinator_request_v1.fields find_coordinator_response_v2

abbrev pub find_coordinator_request : List RequestType
find_coordinator_request =
    find_coordinator_request_v0 ∷ find_coordinator_request_v1 ∷ find_coordinator_request_v2 ∷ []

abbrev pub find_coordinator_response : List ResponseType
find_coordinator_response =
    find_coordinator_response_v0 ∷ find_coordinator_response_v1 ∷ find_coordinator_response_v2 ∷ []
