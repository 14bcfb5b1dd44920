-- ===== src/Errors.antt =====
-- kafka/errors.py: the broker errors that the modelled code tells apart, `for_code`, and the
-- exceptions that it raises. Messages are left out.
use kafka_python.Common.{ℕ, if◌then◌else◌}
use kafka_python.Common.Int.{ℤ, pos, negsuc}
use kafka_python.Common.Eq.{nat_eq, ◌==◌}

-- The classes below `BrokerResponseError`; `other` stands for all that no modelled code names.
pub data BrokerError : Type 0 where
  no_error unknown_topic_or_partition request_timed_out : BrokerError
  coordinator_load_in_progress coordinator_not_available not_coordinator : BrokerError
  topic_authorization_failed group_authorization_failed : BrokerError
  unsupported_for_message_format invalid_producer_epoch invalid_txn_state : BrokerError
  invalid_producer_id_mapping concurrent_transactions : BrokerError
  transactional_id_authorization_failed operation_not_attempted : BrokerError
  other : ℤ → BrokerError

code_table : ℕ → BrokerError
code_table n =
    if n == 0
    then no_error
    else if n == 3
    then unknown_topic_or_partition
    else if n == 7
    then request_timed_out
    else if n == 14
    then coordinator_load_in_progress
    else if n == 15
    then coordinator_not_available
    else if n == 16
    then not_coordinator
    else if n == 29
    then topic_authorization_failed
    else if n == 30
    then group_authorization_failed
    else if n == 43
    then unsupported_for_message_format
    else if n == 47
    then invalid_producer_epoch
    else if n == 48
    then invalid_txn_state
    else if n == 49
    then invalid_producer_id_mapping
    else if n == 51
    then concurrent_transactions
    else if n == 53
    then transactional_id_authorization_failed
    else if n == 55
    then operation_not_attempted
    else other (pos n)

-- `for_code`: the errno table, and a dynamic class for a code that is not in it.
unfoldable pub for_code : ℤ → BrokerError
unfolding code_table
for_code (pos n) = code_table n
for_code (negsuc n) = other (negsuc n)

-- What a method may raise.
pub data Exc : Type 0 where
  broker_error : BrokerError → Exc
  kafka_error illegal_state illegal_argument kafka_connection_error unsupported_version : Exc
  no_offset_for_partition correlation_id_error kafka_protocol_error : Exc
  metadata_empty_broker_list type_error value_error regex_error key_error attribute_error
        runtime_error assertion_error struct_error :
      Exc
