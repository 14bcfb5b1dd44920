-- ===== src/Transactions/Handlers.antt =====
-- `TxnRequestHandler` and its six subclasses: what each does with a response.
use kafka_python.Common.{ℕ, min, String, Bool, true, false, not, Option, none, some, List, [], ◌∷◌}
use kafka_python.Common.{if◌then◌else◌, is_empty, map}
use kafka_python.Common.Int.{ℤ}
use kafka_python.Common.Eq.{int_eq, string_eq}
use kafka_python.Common.Dict.{Dict, insert}
use kafka_python.Common.Set
use kafka_python.Errors.{
  Exc, BrokerError, for_code, no_error, unknown_topic_or_partition, coordinator_load_in_progress,
  coordinator_not_available, not_coordinator, topic_authorization_failed,
  group_authorization_failed, invalid_producer_epoch, invalid_txn_state,
  invalid_producer_id_mapping, concurrent_transactions, transactional_id_authorization_failed,
  operation_not_attempted, kafka_error, attribute_error, broker_error,
}
use kafka_python.Exec.{pure, raise, gets, modify, ◌>>=◌, ◌>>◌}
use kafka_python.Structs.{TopicPartition, tp_eq}
use kafka_python.Transactions.State.{ready}
use kafka_python.Transactions.Requests.{
  Version, at_least, CoordType, group, transaction, unrecognized, Kind, Handler, PartitionOffset,
  Response, ResponseOrExc, response, exception, no_response, txn_offset_commit_request,
}
use kafka_python.Transactions.Requests
use kafka_python.Transactions.Manager.{
  TransactionManager, M, transition_to, enqueue_request, done, complete_transaction,
  lookup_coordinator,
}
use kafka_python.Transactions.Calls.{set_producer_id_and_epoch}

-- `fatal_error` and `abortable_error` call `_transition_to_fatal_error` and
-- `_transition_to_abortable_error`, and the manager's methods have no underscore: the call raises
-- AttributeError, before anything is written.
unfoldable pub fatal_error : Handler → Exc → M (Unit {0})
fatal_error h e = raise attribute_error

unfoldable pub abortable_error : Handler → Exc → M (Unit {0})
abortable_error h e = raise attribute_error

-- `reenqueue`
unfoldable pub reenqueue : Handler → M (Unit {0})
reenqueue h = enqueue_request (record h { is_retry = true })

-- `coordinator_type` and `coordinator_key`; `needs_coordinator` is that the first is there.
unfoldable pub coordinator_type : Kind → Option CoordType
coordinator_type (Requests.find_coordinator t k) = none
coordinator_type (Requests.txn_offset_commit g) = some group
coordinator_type _ = some transaction

unfoldable pub coordinator_key : Kind → TransactionManager → Option String
coordinator_key (Requests.find_coordinator t k) s = none
coordinator_key (Requests.txn_offset_commit g) s = some g
coordinator_key _ s = s.transactional_id

-- `_lookup_coordinator('transaction', self.transactional_id)`, then `reenqueue`
unfoldable pub lookup_and_reenqueue : Handler → M (Unit {0})
unfolding reenqueue
lookup_and_reenqueue h = do
  id ← gets λ s. s.transactional_id
  lookup_coordinator transaction id
  reenqueue h

unfoldable pub handle_init_producer_id : Handler → BrokerError → Response → M (Unit {0})
unfolding lookup_and_reenqueue reenqueue fatal_error
handle_init_producer_id h no_error r = do
  set_producer_id_and_epoch r.producer
  transition_to ready none
  done h.result none
handle_init_producer_id h not_coordinator r = lookup_and_reenqueue h
handle_init_producer_id h coordinator_not_available r = lookup_and_reenqueue h
handle_init_producer_id h coordinator_load_in_progress r = reenqueue h
handle_init_producer_id h concurrent_transactions r = reenqueue h
handle_init_producer_id h transactional_id_authorization_failed r =
    fatal_error h (broker_error transactional_id_authorization_failed)
handle_init_producer_id h e r = fatal_error h kafka_error

abbrev pub add_partitions_retry_backoff_ms : ℕ
add_partitions_retry_backoff_ms = 20

-- `maybe_override_retry_backoff_ms`
unfoldable pub override_retry_backoff_ms : Handler → TransactionManager → Handler
override_retry_backoff_ms h s =
    if is_empty s.partitions
    then record h { retry_backoff_ms = min add_partitions_retry_backoff_ms h.retry_backoff_ms }
    else h

-- How the loop over the results goes on after one of them.
pub data LoopStep : Type 0 where
  go_on unauthorized failed returned : LoopStep

unfoldable pub partition_step : Handler → BrokerError → M LoopStep
unfolding lookup_and_reenqueue reenqueue override_retry_backoff_ms fatal_error
partition_step h no_error = pure go_on
partition_step h coordinator_not_available = do lookup_and_reenqueue h; pure returned
partition_step h not_coordinator = do lookup_and_reenqueue h; pure returned
partition_step h concurrent_transactions = do
  h' ← gets (override_retry_backoff_ms h)
  reenqueue h'
  pure returned
partition_step h coordinator_load_in_progress = do reenqueue h; pure returned
partition_step h unknown_topic_or_partition = do reenqueue h; pure returned
partition_step h invalid_producer_epoch = do
  fatal_error h (broker_error invalid_producer_epoch)
  pure returned
partition_step h transactional_id_authorization_failed = do
  fatal_error h (broker_error transactional_id_authorization_failed)
  pure returned
partition_step h invalid_producer_id_mapping = do fatal_error h kafka_error; pure returned
partition_step h invalid_txn_state = do fatal_error h kafka_error; pure returned
partition_step h topic_authorization_failed = pure unauthorized
partition_step h operation_not_attempted = pure failed
partition_step h e = pure failed

-- The loop: `none` if it returned early, else the unauthorized topics and `has_partition_errors`.
unfoldable pub partition_loop :
    Handler
    → List (TopicPartition × BrokerError)
    → List String
    → Bool
    → M (Option (List String × Bool))
unfolding partition_step
partition_loop h [] unauthorized_topics has_errors = pure (some (unauthorized_topics, has_errors))
partition_loop h ((tp, e) ∷ rest) unauthorized_topics has_errors = do
  next ← partition_step h e
  elim next [
    | go_on ↦ partition_loop h rest unauthorized_topics has_errors
    | unauthorized ↦ partition_loop h rest (Set.add unauthorized_topics tp.topic) has_errors
    | failed ↦ partition_loop h rest unauthorized_topics true
    | returned ↦ pure none
  ]

-- The comprehension `{TopicPartition(topic, partition): for_code(error_code) …}`.
unfoldable pub topic_errors :
    String → List (ℕ × ℤ) → Dict TopicPartition BrokerError → Dict TopicPartition BrokerError
topic_errors topic [] d = d
topic_errors topic ((partition, code) ∷ rest) d =
    topic_errors topic rest
      (insert d (record { topic = topic; partition = partition }) (for_code code))

unfoldable pub error_dict :
    List (String × List (ℕ × ℤ)) → Dict TopicPartition BrokerError → Dict TopicPartition BrokerError
unfolding topic_errors
error_dict [] d = d
error_dict ((topic, partitions) ∷ rest) d = error_dict rest (topic_errors topic partitions d)

unfoldable pub keys : Dict TopicPartition BrokerError → List TopicPartition
keys d = map (λ e. e.0) d

-- What follows the loop.
unfoldable pub add_partitions_done :
    Handler → List TopicPartition → List String → Bool → M (Unit {0})
unfolding abortable_error
add_partitions_done h tps unauthorized_topics has_errors = do
  modify λ s. record s { pending_partitions = Set.difference s.pending_partitions tps }
  if not (is_empty unauthorized_topics)
      then abortable_error h (broker_error topic_authorization_failed)
      else if has_errors
      then abortable_error h kafka_error
      else (do
        modify
            λ s. record s { partitions = Set.update s.partitions tps; transaction_started = true }
        done h.result none)

-- Nothing more after an early return.
unfoldable pub after_loop :
    Handler → List TopicPartition → Option (List String × Bool) → M (Unit {0})
unfolding add_partitions_done
after_loop h tps none = pure tt
after_loop h tps (some (unauthorized_topics, has_errors)) =
    add_partitions_done h tps unauthorized_topics has_errors

unfoldable pub handle_add_partitions : Handler → Response → M (Unit {0})
unfolding partition_loop after_loop error_dict keys
handle_add_partitions h r = do
  h' ← gets λ s. record h { retry_backoff_ms = s.retry_backoff_ms }
  let errors = error_dict r.results []
  outcome ← partition_loop h' errors [] false
  after_loop h' (keys errors) outcome

-- `metadata.add_coordinator` returns the node id "coordinator-N", which stands here as N.
unfoldable pub set_coordinator : CoordType → ℤ → M (Unit {0})
set_coordinator group id = modify λ s. record s { consumer_group_coordinator = some id }
set_coordinator transaction id = modify λ s. record s { transaction_coordinator = some id }
set_coordinator unrecognized id = pure tt

unfoldable pub handle_find_coordinator : CoordType → Handler → BrokerError → Response → M (Unit {0})
unfolding set_coordinator reenqueue fatal_error abortable_error
handle_find_coordinator t h no_error r = do set_coordinator t r.coordinator_id; done h.result none
handle_find_coordinator t h coordinator_not_available r = reenqueue h
handle_find_coordinator t h transactional_id_authorization_failed r =
    fatal_error h (broker_error transactional_id_authorization_failed)
handle_find_coordinator t h group_authorization_failed r =
    abortable_error h (broker_error group_authorization_failed)
handle_find_coordinator t h e r = fatal_error h kafka_error

unfoldable pub handle_end_txn : Handler → BrokerError → M (Unit {0})
unfolding lookup_and_reenqueue reenqueue fatal_error
handle_end_txn h no_error = do complete_transaction; done h.result none
handle_end_txn h coordinator_not_available = lookup_and_reenqueue h
handle_end_txn h not_coordinator = lookup_and_reenqueue h
handle_end_txn h coordinator_load_in_progress = reenqueue h
handle_end_txn h concurrent_transactions = reenqueue h
handle_end_txn h invalid_producer_epoch = fatal_error h (broker_error invalid_producer_epoch)
handle_end_txn h transactional_id_authorization_failed =
    fatal_error h (broker_error transactional_id_authorization_failed)
handle_end_txn h invalid_txn_state = fatal_error h (broker_error invalid_txn_state)
handle_end_txn h e = fatal_error h kafka_error
