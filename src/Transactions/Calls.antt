-- ===== src/Transactions/Calls.antt =====
-- The public methods of `TransactionManager`, as the producer and its sender thread call them.
use kafka_python.Common.{
  ℕ, String, ◌+◌, ◌-◌, Bool, true, false, not, ◌||◌, ◌&&◌, Option, none, some,
}
use kafka_python.Common.{[], if◌then◌else◌, is_empty, ltb}
use kafka_python.Common.Int.{ℤ, pos, negsuc, ◌+ℤ◌}
use kafka_python.Common.Eq.{◌==◌, int_eq}
use kafka_python.Common.Dict.{Dict, lookup, insert}
use kafka_python.Common.Set
use kafka_python.Errors.{Exc, kafka_error, illegal_state}
use kafka_python.Exec.{ok, err, pure, gets, raise_if, modify, when, ◌>>=◌, ◌>>◌}
use kafka_python.Structs.{TopicPartition, OffsetAndMetadata, tp_eq}
use kafka_python.Transactions.State.{
  initializing, in_transaction, committing_transaction, aborting_transaction, abortable_error,
  fatal_error, state_eq, ProducerIdAndEpoch, no_producer, is_valid,
}
use kafka_python.Transactions.Requests.{
  at_least, CoordType, group, transaction, unrecognized, Kind, Handler, Pending, is_end_txn,
  is_find_coordinator, init_producer_id_request, end_txn_request, add_offsets_to_txn_request,
}
use kafka_python.Transactions.Requests
use kafka_python.Transactions.Manager.{
  TransactionManager, M, is_transactional, has_error, has_fatal_error, is_aborting,
  is_partition_added, is_partition_pending_add, transition_to, ensure_transactional,
  maybe_fail_with_error, enqueue_request, new_handler, version_of,
  add_partitions_to_transaction_handler,
}

-- The methods that return a handler's result return its index.
unfoldable pub initialize_transactions : M ℕ
unfolding new_handler
initialize_transactions = do
  ensure_transactional
  transition_to initializing none
  modify λ s. record s { producer_id_and_epoch = no_producer; sequence_numbers = [] }
  request ← gets λ s.
      init_producer_id_request (if at_least s.api_version 2 0 then 1 else 0) s.transactional_id
        s.transaction_timeout_ms
  h ← new_handler Requests.init_producer_id request
  enqueue_request h
  pure h.result

unfoldable pub begin_transaction : M (Unit {0})
begin_transaction = do
  ensure_transactional
  maybe_fail_with_error
  transition_to in_transaction none

-- `self._enqueue_request(self._add_partitions_to_transaction_handler())`
unfoldable pub enqueue_add_partitions : M (Unit {0})
enqueue_add_partitions = do a ← add_partitions_to_transaction_handler; enqueue_request a

-- `if self._new_partitions_in_transaction: self._enqueue_request(…)`
unfoldable pub add_new_partitions : M (Unit {0})
unfolding enqueue_add_partitions
add_new_partitions = do
  adding ← gets λ s. not (is_empty s.new_partitions)
  when adding enqueue_add_partitions

-- `EndTxnHandler(self, committed)`, enqueued
unfoldable pub enqueue_end_txn : Bool → M ℕ
unfolding new_handler
enqueue_end_txn committed = do
  request ← gets λ s.
      end_txn_request (version_of s.api_version) s.transactional_id s.producer_id_and_epoch
        committed
  h ← new_handler Requests.end_txn request
  enqueue_request h
  pure h.result

unfoldable pub begin_completing_transaction : Bool → M ℕ
unfolding add_new_partitions enqueue_end_txn
begin_completing_transaction committed = do add_new_partitions; enqueue_end_txn committed

unfoldable pub begin_commit : M ℕ
begin_commit = do
  ensure_transactional
  maybe_fail_with_error
  transition_to committing_transaction none
  begin_completing_transaction true

unfoldable pub begin_abort : M ℕ
begin_abort = do
  ensure_transactional
  failed ← gets λ s. s.current_state == abortable_error
  when (not failed) maybe_fail_with_error
  transition_to aborting_transaction none
  modify λ s. record s { new_partitions = [] }
  begin_completing_transaction false

unfoldable pub send_offsets_to_transaction : Dict TopicPartition OffsetAndMetadata → String → M ℕ
unfolding new_handler
send_offsets_to_transaction offsets consumer_group_id = do
  ensure_transactional
  maybe_fail_with_error
  active ← gets λ s. s.current_state == in_transaction
  raise_if (not active) kafka_error
  request ← gets λ s.
      add_offsets_to_txn_request (version_of s.api_version) s.transactional_id
        s.producer_id_and_epoch consumer_group_id
  h ← new_handler (Requests.add_offsets_to_txn consumer_group_id offsets) request
  enqueue_request h
  pure h.result

-- `has_producer_id()`
unfoldable pub has_producer_id : TransactionManager → Bool
unfolding is_valid
has_producer_id s = is_valid s.producer_id_and_epoch

unfoldable pub fail_if_not_ready_for_send : M (Unit {0})
unfolding has_error is_transactional has_producer_id
fail_if_not_ready_for_send = do
  failed ← gets has_error
  raise_if failed kafka_error
  transactional ← gets is_transactional
  initialized ← gets has_producer_id
  active ← gets λ s. s.current_state == in_transaction
  raise_if (transactional && not initialized) illegal_state
  raise_if (transactional && not active) illegal_state

unfoldable pub maybe_add_partition_to_transaction : TopicPartition → M (Unit {0})
unfolding is_partition_added is_partition_pending_add fail_if_not_ready_for_send
maybe_add_partition_to_transaction tp = do
  fail_if_not_ready_for_send
  known ← gets λ s. is_partition_added tp s || is_partition_pending_add tp s
  when (not known) (modify λ s. record s { new_partitions = Set.add s.new_partitions tp })

unfoldable pub is_send_to_partition_allowed : TopicPartition → TransactionManager → Bool
unfolding has_fatal_error is_transactional
is_send_to_partition_allowed tp s =
    if has_fatal_error s then false else not (is_transactional s) || Set.contains s.partitions tp

unfoldable pub transition_to_abortable_error : Exc → M (Unit {0})
transition_to_abortable_error e = do
  aborting ← gets is_aborting
  when (not aborting) (transition_to abortable_error (some e))

unfoldable pub transition_to_fatal_error : Exc → M (Unit {0})
transition_to_fatal_error e = transition_to fatal_error (some e)

unfoldable pub set_producer_id_and_epoch : ProducerIdAndEpoch → M (Unit {0})
set_producer_id_and_epoch p = modify λ s. record s { producer_id_and_epoch = p }

unfoldable pub reset_producer_id : M (Unit {0})
unfolding is_transactional set_producer_id_and_epoch
reset_producer_id = do
  transactional ← gets is_transactional
  raise_if transactional illegal_state
  set_producer_id_and_epoch no_producer
  modify λ s. record s { sequence_numbers = [] }

-- A read of a `defaultdict` writes the default.
unfoldable pub read_sequence : Option ℕ → TopicPartition → M ℕ
read_sequence none tp s = (ok 0, record s { sequence_numbers = insert s.sequence_numbers tp 0 })
read_sequence (some n) tp s = (ok n, s)

unfoldable pub sequence_number : TopicPartition → M ℕ
unfolding read_sequence
sequence_number tp s = read_sequence (lookup s.sequence_numbers tp) tp s

abbrev pub max_sequence : ℕ
max_sequence = 2147483647

-- Java's int wraps. With `increment` at most `max_sequence` no subtraction goes below 0.
unfoldable pub bumped : ℕ → ℕ → ℕ
bumped base increment =
    if ltb (max_sequence - increment) base
    then increment - (max_sequence - base) - 1
    else base + increment

unfoldable pub increment_sequence_number : TopicPartition → ℕ → M (Unit {0})
increment_sequence_number tp increment s = elim (lookup s.sequence_numbers tp) [
  | none ↦ (err illegal_state, s)
  | some base ↦
      (ok tt, record s { sequence_numbers = insert s.sequence_numbers tp (bumped base increment) })
]

unfoldable pub retry : Handler → M (Unit {0})
retry h = enqueue_request (record h { is_retry = true })

unfoldable pub coordinator : CoordType → M (Option ℤ)
coordinator group s = (ok s.consumer_group_coordinator, s)
coordinator transaction s = (ok s.transaction_coordinator, s)
coordinator unrecognized s = (err illegal_state, s)

unfoldable pub next_in_flight_request_correlation_id : M ℤ
next_in_flight_request_correlation_id s =
    let n = s.in_flight_correlation_id +ℤ pos 1 in (ok n, record s { in_flight_correlation_id = n })

unfoldable pub clear_in_flight : M (Unit {0})
clear_in_flight = modify λ s. record s { in_flight_correlation_id = negsuc 0 }

unfoldable pub has_in_flight_transactional_request : TransactionManager → Bool
has_in_flight_transactional_request s = not (s.in_flight_correlation_id == negsuc 0)
