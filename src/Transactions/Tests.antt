-- ===== src/Transactions/Tests.antt =====
-- Runs of a transactional producer, and the theorems at concrete inputs.
use kafka_python.Common.{
  ℕ, ◌+◌, ◌%◌, ◌^◌, ◌≡◌, ◌≢◌, ◌⊎◌, refl, true, false, not, ◌&&◌, ◌||◌, none, some, List, [], ◌∷◌,
  arith, ap, get_elem?,
}
use kafka_python.Common.Int.{ℤ, pos}
use kafka_python.Common.Set
use kafka_python.Common.Dict.{append_at, lookup, insert}
use kafka_python.Errors.{Exc, kafka_error, attribute_error, key_error, for_code}
use kafka_python.Exec.{ok, err, ◌>>=◌}
use kafka_python.Structs.{TopicPartition, tp_eq, tp_beq}
use kafka_python.Transactions.State.{
  uninitialized, in_transaction, committing_transaction, aborting_transaction, fatal_error,
}
use kafka_python.Transactions.Requests.{
  Handler, Response, ResponseOrExc, response, Kind, heappush, priority, is_end_txn,
  init_producer_id_request, add_partitions_to_txn_request,
}
use kafka_python.Transactions.Requests
use kafka_python.Transactions.Manager.{
  TransactionManager, init, is_transactional, transition_to, ensure_transactional,
  maybe_fail_with_error, enqueue_request, complete_transaction,
  add_partitions_to_transaction_handler, topic_data, is_partition_added, is_partition_pending_add,
}
use kafka_python.Transactions.Calls
use kafka_python.Transactions.NextRequest
use kafka_python.Transactions.Handlers.{
  handle_add_partitions, handle_init_producer_id, keys, error_dict,
}
use kafka_python.Transactions.Offsets.{handle_txn_offset_commit}
use kafka_python.Transactions.Complete
use kafka_python.Transactions.Evolution.{IsConsistent, is_error_state}
use kafka_python.Transactions.Runs
use kafka_python.Transactions.Runs.{
  call, run, run-IsConsistent, fatal_error_final, uninitialized_once, on_complete_no_error_state,
}
use kafka_python.Transactions.Dequeue.{
  IsFirst, next_request_handler-IsFirst, next_request_handler_no_end_txn,
}
use kafka_python.Transactions.Completion.{
  IsEnding, begin_commit_refused, begin_commit_lem, begin_abort_lem,
}
use kafka_python.Transactions.Responses.{
  errors_of, handle_add_partitions_ok, handle_add_partitions_error, txn_offset_commit_raises,
}
use kafka_python.Transactions.Sends.{maybe_add_partition_to_transaction_lem}
use kafka_python.Transactions.Sequence.{sequence_number-increment}

-- What a run computes with.
machine : Unit {0}
unfolding run call init Calls.initialize_transactions NextRequest.next_request_handler
    Calls.next_in_flight_request_correlation_id Calls.begin_transaction Calls.begin_commit
    Calls.begin_abort Calls.begin_completing_transaction Calls.maybe_add_partition_to_transaction
    Calls.transition_to_fatal_error Calls.sequence_number Complete.on_complete
    Complete.complete_with Complete.handle_response Complete.handle_response_of transition_to
    ensure_transactional maybe_fail_with_error enqueue_request heappush complete_transaction
    add_partitions_to_transaction_handler topic_data append_at for_code Calls.clear_in_flight
    is_transactional Set.add Set.contains Set.update handle_init_producer_id
    Calls.set_producer_id_and_epoch lookup insert error_dict keys ◌>>=◌
machine = tt

abbrev fresh : TransactionManager
fresh = init (some "orders") 60000 100 (2, 7)

abbrev orders : ℕ → TopicPartition
orders n = record { topic = "orders"; partition = n }

abbrev init_handler : Handler
init_handler = record {
  kind = Requests.init_producer_id;
  request = init_producer_id_request 1 (some "orders") 60000;
  result = 0;
  is_retry = false;
  retry_backoff_ms = 100;
}

abbrev initialized : Response
initialized = record {
  error_code = pos 0;
  producer = record { producer_id = pos 7; epoch = pos 0 };
  coordinator_id = pos 1;
  results = [];
}

-- init_transactions, its response, begin_transaction, and a send to one partition.
abbrev opening : List Runs.Call
opening =
    Runs.initialize_transactions
    ∷ Runs.next_request_handler false
    ∷ Runs.next_in_flight_request_correlation_id
    ∷ Runs.on_complete init_handler (pos 0) (response initialized)
    ∷ Runs.begin_transaction
    ∷ Runs.maybe_add_partition_to_transaction (orders 3)
    ∷ []

abbrev opened : TransactionManager
opened = run fresh opening

opened_state : opened.current_state ≡ in_transaction
unfolding machine
opened_state = refl

run-IsConsistent_example : IsConsistent (run fresh opening)
run-IsConsistent_example = run-IsConsistent (some "orders") 60000 100 (2, 7) opening

abbrev failed : TransactionManager
failed = call opened (Runs.transition_to_fatal_error kafka_error)

failed_state : failed.current_state ≡ fatal_error
unfolding machine
failed_state = refl

fatal_error_final_example : (run failed opening).current_state ≡ fatal_error
fatal_error_final_example = fatal_error_final failed opening failed_state

in_transaction-ne-uninitialized : in_transaction ≢ uninitialized
in_transaction-ne-uninitialized e = cc

opened_initialized : opened.current_state ≢ uninitialized
opened_initialized = rw opened_state in_transaction-ne-uninitialized

uninitialized_once_example : (run opened opening).current_state ≢ uninitialized
uninitialized_once_example = uninitialized_once opened opening opened_initialized

-- INVALID_PRODUCER_EPOCH
abbrev fenced : Response
fenced = record initialized { error_code = pos 47 }

on_complete_no_error_state_example :
    is_error_state
      (Complete.on_complete init_handler (pos 0) (response fenced) fresh).1.current_state
    ≡ false
unfolding machine
on_complete_no_error_state_example =
    on_complete_no_error_state init_handler (pos 0) (response fenced) fresh refl

abbrev added : Handler
added = record {
  kind = Requests.add_partitions_to_txn;
  request =
      add_partitions_to_txn_request 2 (some "orders")
        (record { producer_id = pos 7; epoch = pos 0 }) (("orders", 3 ∷ []) ∷ []);
  result = 1;
  is_retry = false;
  retry_backoff_ms = 100;
}

-- The first request of the opened transaction adds the partition.
next_is_add : (NextRequest.next_request_handler false opened).0 ≡ ok (some added)
unfolding machine
next_is_add = refl

next_request_handler-IsFirst_example :
    IsFirst added (NextRequest.next_request_handler false opened).1.pending_requests
next_request_handler-IsFirst_example =
    next_request_handler-IsFirst false opened
      (run-IsConsistent (some "orders") 60000 100 (2, 7) opening) next_is_add

next_request_handler_no_end_txn_example : is_end_txn added.kind ≡ false
unfolding machine
next_request_handler_no_end_txn_example = next_request_handler_no_end_txn opened {h = added} refl

begin_commit_refused_example : Calls.begin_commit fresh ≡ (err kafka_error, fresh)
unfolding machine
begin_commit_refused_example = begin_commit_refused fresh refl

begin_commit_lem_example :
    (i : ℕ) × (t : TransactionManager) × (Calls.begin_commit opened ≡ (ok i, t))
    × IsEnding true
        (record opened { current_state = committing_transaction; last_error = none })
        t
        i
unfolding machine
begin_commit_lem_example = begin_commit_lem opened refl

begin_abort_lem_example :
    (i : ℕ) × (t : TransactionManager) × (Calls.begin_abort opened ≡ (ok i, t))
    × IsEnding false
        (record opened {
          current_state = aborting_transaction;
          last_error = none;
          new_partitions = [];
        })
        t
        i
unfolding machine
begin_abort_lem_example = begin_abort_lem opened refl

abbrev answer : ℤ → Response
answer code = record initialized { results = ("orders", (3, code) ∷ []) ∷ [] }

abbrev first_added : Handler
first_added = record added { result = 0 }

handle_add_partitions_ok_example :
    (t : TransactionManager) × (handle_add_partitions first_added (answer (pos 0)) opened
      ≡ (ok tt, t))
    × (Set.contains t.partitions (orders 3) ≡ (
        Set.contains opened.partitions (orders 3)
        || Set.contains (keys (errors_of (answer (pos 0)))) (orders 3)))
    × (Set.contains t.pending_partitions (orders 3) ≡ (
        Set.contains opened.pending_partitions (orders 3)
        && not (Set.contains (keys (errors_of (answer (pos 0)))) (orders 3))))
    × (t.transaction_started ≡ true)
    × (get_elem? t.results 0 ≡ some (record { is_set = true; error = none }))
unfolding machine
handle_add_partitions_ok_example =
    handle_add_partitions_ok first_added (answer (pos 0)) opened (orders 3) refl (omega arith)

handle_add_partitions_error_example :
    ((handle_add_partitions added (answer (pos 29)) opened).1.partitions ≡ opened.partitions)
    × ((handle_add_partitions added (answer (pos 29)) opened).1.transaction_started
        ≡ opened.transaction_started)
unfolding machine
handle_add_partitions_error_example =
    handle_add_partitions_error added (answer (pos 29)) opened refl

-- NOT_COORDINATOR, which is meant to be retried
txn_offset_commit_raises_example :
    let (x, t) = handle_txn_offset_commit added (answer (pos 16)) opened in
    ((x ≡ err attribute_error) ⊎ (x ≡ err key_error))
    × (t.pending_requests ≡ opened.pending_requests)
    × (t.results ≡ opened.results)
    × (t.current_state ≡ opened.current_state)
unfolding machine
txn_offset_commit_raises_example = txn_offset_commit_raises added (answer (pos 16)) opened refl

maybe_add_partition_to_transaction_example :
    let (r, t) = Calls.maybe_add_partition_to_transaction (orders 4) opened in
    ((e : Exc) × (r ≡ err e) × (t ≡ opened))
    ⊎ ((r ≡ ok tt)
        × (opened.current_state ≡ in_transaction)
        × (Calls.has_producer_id opened ≡ true)
        × ((is_partition_added (orders 4) t || is_partition_pending_add (orders 4) t) ≡ true)
        × (is_partition_pending_add (orders 3) t ≡ (
            is_partition_pending_add (orders 3) opened
            || (tp_beq (orders 4) (orders 3) && not (is_partition_added (orders 4) opened))))
        × (Calls.is_send_to_partition_allowed (orders 3) t
            ≡ Calls.is_send_to_partition_allowed (orders 3) opened))
unfolding machine
maybe_add_partition_to_transaction_example =
    maybe_add_partition_to_transaction_lem (orders 4) (orders 3) opened refl

orders_differ : orders 4 ≢ orders 3
orders_differ e = omega (arith, ap (λ (t : TopicPartition). t.partition) e)

abbrev counting : TransactionManager
counting = record fresh { sequence_numbers = (orders 3, 2147483647) ∷ [] }

sequence_number-increment_example :
    let (r, t) = Calls.increment_sequence_number (orders 3) 2 counting in
    (r ≡ ok tt)
    × ((Calls.sequence_number (orders 3) t).0 ≡ ok ((2147483647 + 2) % 2 ^ 31))
    × ((Calls.sequence_number (orders 4) t).0 ≡ (Calls.sequence_number (orders 4) counting).0)
unfolding lookup
sequence_number-increment_example =
    sequence_number-increment (orders 3) (orders 4) 2147483647 2 counting refl (omega arith)
      (omega arith) orders_differ
