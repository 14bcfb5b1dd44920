-- ===== src/Transactions/Runs.antt =====
-- Any sequence of calls by the producer, its sender thread and the futures of its requests.
use kafka_python.Common.{
  ℕ, String, ◌≡◌, ◌≢◌, Bool, true, false, Option, List, [], ◌∷◌, arith, refl, subst,
}
use kafka_python.Common.Int.{ℤ}
use kafka_python.Common.Dict.{Dict}
use kafka_python.Errors.{Exc}
use kafka_python.Structs.{TopicPartition, OffsetAndMetadata}
use kafka_python.Transactions.State.{
  TransactionState, uninitialized, fatal_error, ProducerIdAndEpoch, is_transition_valid,
}
use kafka_python.Transactions.Requests.{Version, CoordType, Handler, ResponseOrExc}
use kafka_python.Transactions.Manager.{TransactionManager, init, lookup_coordinator}
use kafka_python.Transactions.Calls
use kafka_python.Transactions.NextRequest
use kafka_python.Transactions.Complete
use kafka_python.Transactions.Evolution.{
  any, only_ready, is_error_state, here, next, Reaches, IsConsistent, Evolves, Reaches-trans,
}
use kafka_python.Transactions.Evolution.Calls.{
  initialize_transactions-Evolves, begin_transaction-Evolves, begin_commit-Evolves,
  begin_abort-Evolves, send_offsets-Evolves, maybe_add_partition-Evolves, abortable_error-Evolves,
  fatal_error-Evolves, set_producer-Evolves, reset_producer-Evolves, sequence_number-Evolves,
  increment-Evolves, next_request_handler-Evolves, retry-Evolves, next_correlation-Evolves,
  lookup_coordinator-Evolves,
}
use kafka_python.Transactions.Evolution.Handlers.{
  on_complete-Evolves, authentication_failed-Evolves,
}

pub data Call : Type 0 where
  initialize_transactions begin_transaction begin_commit begin_abort reset_producer_id : Call
  next_in_flight_request_correlation_id : Call
  send_offsets_to_transaction : Dict TopicPartition OffsetAndMetadata → String → Call
  maybe_add_partition_to_transaction sequence_number : TopicPartition → Call
  increment_sequence_number : TopicPartition → ℕ → Call
  transition_to_abortable_error transition_to_fatal_error authentication_failed : Exc → Call
  set_producer_id_and_epoch : ProducerIdAndEpoch → Call
  next_request_handler : Bool → Call
  retry : Handler → Call
  lookup_coordinator_for : CoordType → Option String → Call
  on_complete : Handler → ℤ → ResponseOrExc → Call

-- The manager after the call, whether it returned or raised.
unfoldable pub call : TransactionManager → Call → TransactionManager
call s initialize_transactions = (Calls.initialize_transactions s).1
call s begin_transaction = (Calls.begin_transaction s).1
call s begin_commit = (Calls.begin_commit s).1
call s begin_abort = (Calls.begin_abort s).1
call s reset_producer_id = (Calls.reset_producer_id s).1
call s next_in_flight_request_correlation_id = (Calls.next_in_flight_request_correlation_id s).1
call s (send_offsets_to_transaction o g) = (Calls.send_offsets_to_transaction o g s).1
call s (maybe_add_partition_to_transaction tp) = (Calls.maybe_add_partition_to_transaction tp s).1
call s (sequence_number tp) = (Calls.sequence_number tp s).1
call s (increment_sequence_number tp n) = (Calls.increment_sequence_number tp n s).1
call s (transition_to_abortable_error e) = (Calls.transition_to_abortable_error e s).1
call s (transition_to_fatal_error e) = (Calls.transition_to_fatal_error e s).1
call s (authentication_failed e) = (Complete.authentication_failed e s).1
call s (set_producer_id_and_epoch p) = (Calls.set_producer_id_and_epoch p s).1
call s (next_request_handler b) = (NextRequest.next_request_handler b s).1
call s (retry h) = (Calls.retry h s).1
call s (lookup_coordinator_for t key) = (lookup_coordinator t key s).1
call s (on_complete h id r) = (Complete.on_complete h id r s).1

unfoldable pub run : TransactionManager → List Call → TransactionManager
run s [] = s
run s (c ∷ cs) = run (call s c) cs

widen : {P : TransactionState → Bool} {s t : TransactionManager} → Evolves P s t → Evolves any s t
widen e = record { path = go e.path; consistent = e.consistent }
  where
    go : {P : TransactionState → Bool} {s t : TransactionState} → Reaches P s t → Reaches any s t
    go here = here
    go (next u p v k) = next u (go p) v refl

call-Evolves : (s : TransactionManager) (c : Call) → Evolves any s (call s c)
unfolding call
call-Evolves s initialize_transactions = initialize_transactions-Evolves.at s
call-Evolves s begin_transaction = begin_transaction-Evolves.at s
call-Evolves s begin_commit = begin_commit-Evolves.at s
call-Evolves s begin_abort = begin_abort-Evolves.at s
call-Evolves s reset_producer_id = reset_producer-Evolves.at s
call-Evolves s next_in_flight_request_correlation_id = next_correlation-Evolves.at s
call-Evolves s (send_offsets_to_transaction o g) = (send_offsets-Evolves o g).at s
call-Evolves s (maybe_add_partition_to_transaction tp) = (maybe_add_partition-Evolves tp).at s
call-Evolves s (sequence_number tp) = (sequence_number-Evolves tp).at s
call-Evolves s (increment_sequence_number tp n) = (increment-Evolves tp n).at s
call-Evolves s (transition_to_abortable_error e) = (abortable_error-Evolves e).at s
call-Evolves s (transition_to_fatal_error e) = (fatal_error-Evolves e).at s
call-Evolves s (authentication_failed e) = widen ((authentication_failed-Evolves e).at s)
call-Evolves s (set_producer_id_and_epoch p) = (set_producer-Evolves p).at s
call-Evolves s (next_request_handler b) = (next_request_handler-Evolves b).at s
call-Evolves s (retry h) = (retry-Evolves h).at s
call-Evolves s (lookup_coordinator_for t key) = (lookup_coordinator-Evolves t key).at s
call-Evolves s (on_complete h id r) = widen ((on_complete-Evolves h id r).at s)

run_from-IsConsistent :
    (s : TransactionManager) (cs : List Call) → IsConsistent s → IsConsistent (run s cs)
unfolding run
run_from-IsConsistent s [] k = k
run_from-IsConsistent s (c ∷ cs) k =
    run_from-IsConsistent (call s c) cs ((call-Evolves s c).consistent k)

-- After any calls, raising ones among them, a new manager has a last error exactly in the two error
-- states, and its queue holds every request behind those of a lower priority value and behind those
-- of the same priority that were enqueued earlier.
pub run-IsConsistent :
    (transactional_id : Option String) (timeout_ms backoff_ms : ℕ) (v : Version) (cs : List Call)
    → IsConsistent (run (init transactional_id timeout_ms backoff_ms v) cs)
unfolding init
run-IsConsistent i t b v cs =
    run_from-IsConsistent _ cs (record { errors = refl; ordered = tt; numbered = tt })

fatal_absorbs : {t : TransactionState} → Reaches any fatal_error t → t ≡ fatal_error
unfolding is_transition_valid
fatal_absorbs here = refl
fatal_absorbs (next {t} u p v k) = step t u (fatal_absorbs p) v
  where
    step :
        (t u : TransactionState)
        → t ≡ fatal_error
        → is_transition_valid t u ≡ true
        → u ≡ fatal_error
    step t u e v = ground arith

not_uninitialized :
    {s t : TransactionState} → Reaches any s t → s ≢ uninitialized → t ≢ uninitialized
unfolding is_transition_valid
not_uninitialized here h = h
not_uninitialized (next u p v k) h = λ e. ground arith

run-Reaches :
    (s : TransactionManager) (cs : List Call) → Reaches any s.current_state (run s cs).current_state
unfolding run
run-Reaches s [] = here
run-Reaches s (c ∷ cs) = Reaches-trans (call-Evolves s c).path (run-Reaches (call s c) cs)

-- A manager in the state FATAL_ERROR is in it after any calls.
pub fatal_error_final :
    (s : TransactionManager) (cs : List Call)
    → s.current_state ≡ fatal_error
    → (run s cs).current_state ≡ fatal_error
fatal_error_final s cs e =
    fatal_absorbs (subst (λ x. Reaches any x (run s cs).current_state) e (run-Reaches s cs))

-- A manager that has left the state UNINITIALIZED is not in it after any calls.
pub uninitialized_once :
    (s : TransactionManager) (cs : List Call)
    → s.current_state ≢ uninitialized
    → (run s cs).current_state ≢ uninitialized
uninitialized_once s cs h = not_uninitialized (run-Reaches s cs) h

-- `on_complete` never takes the manager from another state into an error state, whatever the
-- response, the exception or the correlation id.
pub on_complete_no_error_state :
    (h : Handler) (id : ℤ) (r : ResponseOrExc) (s : TransactionManager)
    → is_error_state s.current_state ≡ false
    → is_error_state (Complete.on_complete h id r s).1.current_state ≡ false
on_complete_no_error_state h id r s e = only_ready_path ((on_complete-Evolves h id r).at s).path e
  where
    only_ready_path :
        {s t : TransactionState}
        → Reaches only_ready s t
        → is_error_state s ≡ false
        → is_error_state t ≡ false
    only_ready_path here e = e
    only_ready_path (next u p v k) e = ground arith
