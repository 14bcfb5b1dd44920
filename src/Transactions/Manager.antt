-- ===== src/Transactions/Manager.antt =====
-- `TransactionManager`: its fields, and the operations that the others are made of. Every public
-- method runs under one lock, so a call is one step.
use kafka_python.Common.{ℕ, String, ◌+◌, Bool, true, false, not, ◌||◌, Option, none, some}
use kafka_python.Common.{List, [], ◌∷◌, ◌++◌, if◌then◌else◌, is_empty, is_some, length, set}
use kafka_python.Common.Int.{ℤ, negsuc}
use kafka_python.Common.Eq.{string_eq, ◌==◌}
use kafka_python.Common.Dict.{append_at, Dict}
use kafka_python.Common.Set
use kafka_python.Errors.{Exc, kafka_error, illegal_state, illegal_argument}
use kafka_python.Exec.{Exec, ok, err, raise, gets, raise_if, modify, ◌>>=◌, ◌>>◌}
use kafka_python.Structs.{TopicPartition, OffsetAndMetadata, tp_eq}
use kafka_python.Transactions.State.{
  TransactionState, uninitialized, ready, committing_transaction, aborting_transaction,
  abortable_error, fatal_error, state_eq, is_transition_valid, rank, ProducerIdAndEpoch,
  no_producer,
}
use kafka_python.Transactions.Requests.{
  Version, at_least, CoordType, group, transaction, unrecognized, Kind, Request, Handler, Pending,
  priority, heappush, add_partitions_to_txn_request, find_coordinator_request,
}
use kafka_python.Transactions.Requests

-- The latch and the error of a `TransactionalRequestResult`.
pub record TxnResult : Type 0 where
  pub is_set : Bool
  pub error : Option Exc

-- `results` holds the result objects, in the order in which handlers made them.
pub record TransactionManager : Type 0 where
  pub api_version : Version
  pub sequence_numbers : Dict TopicPartition ℕ
  pub transactional_id : Option String
  pub transaction_timeout_ms : ℕ
  pub transaction_coordinator : Option ℤ
  pub consumer_group_coordinator : Option ℤ
  pub new_partitions : List TopicPartition
  pub pending_partitions : List TopicPartition
  pub partitions : List TopicPartition
  pub pending_offset_commits : Dict TopicPartition OffsetAndMetadata
  pub current_state : TransactionState
  pub last_error : Option Exc
  pub producer_id_and_epoch : ProducerIdAndEpoch
  pub transaction_started : Bool
  pub pending_requests : List Pending
  pub pending_requests_sort_id : ℕ
  pub in_flight_correlation_id : ℤ
  pub retry_backoff_ms : ℕ
  pub results : List TxnResult

abbrev pub M : Type 0 → Type 0
M A = Exec TransactionManager A

unfoldable pub init : Option String → ℕ → ℕ → Version → TransactionManager
init transactional_id transaction_timeout_ms retry_backoff_ms api_version = record {
  api_version = api_version;
  sequence_numbers = [];
  transactional_id = transactional_id;
  transaction_timeout_ms = transaction_timeout_ms;
  transaction_coordinator = none;
  consumer_group_coordinator = none;
  new_partitions = [];
  pending_partitions = [];
  partitions = [];
  pending_offset_commits = [];
  current_state = uninitialized;
  last_error = none;
  producer_id_and_epoch = no_producer;
  transaction_started = false;
  pending_requests = [];
  pending_requests_sort_id = 0;
  in_flight_correlation_id = negsuc 0;
  retry_backoff_ms = retry_backoff_ms;
  results = [];
}

-- `is_transactional`, `has_error`, `has_fatal_error`, `has_abortable_error`, `is_completing`,
-- `is_aborting`
unfoldable pub is_transactional : TransactionManager → Bool
is_transactional s = is_some s.transactional_id

unfoldable pub has_error : TransactionManager → Bool
has_error s = s.current_state == abortable_error || s.current_state == fatal_error

unfoldable pub has_fatal_error : TransactionManager → Bool
has_fatal_error s = s.current_state == fatal_error

unfoldable pub has_abortable_error : TransactionManager → Bool
has_abortable_error s = s.current_state == abortable_error

unfoldable pub is_completing : TransactionManager → Bool
is_completing s =
    s.current_state == committing_transaction || s.current_state == aborting_transaction

unfoldable pub is_aborting : TransactionManager → Bool
is_aborting s = s.current_state == aborting_transaction

unfoldable pub has_partitions_to_add : TransactionManager → Bool
has_partitions_to_add s = not (is_empty s.new_partitions) || not (is_empty s.pending_partitions)

unfoldable pub is_partition_added : TopicPartition → TransactionManager → Bool
is_partition_added tp s = Set.contains s.partitions tp

unfoldable pub is_partition_pending_add : TopicPartition → TransactionManager → Bool
is_partition_pending_add tp s =
    Set.contains s.new_partitions tp || Set.contains s.pending_partitions tp

-- The two assignments of `_transition_to` for a target that is allowed.
unfoldable pub enter : TransactionState → Option Exc → M (Unit {0})
enter target none s =
    if target == fatal_error || target == abortable_error
    then (err illegal_argument, s)
    else (ok tt, record s { last_error = none; current_state = target })
enter target (some e) s = (
  ok tt,
  record s {
    last_error = if target == fatal_error || target == abortable_error then some e else none;
    current_state = target;
  },
)

unfoldable pub transition_to : TransactionState → Option Exc → M (Unit {0})
unfolding is_transition_valid enter
transition_to target error s =
    if is_transition_valid s.current_state target
    then enter target error s
    else (err kafka_error, s)

unfoldable pub ensure_transactional : M (Unit {0})
unfolding is_transactional
ensure_transactional = do
  transactional ← gets is_transactional
  raise_if (not transactional) illegal_state

unfoldable pub maybe_fail_with_error : M (Unit {0})
unfolding has_error
maybe_fail_with_error = do failed ← gets has_error; raise_if failed kafka_error

-- `_enqueue_request`, with the sort id that `_next_pending_requests_sort_id` gives
unfoldable pub enqueue_request : Handler → M (Unit {0})
unfolding priority
enqueue_request h s =
    let n = s.pending_requests_sort_id + 1 in
    let p : Pending = record { rank_of = rank (priority h.kind); sort_id = n; handler = h } in
    (
      ok tt,
      record s { pending_requests_sort_id = n; pending_requests = heappush s.pending_requests p },
    )

-- `result.done(error)`
unfoldable pub done : ℕ → Option Exc → M (Unit {0})
done i e s = (ok tt, record s { results = set s.results i (record { is_set = true; error = e }) })

-- `TxnRequestHandler.__init__`, with a new result
unfoldable pub new_handler : Kind → Request → M Handler
new_handler kind request s = (
  ok (record {
    kind = kind;
    request = request;
    result = length s.results;
    is_retry = false;
    retry_backoff_ms = s.retry_backoff_ms;
  }),
  record s { results = s.results ++ record { is_set = false; error = none } ∷ [] },
)

-- `_complete_transaction`
unfoldable pub complete_transaction : M (Unit {0})
unfolding transition_to
complete_transaction = do
  transition_to ready none
  modify λ s. record s {
    transaction_started = false;
    new_partitions = [];
    pending_partitions = [];
    partitions = [];
  }

-- The request version of the handlers that know three.
abbrev pub version_of : Version → ℕ
version_of v = if at_least v 2 7 then 2 else if at_least v 2 0 then 1 else 0

unfoldable pub topic_data : List TopicPartition → Dict String (List ℕ) → Dict String (List ℕ)
topic_data [] d = d
topic_data (tp ∷ tps) d = topic_data tps (append_at d tp.topic tp.partition)

-- `_add_partitions_to_transaction_handler`, and the constructor that it calls
unfoldable pub add_partitions_to_transaction_handler : M Handler
unfolding new_handler
add_partitions_to_transaction_handler = do
  modify λ s. record s {
    pending_partitions = Set.update s.pending_partitions s.new_partitions;
    new_partitions = [];
  }
  request ← gets λ s.
      add_partitions_to_txn_request (version_of s.api_version) s.transactional_id
        s.producer_id_and_epoch (topic_data s.pending_partitions [])
  new_handler Requests.add_partitions_to_txn request

-- The constructor of `FindCoordinatorHandler`; its third branch is never taken.
unfoldable pub find_coordinator_handler : CoordType → Option String → M Handler
unfolding new_handler
find_coordinator_handler t key = do
  version ← gets λ s. if at_least s.api_version 2 0 then 2 else 1
  new_handler (Requests.find_coordinator t key)
      (find_coordinator_request version key (elim t [ group ↦ 0 | _ ↦ 1 ]))

-- `_lookup_coordinator`
unfoldable pub lookup_coordinator : CoordType → Option String → M (Unit {0})
unfolding find_coordinator_handler enqueue_request
lookup_coordinator unrecognized key = raise illegal_state
lookup_coordinator group key = do
  modify λ s. record s { consumer_group_coordinator = none }
  h ← find_coordinator_handler group key
  enqueue_request h
lookup_coordinator transaction key = do
  modify λ s. record s { transaction_coordinator = none }
  h ← find_coordinator_handler transaction key
  enqueue_request h
