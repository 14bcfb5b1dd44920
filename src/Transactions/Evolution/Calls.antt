-- ===== src/Transactions/Evolution/Calls.antt =====
-- Every public method of the manager evolves it.
use kafka_python.Common.{
  ℕ, String, ◌≡◌, refl, Bool, Option, List, [], ◌∷◌, Bool-cases, Option-cases, subst, All, inl,
  ◌&&◌, inr, true,
}
use kafka_python.Common.Dict.{Dict, lookup}
use kafka_python.Errors.{Exc}
use kafka_python.Exec.{gets, ◌>>=◌}
use kafka_python.Exec.Steps.{Steps, steps_rules}
use kafka_python.Structs.{TopicPartition, OffsetAndMetadata, tp_eq}
use kafka_python.Transactions.State.{TransactionState, ready, ProducerIdAndEpoch}
use kafka_python.Transactions.Requests.{
  CoordType, group, transaction, unrecognized, Handler, Pending, is_end_txn,
}
use kafka_python.Transactions.Manager.{
  TransactionManager, ensure_transactional, maybe_fail_with_error, complete_transaction,
  add_partitions_to_transaction_handler, find_coordinator_handler, lookup_coordinator,
}
use kafka_python.Transactions.Calls.{
  initialize_transactions, begin_transaction, begin_commit, begin_abort,
  begin_completing_transaction, add_new_partitions, send_offsets_to_transaction,
  fail_if_not_ready_for_send, maybe_add_partition_to_transaction, transition_to_abortable_error,
  transition_to_fatal_error, set_producer_id_and_epoch, reset_producer_id, sequence_number,
  increment_sequence_number, retry, next_in_flight_request_correlation_id, clear_in_flight,
}
use kafka_python.Transactions.NextRequest.{
  maybe_terminate_request_with_error, pop_from, pop_or_none, skip_end_txn, deliver, next_in,
  next_request_handler,
}
use kafka_python.Transactions.Queue.{IsOrdered, IsNumbered}
use kafka_python.Transactions.Evolution.{
  any, here, Evolves, Evolves-preorder, SameCore-Evolves, evolution_rules,
}

ensure_transactional-Evolves :
    {P : TransactionState → Bool} → Steps (Evolves P) ensure_transactional
unfolding ensure_transactional
ensure_transactional-Evolves = search (steps_rules, evolution_rules)

maybe_fail_with_error-Evolves :
    {P : TransactionState → Bool} → Steps (Evolves P) maybe_fail_with_error
unfolding maybe_fail_with_error
maybe_fail_with_error-Evolves = search (steps_rules, evolution_rules)

ruleset rules =
    (steps_rules, evolution_rules, ensure_transactional-Evolves, maybe_fail_with_error-Evolves)

pub complete_transaction-Evolves :
    {P : TransactionState → Bool} → P ready ≡ true → Steps (Evolves P) complete_transaction
unfolding complete_transaction
complete_transaction-Evolves r = search rules

add_partitions-Evolves : Steps (Evolves any) add_partitions_to_transaction_handler
unfolding add_partitions_to_transaction_handler
add_partitions-Evolves = search rules

find_coordinator-Evolves :
    {P : TransactionState → Bool} (t : CoordType) (key : Option String)
    → Steps (Evolves P) (find_coordinator_handler t key)
unfolding find_coordinator_handler
find_coordinator-Evolves t key = search rules

pub lookup_coordinator-Evolves :
    {P : TransactionState → Bool} (t : CoordType) (key : Option String)
    → Steps (Evolves P) (lookup_coordinator t key)
unfolding lookup_coordinator
lookup_coordinator-Evolves unrecognized key = search rules
lookup_coordinator-Evolves group key = search (rules, find_coordinator-Evolves) depth 9
lookup_coordinator-Evolves transaction key = search (rules, find_coordinator-Evolves) depth 9

pub initialize_transactions-Evolves : Steps (Evolves any) initialize_transactions
unfolding initialize_transactions
initialize_transactions-Evolves = search rules depth 12

pub begin_transaction-Evolves : Steps (Evolves any) begin_transaction
unfolding begin_transaction
begin_transaction-Evolves = search rules depth 9

pub add_new_partitions-Evolves : Steps (Evolves any) add_new_partitions
unfolding add_new_partitions
add_new_partitions-Evolves = search (rules, add_partitions-Evolves) depth 9

begin_completing-Evolves : (c : Bool) → Steps (Evolves any) (begin_completing_transaction c)
unfolding begin_completing_transaction
begin_completing-Evolves c = search (rules, add_new_partitions-Evolves) depth 12

pub begin_commit-Evolves : Steps (Evolves any) begin_commit
unfolding begin_commit
begin_commit-Evolves = search (rules, begin_completing-Evolves) depth 9

pub begin_abort-Evolves : Steps (Evolves any) begin_abort
unfolding begin_abort
begin_abort-Evolves = search (rules, begin_completing-Evolves) depth 12

pub send_offsets-Evolves :
    (offsets : Dict TopicPartition OffsetAndMetadata) (g : String)
    → Steps (Evolves any) (send_offsets_to_transaction offsets g)
unfolding send_offsets_to_transaction
send_offsets-Evolves offsets g = search rules depth 12

fail_if_not_ready-Evolves : Steps (Evolves any) fail_if_not_ready_for_send
unfolding fail_if_not_ready_for_send
fail_if_not_ready-Evolves = search rules depth 12

pub maybe_add_partition-Evolves :
    (tp : TopicPartition) → Steps (Evolves any) (maybe_add_partition_to_transaction tp)
unfolding maybe_add_partition_to_transaction
maybe_add_partition-Evolves tp = search (rules, fail_if_not_ready-Evolves) depth 9

pub abortable_error-Evolves : (e : Exc) → Steps (Evolves any) (transition_to_abortable_error e)
unfolding transition_to_abortable_error
abortable_error-Evolves e = search rules depth 9

pub fatal_error-Evolves : (e : Exc) → Steps (Evolves any) (transition_to_fatal_error e)
unfolding transition_to_fatal_error
fatal_error-Evolves e = search rules

pub set_producer-Evolves :
    {P : TransactionState → Bool} (p : ProducerIdAndEpoch)
    → Steps (Evolves P) (set_producer_id_and_epoch p)
unfolding set_producer_id_and_epoch
set_producer-Evolves p = search rules

pub reset_producer-Evolves : Steps (Evolves any) reset_producer_id
unfolding reset_producer_id
reset_producer-Evolves = search (rules, set_producer-Evolves) depth 9

pub retry-Evolves : (h : Handler) → Steps (Evolves any) (retry h)
unfolding retry
retry-Evolves h = search rules

pub clear_in_flight-Evolves : {P : TransactionState → Bool} → Steps (Evolves P) clear_in_flight
unfolding clear_in_flight
clear_in_flight-Evolves = search rules

pub next_correlation-Evolves : Steps (Evolves any) next_in_flight_request_correlation_id
unfolding next_in_flight_request_correlation_id
next_correlation-Evolves = record { at = λ s. SameCore-Evolves s _ (refl, refl, refl, refl) }

maybe_terminate-Evolves : (h : Handler) → Steps (Evolves any) (maybe_terminate_request_with_error h)
unfolding maybe_terminate_request_with_error
maybe_terminate-Evolves h = search rules depth 12

pub sequence_number-Evolves : (tp : TopicPartition) → Steps (Evolves any) (sequence_number tp)
unfolding sequence_number
sequence_number-Evolves tp = record {
  at = λ s. elim (Option-cases (lookup s.sequence_numbers tp)) [
    | inl e ↦ rw e (SameCore-Evolves s _ (refl, refl, refl, refl))
    | inr (n, e) ↦ rw e (SameCore-Evolves s _ (refl, refl, refl, refl))
  ];
}

pub increment-Evolves :
    (tp : TopicPartition) (n : ℕ) → Steps (Evolves any) (increment_sequence_number tp n)
unfolding increment_sequence_number
increment-Evolves tp n = record {
  at = λ s. elim (Option-cases (lookup s.sequence_numbers tp)) [
    | inl e ↦ rw (e, increment_sequence_number) (SameCore-Evolves s _ (refl, refl, refl, refl))
    | inr (base, e) ↦
        rw (e, increment_sequence_number) (SameCore-Evolves s _ (refl, refl, refl, refl))
  ];
}

-- The head of the queue is taken off.
popped-Evolves :
    (s : TransactionManager) (p : Pending) (rest : List Pending)
    → s.pending_requests ≡ p ∷ rest
    → Evolves any s (record s { pending_requests = rest })
popped-Evolves s p rest e = record {
  path = here;
  consistent = λ k. record {
    errors = k.errors;
    ordered = (subst IsOrdered e k.ordered).1;
    numbered = (subst (All (IsNumbered s.pending_requests_sort_id)) e k.numbered).1;
  };
}

pop-Evolves : Steps (Evolves any) pop_or_none
unfolding pop_or_none
pop-Evolves = record { at = λ s. popped s s.pending_requests refl }
  where
    popped :
        (s : TransactionManager) (q : List Pending)
        → s.pending_requests ≡ q
        → Evolves any s (pop_from q s).1
    popped s [] e = Evolves-preorder.refl_at s
    popped s (p ∷ rest) e = popped-Evolves s p rest e

skip_end_txn-Evolves : (h : Handler) → Steps (Evolves any) (skip_end_txn h)
unfolding skip_end_txn
skip_end_txn-Evolves h = search (rules, complete_transaction-Evolves, pop-Evolves) depth 9

deliver-Evolves :
    (terminated started : Bool) (h : Handler) → Steps (Evolves any) (deliver terminated started h)
unfolding deliver
deliver-Evolves terminated started h = search (rules, skip_end_txn-Evolves) depth 9

next_in-Evolves :
    (b : Bool) (q : List Pending) (s : TransactionManager)
    → s.pending_requests ≡ q
    → Evolves any s (next_in b q s).1
unfolding next_in ◌>>=◌
next_in-Evolves b [] s e = Evolves-preorder.refl_at s
next_in-Evolves b (p ∷ rest) s e = elim (Bool-cases (is_end_txn p.handler.kind && b)) [
  | inl h ↦ rw h (Evolves-preorder.refl_at s)
  | inr h ↦ rw h (
      Evolves-preorder.trans_at (popped-Evolves s p rest e)
        (tail.at (record s { pending_requests = rest })))
]
  where
    tail : Steps (Evolves any) (do
      terminated ← maybe_terminate_request_with_error p.handler
      started ← gets λ (s : TransactionManager). s.transaction_started
      deliver terminated started p.handler)
    tail = search (rules, maybe_terminate-Evolves, deliver-Evolves) depth 9

sent-Evolves :
    (b : Bool)
    → Steps (Evolves any) (gets (λ (s : TransactionManager). s.pending_requests) >>= next_in b)
unfolding ◌>>=◌
sent-Evolves b = record { at = λ s. next_in-Evolves b s.pending_requests s refl }

pub next_request_handler-Evolves : (b : Bool) → Steps (Evolves any) (next_request_handler b)
unfolding next_request_handler
next_request_handler-Evolves b = search (rules, add_new_partitions-Evolves, sent-Evolves) depth 9
