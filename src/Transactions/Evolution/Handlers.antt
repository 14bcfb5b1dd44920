-- ===== src/Transactions/Evolution/Handlers.antt =====
-- Every response to a request evolves the manager.
use kafka_python.Common.{
  String, Bool, true, Option, none, some, List, [], ◌∷◌, Option-cases, inl, inr, refl,
}
use kafka_python.Common.Int.{ℤ}
use kafka_python.Common.Dict.{Dict, lookup}
use kafka_python.Errors.{Exc, BrokerError, no_error, kafka_connection_error}
use kafka_python.Exec.Steps.{Steps, steps_rules, Steps-bind}
use kafka_python.Structs.{TopicPartition, OffsetAndMetadata, tp_eq}
use kafka_python.Transactions.Requests.{
  CoordType, group, transaction, unrecognized, Handler, Kind, Pending, Response, ResponseOrExc,
  response, exception, no_response,
}
use kafka_python.Transactions.Requests
use kafka_python.Transactions.Handlers.{
  fatal_error, abortable_error, reenqueue, lookup_and_reenqueue, handle_init_producer_id, go_on,
  unauthorized, failed, returned, partition_step, partition_loop, add_partitions_done, after_loop,
  handle_add_partitions, set_coordinator, handle_find_coordinator, handle_end_txn,
}
use kafka_python.Transactions.Offsets.{
  handle_add_offsets, delete_pending, commit_step, commit_loop, handle_txn_offset_commit,
}
use kafka_python.Transactions.Complete.{
  handle_response_of, handle_response, lookup_if_needed, complete_with, on_complete, fail_all,
  authentication_failed,
}
use kafka_python.Transactions.Evolution.{
  only_ready, Evolves, Evolves-preorder, SameCore-Evolves, evolution_rules,
}
use kafka_python.Transactions.Evolution.Calls.{
  complete_transaction-Evolves, lookup_coordinator-Evolves, set_producer-Evolves,
  clear_in_flight-Evolves,
}

fatal-Evolves : (h : Handler) (e : Exc) → Steps (Evolves only_ready) (fatal_error h e)
unfolding fatal_error
fatal-Evolves h e = search (steps_rules, evolution_rules)

abortable-Evolves : (h : Handler) (e : Exc) → Steps (Evolves only_ready) (abortable_error h e)
unfolding abortable_error
abortable-Evolves h e = search (steps_rules, evolution_rules)

reenqueue-Evolves : (h : Handler) → Steps (Evolves only_ready) (reenqueue h)
unfolding reenqueue
reenqueue-Evolves h = search (steps_rules, evolution_rules)

lookup_and_reenqueue-Evolves : (h : Handler) → Steps (Evolves only_ready) (lookup_and_reenqueue h)
unfolding lookup_and_reenqueue
lookup_and_reenqueue-Evolves h =
    search (steps_rules, evolution_rules, lookup_coordinator-Evolves) depth 9

ruleset rules = (
  steps_rules, evolution_rules, fatal-Evolves, abortable-Evolves, reenqueue-Evolves,
  lookup_and_reenqueue-Evolves,
)

init_producer_id-Evolves :
    (h : Handler) (e : BrokerError) (r : Response)
    → Steps (Evolves only_ready) (handle_init_producer_id h e r)
unfolding handle_init_producer_id
init_producer_id-Evolves h no_error r = search (rules, set_producer-Evolves) depth 9
init_producer_id-Evolves h _ r = search rules

partition_step-Evolves :
    (h : Handler) (e : BrokerError) → Steps (Evolves only_ready) (partition_step h e)
unfolding partition_step
partition_step-Evolves h no_error = search rules
partition_step-Evolves h _ = search rules depth 9

partition_loop-Evolves :
    (h : Handler) (l : List (TopicPartition × BrokerError)) (u : List String) (f : Bool)
    → Steps (Evolves only_ready) (partition_loop h l u f)
unfolding partition_loop
partition_loop-Evolves h [] u f = search rules
partition_loop-Evolves h ((tp, e) ∷ rest) u f =
    Steps-bind Evolves-preorder (partition_step h e) _ (partition_step-Evolves h e) elim [
      | go_on ↦ partition_loop-Evolves h rest u f
      | unauthorized ↦ partition_loop-Evolves h rest _ f
      | failed ↦ partition_loop-Evolves h rest u true
      | returned ↦ search rules
    ]

add_partitions_done-Evolves :
    (h : Handler) (tps : List TopicPartition) (u : List String) (f : Bool)
    → Steps (Evolves only_ready) (add_partitions_done h tps u f)
unfolding add_partitions_done
add_partitions_done-Evolves h tps u f = search rules depth 12

after_loop-Evolves :
    (h : Handler) (tps : List TopicPartition) (o : Option (List String × Bool))
    → Steps (Evolves only_ready) (after_loop h tps o)
unfolding after_loop
after_loop-Evolves h tps none = search rules
after_loop-Evolves h tps (some (u, f)) = add_partitions_done-Evolves h tps u f

add_partitions-Evolves :
    (h : Handler) (r : Response) → Steps (Evolves only_ready) (handle_add_partitions h r)
unfolding handle_add_partitions
add_partitions-Evolves h r = search (rules, partition_loop-Evolves, after_loop-Evolves)

set_coordinator-Evolves :
    (t : CoordType) (id : ℤ) → Steps (Evolves only_ready) (set_coordinator t id)
unfolding set_coordinator
set_coordinator-Evolves group id = search rules
set_coordinator-Evolves _ id = search rules

find_coordinator-Evolves :
    (t : CoordType) (h : Handler) (e : BrokerError) (r : Response)
    → Steps (Evolves only_ready) (handle_find_coordinator t h e r)
unfolding handle_find_coordinator
find_coordinator-Evolves t h no_error r = search (rules, set_coordinator-Evolves)
find_coordinator-Evolves t h _ r = search rules

end_txn-Evolves : (h : Handler) (e : BrokerError) → Steps (Evolves only_ready) (handle_end_txn h e)
unfolding handle_end_txn
end_txn-Evolves h no_error = search (rules, complete_transaction-Evolves)
end_txn-Evolves h _ = search rules

add_offsets-Evolves :
    (g : String) (o : Dict TopicPartition OffsetAndMetadata) (h : Handler) (e : BrokerError)
    → Steps (Evolves only_ready) (handle_add_offsets g o h e)
unfolding handle_add_offsets
add_offsets-Evolves g o h no_error = search rules depth 12
add_offsets-Evolves g o h _ = search rules

delete_pending-Evolves : (tp : TopicPartition) → Steps (Evolves only_ready) (delete_pending tp)
unfolding delete_pending
delete_pending-Evolves tp = record {
  at = λ s. elim (Option-cases (lookup s.pending_offset_commits tp)) [
    | inl e ↦ rw (e, delete_pending) (Evolves-preorder.refl_at s)
    | inr (o, e) ↦ rw (e, delete_pending) (SameCore-Evolves s _ (refl, refl, refl, refl))
  ];
}

commit_step-Evolves :
    (tp : TopicPartition) (e : BrokerError) → Steps (Evolves only_ready) (commit_step tp e)
unfolding commit_step
commit_step-Evolves tp no_error = delete_pending-Evolves tp
commit_step-Evolves tp _ = search rules

commit_loop-Evolves :
    (l : Dict TopicPartition BrokerError) → Steps (Evolves only_ready) (commit_loop l)
unfolding commit_loop
commit_loop-Evolves [] = search rules
commit_loop-Evolves ((tp, e) ∷ rest) =
    Steps-bind Evolves-preorder (commit_step tp e) _ (commit_step-Evolves tp e)
      λ _. commit_loop-Evolves rest

txn_offset_commit-Evolves :
    (h : Handler) (r : Response) → Steps (Evolves only_ready) (handle_txn_offset_commit h r)
unfolding handle_txn_offset_commit
txn_offset_commit-Evolves h r = search (rules, commit_loop-Evolves)

handle_response-Evolves :
    (k : Kind) (h : Handler) (r : Response) → Steps (Evolves only_ready) (handle_response_of k h r)
unfolding handle_response_of
handle_response-Evolves Requests.init_producer_id h r = init_producer_id-Evolves h _ r
handle_response-Evolves Requests.add_partitions_to_txn h r = add_partitions-Evolves h r
handle_response-Evolves Requests.end_txn h r = end_txn-Evolves h _
handle_response-Evolves (Requests.find_coordinator t key) h r = find_coordinator-Evolves t h _ r
handle_response-Evolves (Requests.add_offsets_to_txn g o) h r = add_offsets-Evolves g o h _
handle_response-Evolves (Requests.txn_offset_commit g) h r = txn_offset_commit-Evolves h r

lookup_if_needed-Evolves :
    (t : Option CoordType) (h : Handler) → Steps (Evolves only_ready) (lookup_if_needed t h)
unfolding lookup_if_needed
lookup_if_needed-Evolves none h = search rules
lookup_if_needed-Evolves (some t) h = search (rules, lookup_coordinator-Evolves)

complete_with-Evolves :
    (h : Handler) (r : ResponseOrExc) → Steps (Evolves only_ready) (complete_with h r)
unfolding complete_with handle_response
complete_with-Evolves h (response r) = handle_response-Evolves h.kind h r
complete_with-Evolves h (exception kafka_connection_error) =
    search (rules, lookup_if_needed-Evolves)
complete_with-Evolves h (exception e) = search rules
complete_with-Evolves h no_response = search rules

pub on_complete-Evolves :
    (h : Handler) (id : ℤ) (r : ResponseOrExc) → Steps (Evolves only_ready) (on_complete h id r)
unfolding on_complete
on_complete-Evolves h id r = search (rules, clear_in_flight-Evolves, complete_with-Evolves) depth 9

fail_all-Evolves : (e : Exc) (l : List Pending) → Steps (Evolves only_ready) (fail_all e l)
unfolding fail_all
fail_all-Evolves e [] = search rules
fail_all-Evolves e (p ∷ rest) =
    Steps-bind Evolves-preorder _ _ (fatal-Evolves p.handler e) (λ _. fail_all-Evolves e rest)

pub authentication_failed-Evolves : (e : Exc) → Steps (Evolves only_ready) (authentication_failed e)
unfolding authentication_failed
authentication_failed-Evolves e = search (rules, fail_all-Evolves)
