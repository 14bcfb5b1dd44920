-- ===== src/Transactions/Responses.antt =====
-- What the responses to the requests do.
use kafka_python.Common.{
  ◌<◌, ◌≡◌, ◌⊎◌, inl, refl, Bool, true, false, not, ◌||◌, ◌&&◌, Option, none, some, arith, List, [],
  ◌∷◌, is_empty, length, get_elem?, get_elem?-set_self, String, ◌≢◌, ◌∙◌,
}
use kafka_python.Common.Dict.{Dict, erase}
use kafka_python.Common.Set
use kafka_python.Common.Set.{contains-update, contains-difference}
use kafka_python.Errors.{
  BrokerError, no_error, not_coordinator, coordinator_not_available, attribute_error, key_error,
  topic_authorization_failed, operation_not_attempted, request_timed_out,
  group_authorization_failed, unsupported_for_message_format, other,
}
use kafka_python.Common.Eq.{string_eq}
use kafka_python.Exec.Steps.{IsPreorder, Steps, steps_rules, Steps-bind}
use kafka_python.Exec.{continue, modify}
use kafka_python.Exec.{Result, ok, err, ◌>>=◌, continue}
use kafka_python.Structs.{TopicPartition, tp_eq}
use kafka_python.Transactions.Requests.{Handler, Response, Kind, Request, CoordType}
use kafka_python.Transactions.Manager.{
  TransactionManager, done, enqueue_request, new_handler, find_coordinator_handler,
  lookup_coordinator,
}
use kafka_python.Transactions.Handlers.{
  handle_add_partitions, partition_loop, partition_step, add_partitions_done, after_loop,
  error_dict, keys, go_on, unauthorized, failed, returned, lookup_and_reenqueue, reenqueue,
}
use kafka_python.Transactions.Offsets.{handle_txn_offset_commit, commit_loop, delete_pending}

abbrev pub is_no_error : BrokerError → Bool
is_no_error no_error = true
is_no_error _ = false

-- Every partition of the response has the error code 0.
abbrev pub all_no_error : List (TopicPartition × BrokerError) → Bool
all_no_error [] = true
all_no_error ((tp, e) ∷ rest) = is_no_error e && all_no_error rest

abbrev pub errors_of : Response → Dict TopicPartition BrokerError
errors_of r = error_dict r.results []

loop_ok :
    (h : Handler) (l : List (TopicPartition × BrokerError)) (s : TransactionManager)
    → all_no_error l ≡ true
    → partition_loop h l [] false s ≡ (ok (some ([], false)), s)
unfolding partition_loop ◌>>=◌
loop_ok h [] s e = refl
loop_ok h ((tp, no_error) ∷ rest) s e = loop_ok h rest s e
loop_ok h ((tp, _) ∷ rest) s e = cc

-- If the response has no error, every partition in it is in the transaction, and those that were in
-- it stay; they are pending no more; the transaction has started, and the result is done.
pub handle_add_partitions_ok :
    (h : Handler) (r : Response) (s : TransactionManager) (tp : TopicPartition)
    → all_no_error (errors_of r) ≡ true
    → h.result < length s.results
    → (t : TransactionManager) × (handle_add_partitions h r s ≡ (ok tt, t))
      × (Set.contains t.partitions tp
          ≡ (Set.contains s.partitions tp || Set.contains (keys (errors_of r)) tp))
      × (Set.contains t.pending_partitions tp
          ≡ (Set.contains s.pending_partitions tp && not (Set.contains (keys (errors_of r)) tp)))
      × (t.transaction_started ≡ true)
      × (get_elem? t.results h.result ≡ some (record { is_set = true; error = none }))
unfolding handle_add_partitions done ◌>>=◌
handle_add_partitions_ok h r s tp e k =
    let tps = keys (errors_of r) in
    (
      (add_partitions_done h tps [] false s).1,
      rw (loop_ok (record h { retry_backoff_ms = s.retry_backoff_ms }) (errors_of r) s e),
      contains-update s.partitions tps tp,
      contains-difference s.pending_partitions tps tp,
      refl,
      get_elem?-set_self s.results h.result _ k,
    )

is_nonempty-add : (u : List String) (t : String) → is_empty (Set.add u t) ≡ false
unfolding Set.add Set.contains
is_nonempty-add [] t = refl
is_nonempty-add (x ∷ u) t = ground arith

-- The loop ends without an error noted only if there was none.
loop_error :
    (h : Handler) (l : List (TopicPartition × BrokerError)) (u : List String) (f : Bool)
    (s : TransactionManager)
    → all_no_error l && (is_empty u && not f) ≡ false
    → (partition_loop h l u f s).0 ≢ ok (some ([], false))
unfolding partition_loop ◌>>=◌
loop_error h [] u f s e = λ p. ground arith
loop_error h ((tp, no_error) ∷ rest) u f s e = loop_error h rest u f s e
loop_error h ((tp, topic_authorization_failed) ∷ rest) u f s e =
    loop_error h rest (Set.add u tp.topic) f s (ground (arith, is_nonempty-add u tp.topic))
loop_error h ((tp, operation_not_attempted) ∷ rest) u f s e =
    loop_error h rest u true s (ground arith)
loop_error h ((tp, request_timed_out) ∷ rest) u f s e = loop_error h rest u true s (ground arith)
loop_error h ((tp, group_authorization_failed) ∷ rest) u f s e =
    loop_error h rest u true s (ground arith)
loop_error h ((tp, unsupported_for_message_format) ∷ rest) u f s e =
    loop_error h rest u true s (ground arith)
loop_error h ((tp, other c) ∷ rest) u f s e = loop_error h rest u true s (ground arith)
loop_error h ((tp, x) ∷ rest) u f s e = λ p. ground arith

-- The partitions of the transaction and its start are left alone.
record SameMembers (s t : TransactionManager) : Type 0 where
  members : t.partitions ≡ s.partitions
  started : t.transaction_started ≡ s.transaction_started

SameMembers-preorder : IsPreorder SameMembers
SameMembers-preorder = record {
  refl_at = λ s. record { members = refl; started = refl };
  trans_at = λ h k. record { members = k.members ∙ h.members; started = k.started ∙ h.started };
}

modify-SameMembers :
    (f : TransactionManager → TransactionManager)
    → ((s : TransactionManager)
        → ((f s).partitions ≡ s.partitions) × ((f s).transaction_started ≡ s.transaction_started))
    → Steps SameMembers (modify f)
unfolding ◌>>=◌
modify-SameMembers f h = record { at = λ s. record { members = (h s).0; started = (h s).1 } }

enqueue-SameMembers : (h : Handler) → Steps SameMembers (enqueue_request h)
unfolding enqueue_request
enqueue-SameMembers h = record { at = λ s. record { members = refl; started = refl } }

new_handler-SameMembers : (k : Kind) (q : Request) → Steps SameMembers (new_handler k q)
unfolding new_handler
new_handler-SameMembers k q = record { at = λ s. record { members = refl; started = refl } }

ruleset member_rules = (
  steps_rules, SameMembers-preorder, modify-SameMembers, enqueue-SameMembers,
  new_handler-SameMembers,
)

find_coordinator-SameMembers :
    (t : CoordType) (key : Option String) → Steps SameMembers (find_coordinator_handler t key)
unfolding find_coordinator_handler
find_coordinator-SameMembers t key = search member_rules

lookup-SameMembers : (h : Handler) → Steps SameMembers (lookup_and_reenqueue h)
unfolding lookup_and_reenqueue lookup_coordinator reenqueue
lookup-SameMembers h = search (member_rules, find_coordinator-SameMembers) depth 12

step-SameMembers : (h : Handler) (e : BrokerError) → Steps SameMembers (partition_step h e)
unfolding partition_step
step-SameMembers h no_error = search member_rules
step-SameMembers h not_coordinator = search (member_rules, lookup-SameMembers) depth 9
step-SameMembers h coordinator_not_available = search (member_rules, lookup-SameMembers) depth 9
step-SameMembers h _ = search member_rules depth 9

loop-SameMembers :
    (h : Handler) (l : List (TopicPartition × BrokerError)) (u : List String) (f : Bool)
    → Steps SameMembers (partition_loop h l u f)
unfolding partition_loop
loop-SameMembers h [] u f = search member_rules
loop-SameMembers h ((tp, e) ∷ rest) u f =
    Steps-bind SameMembers-preorder (partition_step h e) _ (step-SameMembers h e) elim [
      | go_on ↦ loop-SameMembers h rest u f
      | unauthorized ↦ loop-SameMembers h rest _ f
      | failed ↦ loop-SameMembers h rest u true
      | returned ↦ search member_rules
    ]

-- What follows a loop that has seen an error.
after-SameMembers :
    (h : Handler) (tps : List TopicPartition) (o : Result (Option (List String × Bool)))
    (t : TransactionManager)
    → o ≢ ok (some ([], false))
    → SameMembers t (continue o (after_loop h tps) t).1
unfolding after_loop add_partitions_done ◌>>=◌
after-SameMembers h tps (err e) t n = record { members = refl; started = refl }
after-SameMembers h tps (ok none) t n = record { members = refl; started = refl }
after-SameMembers h tps (ok (some ([], false))) t n = absurd (n refl)
after-SameMembers h tps (ok (some ([], true))) t n = record { members = refl; started = refl }
after-SameMembers h tps (ok (some (x ∷ u, f))) t n = record { members = refl; started = refl }

-- After a response with an error anywhere the transaction has the partitions that it had, and has
-- started only if it had before.
pub handle_add_partitions_error :
    (h : Handler) (r : Response) (s : TransactionManager)
    → all_no_error (errors_of r) ≡ false
    → ((handle_add_partitions h r s).1.partitions ≡ s.partitions)
      × ((handle_add_partitions h r s).1.transaction_started ≡ s.transaction_started)
unfolding handle_add_partitions ◌>>=◌
handle_add_partitions_error h r s e =
    let h' : Handler = record h { retry_backoff_ms = s.retry_backoff_ms } in
    let (o, t) = partition_loop h' (errors_of r) [] false s in
    let same : SameMembers s (continue o (after_loop h' (keys (errors_of r))) t).1 =
      SameMembers-preorder.trans_at ((loop-SameMembers h' (errors_of r) [] false).at s) (
        after-SameMembers h' (keys (errors_of r)) o t
          (loop_error h' (errors_of r) [] false s (ground arith))) in
    (same.members, same.started)

commit_loop_raises :
    (l : Dict TopicPartition BrokerError) (s : TransactionManager)
    → all_no_error l ≡ false
    → let (x, t) = commit_loop l s in
      ((x ≡ err attribute_error) ⊎ (x ≡ err key_error))
      × (t.pending_requests ≡ s.pending_requests)
      × (t.results ≡ s.results)
      × (t.current_state ≡ s.current_state)
unfolding commit_loop delete_pending ◌>>=◌
commit_loop_raises [] s e = absurd (ground arith)
commit_loop_raises ((tp, no_error) ∷ rest) s e =
    let after : TransactionManager = record s {
      pending_offset_commits = erase s.pending_offset_commits tp;
    } in
    ground (arith, commit_loop_raises rest after e)
commit_loop_raises ((tp, x) ∷ rest) s e = (inl refl, refl, refl, refl)

-- A response to TxnOffsetCommitRequest with an error code anywhere raises, whatever the code: the
-- request is not retried, its result stays as it was, and so does the manager's state.
pub txn_offset_commit_raises :
    (h : Handler) (r : Response) (s : TransactionManager)
    → all_no_error (errors_of r) ≡ false
    → let (x, t) = handle_txn_offset_commit h r s in
      ((x ≡ err attribute_error) ⊎ (x ≡ err key_error))
      × (t.pending_requests ≡ s.pending_requests)
      × (t.results ≡ s.results)
      × (t.current_state ≡ s.current_state)
unfolding handle_txn_offset_commit ◌>>=◌
txn_offset_commit_raises h r s e = ground (arith, commit_loop_raises (errors_of r) s e)
