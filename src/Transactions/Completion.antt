-- ===== src/Transactions/Completion.antt =====
-- The end of a transaction: `begin_commit` and `begin_abort`, and what they leave in the queue.
use kafka_python.Common.{
  ℕ, ◌≡◌, ◌⊎◌, inl, inr, refl, Bool, true, false, ◌||◌, ◌&&◌, none, some, arith, if◌then◌else◌,
  List, [], ◌∷◌, Any, Bool-cases, is_empty, length,
}
use kafka_python.Common.Eq.{◌==◌}
use kafka_python.Common.Set
use kafka_python.Common.Set.{contains-update}
use kafka_python.Errors.{kafka_error, illegal_state}
use kafka_python.Exec.{ok, err, ◌>>=◌}
use kafka_python.Structs.{TopicPartition, tp_eq}
use kafka_python.Transactions.State.{
  in_transaction, committing_transaction, aborting_transaction, abortable_error, state_eq,
}
use kafka_python.Transactions.Requests.{Handler, Pending, Kind, heappush, before, committed_flag}
use kafka_python.Transactions.Requests
use kafka_python.Transactions.Manager.{
  TransactionManager, is_transactional, transition_to, ensure_transactional, maybe_fail_with_error,
  enqueue_request, add_partitions_to_transaction_handler,
}
use kafka_python.Transactions.Calls.{
  begin_commit, begin_abort, begin_completing_transaction, add_new_partitions, enqueue_end_txn,
  enqueue_add_partitions,
}

-- `begin_commit` raises, and changes nothing, unless the producer is transactional and in a
-- transaction.
pub begin_commit_refused :
    (s : TransactionManager)
    → is_transactional s && s.current_state == in_transaction ≡ false
    → begin_commit s ≡ (err (if is_transactional s then kafka_error else illegal_state), s)
unfolding begin_commit ensure_transactional maybe_fail_with_error transition_to ◌>>=◌
begin_commit_refused s h = ground arith

heappush-Any_self :
    (P : Pending → Type 0) (h : List Pending) (p : Pending) → P p → Any P (heappush h p)
unfolding heappush
heappush-Any_self P [] p k = inl k
heappush-Any_self P (q ∷ h) p k = elim (Bool-cases (before p q)) [
  | inl e ↦ rw e (inl k)
  | inr e ↦ rw e (inr (heappush-Any_self P h p k))
]

heappush-Any :
    (P : Pending → Type 0) (h : List Pending) (p : Pending) → Any P h → Any P (heappush h p)
unfolding heappush
heappush-Any P [] p k = absurd k
heappush-Any P (q ∷ h) p (inl k) = elim (Bool-cases (before p q)) [
  | inl e ↦ rw e (inr (inl k))
  | inr e ↦ rw e (inl k)
]
heappush-Any P (q ∷ h) p (inr k) = elim (Bool-cases (before p q)) [
  | inl e ↦ rw e (inr (inr k))
  | inr e ↦ rw e (inr (heappush-Any P h p k))
]

begin_commit_goes :
    (s : TransactionManager)
    → is_transactional s && s.current_state == in_transaction ≡ true
    → begin_commit s
      ≡ begin_completing_transaction true
          (record s { current_state = committing_transaction; last_error = none })
unfolding begin_commit ensure_transactional maybe_fail_with_error transition_to ◌>>=◌
begin_commit_goes s h = ground arith

begin_abort_goes :
    (s : TransactionManager)
    → is_transactional s
        && (s.current_state == in_transaction || s.current_state == abortable_error)
      ≡ true
    → begin_abort s
      ≡ begin_completing_transaction false (record s {
        current_state = aborting_transaction;
        last_error = none;
        new_partitions = [];
      })
unfolding begin_abort ensure_transactional maybe_fail_with_error transition_to ◌>>=◌
begin_abort_goes s h = ground arith

-- The handler of a pending request is an EndTxn with the flag `committed` and the result `i`.
abbrev pub IsEndTxn : Bool → ℕ → Pending → Type 0
IsEndTxn committed i p =
    (p.handler.kind ≡ Requests.end_txn)
    × (committed_flag p.handler.request ≡ some committed)
    × (p.handler.result ≡ i)

abbrev IsAddPartitions : Pending → Type 0
IsAddPartitions p = p.handler.kind ≡ Requests.add_partitions_to_txn

is_empty→eq : (l : List TopicPartition) → is_empty l ≡ true → l ≡ []
is_empty→eq l e = ground arith

-- What `add_new_partitions` does: the waiting partitions are pending, and a request for them is in
-- the queue.
record IsAdded (s t : TransactionManager) : Type 0 where
  runs : add_new_partitions s ≡ (ok tt, t)
  state : t.current_state ≡ s.current_state
  emptied : t.new_partitions ≡ []
  pending :
      (tp : TopicPartition)
      → Set.contains t.pending_partitions tp
        ≡ (Set.contains s.pending_partitions tp || Set.contains s.new_partitions tp)
  request : (is_empty s.new_partitions ≡ true) ⊎ Any IsAddPartitions t.pending_requests

add_new_partitions_none : (s : TransactionManager) → is_empty s.new_partitions ≡ true → IsAdded s s
unfolding add_new_partitions Set.contains ◌>>=◌
add_new_partitions_none s e = record {
  runs = rw e;
  state = refl;
  emptied = is_empty→eq s.new_partitions e;
  pending = λ tp. rw (is_empty→eq s.new_partitions e) (ground arith);
  request = inl e;
}

add_new_partitions_some :
    (s : TransactionManager)
    → is_empty s.new_partitions ≡ false
    → (t : TransactionManager) × IsAdded s t
unfolding add_new_partitions add_partitions_to_transaction_handler enqueue_request ◌>>=◌
add_new_partitions_some s e = (
  (enqueue_add_partitions s).1,
  record {
    runs = rw e;
    state = refl;
    emptied = refl;
    pending = λ tp. contains-update s.pending_partitions s.new_partitions tp;
    request = inr (heappush-Any_self IsAddPartitions s.pending_requests _ refl);
  },
)

add_new_partitions_lem : (s : TransactionManager) → (t : TransactionManager) × IsAdded s t
add_new_partitions_lem s = elim (Bool-cases (is_empty s.new_partitions)) [
  | inl e ↦ (s, add_new_partitions_none s e)
  | inr e ↦ add_new_partitions_some s e
]

-- The manager after `begin_completing_transaction`.
pub record IsEnding (committed : Bool) (s t : TransactionManager) (i : ℕ) : Type 0 where
  pub state : t.current_state ≡ s.current_state
  pub emptied : t.new_partitions ≡ []
  pub pending :
      (tp : TopicPartition)
      → Set.contains t.pending_partitions tp
        ≡ (Set.contains s.pending_partitions tp || Set.contains s.new_partitions tp)
  pub add_request : (is_empty s.new_partitions ≡ true) ⊎ Any IsAddPartitions t.pending_requests
  pub end_request : Any (IsEndTxn committed i) t.pending_requests

begin_completing_lem :
    (c : Bool) (s : TransactionManager)
    → (i : ℕ) × (t : TransactionManager) × (begin_completing_transaction c s ≡ (ok i, t))
      × IsEnding c s t i
unfolding begin_completing_transaction enqueue_request ◌>>=◌
begin_completing_lem c s =
    let (u, a) = add_new_partitions_lem s in
    (
      length u.results,
      (enqueue_end_txn c u).1,
      rw (a.runs),
      record {
        state = a.state;
        emptied = a.emptied;
        pending = a.pending;
        add_request = elim a.request [
          | inl e ↦ inl e
          | inr k ↦ inr (heappush-Any IsAddPartitions u.pending_requests _ k)
        ];
        end_request =
            heappush-Any_self (IsEndTxn c (length u.results)) u.pending_requests _
              (refl, refl, refl);
      },
    )

-- In a transaction, `begin_commit` returns the result of an EndTxn that commits, which is in the
-- queue. The manager is COMMITTING_TRANSACTION. The partitions that waited to be added are pending
-- now, beside those that were, and if there were any a request to add them is in the queue.
pub begin_commit_lem :
    (s : TransactionManager)
    → is_transactional s && s.current_state == in_transaction ≡ true
    → (i : ℕ) × (t : TransactionManager) × (begin_commit s ≡ (ok i, t))
      × IsEnding true (record s { current_state = committing_transaction; last_error = none }) t i
begin_commit_lem s h = rw (begin_commit_goes s h) (begin_completing_lem true _)

-- In a transaction, or after an abortable error, `begin_abort` returns the result of an EndTxn that
-- aborts, which is in the queue. The manager is ABORTING_TRANSACTION, and the partitions that waited
-- to be added are dropped.
pub begin_abort_lem :
    (s : TransactionManager)
    → is_transactional s
        && (s.current_state == in_transaction || s.current_state == abortable_error)
      ≡ true
    → (i : ℕ) × (t : TransactionManager) × (begin_abort s ≡ (ok i, t))
      × IsEnding false
          (record s {
            current_state = aborting_transaction;
            last_error = none;
            new_partitions = [];
          })
          t
          i
begin_abort_lem s h = rw (begin_abort_goes s h) (begin_completing_lem false _)
