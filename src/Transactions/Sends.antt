-- ===== src/Transactions/Sends.antt =====
-- When a transactional producer may send to a partition.
use kafka_python.Common.{◌≡◌, ◌⊎◌, true, not, ◌||◌, arith, ◌&&◌}
use kafka_python.Common.Set.{contains-add}
use kafka_python.Errors.{Exc}
use kafka_python.Exec.{ok, err, ◌>>=◌}
use kafka_python.Structs.{TopicPartition, tp_eq, tp_beq_iff, tp_beq}
use kafka_python.Transactions.State.{in_transaction}
use kafka_python.Transactions.Manager.{
  TransactionManager, is_transactional, is_partition_added, is_partition_pending_add,
  has_fatal_error,
}
use kafka_python.Transactions.Calls.{
  maybe_add_partition_to_transaction, fail_if_not_ready_for_send, is_send_to_partition_allowed,
  has_producer_id,
}

-- For a transactional producer, the call raises and changes nothing unless the transaction is open
-- and the producer id is known; if it returns, the partition is in the transaction or waits to be
-- added, no other partition starts or stops waiting, and the partitions to which a send is allowed
-- are those of before.
pub maybe_add_partition_to_transaction_lem :
    (tp other : TopicPartition) (s : TransactionManager)
    → is_transactional s ≡ true
    → let (r, t) = maybe_add_partition_to_transaction tp s in
      ((e : Exc) × (r ≡ err e) × (t ≡ s))
      ⊎ ((r ≡ ok tt)
          × (s.current_state ≡ in_transaction)
          × (has_producer_id s ≡ true)
          × ((is_partition_added tp t || is_partition_pending_add tp t) ≡ true)
          × (is_partition_pending_add other t ≡ (
              is_partition_pending_add other s
              || (tp_beq tp other && not (is_partition_added tp s))))
          × (is_send_to_partition_allowed other t ≡ is_send_to_partition_allowed other s))
unfolding maybe_add_partition_to_transaction fail_if_not_ready_for_send is_partition_added
    is_partition_pending_add is_send_to_partition_allowed has_fatal_error ◌>>=◌
maybe_add_partition_to_transaction_lem tp other s h = ground (
  arith,
  contains-add s.new_partitions tp tp,
  contains-add s.new_partitions tp other,
  tp_beq_iff tp tp,
  tp_beq_iff tp other,
)
