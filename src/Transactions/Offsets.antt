-- ===== src/Transactions/Offsets.antt =====
-- `AddOffsetsToTxnHandler` and `TxnOffsetCommitHandler`. The offsets of the second are the
-- manager's own `_pending_txn_offset_commits`, which it shares by reference.
use kafka_python.Common.{ℕ, String, leb, true, false, none, some, List, [], ◌∷◌, if◌then◌else◌}
use kafka_python.Common.Eq.{string_eq}
use kafka_python.Common.Dict.{append_at, Dict, lookup, insert, erase}
use kafka_python.Errors.{
  BrokerError, no_error, coordinator_load_in_progress, coordinator_not_available, not_coordinator,
  group_authorization_failed, invalid_producer_epoch, concurrent_transactions,
  transactional_id_authorization_failed, kafka_error, key_error, attribute_error, broker_error,
}
use kafka_python.Exec.{ok, err, pure, raise, gets, modify, ◌>>=◌, ◌>>◌}
use kafka_python.Structs.{TopicPartition, OffsetAndMetadata, tp_eq}
use kafka_python.Transactions.Requests.{
  Version, at_least, Kind, Handler, Request, PartitionOffset, Response, txn_offset_commit_request,
}
use kafka_python.Transactions.Requests
use kafka_python.Transactions.Manager.{TransactionManager, M, enqueue_request, done}
use kafka_python.Transactions.Handlers.{
  fatal_error, abortable_error, reenqueue, lookup_and_reenqueue, error_dict,
}

abbrev pub commit_version : Version → ℕ
commit_version v = if at_least v 2 1 then 2 else if at_least v 2 0 then 1 else 0

-- From version 2 on the leader epoch is sent.
abbrev pub partition_data : ℕ → TopicPartition → OffsetAndMetadata → PartitionOffset
partition_data version tp o =
    (tp.partition, o.offset, if leb 2 version then some o.leader_epoch else none, o.metadata)

unfoldable pub offset_data :
    ℕ
    → Dict TopicPartition OffsetAndMetadata
    → Dict String (List PartitionOffset)
    → Dict String (List PartitionOffset)
offset_data version [] d = d
offset_data version ((tp, o) ∷ rest) d =
    offset_data version rest (append_at d tp.topic (partition_data version tp o))

-- `_build_request`
unfoldable pub build_request : String → TransactionManager → Request
build_request group_id s =
    let version = commit_version s.api_version in
    txn_offset_commit_request version s.transactional_id group_id s.producer_id_and_epoch
      (offset_data version s.pending_offset_commits [])

-- `pending[tp] = offset` for every item of `offsets`
unfoldable pub merge :
    Dict TopicPartition OffsetAndMetadata
    → Dict TopicPartition OffsetAndMetadata
    → Dict TopicPartition OffsetAndMetadata
merge pending [] = pending
merge pending ((tp, o) ∷ rest) = merge (insert pending tp o) rest

-- The result of the handler goes on to the commit handler, and is not done yet.
unfoldable pub handle_add_offsets :
    String → Dict TopicPartition OffsetAndMetadata → Handler → BrokerError → M (Unit {0})
unfolding lookup_and_reenqueue reenqueue fatal_error abortable_error
handle_add_offsets group_id offsets h no_error = do
  modify λ s. record s { pending_offset_commits = merge s.pending_offset_commits offsets }
  commit ← gets λ s. record {
    kind = Requests.txn_offset_commit group_id;
    request = build_request group_id s;
    result = h.result;
    is_retry = false;
    retry_backoff_ms = s.retry_backoff_ms;
  }
  enqueue_request commit
  modify λ s. record s { transaction_started = true }
handle_add_offsets group_id offsets h coordinator_not_available = lookup_and_reenqueue h
handle_add_offsets group_id offsets h not_coordinator = lookup_and_reenqueue h
handle_add_offsets group_id offsets h coordinator_load_in_progress = reenqueue h
handle_add_offsets group_id offsets h concurrent_transactions = reenqueue h
handle_add_offsets group_id offsets h invalid_producer_epoch =
    fatal_error h (broker_error invalid_producer_epoch)
handle_add_offsets group_id offsets h transactional_id_authorization_failed =
    fatal_error h (broker_error transactional_id_authorization_failed)
handle_add_offsets group_id offsets h group_authorization_failed =
    abortable_error h (broker_error group_authorization_failed)
handle_add_offsets group_id offsets h e = fatal_error h kafka_error

-- `del pending[tp]`
unfoldable pub delete_pending : TopicPartition → M (Unit {0})
delete_pending tp s = elim (lookup s.pending_offset_commits tp) [
  | none ↦ (err key_error, s)
  | some o ↦ (ok tt, record s { pending_offset_commits = erase s.pending_offset_commits tp })
]

-- One round of the loop over `errors`. For any error but NoError the first test that is evaluated
-- is `error in (errors.CoordinatorNotAvailableError, …)`, on the local dict `errors` and not on the
-- module `Errors`: AttributeError.
unfoldable pub commit_step : TopicPartition → BrokerError → M (Unit {0})
unfolding delete_pending
commit_step tp no_error = delete_pending tp
commit_step tp e = raise attribute_error

unfoldable pub commit_loop : Dict TopicPartition BrokerError → M (Unit {0})
unfolding commit_step
commit_loop [] = pure tt
commit_loop ((tp, e) ∷ rest) = do commit_step tp e; commit_loop rest

-- `lookup_coordinator` and `retriable_failure` are only set by branches that are never reached, so
-- a loop that ends leaves both False.
unfoldable pub handle_txn_offset_commit : Handler → Response → M (Unit {0})
handle_txn_offset_commit h r = do commit_loop (error_dict r.results []); done h.result none
