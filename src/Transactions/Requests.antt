-- ===== src/Transactions/Requests.antt =====
-- The request handlers as data: which class, the request that it built, its result and its retry
-- flags. Responses are the fields that `handle_response` reads.
use kafka_python.Common.{
  ℕ, String, Bool, true, false, Option, none, List, [], ◌∷◌, leb, ltb, ◌||◌, some,
}
use kafka_python.Common.{◌&&◌, if◌then◌else◌, nat_beq}
use kafka_python.Common.Int.{ℤ}
use kafka_python.Common.Eq.{string_eq}
use kafka_python.Common.Dict.{Dict}
use kafka_python.Errors.{Exc}
use kafka_python.Structs.{TopicPartition, OffsetAndMetadata}
use kafka_python.Transactions.State.{ProducerIdAndEpoch, Priority}

-- `api_version` is compared with pairs only.
abbrev pub Version : Type 0
Version = ℕ × ℕ

abbrev pub at_least : Version → ℕ → ℕ → Bool
at_least (a, b) c d = ltb c a || (nat_beq a c && leb d b)

-- Coordinator types are the strings 'group' and 'transaction'; any other raises.
pub data CoordType : Type 0 where
  group transaction unrecognized : CoordType

abbrev pub PartitionOffset : Type 0
PartitionOffset = ℕ × ℕ × Option ℤ × String

pub data Request : Type 0 where
  init_producer_id_request : ℕ → Option String → ℕ → Request
  add_partitions_to_txn_request :
      ℕ → Option String → ProducerIdAndEpoch → List (String × List ℕ) → Request
  find_coordinator_request : ℕ → Option String → ℕ → Request
  end_txn_request : ℕ → Option String → ProducerIdAndEpoch → Bool → Request
  add_offsets_to_txn_request : ℕ → Option String → ProducerIdAndEpoch → String → Request
  txn_offset_commit_request :
      ℕ
      → Option String
      → String
      → ProducerIdAndEpoch
      → List (String × List PartitionOffset)
      → Request

-- The field `committed` of an EndTxn request.
abbrev pub committed_flag : Request → Option Bool
committed_flag (end_txn_request v i p c) = some c
committed_flag _ = none

pub data Kind : Type 0 where
  init_producer_id add_partitions_to_txn end_txn : Kind
  find_coordinator : CoordType → Option String → Kind
  add_offsets_to_txn : String → Dict TopicPartition OffsetAndMetadata → Kind
  txn_offset_commit : String → Kind

-- `result` is the index of the `TransactionalRequestResult` that the handler points to.
pub record Handler : Type 0 where
  pub kind : Kind
  pub request : Request
  pub result : ℕ
  pub is_retry : Bool
  pub retry_backoff_ms : ℕ

unfoldable pub priority : Kind → Priority
priority init_producer_id = Priority.init_producer_id
priority add_partitions_to_txn = Priority.add_partitions_or_offsets
priority end_txn = Priority.end_txn
priority (find_coordinator t k) = Priority.find_coordinator
priority (add_offsets_to_txn g o) = Priority.add_partitions_or_offsets
priority (txn_offset_commit g) = Priority.add_partitions_or_offsets

-- `isinstance(handler, EndTxnHandler)`
abbrev pub is_end_txn : Kind → Bool
is_end_txn end_txn = true
is_end_txn _ = false

-- `isinstance(handler, FindCoordinatorHandler)`
abbrev pub is_find_coordinator : Kind → Bool
is_find_coordinator (find_coordinator t k) = true
is_find_coordinator _ = false

-- An entry of `_pending_requests`.
pub record Pending : Type 0 where
  pub rank_of : ℕ
  pub sort_id : ℕ
  pub handler : Handler

-- The order of the heap's tuples; the sort ids are distinct, so the handlers are never compared.
abbrev pub before : Pending → Pending → Bool
before p q = ltb p.rank_of q.rank_of || (nat_beq p.rank_of q.rank_of && ltb p.sort_id q.sort_id)

-- `heapq` as the list of its entries in the order in which they are popped.
unfoldable pub heappush : List Pending → Pending → List Pending
heappush [] p = p ∷ []
heappush (q ∷ h) p = if before p q then p ∷ q ∷ h else q ∷ heappush h p

-- What the handlers read of a response; each reads the fields of its own kind of response.
pub record Response : Type 0 where
  pub error_code : ℤ
  pub producer : ProducerIdAndEpoch
  pub coordinator_id : ℤ
  pub results : List (String × List (ℕ × ℤ))

-- What `on_complete` is given.
pub data ResponseOrExc : Type 0 where
  response : Response → ResponseOrExc
  exception : Exc → ResponseOrExc
  no_response : ResponseOrExc
