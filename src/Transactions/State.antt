-- ===== src/Transactions/State.antt =====
-- `TransactionState`, `Priority` and `ProducerIdAndEpoch`.
use kafka_python.Common.{ℕ, ◌≡◌, ◌↔◌, Bool, true, false, ◌||◌, ◌&&◌, arith, nat_beq}
use kafka_python.Common.Int.{ℤ, negsuc, ltb_ℤ}
use kafka_python.Common.Eq.{Eq, int_eq, ◌==◌}

pub data TransactionState : Type 0 where
  uninitialized initializing ready in_transaction : TransactionState
  committing_transaction aborting_transaction abortable_error fatal_error : TransactionState

-- The `IntEnum` value.
abbrev pub value : TransactionState → ℕ
value uninitialized = 0
value initializing = 1
value ready = 2
value in_transaction = 3
value committing_transaction = 4
value aborting_transaction = 5
value abortable_error = 6
value fatal_error = 7

abbrev pub state_beq : TransactionState → TransactionState → Bool
state_beq s t = nat_beq (value s) (value t)

pub state_beq_iff : (s t : TransactionState) → (state_beq s t ≡ true) ↔ (s ≡ t)
state_beq_iff s t = ground arith

instance abbrev pub state_eq : Eq TransactionState
state_eq = record { same = state_beq; same_iff = state_beq_iff }

unfoldable pub is_transition_valid : TransactionState → TransactionState → Bool
is_transition_valid source initializing = source == uninitialized
is_transition_valid source ready =
    source == initializing || source == committing_transaction || source == aborting_transaction
is_transition_valid source in_transaction = source == ready
is_transition_valid source committing_transaction = source == in_transaction
is_transition_valid source aborting_transaction =
    source == in_transaction || source == abortable_error
is_transition_valid source abortable_error =
    source == in_transaction || source == committing_transaction || source == abortable_error
is_transition_valid source uninitialized = false
is_transition_valid source fatal_error = true

pub data Priority : Type 0 where
  find_coordinator init_producer_id add_partitions_or_offsets end_txn : Priority

abbrev pub rank : Priority → ℕ
rank find_coordinator = 0
rank init_producer_id = 1
rank add_partitions_or_offsets = 2
rank end_txn = 3

abbrev pub no_producer_id : ℤ
no_producer_id = negsuc 0

abbrev pub no_producer_epoch : ℤ
no_producer_epoch = negsuc 0

pub record ProducerIdAndEpoch : Type 0 where
  pub producer_id : ℤ
  pub epoch : ℤ

unfoldable pub is_valid : ProducerIdAndEpoch → Bool
is_valid p = ltb_ℤ no_producer_id p.producer_id

-- `match(batch)`, on the batch's producer id and epoch.
unfoldable pub matches_batch : ProducerIdAndEpoch → ℤ → ℤ → Bool
matches_batch p producer_id producer_epoch =
    p.producer_id == producer_id && p.epoch == producer_epoch

abbrev pub no_producer : ProducerIdAndEpoch
no_producer = record { producer_id = no_producer_id; epoch = no_producer_epoch }
