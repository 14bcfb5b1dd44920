-- ===== src/Transactions/Sequence.antt =====
-- Sequence numbers of the idempotent producer.
use kafka_python.Common.{ℕ, ◌+◌, ◌%◌, ◌^◌, ◌≤◌, ◌≡◌, ◌≢◌, some, arith}
use kafka_python.Common.Dict.{lookup, lookup-insert}
use kafka_python.Exec.{ok}
use kafka_python.Structs.{TopicPartition, tp_eq, tp_beq_iff}
use kafka_python.Transactions.Manager.{TransactionManager}
use kafka_python.Transactions.Calls.{
  bumped, increment_sequence_number, sequence_number, max_sequence,
}

-- Java's int wraps at 2 ^ 31.
bumped_wraps :
    (base increment : ℕ)
    → base ≤ max_sequence
    → increment ≤ max_sequence
    → bumped base increment ≡ (base + increment) % 2 ^ 31
unfolding bumped
bumped_wraps base increment h k = ground arith

-- For a partition whose sequence is at `base`, an increment raises nothing and moves the sequence to
-- `base + increment` modulo 2 ^ 31, provided that both are at most the largest Java int; the
-- sequence of every other partition reads as before.
pub sequence_number-increment :
    (tp other : TopicPartition) (base increment : ℕ) (s : TransactionManager)
    → lookup s.sequence_numbers tp ≡ some base
    → base ≤ max_sequence
    → increment ≤ max_sequence
    → other ≢ tp
    → let (r, t) = increment_sequence_number tp increment s in
      (r ≡ ok tt)
      × ((sequence_number tp t).0 ≡ ok ((base + increment) % 2 ^ 31))
      × ((sequence_number other t).0 ≡ (sequence_number other s).0)
unfolding increment_sequence_number sequence_number
sequence_number-increment tp other base increment s known h k ne = ground (
  arith,
  lookup-insert s.sequence_numbers tp tp (bumped base increment),
  lookup-insert s.sequence_numbers tp other (bumped base increment),
  tp_beq_iff tp tp,
  tp_beq_iff tp other,
  bumped_wraps base increment,
)
