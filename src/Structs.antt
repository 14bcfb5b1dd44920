-- ===== src/Structs.antt =====
-- kafka/structs.py: the tuples that the other components pass around.
use text.Mathlib.TextEquality.{eq_iff}
use kafka_python.Common.{ℕ, String, ◌≡◌, ◌↔◌, Bool, true, ◌&&◌, arith}
use kafka_python.Common.{nat_beq, nat_beq_iff}
use kafka_python.Common.Int.{ℤ}
use kafka_python.Common.Eq.{Eq, string_eq, ◌==◌}

pub record TopicPartition : Type 0 where
  pub topic : String
  pub partition : ℕ

pub record OffsetAndMetadata : Type 0 where
  pub offset : ℕ
  pub metadata : String
  pub leader_epoch : ℤ

abbrev pub tp_beq : TopicPartition → TopicPartition → Bool
tp_beq a b = a.topic == b.topic && nat_beq a.partition b.partition

pub tp_beq_iff : (a b : TopicPartition) → (tp_beq a b ≡ true) ↔ (a ≡ b)
tp_beq_iff a b = ground (arith, eq_iff a.topic b.topic, nat_beq_iff a.partition b.partition)

instance abbrev pub tp_eq : Eq TopicPartition
tp_eq = record { same = tp_beq; same_iff = tp_beq_iff }
