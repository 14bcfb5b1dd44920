-- ===== src/Accumulator/Drain.antt =====
-- kafka/producer/record_accumulator.py: the batches that are sent to one node.
pub mod Size
use kafka_python.Common.{
  ℕ, zero, suc, ◌+◌, ◌%◌, Bool, true, false, ◌&&◌, ◌||◌, List, [], ◌∷◌, ◌++◌, length, Option, none,
  some, ltb, is_empty, not, get_elem?, if◌then◌else◌,
}
use kafka_python.Common.Dict.{Dict, lookup, insert}
use kafka_python.Common.Int.{ℤ}
use kafka_python.Common.Set.{contains}
use kafka_python.Structs.{TopicPartition, tp_eq}
use kafka_python.Accumulator.{RecordAccumulator, backing_off, queue}
use kafka_python.Accumulator.Batch.{Builder, ProducerBatch}

-- What the drain asks the transaction manager: whether the sending must stop before a partition, and
-- what it writes into the records of a batch that is sent for the first time.
pub record Gate (Records : Type 0) : Type 0 where
  pub should_stop : TopicPartition → Bool
  pub numbered : TopicPartition → Records → Records

-- The loop's variables, and whether it goes on.
pub record Draining (Records : Type 0) : Type 0 where
  pub accumulator : RecordAccumulator Records
  pub size : ℕ
  pub ready : List (ProducerBatch Records)
  pub goes_on : Bool

module _ {Records : Type 0} (builder : Builder Records) (gate : Gate Records) where
  -- The batch as it is sent.
  unfoldable pub sent_as : ℕ → ProducerBatch Records → ProducerBatch Records
  sent_as now b = record b {
    records =
        builder.close (if b.in_retry then b.records else gate.numbered b.topic_partition b.records);
    drained = some now;
  }

  -- The first batch of a partition, and those behind it.
  -- The batch is sent, unless the transaction manager stops it.
  unfoldable pub send_first :
      ℕ
      → TopicPartition
      → ProducerBatch Records
      → List (ProducerBatch Records)
      → Draining Records
      → Draining Records
  send_first now tp first dq d =
      let batch = sent_as now first in
      if gate.should_stop tp then record d { goes_on = false } else record {
        accumulator = record d.accumulator { batches = insert d.accumulator.batches tp dq };
        size = d.size + builder.size_in_bytes batch.records;
        ready = d.ready ++ batch ∷ [];
        goes_on = true;
      }

  -- The first batch of a partition, and those behind it.
  abbrev pub visit_first :
      ℕ → ℕ → TopicPartition → List (ProducerBatch Records) → Draining Records → Draining Records
  visit_first max_size now tp [] d = d
  visit_first max_size now tp (first ∷ dq) d =
      if backing_off d.accumulator now first
      then d
      else if ltb max_size (d.size + builder.size_in_bytes first.records) && not (is_empty d.ready)
      then record d { goes_on = false }
      else send_first now tp first dq d

  abbrev pub visit : ℕ → ℕ → Option TopicPartition → Draining Records → Draining Records
  visit max_size now none d = d
  visit max_size now (some tp) d =
      if contains d.accumulator.muted tp
      then d
      else visit_first max_size now tp (queue (lookup d.accumulator.batches tp)) d

  abbrev pub moved_on : ℕ → Draining Records → Draining Records
  moved_on n d = record d {
    accumulator = record d.accumulator { drain_index = (d.accumulator.drain_index + 1) % n };
  }

  -- Once round the partitions, from the index on, unless it stops before.
  unfoldable pub drain_loop : ℕ → ℕ → ℕ → List TopicPartition → Draining Records → Draining Records
  drain_loop zero max_size now partitions d = d
  drain_loop (suc n) max_size now partitions d =
      let tp = get_elem? partitions d.accumulator.drain_index in
      let e = visit max_size now tp (moved_on (length partitions) d) in
      let rest = drain_loop n max_size now partitions e in if e.goes_on then rest else e

  -- With the partitions that the node leads.
  unfoldable pub drain_batches_for_one_node :
      List TopicPartition
      → ℕ
      → ℕ
      → RecordAccumulator Records
      → List (ProducerBatch Records) × RecordAccumulator Records
  drain_batches_for_one_node [] max_size now s = ([], s)
  drain_batches_for_one_node (tp ∷ tps) max_size now s =
      let n = suc (length tps) in
      let d = drain_loop n max_size now (tp ∷ tps) (record {
        accumulator = record s { drain_index = s.drain_index % n };
        size = 0;
        ready = [];
        goes_on = true;
      }) in
      (d.ready, d.accumulator)

  -- For each node, with the function that gives the partitions that it leads.
  unfoldable pub drain :
      (ℤ → List TopicPartition)
      → List ℤ
      → ℕ
      → ℕ
      → RecordAccumulator Records
      → Dict ℤ (List (ProducerBatch Records)) × RecordAccumulator Records
  drain partitions_for_broker [] max_size now s = ([], s)
  drain partitions_for_broker (node ∷ nodes) max_size now s =
      let (ready, s') = drain_batches_for_one_node (partitions_for_broker node) max_size now s in
      let (rest, t) = drain partitions_for_broker nodes max_size now s' in ((node, ready) ∷ rest, t)
