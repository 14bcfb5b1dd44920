-- ===== src/Accumulator.antt =====
-- kafka/producer/record_accumulator.py: the batches of records that wait to be sent.
pub mod Batch
pub mod Drain
mod Tests
use kafka_python.Common.{
  ℕ, zero, suc, ◌+◌, ◌-◌, ◌%◌, Bool, true, false, not, ◌&&◌, ◌||◌, List, [], ◌∷◌, ◌++◌, length,
  Option, none, some, is_some, is_empty, leb, ltb, nat_beq, max, min, get_elem?, if◌then◌else◌,
}
use kafka_python.Common.Int.{ℤ, negsuc, int_beq}
use kafka_python.Common.Eq.{◌==◌, int_eq}
use kafka_python.Common.Dict.{Dict, lookup, insert, keys_of}
use kafka_python.Common.Set.{contains, add}
use kafka_python.Errors.{Exc, assertion_error, unsupported_version, runtime_error}
use kafka_python.Exec.{Exec, Result, ok, err}
use kafka_python.Structs.{TopicPartition, tp_eq}
use kafka_python.Accumulator.Batch.{
  Builder, ProducerBatch, try_append, retry, has_reached_delivery_timeout,
}
use kafka_python.Accumulator.Batch

-- The times are in milliseconds. An expiry that is none stands for infinity.
pub record RecordAccumulator (Records : Type 0) : Type 0 where
  pub closed : Bool
  pub flushes_in_progress : ℕ
  pub batches : Dict TopicPartition (List (ProducerBatch Records))
  pub muted : List TopicPartition
  pub drain_index : ℕ
  pub next_batch_expiry_time_ms : Option ℕ
  pub linger_ms : ℕ
  pub delivery_timeout_ms : ℕ
  pub retry_backoff_ms : ℕ
  pub message_version : ℕ

abbrev pub queue {ℓ} : {A : Type ℓ} → Option (List A) → List A
queue none = []
queue (some xs) = xs

abbrev min_or : Option ℕ → ℕ → Option ℕ
min_or none n = some n
min_or (some m) n = some (min m n)

module _ {Records : Type 0} where
  unfoldable pub maybe_update_next_batch_expiry_time :
      ProducerBatch Records → RecordAccumulator Records → RecordAccumulator Records
  maybe_update_next_batch_expiry_time b s = record s {
    next_batch_expiry_time_ms =
        min_or s.next_batch_expiry_time_ms (b.created + s.delivery_timeout_ms);
  }

  unfoldable pub reset_next_batch_expiry_time :
      RecordAccumulator Records → RecordAccumulator Records
  reset_next_batch_expiry_time s = record s { next_batch_expiry_time_ms = none }

  unfoldable pub reenqueue :
      ℕ → ProducerBatch Records → RecordAccumulator Records → RecordAccumulator Records
  reenqueue now b s =
      let b' = retry now b in
      record s {
        batches =
            insert s.batches b'.topic_partition (b' ∷ queue (lookup s.batches b'.topic_partition));
      }

  -- Whether the batch waits for its backoff.
  unfoldable pub backing_off : RecordAccumulator Records → ℕ → ProducerBatch Records → Bool
  backing_off s now b = ltb 0 b.attempts && ltb now (b.last_attempt + s.retry_backoff_ms)

  unfoldable pub has_undrained : Dict TopicPartition (List (ProducerBatch Records)) → Bool
  has_undrained [] = false
  has_undrained ((tp, dq) ∷ d) = not (is_empty dq) || has_undrained d

-- The ready nodes, the time until the next check, and whether a leader is unknown.
pub record Ready : Type 0 where
  pub nodes : List ℤ
  pub next_check : ℕ
  pub unknown_leaders_exist : Bool

module _ {Records : Type 0} (builder : Builder Records) where
  -- The batches at the front that have reached the timeout are closed; the first other one stops.
  unfoldable pub expire :
      ℕ
      → List (ProducerBatch Records)
      → RecordAccumulator Records
      → List (ProducerBatch Records) × List (ProducerBatch Records) × RecordAccumulator Records
  expire now [] s = ([], [], s)
  expire now (b ∷ dq) s =
      let (gone, left, s') = expire now dq s in
      if has_reached_delivery_timeout s.delivery_timeout_ms now b
      then (record b { records = builder.close b.records } ∷ gone, left, s')
      else ([], b ∷ dq, maybe_update_next_batch_expiry_time b s)

  unfoldable pub expire_all :
      ℕ
      → List TopicPartition
      → RecordAccumulator Records
      → List (ProducerBatch Records) × RecordAccumulator Records
  expire_all now [] s = ([], s)
  expire_all now (tp ∷ tps) s =
      let (gone, left, s') = expire now (queue (lookup s.batches tp)) s in
      let (more, t) = expire_all now tps (record s' { batches = insert s'.batches tp left }) in
      (gone ++ more, t)

  unfoldable pub expired_batches :
      ℕ → RecordAccumulator Records → List (ProducerBatch Records) × RecordAccumulator Records
  expired_batches now s = expire_all now (keys_of s.batches) s

  abbrev ready_first :
      RecordAccumulator Records → ℕ → ℤ → List (ProducerBatch Records) → Ready → Ready
  ready_first s now leader [] r = r
  ready_first s now leader (b ∷ dq) r =
      let off = backing_off s now b in
      let time_to_wait = if off then s.retry_backoff_ms else s.linger_ms in
      let full = ltb 0 (length dq) || builder.is_full b.records in
      let expired = leb (b.last_attempt + time_to_wait) now in
      let sendable = full || expired || s.closed || ltb 0 s.flushes_in_progress in
      if sendable && not off
      then record r { nodes = add r.nodes leader }
      else record r { next_check = min (b.last_attempt + time_to_wait - now) r.next_check }

  abbrev ready_at : RecordAccumulator Records → ℕ → TopicPartition → Option ℤ → Ready → Ready
  ready_at s now tp none r = record r { unknown_leaders_exist = true }
  ready_at s now tp (some leader) r =
      if leader == negsuc 0
      then record r { unknown_leaders_exist = true }
      else if contains r.nodes leader || contains s.muted tp
      then r
      else ready_first s now leader (queue (lookup s.batches tp)) r

  unfoldable pub ready_loop :
      RecordAccumulator Records
      → (TopicPartition → Option ℤ)
      → ℕ
      → List TopicPartition
      → Ready
      → Ready
  ready_loop s leader_for_partition now [] r = r
  ready_loop s leader_for_partition now (tp ∷ tps) r =
      ready_loop s leader_for_partition now tps (ready_at s now tp (leader_for_partition tp) r)

  -- With the cluster as the function that gives the leader of a partition.
  unfoldable pub ready : (TopicPartition → Option ℤ) → ℕ → RecordAccumulator Records → Ready
  ready leader_for_partition now s =
      ready_loop s leader_for_partition now (keys_of s.batches)
        (record { nodes = []; next_check = 9999999990; unknown_leaders_exist = false })

  -- `dq[-1].try_append(...)`, and whether that batch is full after it.
  unfoldable pub try_last :
      ℕ → List ℕ → List (ProducerBatch Records) → Option (ℕ × Bool) × List (ProducerBatch Records)
  try_last now record_bytes [] = (none, [])
  try_last now record_bytes (b ∷ dq) =
      let (found, dq') = try_last now record_bytes dq in
      if is_empty dq then alone (try_append builder now record_bytes b) else (found, b ∷ dq')
    where
      alone : Option ℕ × ProducerBatch Records → Option (ℕ × Bool) × List (ProducerBatch Records)
      alone (none, c) = (none, c ∷ [])
      alone (some offset, c) = (some (offset, builder.is_full c.records), c ∷ [])

  -- A batch of its own for the record: the exception has no class of its own.
  abbrev in_new :
      TopicPartition
      → List (ProducerBatch Records)
      → RecordAccumulator Records
      → Option ℕ × ProducerBatch Records
      → Result (ℕ × Bool × Bool) × RecordAccumulator Records
  in_new tp dq s (none, b) = (err runtime_error, s)
  in_new tp dq s (some offset, b) = (
    ok (offset, not (is_empty dq) || builder.is_full b.records, true),
    record s { batches = insert s.batches tp (dq ++ b ∷ []) },
  )

  -- The first try is repeated under the second lock before a new batch is made.
  abbrev append_to :
      ℕ
      → TopicPartition
      → List ℕ
      → Bool
      → Records
      → RecordAccumulator Records
      → ℕ
      → Option (ℕ × Bool) × List (ProducerBatch Records)
      → Result (ℕ × Bool × Bool) × RecordAccumulator Records
  append_to now tp record_bytes transactional fresh s tries (some (offset, full), dq) =
      (ok (offset, ltb 1 (length dq) || full, false), record s { batches = insert s.batches tp dq })
  append_to now tp record_bytes transactional fresh s (suc tries) (none, dq) =
      append_to now tp record_bytes transactional fresh s tries (try_last now record_bytes dq)
  append_to now tp record_bytes transactional fresh s zero (none, dq) =
      let t = record s { batches = insert s.batches tp dq } in
      if transactional && ltb s.message_version 2
      then (err unsupported_version, t)
      else in_new tp dq t (try_append builder now record_bytes (Batch.init tp fresh now))

  -- The offset of the record in its batch, whether the batch is full, and whether it is new. `fresh`
  -- is a new builder, and `transactional` whether there is a transaction manager.
  unfoldable pub append :
      ℕ
      → TopicPartition
      → List ℕ
      → Bool
      → Records
      → Exec (RecordAccumulator Records) (ℕ × Bool × Bool)
  append now tp record_bytes transactional fresh s =
      if s.closed
      then (err assertion_error, s)
      else append_to now tp record_bytes transactional fresh s 1
          (try_last now record_bytes (queue (lookup s.batches tp)))
