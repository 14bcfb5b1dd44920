-- ===== src/Accumulator/Tests.antt =====
-- The accumulator with records that are the sum of the bytes in them.
use kafka_python.Common.{
  ℕ, ◌+◌, ◌≡◌, refl, false, List, [], ◌∷◌, length, none, some, leb, is_some, arith, if◌then◌else◌,
}
use kafka_python.Common.Int.{pos}
use kafka_python.Common.Dict.{lookup, insert}
use kafka_python.Common.Set.{contains}
use kafka_python.Errors.{kafka_error}
use kafka_python.Structs.{TopicPartition}
use kafka_python.Accumulator.{backing_off, RecordAccumulator}
use kafka_python.Accumulator.Batch.{Builder, ProducerBatch, FinalState, succeeded, failed}
use kafka_python.Accumulator.Batch
use kafka_python.Accumulator.Batch.Final.{
  Step, append, retry_at, abort_with, done_with, run, IsSettled, final_state_lem,
}
use kafka_python.Accumulator.Drain.{
  drain_loop, send_first, sent_as, Gate, drain_batches_for_one_node,
}
use kafka_python.Accumulator.Drain.Size.{Fits, drain_batches_lem}

abbrev sums : Builder ℕ
sums = record {
  append = λ bytes r.
      if leb (r + length bytes) 10 then (some (0, length bytes), r + length bytes) else (none, r);
  is_full = λ r. leb 10 r;
  close = λ r. r;
  size_in_bytes = λ r. r;
}

abbrev open_gate : Gate ℕ
open_gate = record { should_stop = λ tp. false; numbered = λ tp r. r }

abbrev orders : ℕ → TopicPartition
orders p = record { topic = "orders"; partition = p }

abbrev batch : ℕ → ℕ → ProducerBatch ℕ
unfolding Batch.init
batch p size = Batch.init (orders p) size 1000

abbrev filled : RecordAccumulator ℕ
filled = record {
  closed = false;
  flushes_in_progress = 0;
  batches = (orders 0, batch 0 7 ∷ batch 0 1 ∷ []) ∷ (orders 1, batch 1 6 ∷ []) ∷ [];
  muted = [];
  drain_index = 1;
  next_batch_expiry_time_ms = none;
  linger_ms = 0;
  delivery_timeout_ms = 120000;
  retry_backoff_ms = 100;
  message_version = 2;
}

-- The second batch does not fit behind the first.
drained :
    length (drain_batches_for_one_node sums open_gate (orders 0 ∷ orders 1 ∷ []) 10 2000 filled).0
    ≡ 1
unfolding drain_batches_for_one_node drain_loop contains lookup insert backing_off batch send_first
    sent_as
drained = refl

drain_batches_example :
    Fits sums open_gate 10
      (drain_batches_for_one_node sums open_gate (orders 0 ∷ orders 1 ∷ []) 10 2000 filled).0
drain_batches_example =
    drain_batches_lem sums open_gate (orders 0 ∷ orders 1 ∷ []) 10 2000 filled
      (λ tp r. (omega arith, omega arith))

abbrev steps : List Step
steps = append 1000 (1 ∷ 2 ∷ []) ∷ retry_at 2000 ∷ done_with (some (pos 5), none) none ∷ []

final_state_example :
    let b = run sums steps (Batch.init (orders 0) 0 1000) in
    IsSettled b
    × ((if is_some b.final_state
          then (run sums (abort_with kafka_error ∷ []) b).final_state
          else b.final_state)
        ≡ b.final_state)
final_state_example = final_state_lem sums (orders 0) 0 1000 steps (abort_with kafka_error ∷ [])
