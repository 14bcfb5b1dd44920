-- ===== src/Accumulator/Batch.antt =====
-- kafka/producer/record_accumulator.py: ProducerBatch, over a builder of records.
pub mod Final
use kafka_python.Common.{
  ℕ, ◌+◌, String, Bool, true, false, List, [], Option, none, some, is_some, leb, max, length,
  if◌then◌else◌,
}
use kafka_python.Common.Int.{ℤ, pos, negsuc}
use kafka_python.Errors.{Exc, illegal_state}
use kafka_python.Exec.{Exec, Result, ok, err}
use kafka_python.Structs.{TopicPartition}
use kafka_python.Future.{Future, success, failure}
use kafka_python.Future

pub data FinalState : Type 0 where
  aborted failed succeeded : FinalState

-- What a batch calls of MemoryRecordsBuilder. `append` gives the offset and the size of the record,
-- or none when it does not fit.
pub record Builder (Records : Type 0) : Type 0 where
  pub append : List ℕ → Records → Option (ℕ × ℕ) × Records
  pub is_full : Records → Bool
  pub close : Records → Records
  pub size_in_bytes : Records → ℕ

-- The offset and the timestamp of a batch that was sent.
abbrev pub Produced : Type 0
Produced = Option ℤ × Option ℤ

-- The times are in milliseconds.
pub record ProducerBatch (Records : Type 0) : Type 0 where
  pub max_record_size : ℕ
  pub created : ℕ
  pub drained : Option ℕ
  pub attempts : ℕ
  pub last_attempt : ℕ
  pub last_append : ℕ
  pub records : Records
  pub topic_partition : TopicPartition
  pub produce_future : Future Produced
  pub in_retry : Bool
  pub final_state : Option FinalState

-- `_complete_future`
abbrev pub complete_by : Produced → Option Exc → Exec (Future Produced) (Unit {0})
complete_by produced none = success produced
complete_by produced (some e) = failure e

abbrev pub final_of : Option Exc → FinalState
final_of none = succeeded
final_of (some e) = failed

module _ {Records : Type 0} where
  unfoldable pub init : TopicPartition → Records → ℕ → ProducerBatch Records
  init tp records now = record {
    max_record_size = 0;
    created = now;
    drained = none;
    attempts = 0;
    last_attempt = now;
    last_append = now;
    records = records;
    topic_partition = tp;
    produce_future = Future.init;
    in_retry = false;
    final_state = none;
  }

  abbrev pub with_future :
      Result (Unit {0}) × Future Produced
      → ProducerBatch Records
      → Result (Unit {0}) × ProducerBatch Records
  with_future (r, f) b = (r, record b { produce_future = f })

  unfoldable pub complete_future : Produced → Option Exc → Exec (ProducerBatch Records) (Unit {0})
  complete_future produced e b =
      if b.produce_future.is_done
      then (err illegal_state, b)
      else with_future (complete_by produced e b.produce_future) b

  abbrev pub abort_in : Option FinalState → Exc → Exec (ProducerBatch Records) (Unit {0})
  abort_in none e b =
      complete_future (some (negsuc 0), some (negsuc 0)) (some e)
        (record b { final_state = some aborted })
  abort_in (some f) e b = (err illegal_state, b)

  unfoldable pub abort : Exc → Exec (ProducerBatch Records) (Unit {0})
  abort e b = abort_in b.final_state e b

  -- `return True` behind the call, which may raise
  abbrev pub then_true :
      Result (Unit {0}) × ProducerBatch Records → Result Bool × ProducerBatch Records
  then_true (ok t, b) = (ok true, b)
  then_true (err e, b) = (err e, b)

  abbrev pub done_in : Option FinalState → Produced → Option Exc → Exec (ProducerBatch Records) Bool
  done_in none produced e b =
      then_true (complete_future produced e (record b { final_state = some (final_of e) }))
  done_in (some succeeded) produced e b = (err illegal_state, b)
  done_in (some aborted) produced e b = (ok false, b)
  done_in (some failed) produced e b = (ok false, b)

  -- Whether the state was set by this call.
  unfoldable pub done : Produced → Option Exc → Exec (ProducerBatch Records) Bool
  done produced e b = done_in b.final_state produced e b

  unfoldable pub has_reached_delivery_timeout : ℕ → ℕ → ProducerBatch Records → Bool
  has_reached_delivery_timeout delivery_timeout_ms now b = leb (b.created + delivery_timeout_ms) now

  unfoldable pub retry : ℕ → ProducerBatch Records → ProducerBatch Records
  retry now b = record b {
    in_retry = true;
    attempts = b.attempts + 1;
    last_attempt = now;
    last_append = now;
  }

module _ {Records : Type 0} (builder : Builder Records) where
  abbrev pub appended :
      ℕ → Option (ℕ × ℕ) × Records → ProducerBatch Records → Option ℕ × ProducerBatch Records
  appended now (none, records) b = (none, record b { records = records })
  appended now (some (offset, size), records) b = (
    some offset,
    record b { records = records; max_record_size = max b.max_record_size size; last_append = now },
  )

  -- The offset of the record in the batch, by which its own future is known.
  unfoldable pub try_append : ℕ → List ℕ → ProducerBatch Records → Option ℕ × ProducerBatch Records
  try_append now record_bytes b = appended now (builder.append record_bytes b.records) b
