-- ===== src/Subscriptions/Position.antt =====
-- TopicPartitionState: the position of one assigned partition.
use kafka_python.Common.{ℕ, Bool, true, false, not, ◌&&◌, Option, none, some, is_some, ltb}
use kafka_python.Structs.{OffsetAndMetadata}

-- kafka/protocol/list_offsets.py
pub data OffsetResetStrategy : Type 0 where
  latest earliest no_reset : OffsetResetStrategy

pub record TopicPartitionState : Type 0 where
  pub paused : Bool
  pub reset_strategy : Option OffsetResetStrategy
  pub position : Option OffsetAndMetadata
  pub highwater : Option ℕ
  pub drop_pending_record_batch : Bool
  pub next_allowed_retry_time : Option ℕ

abbrev pub new_state : TopicPartitionState
new_state = record {
  paused = false;
  reset_strategy = none;
  position = none;
  highwater = none;
  drop_pending_record_batch = false;
  next_allowed_retry_time = none;
}

unfoldable pub has_valid_position : TopicPartitionState → Bool
has_valid_position s = is_some s.position

unfoldable pub awaiting_reset : TopicPartitionState → Bool
awaiting_reset s = is_some s.reset_strategy

unfoldable pub is_missing_position : TopicPartitionState → Bool
unfolding has_valid_position awaiting_reset
is_missing_position s = not (has_valid_position s) && not (awaiting_reset s)

unfoldable pub is_fetchable : TopicPartitionState → Bool
unfolding has_valid_position
is_fetchable s = not s.paused && has_valid_position s

-- `now` is time.time().
unfoldable pub is_reset_allowed : ℕ → TopicPartitionState → Bool
is_reset_allowed now s = elim s.next_allowed_retry_time [ none ↦ true | some t ↦ ltb t now ]

unfoldable pub reset : OffsetResetStrategy → TopicPartitionState → TopicPartitionState
reset strategy s = record s {
  reset_strategy = some strategy;
  position = none;
  next_allowed_retry_time = none;
}

-- `set_reset_pending` and `reset_failed` write the same field.
unfoldable pub set_retry_time : ℕ → TopicPartitionState → TopicPartitionState
set_retry_time t s = record s { next_allowed_retry_time = some t }

unfoldable pub seek : OffsetAndMetadata → TopicPartitionState → TopicPartitionState
seek offset s = record s {
  position = some offset;
  reset_strategy = none;
  drop_pending_record_batch = true;
  next_allowed_retry_time = none;
}

unfoldable pub set_paused : Bool → TopicPartitionState → TopicPartitionState
set_paused paused s = record s { paused = paused }
