-- ===== src/Subscriptions/Calls.antt =====
-- SubscriptionState: the calls that read or change the state of assigned partitions.
use kafka_python.Common.{
  ℕ, Bool, true, false, ◌&&◌, Option, none, some, List, [], ◌∷◌, is_empty, if◌then◌else◌,
}
use kafka_python.Common.Dict.{Dict, lookup, insert, member, move_to_end}
use kafka_python.Errors.{key_error, assertion_error, no_offset_for_partition}
use kafka_python.Exec.{ok, err, pure, gets, modify, ◌>>=◌, ◌>>◌}
use kafka_python.Structs.{TopicPartition, OffsetAndMetadata, tp_eq}
use kafka_python.Subscriptions.Position.{
  TopicPartitionState, OffsetResetStrategy, no_reset, latest, earliest, reset, set_retry_time,
  set_paused, has_valid_position, awaiting_reset, is_missing_position, is_fetchable,
  is_reset_allowed,
}
use kafka_python.Subscriptions.Position
use kafka_python.Subscriptions.State.{SubscriptionState, M}

abbrev pub Assignment : Type 0
Assignment = Dict TopicPartition TopicPartitionState

-- What `self.assignment[partition]` finds, changed by `f`.
abbrev pub write_at :
    Option TopicPartitionState
    → TopicPartition
    → (TopicPartitionState → TopicPartitionState)
    → M (Unit {0})
write_at none tp f s = (err key_error, s)
write_at (some v) tp f s = (ok tt, record s { assignment = insert s.assignment tp (f v) })

unfoldable pub at_partition :
    TopicPartition → (TopicPartitionState → TopicPartitionState) → M (Unit {0})
at_partition tp f s = write_at (lookup s.assignment tp) tp f s

-- The same for each of some partitions.
unfoldable pub at_partitions :
    List TopicPartition → (TopicPartitionState → TopicPartitionState) → M (Unit {0})
unfolding at_partition
at_partitions [] f = pure tt
at_partitions (tp ∷ tps) f = do at_partition tp f; at_partitions tps f

-- `seek` with an offset and its metadata; a bare offset is one with the metadata "" and epoch -1.
unfoldable pub seek : TopicPartition → OffsetAndMetadata → M (Unit {0})
unfolding at_partition Position.seek
seek tp offset = at_partition tp (Position.seek offset)

unfoldable pub request_offset_reset : TopicPartition → Option OffsetResetStrategy → M (Unit {0})
unfolding at_partition reset
request_offset_reset tp none = do
  strategy ← gets λ s. s.default_offset_reset_strategy
  at_partition tp (reset strategy)
request_offset_reset tp (some strategy) = at_partition tp (reset strategy)

unfoldable pub set_reset_pending : List TopicPartition → ℕ → M (Unit {0})
unfolding at_partitions set_retry_time
set_reset_pending tps t = at_partitions tps (set_retry_time t)

unfoldable pub reset_failed : List TopicPartition → ℕ → M (Unit {0})
unfolding at_partitions set_retry_time
reset_failed tps t = at_partitions tps (set_retry_time t)

unfoldable pub pause : TopicPartition → M (Unit {0})
unfolding at_partition set_paused
pause tp = at_partition tp (set_paused true)

unfoldable pub resume : TopicPartition → M (Unit {0})
unfolding at_partition set_paused
resume tp = at_partition tp (set_paused false)

abbrev pub position_at :
    Option TopicPartitionState → TopicPartition → OffsetAndMetadata → M (Unit {0})
position_at none tp offset s = (err key_error, s)
position_at (some v) tp offset s =
    if has_valid_position v
    then (
      ok tt,
      record s { assignment = insert s.assignment tp (record v { position = some offset }) },
    )
    else (err assertion_error, s)

-- `self.assignment[partition].position = offset`, which asserts that there is a position
unfoldable pub set_position : TopicPartition → OffsetAndMetadata → M (Unit {0})
unfolding has_valid_position
set_position tp offset s = position_at (lookup s.assignment tp) tp offset s

unfoldable pub position : TopicPartition → M (Option OffsetAndMetadata)
position tp s = elim (lookup s.assignment tp) [
  | none ↦ (err key_error, s)
  | some v ↦ (ok v.position, s)
]

unfoldable pub move_partition_to_end : TopicPartition → M (Unit {0})
move_partition_to_end tp = modify λ s. record s { assignment = move_to_end s.assignment tp }

-- The partitions, in the order of the assignment, whose state passes the test.
unfoldable pub partitions_where : (TopicPartitionState → Bool) → Assignment → List TopicPartition
partitions_where f [] = []
partitions_where f ((tp, v) ∷ a) =
    let rest = partitions_where f a in if f v then tp ∷ rest else rest

unfoldable pub fetchable_partitions : SubscriptionState → List TopicPartition
unfolding partitions_where is_fetchable
fetchable_partitions s = partitions_where is_fetchable s.assignment

unfoldable pub paused_partitions : SubscriptionState → List TopicPartition
unfolding partitions_where
paused_partitions s = partitions_where (λ v. v.paused) s.assignment

unfoldable pub missing_fetch_positions : SubscriptionState → List TopicPartition
unfolding partitions_where is_missing_position
missing_fetch_positions s = partitions_where is_missing_position s.assignment

unfoldable pub partitions_needing_reset : ℕ → SubscriptionState → List TopicPartition
unfolding partitions_where awaiting_reset is_reset_allowed
partitions_needing_reset now s =
    partitions_where (λ v. awaiting_reset v && is_reset_allowed now v) s.assignment

unfoldable pub all_consumed : Assignment → Dict TopicPartition OffsetAndMetadata
all_consumed [] = []
all_consumed ((tp, v) ∷ a) = elim v.position [
  | none ↦ all_consumed a
  | some p ↦ (tp, p) ∷ all_consumed a
]

unfoldable pub all_have_positions : Assignment → Bool
unfolding has_valid_position
all_have_positions [] = true
all_have_positions ((tp, v) ∷ a) = has_valid_position v && all_have_positions a

unfoldable pub all_consumed_offsets : SubscriptionState → Dict TopicPartition OffsetAndMetadata
unfolding all_consumed
all_consumed_offsets s = all_consumed s.assignment

unfoldable pub has_all_fetch_positions : SubscriptionState → Bool
unfolding all_have_positions
has_all_fetch_positions s = all_have_positions s.assignment

abbrev pub has_policy : OffsetResetStrategy → Bool
has_policy no_reset = false
has_policy latest = true
has_policy earliest = true

unfoldable pub has_default_offset_reset_policy : SubscriptionState → Bool
has_default_offset_reset_policy s = has_policy s.default_offset_reset_strategy

-- `partition in self.assignment and test(self.assignment[partition])`
unfoldable pub test_partition :
    (TopicPartitionState → Bool) → TopicPartition → SubscriptionState → Bool
test_partition f tp s = elim (lookup s.assignment tp) [ none ↦ false | some v ↦ f v ]

unfoldable pub is_assigned : TopicPartition → SubscriptionState → Bool
is_assigned tp s = member s.assignment tp

unfoldable pub is_paused : TopicPartition → SubscriptionState → Bool
unfolding test_partition
is_paused tp s = test_partition (λ v. v.paused) tp s

unfoldable pub is_partition_fetchable : TopicPartition → SubscriptionState → Bool
unfolding test_partition is_fetchable
is_partition_fetchable tp s = test_partition is_fetchable tp s

-- `is_offset_reset_needed`
unfoldable pub is_offset_reset_needed : TopicPartition → M Bool
unfolding awaiting_reset
is_offset_reset_needed tp s = elim (lookup s.assignment tp) [
  | none ↦ (err key_error, s)
  | some v ↦ (ok (awaiting_reset v), s)
]

-- The loop of `reset_missing_positions` under a default strategy.
unfoldable pub reset_missing : OffsetResetStrategy → Assignment → Assignment
unfolding is_missing_position reset
reset_missing strategy [] = []
reset_missing strategy ((tp, v) ∷ a) =
    (tp, if is_missing_position v then reset strategy v else v) ∷ reset_missing strategy a

-- Without a default strategy the loop collects the partitions and then raises.
unfoldable pub reset_missing_positions : M (Unit {0})
unfolding reset_missing partitions_where is_missing_position
reset_missing_positions s =
    if has_policy s.default_offset_reset_strategy
    then (
      ok tt,
      record s { assignment = reset_missing s.default_offset_reset_strategy s.assignment },
    )
    else if is_empty (partitions_where is_missing_position s.assignment)
    then (ok tt, s)
    else (err no_offset_for_partition, s)
