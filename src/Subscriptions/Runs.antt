-- ===== src/Subscriptions/Runs.antt =====
-- Any sequence of calls on a SubscriptionState.
use kafka_python.Common.{ℕ, String, Bool, Option, List, [], ◌∷◌, refl}
use kafka_python.Structs.{TopicPartition, OffsetAndMetadata}
use kafka_python.Subscriptions.Position.{OffsetResetStrategy}
use kafka_python.Subscriptions.State.{SubscriptionState, init}
use kafka_python.Subscriptions.State
use kafka_python.Subscriptions.Assignment
use kafka_python.Subscriptions.Calls
use kafka_python.Subscriptions.WellFormed.{IsWellFormed, Keeps}
use kafka_python.Subscriptions.Keeps.{
  seek-Keeps, request_offset_reset-Keeps, set_reset_pending-Keeps, reset_failed-Keeps, pause-Keeps,
  resume-Keeps, set_position-Keeps, move_partition_to_end-Keeps, reset_missing_positions-Keeps,
}
use kafka_python.Subscriptions.Subscribes.{
  subscribe-Keeps, change_subscription-Keeps, group_subscribe-Keeps, reset_group_subscription-Keeps,
  unsubscribe-Keeps,
}
use kafka_python.Subscriptions.User.{assign_from_user-Keeps}
use kafka_python.Subscriptions.Subscribed.{assign_from_subscribed-Keeps}

-- The calls that change the state.
pub data Call : Type 0 where
  subscribe : List String → Option String → Option ℕ → Call
  change_subscription group_subscribe : List String → Call
  reset_group_subscription unsubscribe reset_missing_positions : Call
  assign_from_user : List TopicPartition → Call
  assign_from_subscribed : (List String → List String) → List TopicPartition → Call
  seek set_position : TopicPartition → OffsetAndMetadata → Call
  request_offset_reset : TopicPartition → Option OffsetResetStrategy → Call
  set_reset_pending reset_failed : List TopicPartition → ℕ → Call
  pause resume move_partition_to_end : TopicPartition → Call

module _ (valid_regex : String → Bool) where
  unfoldable pub call : SubscriptionState → Call → SubscriptionState
  call s (subscribe topics pattern l) = (State.subscribe valid_regex topics pattern l s).1
  call s (change_subscription topics) = (State.change_subscription topics s).1
  call s (group_subscribe topics) = (State.group_subscribe topics s).1
  call s reset_group_subscription = (State.reset_group_subscription s).1
  call s unsubscribe = (State.unsubscribe s).1
  call s reset_missing_positions = (Calls.reset_missing_positions s).1
  call s (assign_from_user l) = (Assignment.assign_from_user l s).1
  call s (assign_from_subscribed f l) = (Assignment.assign_from_subscribed f l s).1
  call s (seek tp offset) = (Calls.seek tp offset s).1
  call s (set_position tp offset) = (Calls.set_position tp offset s).1
  call s (request_offset_reset tp o) = (Calls.request_offset_reset tp o s).1
  call s (set_reset_pending l t) = (Calls.set_reset_pending l t s).1
  call s (reset_failed l t) = (Calls.reset_failed l t s).1
  call s (pause tp) = (Calls.pause tp s).1
  call s (resume tp) = (Calls.resume tp s).1
  call s (move_partition_to_end tp) = (Calls.move_partition_to_end tp s).1

  unfoldable pub run : SubscriptionState → List Call → SubscriptionState
  run s [] = s
  run s (c ∷ cs) = run (call s c) cs

  call-Keeps : (s : SubscriptionState) (c : Call) → Keeps s (call s c)
  unfolding call
  call-Keeps s (subscribe topics pattern l) = (subscribe-Keeps valid_regex topics pattern l).at s
  call-Keeps s (change_subscription topics) = (change_subscription-Keeps topics).at s
  call-Keeps s (group_subscribe topics) = (group_subscribe-Keeps topics).at s
  call-Keeps s reset_group_subscription = reset_group_subscription-Keeps.at s
  call-Keeps s unsubscribe = unsubscribe-Keeps.at s
  call-Keeps s reset_missing_positions = reset_missing_positions-Keeps.at s
  call-Keeps s (assign_from_user l) = (assign_from_user-Keeps l).at s
  call-Keeps s (assign_from_subscribed f l) = (assign_from_subscribed-Keeps f l).at s
  call-Keeps s (seek tp offset) = (seek-Keeps tp offset).at s
  call-Keeps s (set_position tp offset) = (set_position-Keeps tp offset).at s
  call-Keeps s (request_offset_reset tp o) = (request_offset_reset-Keeps tp o).at s
  call-Keeps s (set_reset_pending l t) = (set_reset_pending-Keeps l t).at s
  call-Keeps s (reset_failed l t) = (reset_failed-Keeps l t).at s
  call-Keeps s (pause tp) = (pause-Keeps tp).at s
  call-Keeps s (resume tp) = (resume-Keeps tp).at s
  call-Keeps s (move_partition_to_end tp) = (move_partition_to_end-Keeps tp).at s

  run-Keeps : (s : SubscriptionState) (cs : List Call) → Keeps s (run s cs)
  unfolding run
  run-Keeps s [] k = k
  run-Keeps s (c ∷ cs) k = run-Keeps (call s c) cs (call-Keeps s c k)

  -- After any calls, raising ones among them: no partition both has a position and waits for a
  -- reset; with no subscription type nothing is subscribed or assigned; and with manual assignment
  -- there is no subscription and the partitions assigned are the user's.
  pub run-IsWellFormed :
      (strategy : OffsetResetStrategy) (cs : List Call) → IsWellFormed (run (init strategy) cs)
  unfolding init
  run-IsWellFormed strategy cs =
      run-Keeps _ cs (record { exclusive = tt; mode = (refl, refl, refl) })
