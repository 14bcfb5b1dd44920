-- ===== src/Subscriptions/Tests.antt =====
-- A consumer at work, and the theorems at concrete inputs.
use kafka_python.Common.{
  ℕ, String, Bool, true, false, not, ◌&&◌, none, some, List, [], ◌∷◌, ◌++◌, ◌≡◌, refl, is_empty,
  if◌then◌else◌, ◌≢◌, ◌⊎◌, ap, arith,
}
use kafka_python.Common.Int.{negsuc}
use kafka_python.Common.Dict.{Dict, lookup, insert, erase, move_to_end, member}
use kafka_python.Common.Eq.{string_eq}
use kafka_python.Common.Set
use kafka_python.Errors.{Exc, no_offset_for_partition}
use kafka_python.Exec.{ok, err, ◌>>=◌}
use kafka_python.Structs.{TopicPartition, OffsetAndMetadata, tp_eq}
use kafka_python.Subscriptions.TopicName.{
  ensure_valid_topic_name, legal_chars, legal_rest, legal_char,
}
use kafka_python.Subscriptions.Position.{
  OffsetResetStrategy, earliest, latest, no_reset, TopicPartitionState, new_state, is_fetchable,
  has_valid_position, is_missing_position, awaiting_reset, reset,
}
use kafka_python.Subscriptions.Position
use kafka_python.Subscriptions.State.{
  SubscriptionState, init, user_assigned, partitions_auto_assigned,
}
use kafka_python.Subscriptions.State
use kafka_python.Subscriptions.Assignment.{
  set_assignment, assign_from_user, assign_from_subscribed, states_of, check_topics, check_topic,
  place, place_topics, by_topic, append_known, no_partitions,
}
use kafka_python.Subscriptions.Calls
use kafka_python.Subscriptions.WellFormed.{IsWellFormed}
use kafka_python.Subscriptions.Placement.{set_assignment_lem}
use kafka_python.Subscriptions.User.{assign_from_user_lem, given}
use kafka_python.Subscriptions.Subscribed.{assign_from_subscribed_lem, all_subscribed}
use kafka_python.Subscriptions.Runs.{run, call, run-IsWellFormed}
use kafka_python.Subscriptions.Runs
use kafka_python.Subscriptions.Fetching.{
  move_partition_to_end_lem, reset_missing_positions_lem, seek_lem, without,
}

-- What a run computes with.
machine : Unit {0}
unfolding run call init State.subscribe State.subscribe_one State.subscribe_topics
    State.subscribe_pattern State.set_subscription_type State.change_subscription
    State.subscription_is State.ensure_valid_topic_names State.raise_some State.unsubscribe
    partitions_auto_assigned set_assignment assign_from_user assign_from_subscribed states_of
    check_topics check_topic place place_topics by_topic append_known no_partitions Calls.seek
    Calls.at_partition Calls.pause Calls.move_partition_to_end Calls.fetchable_partitions
    Calls.partitions_where Calls.is_assigned Calls.reset_missing_positions Calls.reset_missing
    is_fetchable has_valid_position is_missing_position awaiting_reset reset Position.seek
    Position.set_paused lookup insert erase move_to_end member Set.contains Set.add Set.update
    Set.subset Set.same_members ensure_valid_topic_name legal_chars legal_rest legal_char ◌>>=◌
machine = tt

abbrev any_regex : String → Bool
any_regex p = true

abbrev orders : ℕ → TopicPartition
orders n = record { topic = "orders"; partition = n }

abbrev returns : ℕ → TopicPartition
returns n = record { topic = "returns"; partition = n }

abbrev at : ℕ → OffsetAndMetadata
at n = record { offset = n; metadata = ""; leader_epoch = negsuc 0 }

abbrev subscribing : List Runs.Call
subscribing =
    Runs.subscribe ("orders" ∷ "returns" ∷ []) none none
    ∷ Runs.assign_from_subscribed (λ l. l) (orders 0 ∷ returns 0 ∷ orders 1 ∷ [])
    ∷ Runs.seek (orders 0) (at 5)
    ∷ Runs.seek (returns 0) (at 7)
    ∷ Runs.pause (returns 0)
    ∷ []

abbrev subscribed : SubscriptionState
subscribed = run any_regex (init earliest) subscribing

-- A name that ends in a line feed passes the check.
line_feed : ensure_valid_topic_name "orders\n" ≡ none
unfolding machine
line_feed = refl

subscribed_positions : Calls.fetchable_partitions subscribed ≡ orders 0 ∷ []
unfolding machine
subscribed_positions = refl

run-IsWellFormed_example : IsWellFormed (run any_regex (init earliest) subscribing)
run-IsWellFormed_example = run-IsWellFormed any_regex earliest subscribing

abbrev two_states : Dict TopicPartition TopicPartitionState
two_states = (orders 0, new_state) ∷ (orders 1, record new_state { position = some (at 4) }) ∷ []

set_assignment_example :
    lookup (set_assignment (λ l. l) two_states (init latest)).1.assignment (orders 1)
    ≡ some (record new_state { position = some (at 4) })
unfolding machine
set_assignment_example =
    set_assignment_lem (λ l. l) two_states (init latest) (orders 1) (λ l t. refl)

abbrev assigning : List Runs.Call
assigning = Runs.assign_from_user (orders 0 ∷ orders 1 ∷ []) ∷ Runs.seek (orders 0) (at 5) ∷ []

abbrev assigned : SubscriptionState
assigned = run any_regex (init no_reset) assigning

assign_from_user_example :
    let (r, t) = assign_from_user (orders 2 ∷ orders 0 ∷ []) assigned in
    (r ≡ ok tt)
    × (t.subscription_type ≡ user_assigned)
    × (lookup t.assignment (orders 0) ≡ given assigned (orders 2 ∷ orders 0 ∷ []) (orders 0))
unfolding machine
assign_from_user_example =
    assign_from_user_lem (orders 2 ∷ orders 0 ∷ []) assigned (orders 0)
      (run-IsWellFormed any_regex no_reset assigning) refl

assign_from_subscribed_example :
    let (r, t) = assign_from_subscribed (λ l. l) (returns 1 ∷ []) subscribed in
    ((e : Exc) × (r ≡ err e)
      × (t ≡ subscribed)
      × (partitions_auto_assigned subscribed
            && all_subscribed subscribed.subscription (returns 1 ∷ [])
          ≡ false))
    ⊎ ((r ≡ ok tt)
        × (partitions_auto_assigned subscribed
              && all_subscribed subscribed.subscription (returns 1 ∷ [])
            ≡ true)
        × (lookup t.assignment (returns 1)
            ≡ (if Set.contains (returns 1 ∷ []) (returns 1) then some new_state else none)))
assign_from_subscribed_example =
    assign_from_subscribed_lem (λ l. l) (returns 1 ∷ []) subscribed (returns 1) (λ l t. refl)

move_partition_to_end_example :
    Calls.fetchable_partitions (Calls.move_partition_to_end (orders 0) subscribed).1
    ≡ without (orders 0) (Calls.fetchable_partitions subscribed)
      ++ (if Calls.is_partition_fetchable (orders 0) subscribed then orders 0 ∷ [] else [])
move_partition_to_end_example = move_partition_to_end_lem (orders 0) subscribed

reset_missing_positions_example :
    let (r, t) = Calls.reset_missing_positions subscribed in
    ((Calls.has_default_offset_reset_policy subscribed ≡ true)
      × (r ≡ ok tt)
      × (Calls.missing_fetch_positions t ≡ [])
      × (Calls.all_consumed_offsets t ≡ Calls.all_consumed_offsets subscribed)
      × (Calls.fetchable_partitions t ≡ Calls.fetchable_partitions subscribed))
    ⊎ ((Calls.has_default_offset_reset_policy subscribed ≡ false)
        × (t ≡ subscribed)
        × (r ≡ (
            if is_empty (Calls.missing_fetch_positions subscribed)
            then ok tt
            else err no_offset_for_partition)))
reset_missing_positions_example = reset_missing_positions_lem subscribed

orders-ne-returns : returns 0 ≢ orders 1
orders-ne-returns e = omega (arith, ap (λ (t : TopicPartition). t.partition) e)

seek_example :
    let (r, t) = Calls.seek (orders 1) (at 9) subscribed in
    (r ≡ ok tt)
    × ((Calls.position (orders 1) t).0 ≡ ok (some (at 9)))
    × ((Calls.is_offset_reset_needed (orders 1) t).0 ≡ ok false)
    × (Calls.is_partition_fetchable (orders 1) t ≡ not (Calls.is_paused (orders 1) subscribed))
    × (lookup t.assignment (returns 0) ≡ lookup subscribed.assignment (returns 0))
unfolding machine
seek_example = seek_lem (orders 1) (returns 0) (at 9) subscribed refl orders-ne-returns
