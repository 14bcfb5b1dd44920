-- ===== src/Subscriptions/Assignment.antt =====
-- SubscriptionState: the changes of the assignment.
use kafka_python.Common.{String, not, Option, none, some, List, [], ◌∷◌, ◌++◌, if◌then◌else◌, map}
use kafka_python.Common.Eq.{◌==◌, string_eq}
use kafka_python.Common.Dict.{Dict, lookup, insert, keys_of}
use kafka_python.Common.Set
use kafka_python.Errors.{Exc, illegal_state, type_error, value_error}
use kafka_python.Exec.{pure, raise_if, gets, modify, ◌>>=◌, ◌>>◌}
use kafka_python.Structs.{TopicPartition, tp_eq}
use kafka_python.Subscriptions.Position.{TopicPartitionState, new_state}
use kafka_python.Subscriptions.State.{
  M, raise_some, set_subscription_type, partitions_auto_assigned, user_assigned,
}

-- `d[k].append(a)`, where the key is known
unfoldable pub append_known :
    Dict String (List TopicPartition) → String → TopicPartition → Dict String (List TopicPartition)
append_known [] t a = []
append_known ((u, l) ∷ d) t a =
    let rest = append_known d t a in if u == t then (u, l ++ a ∷ []) ∷ d else (u, l) ∷ rest

-- `OrderedDict({topic: [] for topic in topics})`
unfoldable pub no_partitions :
    List String → Dict String (List TopicPartition) → Dict String (List TopicPartition)
no_partitions [] d = d
no_partitions (t ∷ topics) d = no_partitions topics (insert d t [])

unfoldable pub by_topic :
    List TopicPartition → Dict String (List TopicPartition) → Dict String (List TopicPartition)
by_topic [] d = d
by_topic (tp ∷ tps) d = by_topic tps (append_known d tp.topic tp)

abbrev pub place_one :
    Option TopicPartitionState
    → TopicPartition
    → Dict TopicPartition TopicPartitionState
    → Dict TopicPartition TopicPartitionState
place_one none tp a = a
place_one (some v) tp a = insert a tp v

-- `self.assignment[tp] = partition_states[tp]` for each `tp`, which is a key
unfoldable pub place :
    Dict TopicPartition TopicPartitionState
    → List TopicPartition
    → Dict TopicPartition TopicPartitionState
    → Dict TopicPartition TopicPartitionState
place states [] a = a
place states (tp ∷ tps) a = place states tps (place_one (lookup states tp) tp a)

unfoldable pub place_topics :
    Dict TopicPartition TopicPartitionState
    → Dict String (List TopicPartition)
    → Dict TopicPartition TopicPartitionState
    → Dict TopicPartition TopicPartitionState
place_topics states [] a = a
place_topics states ((t, tps) ∷ d) a = place_topics states d (place states tps a)

abbrev pub topics_of : Dict TopicPartition TopicPartitionState → List String
topics_of states = map (λ tp. tp.topic) (keys_of states)

-- `order` is random.shuffle, or leaves the topics as they are.
unfoldable pub set_assignment :
    (List String → List String) → Dict TopicPartition TopicPartitionState → M (Unit {0})
set_assignment order states = modify λ s. record s {
  assignment =
      place_topics states (by_topic (keys_of states) (no_partitions (order (topics_of states)) []))
        [];
}

abbrev pub or_new : Option TopicPartitionState → TopicPartitionState
or_new none = new_state
or_new (some v) = v

-- `{partition: self.assignment.get(partition, TopicPartitionState()) for partition in partitions}`
unfoldable pub states_of :
    Dict TopicPartition TopicPartitionState
    → List TopicPartition
    → Dict TopicPartition TopicPartitionState
    → Dict TopicPartition TopicPartitionState
states_of old [] d = d
states_of old (tp ∷ tps) d = states_of old tps (insert d tp (or_new (lookup old tp)))

unfoldable pub assign_from_user : List TopicPartition → M (Unit {0})
assign_from_user partitions = do
  set_subscription_type user_assigned
  same ← gets λ s. Set.same_members s.user_assignment partitions
  if same then pure tt else (do
    modify λ s. record s { user_assignment = Set.update [] partitions }
    old ← gets λ s. s.assignment
    set_assignment (λ topics. topics) (states_of old partitions []))

-- `in` on a subscription that is None is a TypeError.
unfoldable pub check_topic : Option (List String) → TopicPartition → Option Exc
check_topic none tp = some type_error
check_topic (some l) tp = if Set.contains l tp.topic then none else some value_error

-- The loop that checks the topics.
unfoldable pub check_topics : Option (List String) → List TopicPartition → M (Unit {0})
check_topics l [] = pure tt
check_topics l (tp ∷ tps) = do raise_some (check_topic l tp); check_topics l tps

unfoldable pub assign_from_subscribed :
    (List String → List String) → List TopicPartition → M (Unit {0})
assign_from_subscribed shuffle assignments = do
  auto ← gets partitions_auto_assigned
  raise_if (not auto) illegal_state
  subscription ← gets λ s. s.subscription
  check_topics subscription assignments
  set_assignment shuffle (states_of [] assignments [])
