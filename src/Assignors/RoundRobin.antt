-- ===== src/Assignors/RoundRobin.antt =====
-- kafka/coordinator/assignors/roundrobin.py
pub mod Search
pub mod Assigns
use text.Mathlib.Text.{is_lt}
use Prim.Native.String.{compare}
use kafka_python.Common.{
  ℕ, zero, suc, String, Bool, true, false, not, ◌&&◌, ◌||◌, Option, none, some, List, [], ◌∷◌, ◌++◌,
  length, leb, map, if◌then◌else◌,
}
use kafka_python.Common.Eq.{string_eq, ◌==◌}
use kafka_python.Common.Dict.{Dict, lookup, insert, append_at, keys_of}
use kafka_python.Common.Set
use kafka_python.Structs.{TopicPartition}
use kafka_python.Assignors.Sort.{sort, text_le}

-- `topic in member_metadata[member].subscription`
unfoldable pub is_subscribed : Dict String (List String) → String → String → Bool
is_subscribed member_metadata topic member = elim (lookup member_metadata member) [
  | none ↦ false
  | some subscription ↦ Set.contains subscription topic
]

-- `next(member_iter)` until the member is subscribed. itertools.cycle is the list of the members in
-- the order in which they come next. None stands for a search that does not end.
unfoldable pub next_member : ℕ → (String → Bool) → List String → Option (String × List String)
next_member zero test members = none
next_member (suc fuel) test [] = none
next_member (suc fuel) test (m ∷ members) =
    let rest = next_member fuel test (members ++ m ∷ []) in
    if test m then some (m, members ++ m ∷ []) else rest

abbrev pub Assigned : Type 0
Assigned = Dict String (Dict String (List ℕ))

abbrev pub assigned_to : Option (Dict String (List ℕ)) → Dict String (List ℕ)
assigned_to none = []
assigned_to (some d) = d

-- `assignment[member_id][partition.topic].append(partition.partition)`
unfoldable pub store : String → TopicPartition → Assigned → Assigned
store member tp a =
    insert a member (append_at (assigned_to (lookup a member)) tp.topic tp.partition)

-- What follows a search that ended.
abbrev pub after :
    Option (String × List String) → (String × List String → Option Assigned) → Option Assigned
after none f = none
after (some found) f = f found

module _ (member_metadata : Dict String (List String)) where
  -- The loop over the partitions. One turn of the cycle is fuel enough for each.
  unfoldable pub assign_partitions : List TopicPartition → List String → Assigned → Option Assigned
  assign_partitions [] cycle a = some a
  assign_partitions (tp ∷ tps) cycle a =
      after (next_member (length cycle) (is_subscribed member_metadata tp.topic) cycle)
        (λ found. assign_partitions tps found.1 (store found.0 tp a))

-- Every topic that some member subscribes to.
unfoldable pub all_topics : Dict String (List String) → List String → List String
all_topics [] s = s
all_topics ((member, subscription) ∷ rest) s = all_topics rest (Set.update s subscription)

abbrev pub partitions_of : String → Option (List ℕ) → List TopicPartition
partitions_of topic none = []
partitions_of topic (some partitions) =
    map (λ p. record { topic = topic; partition = p }) partitions

unfoldable pub all_topic_partitions : (String → Option (List ℕ)) → List String → List TopicPartition
all_topic_partitions partitions_for_topic [] = []
all_topic_partitions partitions_for_topic (topic ∷ topics) =
    partitions_of topic (partitions_for_topic topic)
    ++ all_topic_partitions partitions_for_topic topics

-- The order of the tuples.
abbrev pub tp_le : TopicPartition → TopicPartition → Bool
tp_le p q = is_lt (compare p.topic q.topic) || (p.topic == q.topic && leb p.partition q.partition)

abbrev pub by_name : String × List ℕ → String × List ℕ → Bool
by_name p q = text_le p.0 q.0

abbrev pub of_members :
    Dict String (List String) → Option Assigned → Option (Dict String (List (String × List ℕ)))
of_members member_metadata none = none
of_members member_metadata (some a) =
    some (map (λ m. (m.0, sort by_name (assigned_to (lookup a m.0)))) member_metadata)

unfoldable pub assign :
    (String → Option (List ℕ))
    → Dict String (List String)
    → Option (Dict String (List (String × List ℕ)))
assign partitions_for_topic member_metadata = of_members member_metadata (
    assign_partitions member_metadata
      (sort tp_le (all_topic_partitions partitions_for_topic (all_topics member_metadata [])))
      (sort text_le (keys_of member_metadata)) [])
