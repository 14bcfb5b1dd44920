-- ===== src/Assignors/Range.antt =====
-- kafka/coordinator/assignors/range.py
pub mod Cover
use kafka_python.Common.{
  ℕ, ◌+◌, ◌*◌, ◌/◌, ◌%◌, ◌-◌, min, String, Bool, true, false, not, Option, none, some, List, [],
  ◌∷◌, ◌++◌, length, take, drop, ltb, leb, map, if◌then◌else◌,
}
use kafka_python.Common.Eq.{string_eq}
use kafka_python.Common.Dict.{Dict, lookup, insert, append_at}
use kafka_python.Assignors.Sort.{sort, text_le}

-- The two numbers that divide the partitions.
unfoldable pub partitions_per_consumer : List ℕ → List String → ℕ
partitions_per_consumer partitions consumers = length partitions / length consumers

unfoldable pub consumers_with_extra : List ℕ → List String → ℕ
consumers_with_extra partitions consumers = length partitions % length consumers

unfoldable pub start_of : ℕ → ℕ → ℕ → ℕ
start_of per_consumer extra i = per_consumer * i + min i extra

unfoldable pub length_of : ℕ → ℕ → ℕ → ℕ
length_of per_consumer extra i = if not (ltb extra (i + 1)) then per_consumer + 1 else per_consumer

-- `for i, member in enumerate(consumers_for_topic)`, with the slice that each member gets
unfoldable pub slices : ℕ → ℕ → List ℕ → ℕ → List String → List (String × List ℕ)
slices per_consumer extra partitions i [] = []
slices per_consumer extra partitions i (member ∷ members) =
    (
      member,
      take (length_of per_consumer extra i) (drop (start_of per_consumer extra i) partitions),
    )
    ∷ slices per_consumer extra partitions (i + 1) members

-- One topic: its partitions and its consumers, both sorted.
unfoldable pub assign_topic : List ℕ → List String → List (String × List ℕ)
assign_topic partitions consumers =
    slices (partitions_per_consumer partitions consumers)
      (consumers_with_extra partitions consumers) (sort leb partitions) 0 (sort text_le consumers)

-- `for topic in metadata.subscription: consumers_per_topic[topic].append(member)`
unfoldable pub add_topics :
    String → List String → Dict String (List String) → Dict String (List String)
add_topics member [] d = d
add_topics member (topic ∷ topics) d = add_topics member topics (append_at d topic member)

unfoldable pub consumers_per_topic :
    Dict String (List String) → Dict String (List String) → Dict String (List String)
consumers_per_topic [] d = d
consumers_per_topic ((member, subscription) ∷ members) d =
    consumers_per_topic members (add_topics member subscription d)

abbrev pub Assigned : Type 0
Assigned = Dict String (Dict String (List ℕ))

-- `assignment[member]`, on a `defaultdict(dict)`
abbrev pub assigned_to : Option (Dict String (List ℕ)) → Dict String (List ℕ)
assigned_to none = []
assigned_to (some d) = d

-- `assignment[member][topic] = ...` for each slice
unfoldable pub store : String → List (String × List ℕ) → Assigned → Assigned
store topic [] a = a
store topic ((member, slice) ∷ rest) a =
    store topic rest (insert a member (insert (assigned_to (lookup a member)) topic slice))

abbrev pub assign_if_known : String → Option (List ℕ) → List String → Assigned → Assigned
assign_if_known topic none consumers a = a
assign_if_known topic (some partitions) consumers a =
    store topic (assign_topic partitions consumers) a

module _ (partitions_for_topic : String → Option (List ℕ)) where
  unfoldable pub assign_topics : Dict String (List String) → Assigned → Assigned
  assign_topics [] a = a
  assign_topics ((topic, consumers) ∷ rest) a =
      assign_topics rest (assign_if_known topic (partitions_for_topic topic) consumers a)

  abbrev by_name : String × List ℕ → String × List ℕ → Bool
  by_name p q = text_le p.0 q.0

  -- The assignment of every member: its topics with their partitions, sorted by the topic.
  unfoldable pub assign : Dict String (List String) → Dict String (List (String × List ℕ))
  assign member_metadata =
      let a = assign_topics (consumers_per_topic member_metadata []) [] in
      map (λ m. (m.0, sort by_name (assigned_to (lookup a m.0)))) member_metadata
