-- ===== src/Assignors/Tests.antt =====
-- Assignments of small groups.
use kafka_python.Common.{
  ℕ, String, Option, none, some, List, [], ◌∷◌, map, ◌≡◌, refl, leb, All, arith, if◌then◌else◌,
}
use kafka_python.Common.Eq.{string_eq, ◌==◌}
use kafka_python.Common.Dict.{lookup, insert, append_at}
use kafka_python.Assignors.Sort.{sort, insert_sorted}
use kafka_python.Assignors.Range.{
  assign_topic, slices, start_of, length_of, partitions_per_consumer, consumers_with_extra, assign,
  assign_topics, store, add_topics, consumers_per_topic,
}
use kafka_python.Common.{inl, inr}
use kafka_python.Common.Dict.{Dict, keys_of}
use kafka_python.Common.Set
use kafka_python.Structs.{TopicPartition}
use kafka_python.Assignors.RoundRobin
use kafka_python.Assignors.RoundRobin.Search.{
  IsDealt, IsOwned, held, portion, assign_partitions_lem,
}
use kafka_python.Assignors.RoundRobin.Assigns.{assign_lem}
use kafka_python.Assignors.Range.Cover.{partitions_in, IsBalanced, assign_topic_lem}

abbrev partitions_for_topic : String → Option (List ℕ)
partitions_for_topic topic = if topic == "t2" then none else some (2 ∷ 0 ∷ 1 ∷ [])

-- The example of the class's documentation, with a topic that is not known.
documented :
    assign partitions_for_topic (("C0", "t0" ∷ "t1" ∷ []) ∷ ("C1", "t0" ∷ "t1" ∷ "t2" ∷ []) ∷ [])
    ≡ ("C0", ("t0", 0 ∷ 1 ∷ []) ∷ ("t1", 0 ∷ 1 ∷ []) ∷ [])
      ∷ ("C1", ("t0", 2 ∷ []) ∷ ("t1", 2 ∷ []) ∷ [])
      ∷ []
unfolding assign assign_topics store add_topics consumers_per_topic assign_topic slices start_of
    length_of partitions_per_consumer consumers_with_extra sort insert_sorted lookup insert
    append_at
documented = refl

abbrev five : List ℕ
five = 4 ∷ 2 ∷ 0 ∷ 1 ∷ 3 ∷ []

abbrev members : List String
members = "b" ∷ "a" ∷ "c" ∷ []

assign_topic_example :
    (partitions_in (assign_topic five members) ≡ sort leb five)
    × All (IsBalanced (partitions_per_consumer five members)) (assign_topic five members)
assign_topic_example = assign_topic_lem five members (omega arith)

-- The example of the round robin's documentation.
abbrev unbalanced : Dict String (List String)
unbalanced = ("C0", "t0" ∷ []) ∷ ("C1", "t0" ∷ "t1" ∷ []) ∷ ("C2", "t0" ∷ "t1" ∷ "t2" ∷ []) ∷ []

abbrev partitions_of : String → Option (List ℕ)
partitions_of topic =
    if topic == "t0"
    then some (0 ∷ [])
    else if topic == "t1"
    then some (0 ∷ 1 ∷ [])
    else some (0 ∷ 1 ∷ 2 ∷ [])

documented_round_robin :
    RoundRobin.assign partitions_of unbalanced
    ≡ some (
        ("C0", ("t0", 0 ∷ []) ∷ [])
        ∷ ("C1", ("t1", 0 ∷ []) ∷ [])
        ∷ ("C2", ("t1", 1 ∷ []) ∷ ("t2", 0 ∷ 1 ∷ 2 ∷ []) ∷ [])
        ∷ [])
unfolding RoundRobin.assign RoundRobin.assign_partitions RoundRobin.next_member
    RoundRobin.is_subscribed RoundRobin.store RoundRobin.all_topics RoundRobin.all_topic_partitions
    sort insert_sorted lookup insert append_at Set.contains Set.update Set.add
documented_round_robin = refl

abbrev two_partitions : List TopicPartition
two_partitions =
    record { topic = "t2"; partition = 0 } ∷ record { topic = "t1"; partition = 0 } ∷ []

assign_partitions_example :
    IsDealt unbalanced two_partitions []
      (RoundRobin.assign_partitions unbalanced two_partitions (keys_of unbalanced) [])
unfolding RoundRobin.is_subscribed lookup Set.contains
assign_partitions_example =
    assign_partitions_lem unbalanced two_partitions (keys_of unbalanced) []
      (inr (inr (inl refl)), (inr (inl refl), tt))

assign_example :
    let tps =
      sort RoundRobin.tp_le
        (RoundRobin.all_topic_partitions partitions_of (RoundRobin.all_topics unbalanced [])) in
    (owners : List String) × (dealt : RoundRobin.Assigned) × (RoundRobin.assign partitions_of
        unbalanced
      ≡ some (
          map
            (λ m. (m.0, sort RoundRobin.by_name (RoundRobin.assigned_to (lookup dealt m.0))))
            unbalanced))
    × IsOwned unbalanced tps owners
    × ((m topic : String) → held dealt m topic ≡ portion m topic tps owners)
unfolding lookup
assign_example = assign_lem unbalanced partitions_of (refl, (refl, (refl, tt)))
