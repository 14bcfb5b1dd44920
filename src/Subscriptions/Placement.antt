-- ===== src/Subscriptions/Placement.antt =====
-- A new assignment, batched by topic, holds the states that were given.
use kafka_python.Common.{
  String, Bool, true, false, ◌&&◌, ◌||◌, some, List, [], ◌∷◌, ◌≡◌, refl, if◌then◌else◌, is_some,
  arith, Option-cases, inl, inr, ◌∙◌,
}
use kafka_python.Common.Dict.{
  Dict, lookup, insert, member, lookup-insert, member-insert, member-lookup, keys_of,
}
use kafka_python.Common.Eq.{string_eq}
use kafka_python.Common.Set
use kafka_python.Common.Set.{contains-append}
use kafka_python.Exec.{◌>>=◌}
use kafka_python.Structs.{TopicPartition, tp_eq, tp_beq, tp_beq_iff}
use kafka_python.Subscriptions.Position.{TopicPartitionState}
use kafka_python.Subscriptions.State.{SubscriptionState}
use kafka_python.Subscriptions.Assignment.{
  append_known, no_partitions, by_topic, place, place_topics, topics_of, set_assignment, states_of,
  or_new,
}

abbrev in_topics : Dict String (List TopicPartition) → TopicPartition → Bool
in_topics [] tp = false
in_topics ((t, l) ∷ d) tp = Set.contains l tp || in_topics d tp

place_lem :
    (states : Dict TopicPartition TopicPartitionState) (l : List TopicPartition)
    (a : Dict TopicPartition TopicPartitionState) (tp : TopicPartition)
    → lookup (place states l a) tp
      ≡ (if Set.contains l tp && is_some (lookup states tp) then lookup states tp else lookup a tp)
unfolding place Set.contains
place_lem states [] a tp = refl
place_lem states (u ∷ l) a tp = elim (Option-cases (lookup states u)) [
  | inl q ↦ rw q (ground (arith, place_lem states l a tp, tp_beq_iff u tp, q))
  | inr (v, q) ↦ rw q (
      ground
        (arith, place_lem states l (insert a u v) tp, lookup-insert a u tp v, tp_beq_iff u tp, q))
]

place_topics_lem :
    (states : Dict TopicPartition TopicPartitionState) (d : Dict String (List TopicPartition))
    (a : Dict TopicPartition TopicPartitionState) (tp : TopicPartition)
    → lookup (place_topics states d a) tp
      ≡ (if in_topics d tp && is_some (lookup states tp) then lookup states tp else lookup a tp)
unfolding place_topics
place_topics_lem states [] a tp = refl
place_topics_lem states ((t, l) ∷ d) a tp =
    ground (arith, place_topics_lem states d (place states l a) tp, place_lem states l a tp)

member-append_known :
    (d : Dict String (List TopicPartition)) (t u : String) (a : TopicPartition)
    → member (append_known d t a) u ≡ member d u
unfolding append_known member
member-append_known [] t u a = refl
member-append_known ((v, l) ∷ d) t u a = ground (arith, member-append_known d t u a)

append_known_lem :
    (d : Dict String (List TopicPartition)) (t : String) (a tp : TopicPartition)
    → in_topics (append_known d t a) tp ≡ (in_topics d tp || (member d t && tp_beq a tp))
unfolding append_known member Set.contains
append_known_lem [] t a tp = refl
append_known_lem ((v, l) ∷ d) t a tp =
    ground (arith, append_known_lem d t a tp, contains-append l (a ∷ []) tp)

by_topic_lem :
    (tps : List TopicPartition) (d : Dict String (List TopicPartition)) (tp : TopicPartition)
    → ((u : TopicPartition) → Set.contains tps u ≡ true → member d u.topic ≡ true)
    → in_topics (by_topic tps d) tp ≡ (in_topics d tp || Set.contains tps tp)
unfolding by_topic Set.contains
by_topic_lem [] d tp h = ground arith
by_topic_lem (u ∷ tps) d tp h =
    let known : member d u.topic ≡ true = h u (ground (arith, tp_beq_iff u u)) in
    let rest =
      by_topic_lem tps (append_known d u.topic u) tp
        (λ w k. member-append_known d u.topic w.topic u ∙ h w (ground arith)) in
    ground (arith, rest, known, append_known_lem d u.topic u tp)

insert_empty :
    (d : Dict String (List TopicPartition)) (t : String) (tp : TopicPartition)
    → in_topics d tp ≡ false
    → in_topics (insert d t []) tp ≡ false
unfolding insert Set.contains
insert_empty [] t tp h = refl
insert_empty ((u, l) ∷ d) t tp h = ground (arith, insert_empty d t tp)

no_partitions_empty :
    (topics : List String) (d : Dict String (List TopicPartition)) (tp : TopicPartition)
    → in_topics d tp ≡ false
    → in_topics (no_partitions topics d) tp ≡ false
unfolding no_partitions
no_partitions_empty [] d tp h = h
no_partitions_empty (t ∷ topics) d tp h =
    no_partitions_empty topics (insert d t []) tp (insert_empty d t tp h)

member-no_partitions :
    (topics : List String) (d : Dict String (List TopicPartition)) (u : String)
    → member (no_partitions topics d) u ≡ (member d u || Set.contains topics u)
unfolding no_partitions Set.contains
member-no_partitions [] d u = ground arith
member-no_partitions (t ∷ topics) d u =
    ground (arith, member-no_partitions topics (insert d t []) u, member-insert d t u [])

contains-keys_of :
    (d : Dict TopicPartition TopicPartitionState) (tp : TopicPartition)
    → Set.contains (keys_of d) tp ≡ member d tp
unfolding Set.contains member
contains-keys_of [] tp = refl
contains-keys_of ((u, v) ∷ d) tp = ground (arith, contains-keys_of d tp)

topics_of-member :
    (d : Dict TopicPartition TopicPartitionState) (tp : TopicPartition)
    → member d tp ≡ true
    → Set.contains (topics_of d) tp.topic ≡ true
unfolding Set.contains member
topics_of-member [] tp h = h
topics_of-member ((u, v) ∷ d) tp h =
    ground (arith, topics_of-member d tp, tp_beq_iff u tp, string_eq.same_iff u.topic tp.topic)

known_topic :
    (order : List String → List String) (states : Dict TopicPartition TopicPartitionState)
    (u : TopicPartition)
    → ((l : List String) (t : String) → Set.contains (order l) t ≡ Set.contains l t)
    → Set.contains (keys_of states) u ≡ true
    → member (no_partitions (order (topics_of states)) []) u.topic ≡ true
unfolding member
known_topic order states u keeps h = ground (
  arith,
  member-no_partitions (order (topics_of states)) [] u.topic,
  keeps (topics_of states) u.topic,
  topics_of-member states u,
  contains-keys_of states u,
  h,
)

-- Whatever the order of the topics, the new assignment holds the states that were given, of every
-- partition and no other.
pub set_assignment_lem :
    (order : List String → List String) (states : Dict TopicPartition TopicPartitionState)
    (s : SubscriptionState) (tp : TopicPartition)
    → ((l : List String) (t : String) → Set.contains (order l) t ≡ Set.contains l t)
    → lookup (set_assignment order states s).1.assignment tp ≡ lookup states tp
unfolding set_assignment ◌>>=◌ lookup
set_assignment_lem order states s tp keeps =
    let start = no_partitions (order (topics_of states)) [] in
    let grouped = by_topic (keys_of states) start in
    ground (
      arith,
      place_topics_lem states grouped [] tp,
      by_topic_lem (keys_of states) start tp (λ u h. known_topic order states u keeps h),
      no_partitions_empty (order (topics_of states)) [] tp refl,
      contains-keys_of states tp,
      member-lookup states tp,
    )

-- The states of the partitions that a call names: kept where there is one, new elsewhere.
pub lookup-states_of :
    (old : Dict TopicPartition TopicPartitionState) (l : List TopicPartition)
    (d : Dict TopicPartition TopicPartitionState) (tp : TopicPartition)
    → lookup (states_of old l d) tp
      ≡ (if Set.contains l tp then some (or_new (lookup old tp)) else lookup d tp)
unfolding states_of Set.contains
lookup-states_of old [] d tp = refl
lookup-states_of old (u ∷ l) d tp = ground (
  arith,
  lookup-states_of old l (insert d u (or_new (lookup old u))) tp,
  lookup-insert d u tp (or_new (lookup old u)),
  tp_beq_iff u tp,
)
