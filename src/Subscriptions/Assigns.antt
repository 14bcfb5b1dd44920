-- ===== src/Subscriptions/Assigns.antt =====
-- The two calls that replace the assignment.
use kafka_python.Common.{String, Option, none, some, List, [], ◌∷◌, ◌≡◌, refl, if◌then◌else◌, ◌∙◌}
use kafka_python.Common.Dict.{Dict, lookup, Values, Values-insert, Values-lookup}
use kafka_python.Common.Eq.{string_eq}
use kafka_python.Common.Set
use kafka_python.Common.Set.{subset-contains, contains-update}
use kafka_python.Exec.{◌>>=◌}
use kafka_python.Structs.{TopicPartition, tp_eq}
use kafka_python.Subscriptions.Position.{TopicPartitionState}
use kafka_python.Subscriptions.State.{SubscriptionState}
use kafka_python.Subscriptions.Assignment.{
  place, place_one, place_topics, set_assignment, states_of, or_new,
}
use kafka_python.Subscriptions.WellFormed.{IsExclusive}
use kafka_python.Subscriptions.Placement.{set_assignment_lem, lookup-states_of}

place-Values :
    (states : Dict TopicPartition TopicPartitionState) (l : List TopicPartition)
    (a : Dict TopicPartition TopicPartitionState)
    → Values IsExclusive states
    → Values IsExclusive a
    → Values IsExclusive (place states l a)
unfolding place
place-Values states [] a h k = k
place-Values states (tp ∷ l) a h k = place-Values states l _ h (one (lookup states tp) refl)
  where
    one :
        (o : Option TopicPartitionState)
        → lookup states tp ≡ o
        → Values IsExclusive (place_one o tp a)
    one none q = k
    one (some v) q = Values-insert IsExclusive a tp v k (Values-lookup IsExclusive states tp v h q)

place_topics-Values :
    (states : Dict TopicPartition TopicPartitionState) (d : Dict String (List TopicPartition))
    (a : Dict TopicPartition TopicPartitionState)
    → Values IsExclusive states
    → Values IsExclusive a
    → Values IsExclusive (place_topics states d a)
unfolding place_topics
place_topics-Values states [] a h k = k
place_topics-Values states ((t, l) ∷ d) a h k =
    place_topics-Values states d (place states l a) h (place-Values states l a h k)

pub set_assignment-Values :
    (order : List String → List String) (states : Dict TopicPartition TopicPartitionState)
    (s : SubscriptionState)
    → Values IsExclusive states
    → Values IsExclusive (set_assignment order states s).1.assignment
unfolding set_assignment ◌>>=◌
set_assignment-Values order states s h = place_topics-Values states _ [] h tt

pub states_of-Values :
    (old : Dict TopicPartition TopicPartitionState) (l : List TopicPartition)
    (d : Dict TopicPartition TopicPartitionState)
    → Values IsExclusive old
    → Values IsExclusive d
    → Values IsExclusive (states_of old l d)
unfolding states_of
states_of-Values old [] d h k = k
states_of-Values old (tp ∷ l) d h k =
    states_of-Values old l _ h
      (Values-insert IsExclusive d tp (or_new (lookup old tp)) k (one (lookup old tp) refl))
  where
    one : (o : Option TopicPartitionState) → lookup old tp ≡ o → IsExclusive (or_new o)
    one none q = refl
    one (some v) q = Values-lookup IsExclusive old tp v h q

-- The states after `assign_from_user`, of a set that differs from the one before.
pub user_states :
    (s : SubscriptionState) (l : List TopicPartition) (tp : TopicPartition)
    → lookup (set_assignment (λ t. t) (states_of s.assignment l []) s).1.assignment tp
      ≡ (if Set.contains l tp then some (or_new (lookup s.assignment tp)) else none)
user_states s l tp =
    set_assignment_lem (λ t. t) (states_of s.assignment l []) s tp (λ l t. refl)
    ∙ (lookup-states_of s.assignment l [] tp ∙ unfold lookup in refl)
