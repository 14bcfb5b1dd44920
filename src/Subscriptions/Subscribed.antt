-- ===== src/Subscriptions/Subscribed.antt =====
-- `assign_from_subscribed`: the invariant, and when it assigns.
use kafka_python.Common.{
  String, Bool, true, false, ◌&&◌, Option, none, some, List, [], ◌∷◌, ◌≡◌, refl, if◌then◌else◌,
  arith, Bool-cases, inl, inr, ◌∙◌, ◌⊎◌,
}
use kafka_python.Common.Dict.{Dict, lookup}
use kafka_python.Common.Eq.{string_eq}
use kafka_python.Common.Set
use kafka_python.Errors.{Exc, value_error, type_error}
use kafka_python.Exec.{Result, ok, err, ◌>>=◌}
use kafka_python.Exec.Steps.{Steps}
use kafka_python.Structs.{TopicPartition, tp_eq}
use kafka_python.Subscriptions.Position.{TopicPartitionState, new_state}
use kafka_python.Subscriptions.State.{
  SubscriptionState, SubscriptionType, no_type, auto_topics, auto_pattern, user_assigned,
  partitions_auto_assigned, raise_some,
}
use kafka_python.Subscriptions.Assignment.{
  set_assignment, states_of, assign_from_subscribed, check_topics, check_topic,
}
use kafka_python.Subscriptions.Placement.{set_assignment_lem, lookup-states_of}
use kafka_python.Subscriptions.WellFormed.{IsMode, Keeps}
use kafka_python.Subscriptions.Assigns.{set_assignment-Values, states_of-Values}

-- Every partition is of a topic of the subscription.
abbrev pub all_subscribed : Option (List String) → List TopicPartition → Bool
all_subscribed o [] = true
all_subscribed none (tp ∷ l) = false
all_subscribed (some topics) (tp ∷ l) =
    Set.contains topics tp.topic && all_subscribed (some topics) l

-- The check changes nothing, and passes when every topic is subscribed.
check_ok :
    (o : Option (List String)) (l : List TopicPartition) (s : SubscriptionState)
    → all_subscribed o l ≡ true
    → check_topics o l s ≡ (ok tt, s)
unfolding check_topics check_topic raise_some ◌>>=◌
check_ok o [] s h = refl
check_ok none (tp ∷ l) s h = absurd cc
check_ok (some topics) (tp ∷ l) s h = elim (Bool-cases (Set.contains topics tp.topic)) [
  | inl c ↦ rw c (check_ok (some topics) l s (ground arith))
  | inr c ↦ absurd (ground arith)
]

check_fails :
    (o : Option (List String)) (l : List TopicPartition) (s : SubscriptionState)
    → all_subscribed o l ≡ false
    → (e : Exc) × (check_topics o l s ≡ (err e, s))
unfolding check_topics check_topic raise_some ◌>>=◌
check_fails o [] s h = absurd cc
check_fails none (tp ∷ l) s h = (type_error, refl)
check_fails (some topics) (tp ∷ l) s h = elim (Bool-cases (Set.contains topics tp.topic)) [
  | inl c ↦ rw c (check_fails (some topics) l s (ground arith))
  | inr c ↦ (value_error, rw c refl)
]

data Outcome (shuffle : List String → List String) (s : SubscriptionState) (l : List TopicPartition)
    : Result (Unit {0}) × SubscriptionState → Type 0 where
  refused :
      {e : Exc}
      → partitions_auto_assigned s && all_subscribed s.subscription l ≡ false
      → Outcome shuffle s l (err e, s)
  assigned :
      partitions_auto_assigned s && all_subscribed s.subscription l ≡ true
      → Outcome shuffle s l (set_assignment shuffle (states_of [] l []) s)

outcome :
    (shuffle : List String → List String) (s : SubscriptionState) (l : List TopicPartition)
    → Outcome shuffle s l (assign_from_subscribed shuffle l s)
unfolding assign_from_subscribed ◌>>=◌
outcome shuffle s l = elim (Bool-cases (partitions_auto_assigned s)) [
  | inr c ↦ rw c (refused (ground arith))
  | inl c ↦ elim (Bool-cases (all_subscribed s.subscription l)) [
    | inl d ↦ rw (c, check_ok s.subscription l s d) (assigned (ground arith))
    | inr d ↦
        let (e, q) = check_fails s.subscription l s d in rw (c, q) (refused {e = e} (ground arith))
  ]
]

auto-IsMode :
    (s : SubscriptionState) (a : Dict TopicPartition TopicPartitionState)
    → partitions_auto_assigned s ≡ true
    → IsMode s.subscription_type s.subscription s.user_assignment s.assignment
    → IsMode s.subscription_type s.subscription s.user_assignment a
unfolding partitions_auto_assigned
auto-IsMode s a h m = go s.subscription_type h m
  where
    go :
        (t : SubscriptionType)
        → partitions_auto_assigned (record s { subscription_type = t }) ≡ true
        → IsMode t s.subscription s.user_assignment s.assignment
        → IsMode t s.subscription s.user_assignment a
    go no_type h m = absurd cc
    go user_assigned h m = absurd cc
    go auto_topics h m = m
    go auto_pattern h m = m

Outcome-Keeps :
    {shuffle : List String → List String} {s : SubscriptionState} {l : List TopicPartition}
    {x : Result (Unit {0}) × SubscriptionState}
    → Outcome shuffle s l x
    → Keeps s x.1
unfolding set_assignment ◌>>=◌
Outcome-Keeps (refused h) k = k
Outcome-Keeps {shuffle} {s} {l} (assigned h) k = record {
  exclusive = set_assignment-Values shuffle (states_of [] l []) s (states_of-Values [] l [] tt tt);
  mode = auto-IsMode s _ (ground arith) k.mode;
}

pub assign_from_subscribed-Keeps :
    (shuffle : List String → List String) (l : List TopicPartition)
    → Steps Keeps (assign_from_subscribed shuffle l)
assign_from_subscribed-Keeps shuffle l = record { at = λ s. Outcome-Keeps (outcome shuffle s l) }

-- `assign_from_subscribed` assigns exactly the partitions of the list, each with a new state, when
-- the consumer has subscribed to all their topics, and otherwise raises and changes nothing,
-- whatever order the shuffle gives to the topics.
pub assign_from_subscribed_lem :
    (shuffle : List String → List String) (l : List TopicPartition) (s : SubscriptionState)
    (tp : TopicPartition)
    → ((ts : List String) (t : String) → Set.contains (shuffle ts) t ≡ Set.contains ts t)
    → let (r, t) = assign_from_subscribed shuffle l s in
      ((e : Exc) × (r ≡ err e)
        × (t ≡ s)
        × (partitions_auto_assigned s && all_subscribed s.subscription l ≡ false))
      ⊎ ((r ≡ ok tt)
          × (partitions_auto_assigned s && all_subscribed s.subscription l ≡ true)
          × (lookup t.assignment tp ≡ (if Set.contains l tp then some new_state else none)))
assign_from_subscribed_lem shuffle l s tp keeps = go (outcome shuffle s l)
  where
    go :
        {x : Result (Unit {0}) × SubscriptionState}
        → Outcome shuffle s l x
        → ((e : Exc) × (x.0 ≡ err e)
            × (x.1 ≡ s)
            × (partitions_auto_assigned s && all_subscribed s.subscription l ≡ false))
          ⊎ ((x.0 ≡ ok tt)
              × (partitions_auto_assigned s && all_subscribed s.subscription l ≡ true)
              × (lookup x.1.assignment tp ≡ (if Set.contains l tp then some new_state else none)))
    go (refused {e} h) = inl (e, refl, refl, h)
    go (assigned h) = inr (
      unfold set_assignment ◌>>=◌ in refl,
      h,
      set_assignment_lem shuffle (states_of [] l []) s tp keeps
          ∙ (lookup-states_of [] l [] tp ∙ unfold lookup in refl),
    )
