-- ===== src/Subscriptions/State.antt =====
-- SubscriptionState: its fields, and the changes of the subscription.
use kafka_python.Common.{
  ℕ, String, Bool, true, false, not, ◌||◌, Option, none, some, List, [], ◌∷◌, if◌then◌else◌,
}
use kafka_python.Common.Dict.{Dict}
use kafka_python.Common.Set
use kafka_python.Common.Eq.{◌==◌, string_eq}
use kafka_python.Errors.{Exc, illegal_state, assertion_error, regex_error}
use kafka_python.Exec.{Exec, ok, err, pure, raise, raise_if, gets, modify, ◌>>=◌, ◌>>◌}
use kafka_python.Structs.{TopicPartition, tp_eq}
use kafka_python.Subscriptions.TopicName.{ensure_valid_topic_name}
use kafka_python.Subscriptions.Position.{OffsetResetStrategy, TopicPartitionState}

pub data SubscriptionType : Type 0 where
  no_type auto_topics auto_pattern user_assigned : SubscriptionType

abbrev pub is_no_type : SubscriptionType → Bool
is_no_type no_type = true
is_no_type _ = false

abbrev pub type_beq : SubscriptionType → SubscriptionType → Bool
type_beq no_type no_type = true
type_beq auto_topics auto_topics = true
type_beq auto_pattern auto_pattern = true
type_beq user_assigned user_assigned = true
type_beq _ _ = false

-- The assignment is an OrderedDict. A rebalance listener is a number that names it.
pub record SubscriptionState : Type 0 where
  pub default_offset_reset_strategy : OffsetResetStrategy
  pub subscription : Option (List String)
  pub subscription_type : SubscriptionType
  pub subscribed_pattern : Option String
  pub group_subscription : List String
  pub user_assignment : List TopicPartition
  pub assignment : Dict TopicPartition TopicPartitionState
  pub rebalance_listener : Option ℕ

abbrev pub M : Type 0 → Type 0
M A = Exec SubscriptionState A

unfoldable pub init : OffsetResetStrategy → SubscriptionState
init strategy = record {
  default_offset_reset_strategy = strategy;
  subscription = none;
  subscription_type = no_type;
  subscribed_pattern = none;
  group_subscription = [];
  user_assignment = [];
  assignment = [];
  rebalance_listener = none;
}

unfoldable pub set_subscription_type : SubscriptionType → M (Unit {0})
set_subscription_type t s =
    if is_no_type s.subscription_type
    then (ok tt, record s { subscription_type = t })
    else if type_beq s.subscription_type t
    then (ok tt, s)
    else (err illegal_state, s)

unfoldable pub partitions_auto_assigned : SubscriptionState → Bool
partitions_auto_assigned s =
    type_beq s.subscription_type auto_topics || type_beq s.subscription_type auto_pattern

-- `self.subscription == set(topics)`
unfoldable pub subscription_is : List String → SubscriptionState → Bool
subscription_is topics s = elim s.subscription [ none ↦ false | some l ↦ Set.same_members l topics ]

-- Raise what a check found.
unfoldable pub raise_some : Option Exc → M (Unit {0})
raise_some none = pure tt
raise_some (some e) = raise e

-- `for t in topics: ensure_valid_topic_name(t)`
unfoldable pub ensure_valid_topic_names : List String → M (Unit {0})
ensure_valid_topic_names [] = pure tt
ensure_valid_topic_names (t ∷ topics) = do
  raise_some (ensure_valid_topic_name t)
  ensure_valid_topic_names topics

unfoldable pub change_subscription : List String → M (Unit {0})
change_subscription topics = do
  auto ← gets partitions_auto_assigned
  raise_if (not auto) illegal_state
  unchanged ← gets (subscription_is topics)
  if unchanged then pure tt else (do
    ensure_valid_topic_names topics
    modify λ s. record s {
      subscription = some (Set.update [] topics);
      group_subscription = Set.update s.group_subscription topics;
    })

module _ (valid_regex : String → Bool) where
  -- Both branches of `subscribe`; re.compile raises on a text that is no regular expression.
  unfoldable pub subscribe_pattern : String → M (Unit {0})
  subscribe_pattern pattern = do
    set_subscription_type auto_pattern
    modify λ s. record s { subscription = some [] }
    raise_if (not (valid_regex pattern)) regex_error
    modify λ s. record s { subscribed_pattern = some pattern }

  unfoldable pub subscribe_topics : List String → M (Unit {0})
  subscribe_topics topics = do set_subscription_type auto_topics; change_subscription topics

  unfoldable pub subscribe_one : List String → Option String → M (Unit {0})
  subscribe_one [] none = raise assertion_error
  subscribe_one (t ∷ topics) none = subscribe_topics (t ∷ topics)
  subscribe_one [] (some pattern) = subscribe_pattern pattern
  subscribe_one (t ∷ topics) (some pattern) = raise illegal_state

  -- An empty pattern counts as none.
  abbrev truthy : Option String → Option String
  truthy none = none
  truthy (some p) = if p == "" then none else some p

  unfoldable pub subscribe : List String → Option String → Option ℕ → M (Unit {0})
  subscribe topics pattern listener = do
    subscribe_one topics (truthy pattern)
    modify λ s. record s { rebalance_listener = listener }

unfoldable pub group_subscribe : List String → M (Unit {0})
group_subscribe topics = do
  auto ← gets partitions_auto_assigned
  raise_if (not auto) illegal_state
  modify λ s. record s { group_subscription = Set.update s.group_subscription topics }

-- `self._group_subscription.intersection_update(self.subscription)` after its assertion
unfoldable pub intersect_group : Option (List String) → M (Unit {0})
intersect_group none = raise assertion_error
intersect_group (some l) =
    modify λ s. record s { group_subscription = Set.intersection s.group_subscription l }

unfoldable pub reset_group_subscription : M (Unit {0})
reset_group_subscription = do
  auto ← gets partitions_auto_assigned
  raise_if (not auto) illegal_state
  subscription ← gets λ s. s.subscription
  intersect_group subscription

unfoldable pub unsubscribe : M (Unit {0})
unsubscribe = modify λ s. record s {
  subscription = none;
  user_assignment = [];
  assignment = [];
  subscribed_pattern = none;
  subscription_type = no_type;
}
