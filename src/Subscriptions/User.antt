-- ===== src/Subscriptions/User.antt =====
-- `assign_from_user`: the invariant, and what it assigns.
use kafka_python.Common.{
  Bool, true, false, Option, none, some, List, [], ◌≡◌, refl, if◌then◌else◌, arith,
}
use kafka_python.Common.Dict.{lookup, member, member-lookup}
use kafka_python.Common.Set
use kafka_python.Common.Set.{subset-contains, contains-update}
use kafka_python.Errors.{Exc}
use kafka_python.Exec.{Result, ok, err, ◌>>=◌}
use kafka_python.Exec.Steps.{Steps}
use kafka_python.Structs.{TopicPartition, tp_eq}
use kafka_python.Subscriptions.Position.{TopicPartitionState}
use kafka_python.Subscriptions.State.{
  SubscriptionState, SubscriptionType, no_type, auto_topics, auto_pattern, user_assigned,
  partitions_auto_assigned, set_subscription_type,
}
use kafka_python.Subscriptions.Assignment.{set_assignment, states_of, or_new, assign_from_user}
use kafka_python.Subscriptions.WellFormed.{IsMode, IsWellFormed, Keeps}
use kafka_python.Subscriptions.Assigns.{set_assignment-Values, states_of-Values, user_states}

-- The manager where the new set differs from the old one.
abbrev replaced : SubscriptionState → List TopicPartition → SubscriptionState
replaced s l =
    (set_assignment (λ t. t) (states_of s.assignment l [])
      (record s { subscription_type = user_assigned; user_assignment = Set.update [] l })).1

replaced-keys :
    (s : SubscriptionState) (l : List TopicPartition) (tp : TopicPartition)
    → Set.contains (Set.update [] l) tp ≡ member (replaced s l).assignment tp
unfolding Set.contains
replaced-keys s l tp =
    let q =
      user_states
        (record s { subscription_type = user_assigned; user_assignment = Set.update [] l }) l tp in
    ground (arith, q, contains-update [] l tp, member-lookup (replaced s l).assignment tp)

-- The outcome by cases on the type and on whether the set is the same.
data Outcome (s : SubscriptionState) (l : List TopicPartition)
    : Result (Unit {0}) × SubscriptionState → Type 0 where
  refused : {e : Exc} → partitions_auto_assigned s ≡ true → Outcome s l (err e, s)
  same :
      partitions_auto_assigned s ≡ false
      → Set.same_members s.user_assignment l ≡ true
      → Outcome s l (ok tt, record s { subscription_type = user_assigned })
  changed : partitions_auto_assigned s ≡ false → Outcome s l (ok tt, replaced s l)

outcome : (s : SubscriptionState) (l : List TopicPartition) → Outcome s l (assign_from_user l s)
unfolding assign_from_user set_subscription_type partitions_auto_assigned set_assignment ◌>>=◌
outcome s l = go s s.subscription_type refl (Set.same_members s.user_assignment l) refl
  where
    go :
        (s : SubscriptionState) (t : SubscriptionType)
        → s.subscription_type ≡ t
        → (b : Bool) → Set.same_members s.user_assignment l ≡ b
        → Outcome s l (assign_from_user l s)
    go s no_type q true v = rw (q, v) (same refl v)
    go s no_type q false v = rw (q, v) (changed refl)
    go s user_assigned q true v = rw (q, v) (same refl v)
    go s user_assigned q false v = rw (q, v) (changed refl)
    go s auto_topics q b v = rw q (refused refl)
    go s auto_pattern q b v = rw q (refused refl)

-- Without automatic assignment there is no subscription, and the keys are the user's partitions.
manual :
    (s : SubscriptionState)
    → IsWellFormed s
    → partitions_auto_assigned s ≡ false
    → (s.subscription ≡ none)
      × ((tp : TopicPartition) → Set.contains s.user_assignment tp ≡ member s.assignment tp)
unfolding partitions_auto_assigned
manual s k h = go s.subscription_type h k.mode
  where
    go :
        (t : SubscriptionType)
        → partitions_auto_assigned (record s { subscription_type = t }) ≡ false
        → IsMode t s.subscription s.user_assignment s.assignment
        → (s.subscription ≡ none)
          × ((tp : TopicPartition) → Set.contains s.user_assignment tp ≡ member s.assignment tp)
    go no_type h (a, b, c) = (a, λ tp. rw (b, c) (unfold Set.contains member in refl))
    go user_assigned h m = m
    go auto_topics h m = absurd cc
    go auto_pattern h m = absurd cc

replaced-IsMode :
    (s : SubscriptionState) (l : List TopicPartition)
    → s.subscription ≡ none
    → let t = replaced s l in
      IsMode t.subscription_type t.subscription t.user_assignment t.assignment
unfolding set_assignment ◌>>=◌
replaced-IsMode s l a = (a, replaced-keys s l)

Outcome-Keeps :
    {s : SubscriptionState} {l : List TopicPartition} {x : Result (Unit {0}) × SubscriptionState}
    → Outcome s l x
    → Keeps s x.1
Outcome-Keeps (refused h) k = k
Outcome-Keeps {s} (same h q) k =
    let m = manual s k h in record { exclusive = k.exclusive; mode = (m.0, m.1) }
Outcome-Keeps {s} {l} (changed h) k = record {
  exclusive =
      set_assignment-Values (λ t. t) (states_of s.assignment l []) _
        (states_of-Values s.assignment l [] k.exclusive tt);
  mode = replaced-IsMode s l (manual s k h).0;
}

pub assign_from_user-Keeps : (l : List TopicPartition) → Steps Keeps (assign_from_user l)
assign_from_user-Keeps l = record { at = λ s. Outcome-Keeps (outcome s l) }

-- What the user's partitions get from the old assignment.
abbrev pub given :
    SubscriptionState → List TopicPartition → TopicPartition → Option TopicPartitionState
given s l tp = if Set.contains l tp then some (or_new (lookup s.assignment tp)) else none

-- The same set of partitions keeps every state.
given_same :
    (s : SubscriptionState) (l : List TopicPartition) (tp : TopicPartition)
    → Set.contains s.user_assignment tp ≡ member s.assignment tp
    → Set.same_members s.user_assignment l ≡ true
    → lookup s.assignment tp ≡ given s l tp
unfolding Set.same_members
given_same s l tp m h = go (lookup s.assignment tp) refl
  where
    go :
        (o : Option TopicPartitionState)
        → lookup s.assignment tp ≡ o
        → lookup s.assignment tp ≡ given s l tp
    go none q =
        ground
          (arith, subset-contains l s.user_assignment tp, m, h, q, member-lookup s.assignment tp)
    go (some v) q =
        ground
          (arith, subset-contains s.user_assignment l tp, m, h, q, member-lookup s.assignment tp)

-- In a well-formed state, unless the consumer has subscribed, `assign_from_user` returns, and the
-- partitions that are assigned are those of the list: one that was assigned before keeps its
-- position, its pause and its reset, and the others start new.
pub assign_from_user_lem :
    (l : List TopicPartition) (s : SubscriptionState) (tp : TopicPartition)
    → IsWellFormed s
    → partitions_auto_assigned s ≡ false
    → let (r, t) = assign_from_user l s in
      (r ≡ ok tt) × (t.subscription_type ≡ user_assigned) × (lookup t.assignment tp ≡ given s l tp)
assign_from_user_lem l s tp k h = go (outcome s l)
  where
    go :
        {x : Result (Unit {0}) × SubscriptionState}
        → Outcome s l x
        → (x.0 ≡ ok tt)
          × (x.1.subscription_type ≡ user_assigned)
          × (lookup x.1.assignment tp ≡ given s l tp)
    go (refused a) = absurd cc
    go (same a q) = (refl, refl, given_same s l tp ((manual s k h).1 tp) q)
    go (changed a) = (refl, unfold set_assignment ◌>>=◌ in refl, user_states _ l tp)
