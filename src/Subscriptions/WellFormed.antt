-- ===== src/Subscriptions/WellFormed.antt =====
-- The invariant of a consumer's subscription.
use kafka_python.Common.{
  String, false, ◌&&◌, Option, none, some, List, [], ◌∷◌, ◌≡◌, refl, is_some, arith, subst, sym,
  ◌∙◌,
}
use kafka_python.Common.Dict.{
  Dict, lookup, insert, member, move_to_end, Values, Values-insert, Values-lookup,
  Values-move_to_end, member-insert, member-lookup, lookup-move_to_end,
}
use kafka_python.Common.Set
use kafka_python.Exec.Steps.{IsPreorder}
use kafka_python.Structs.{TopicPartition, tp_eq, tp_beq_iff}
use kafka_python.Subscriptions.Position.{TopicPartitionState}
use kafka_python.Subscriptions.State.{
  SubscriptionState, SubscriptionType, no_type, auto_topics, auto_pattern, user_assigned,
}

-- A partition that waits for a reset has no position.
abbrev pub IsExclusive : TopicPartitionState → Type 0
IsExclusive v = is_some v.position && is_some v.reset_strategy ≡ false

-- What each way to subscribe says of the subscription, the user's assignment and the assignment.
abbrev pub IsMode :
    SubscriptionType
    → Option (List String)
    → List TopicPartition
    → Dict TopicPartition TopicPartitionState
    → Type 0
IsMode no_type sub user a = (sub ≡ none) × (user ≡ []) × (a ≡ [])
IsMode auto_topics sub user a = user ≡ []
IsMode auto_pattern sub user a = user ≡ []
IsMode user_assigned sub user a =
    (sub ≡ none) × ((tp : TopicPartition) → Set.contains user tp ≡ member a tp)

pub record IsWellFormed (s : SubscriptionState) : Type 0 where
  pub exclusive : Values IsExclusive s.assignment
  pub mode : IsMode s.subscription_type s.subscription s.user_assignment s.assignment

abbrev pub Keeps : SubscriptionState → SubscriptionState → Type 0
Keeps s t = IsWellFormed s → IsWellFormed t

pub Keeps-preorder : IsPreorder Keeps
Keeps-preorder = record { refl_at = λ s k. k; trans_at = λ f g k. g (f k) }

no_member→empty :
    (a : Dict TopicPartition TopicPartitionState)
    → ((tp : TopicPartition) → member a tp ≡ false)
    → a ≡ []
unfolding member
no_member→empty [] h = refl
no_member→empty ((tp, v) ∷ a) h = absurd (ground (arith, h tp, tp_beq_iff tp tp))

-- The mode reads the keys of the assignment only.
pub IsMode-keys :
    (t : SubscriptionType) (sub : Option (List String)) (user : List TopicPartition)
    (a b : Dict TopicPartition TopicPartitionState)
    → ((tp : TopicPartition) → member b tp ≡ member a tp)
    → IsMode t sub user a
    → IsMode t sub user b
unfolding member
IsMode-keys no_type sub user a b same (h, k, e) =
    (h, k, no_member→empty b (λ tp. same tp ∙ subst (λ l. member l tp ≡ false) (sym e) refl))
IsMode-keys auto_topics sub user a b same h = h
IsMode-keys auto_pattern sub user a b same h = h
IsMode-keys user_assigned sub user a b same (h, k) = (h, λ tp. k tp ∙ sym (same tp))

-- A change of the assignment that keeps its keys.
pub Keeps-assignment :
    (s : SubscriptionState) (b : Dict TopicPartition TopicPartitionState)
    → ((tp : TopicPartition) → member b tp ≡ member s.assignment tp)
    → (Values IsExclusive s.assignment → Values IsExclusive b)
    → Keeps s (record s { assignment = b })
Keeps-assignment s b same v k = record {
  exclusive = v k.exclusive;
  mode =
      IsMode-keys s.subscription_type s.subscription s.user_assignment s.assignment b same k.mode;
}

-- A write to a partition that is assigned.
pub Keeps-insert :
    (s : SubscriptionState) (tp : TopicPartition) (v w : TopicPartitionState)
    → lookup s.assignment tp ≡ some v
    → (IsExclusive v → IsExclusive w)
    → Keeps s (record s { assignment = insert s.assignment tp w })
Keeps-insert s tp v w q f =
    Keeps-assignment s (insert s.assignment tp w)
      (λ u. ground (
        arith,
        member-insert s.assignment tp u w,
        member-lookup s.assignment tp,
        tp_beq_iff tp u,
        q,
      ))
      (λ h.
        Values-insert IsExclusive s.assignment tp w h
          (f (Values-lookup IsExclusive s.assignment tp v h q)))

pub Keeps-move :
    (s : SubscriptionState) (tp : TopicPartition)
    → Keeps s (record s { assignment = move_to_end s.assignment tp })
Keeps-move s tp =
    Keeps-assignment s (move_to_end s.assignment tp)
      (λ u.
        member-lookup (move_to_end s.assignment tp) u
        ∙ (subst (λ o. is_some (lookup (move_to_end s.assignment tp) u) ≡ is_some o)
              (lookup-move_to_end s.assignment tp u) refl
            ∙ sym (member-lookup s.assignment u)))
      (Values-move_to_end IsExclusive s.assignment tp)
