-- ===== src/Subscriptions/Subscribes.antt =====
-- The calls that change the subscription or the assignment keep the invariant.
use kafka_python.Common.{
  ℕ, String, Bool, true, false, Option, none, some, List, [], ◌∷◌, ◌≡◌, refl, Bool-cases,
  Option-cases, inl, inr,
}
use kafka_python.Common.Eq.{string_eq}
use kafka_python.Common.Set
use kafka_python.Exec.{Result, continue, ok, err, modify, ◌>>=◌}
use kafka_python.Exec.Steps.{Steps, steps_rules}
use kafka_python.Structs.{tp_eq}
use kafka_python.Subscriptions.State.{
  SubscriptionState, SubscriptionType, M, no_type, auto_topics, auto_pattern, user_assigned,
  change_subscription, subscribe, subscribe_one, subscribe_topics, subscribe_pattern,
  set_subscription_type, ensure_valid_topic_names, group_subscribe, intersect_group,
  reset_group_subscription, unsubscribe, partitions_auto_assigned, subscription_is, raise_some,
}
use kafka_python.Subscriptions.TopicName.{ensure_valid_topic_name}
use kafka_python.Subscriptions.WellFormed.{IsMode, Keeps, Keeps-preorder}

-- A new subscription where partitions are assigned automatically.
change-IsMode :
    (s : SubscriptionState) (l : List String)
    → partitions_auto_assigned s ≡ true
    → IsMode s.subscription_type s.subscription s.user_assignment s.assignment
    → IsMode s.subscription_type (some l) s.user_assignment s.assignment
unfolding partitions_auto_assigned
change-IsMode s l a m = go s.subscription_type a m
  where
    go :
        (t : SubscriptionType)
        → partitions_auto_assigned (record s { subscription_type = t }) ≡ true
        → IsMode t s.subscription s.user_assignment s.assignment
        → IsMode t (some l) s.user_assignment s.assignment
    go no_type a m = absurd cc
    go auto_topics a m = m
    go auto_pattern a m = m
    go user_assigned a m = absurd cc

-- The check of the names changes nothing.
names_lem :
    (topics : List String) (s : SubscriptionState) → (ensure_valid_topic_names topics s).1 ≡ s
unfolding ensure_valid_topic_names raise_some ◌>>=◌
names_lem [] s = refl
names_lem (t ∷ topics) s = elim (Option-cases (ensure_valid_topic_name t)) [
  | inl q ↦ rw q (names_lem topics s)
  | inr (e, q) ↦ rw q refl
]

-- After a check that changes nothing, the invariant is a matter of the step that follows it.
after_check :
    (m : M (Unit {0})) (f : SubscriptionState → SubscriptionState) (s : SubscriptionState)
    → (m s).1 ≡ s
    → Keeps s (f s)
    → Keeps s (continue (m s).0 (λ _. modify f) (m s).1).1
unfolding ◌>>=◌
after_check m f s q h = rw q (go (m s).0)
  where
    go : (r : Result (Unit {0})) → Keeps s (continue r (λ _. modify f) s).1
    go (ok x) = h
    go (err e) = λ k. k

pub change_subscription-Keeps : (topics : List String) → Steps Keeps (change_subscription topics)
unfolding change_subscription ◌>>=◌
change_subscription-Keeps topics = record {
  at = λ s. elim (Bool-cases (partitions_auto_assigned s)) [
    | inr c ↦ rw c (λ k. k)
    | inl c ↦ elim (Bool-cases (subscription_is topics s)) [
      | inl d ↦ rw (c, d) (λ k. k)
      | inr d ↦
          rw (c, d)
            (after_check (ensure_valid_topic_names topics) _ s (names_lem topics s) (λ k. record {
              exclusive = k.exclusive;
              mode = change-IsMode s (Set.update [] topics) c k.mode;
            }))
    ]
  ];
}

pub group_subscribe-Keeps : (topics : List String) → Steps Keeps (group_subscribe topics)
unfolding group_subscribe ◌>>=◌
group_subscribe-Keeps topics = record {
  at = λ s. elim (Bool-cases (partitions_auto_assigned s)) [
    | inr c ↦ rw c (λ k. k)
    | inl c ↦ rw c (λ k. record { exclusive = k.exclusive; mode = k.mode })
  ];
}

intersect-Keeps : (o : Option (List String)) → Steps Keeps (intersect_group o)
unfolding intersect_group ◌>>=◌
intersect-Keeps none = record { at = λ s k. k }
intersect-Keeps (some l) = record { at = λ s k. record { exclusive = k.exclusive; mode = k.mode } }

pub reset_group_subscription-Keeps : Steps Keeps reset_group_subscription
unfolding reset_group_subscription
reset_group_subscription-Keeps = search (Keeps-preorder, steps_rules, intersect-Keeps) depth 8

pub unsubscribe-Keeps : Steps Keeps unsubscribe
unfolding unsubscribe ◌>>=◌
unsubscribe-Keeps = record { at = λ s k. record { exclusive = tt; mode = (refl, refl, refl) } }

-- The type is set only where there is none yet, and then nothing is assigned.
set_type-topics : Steps Keeps (set_subscription_type auto_topics)
unfolding set_subscription_type
set_type-topics = record { at = λ s. go s s.subscription_type refl }
  where
    go :
        (s : SubscriptionState) (t : SubscriptionType)
        → s.subscription_type ≡ t
        → Keeps s (set_subscription_type auto_topics s).1
    go s no_type q = rw q (λ k. record { exclusive = k.exclusive; mode = k.mode.1 })
    go s auto_topics q = rw q (λ k. k)
    go s auto_pattern q = rw q (λ k. k)
    go s user_assigned q = rw q (λ k. k)

subscribe_topics-Keeps :
    (valid_regex : String → Bool) (topics : List String)
    → Steps Keeps (subscribe_topics valid_regex topics)
unfolding subscribe_topics
subscribe_topics-Keeps valid_regex topics =
    search (Keeps-preorder, steps_rules, set_type-topics, change_subscription-Keeps) depth 8

subscribe_pattern-Keeps :
    (valid_regex : String → Bool) (pattern : String)
    → Steps Keeps (subscribe_pattern valid_regex pattern)
unfolding subscribe_pattern set_subscription_type ◌>>=◌
subscribe_pattern-Keeps valid_regex pattern = record {
  at = λ s. go s s.subscription_type refl (valid_regex pattern) refl;
}
  where
    go :
        (s : SubscriptionState) (t : SubscriptionType)
        → s.subscription_type ≡ t
        → (b : Bool) → valid_regex pattern ≡ b
        → Keeps s (subscribe_pattern valid_regex pattern s).1
    go s no_type q true v = rw (q, v) (λ k. record { exclusive = k.exclusive; mode = k.mode.1 })
    go s no_type q false v = rw (q, v) (λ k. record { exclusive = k.exclusive; mode = k.mode.1 })
    go s auto_topics q b v = rw q (λ k. k)
    go s auto_pattern q true v = rw (q, v) (λ k. record { exclusive = k.exclusive; mode = k.mode })
    go s auto_pattern q false v = rw (q, v) (λ k. record { exclusive = k.exclusive; mode = k.mode })
    go s user_assigned q b v = rw q (λ k. k)

subscribe_one-Keeps :
    (valid_regex : String → Bool) (topics : List String) (pattern : Option String)
    → Steps Keeps (subscribe_one valid_regex topics pattern)
unfolding subscribe_one ◌>>=◌
subscribe_one-Keeps valid_regex [] none = record { at = λ s k. k }
subscribe_one-Keeps valid_regex (t ∷ topics) none = subscribe_topics-Keeps valid_regex (t ∷ topics)
subscribe_one-Keeps valid_regex [] (some pattern) = subscribe_pattern-Keeps valid_regex pattern
subscribe_one-Keeps valid_regex (t ∷ topics) (some pattern) = record { at = λ s k. k }

listener-Keeps :
    (l : Option ℕ)
    → Steps Keeps (modify λ (s : SubscriptionState). record s { rebalance_listener = l })
unfolding ◌>>=◌
listener-Keeps l = record { at = λ s k. record { exclusive = k.exclusive; mode = k.mode } }

pub subscribe-Keeps :
    (valid_regex : String → Bool) (topics : List String) (pattern : Option String)
    (listener : Option ℕ)
    → Steps Keeps (subscribe valid_regex topics pattern listener)
unfolding subscribe
subscribe-Keeps valid_regex topics pattern listener =
    search (Keeps-preorder, steps_rules, subscribe_one-Keeps, listener-Keeps) depth 8
