-- ===== src/Subscriptions/Keeps.antt =====
-- Every call keeps the invariant.
use kafka_python.Common.{
  ℕ, Option, none, some, List, [], ◌∷◌, ◌≡◌, refl, is_empty, is_some, arith, Bool-cases, inl, inr,
  sym,
}
use kafka_python.Common.Dict.{lookup, member, Values}
use kafka_python.Common.Eq.{string_eq}
use kafka_python.Exec.{modify, ◌>>=◌}
use kafka_python.Exec.Steps.{Steps, steps_rules}
use kafka_python.Structs.{TopicPartition, OffsetAndMetadata, tp_eq}
use kafka_python.Subscriptions.Position.{
  TopicPartitionState, OffsetResetStrategy, new_state, reset, set_retry_time, set_paused,
  is_missing_position,
}
use kafka_python.Subscriptions.Position
use kafka_python.Subscriptions.State.{SubscriptionState}
use kafka_python.Subscriptions.Calls
use kafka_python.Subscriptions.WellFormed.{
  IsExclusive, Keeps, Keeps-preorder, Keeps-assignment, Keeps-insert, Keeps-move,
}

-- A change that leaves the assignment and the mode's fields.
Keeps-same :
    (s t : SubscriptionState)
    → s.assignment ≡ t.assignment
    → s.subscription_type ≡ t.subscription_type
    → s.subscription ≡ t.subscription
    → s.user_assignment ≡ t.user_assignment
    → Keeps s t
Keeps-same s t a b c d k = record {
  exclusive = rw (sym a) k.exclusive;
  mode = rw (sym a, sym b, sym c, sym d) k.mode;
}

pub at_partition-Keeps :
    (tp : TopicPartition) (f : TopicPartitionState → TopicPartitionState)
    → ((v : TopicPartitionState) → IsExclusive v → IsExclusive (f v))
    → Steps Keeps (Calls.at_partition tp f)
unfolding Calls.at_partition
at_partition-Keeps tp f h = record { at = λ s. go s (lookup s.assignment tp) refl }
  where
    go :
        (s : SubscriptionState) (o : Option TopicPartitionState)
        → lookup s.assignment tp ≡ o
        → Keeps s (Calls.at_partition tp f s).1
    go s none q = rw q (λ k. k)
    go s (some v) q = rw q (Keeps-insert s tp v (f v) q (h v))

pub at_partitions-Keeps :
    (tps : List TopicPartition) (f : TopicPartitionState → TopicPartitionState)
    → ((v : TopicPartitionState) → IsExclusive v → IsExclusive (f v))
    → Steps Keeps (Calls.at_partitions tps f)
unfolding Calls.at_partitions
at_partitions-Keeps [] f h = search (Keeps-preorder, steps_rules)
at_partitions-Keeps (tp ∷ tps) f h =
    let first = at_partition-Keeps tp f h in
    let rest = at_partitions-Keeps tps f h in
    search (Keeps-preorder, steps_rules, first, rest) depth 6

-- A step that leaves those fields as they are, and one that only reads.
modify-Keeps :
    (f : SubscriptionState → SubscriptionState)
    → ((s : SubscriptionState) → Keeps s (f s))
    → Steps Keeps (modify f)
unfolding ◌>>=◌
modify-Keeps f h = record { at = h }

pub seek-Keeps :
    (tp : TopicPartition) (offset : OffsetAndMetadata) → Steps Keeps (Calls.seek tp offset)
unfolding Calls.seek Position.seek
seek-Keeps tp offset = at_partition-Keeps tp _ (λ v h. refl)

pub request_offset_reset-Keeps :
    (tp : TopicPartition) (o : Option OffsetResetStrategy)
    → Steps Keeps (Calls.request_offset_reset tp o)
unfolding Calls.request_offset_reset reset
request_offset_reset-Keeps tp none =
    let one = λ (x : OffsetResetStrategy). at_partition-Keeps tp (reset x) (λ v h. refl) in
    search (Keeps-preorder, steps_rules, one) depth 6
request_offset_reset-Keeps tp (some strategy) = at_partition-Keeps tp (reset strategy) (λ v h. refl)

pub set_reset_pending-Keeps :
    (tps : List TopicPartition) (t : ℕ) → Steps Keeps (Calls.set_reset_pending tps t)
unfolding Calls.set_reset_pending set_retry_time
set_reset_pending-Keeps tps t = at_partitions-Keeps tps _ (λ v h. h)

pub reset_failed-Keeps :
    (tps : List TopicPartition) (t : ℕ) → Steps Keeps (Calls.reset_failed tps t)
unfolding Calls.reset_failed set_retry_time
reset_failed-Keeps tps t = at_partitions-Keeps tps _ (λ v h. h)

pub pause-Keeps : (tp : TopicPartition) → Steps Keeps (Calls.pause tp)
unfolding Calls.pause set_paused
pause-Keeps tp = at_partition-Keeps tp _ (λ v h. h)

pub resume-Keeps : (tp : TopicPartition) → Steps Keeps (Calls.resume tp)
unfolding Calls.resume set_paused
resume-Keeps tp = at_partition-Keeps tp _ (λ v h. h)

pub set_position-Keeps :
    (tp : TopicPartition) (offset : OffsetAndMetadata) → Steps Keeps (Calls.set_position tp offset)
unfolding Calls.set_position Position.has_valid_position
set_position-Keeps tp offset = record { at = λ s. go s (lookup s.assignment tp) refl }
  where
    go :
        (s : SubscriptionState) (o : Option TopicPartitionState)
        → lookup s.assignment tp ≡ o
        → Keeps s (Calls.position_at o tp offset s).1
    go s none q = λ k. k
    go s (some v) q = elim (Bool-cases (is_some v.position)) [
      | inl c ↦ rw c (Keeps-insert s tp v _ q (λ h. ground arith))
      | inr c ↦ rw c (λ k. k)
    ]

pub move_partition_to_end-Keeps :
    (tp : TopicPartition) → Steps Keeps (Calls.move_partition_to_end tp)
unfolding Calls.move_partition_to_end
move_partition_to_end-Keeps tp = modify-Keeps _ (λ s. Keeps-move s tp)

reset_missing-member :
    (x : OffsetResetStrategy) (a : Calls.Assignment) (tp : TopicPartition)
    → member (Calls.reset_missing x a) tp ≡ member a tp
unfolding Calls.reset_missing member
reset_missing-member x [] tp = refl
reset_missing-member x ((u, v) ∷ a) tp = rw (reset_missing-member x a tp) refl

reset_missing-Values :
    (x : OffsetResetStrategy) (a : Calls.Assignment)
    → Values IsExclusive a
    → Values IsExclusive (Calls.reset_missing x a)
unfolding Calls.reset_missing is_missing_position reset
reset_missing-Values x [] h = tt
reset_missing-Values x ((u, v) ∷ a) h = (ground arith, reset_missing-Values x a h.1)

pub reset_missing_positions-Keeps : Steps Keeps Calls.reset_missing_positions
unfolding Calls.reset_missing_positions
reset_missing_positions-Keeps = record {
  at = λ s. elim (Bool-cases (Calls.has_policy s.default_offset_reset_strategy)) [
    | inl c ↦ rw c (
        Keeps-assignment s _ (reset_missing-member s.default_offset_reset_strategy s.assignment)
          (reset_missing-Values s.default_offset_reset_strategy s.assignment))
    | inr c ↦
        elim (Bool-cases (is_empty (Calls.partitions_where is_missing_position s.assignment))) [
          | inl d ↦ rw (c, d) (λ k. k)
          | inr d ↦ rw (c, d) (λ k. k)
        ]
  ];
}
