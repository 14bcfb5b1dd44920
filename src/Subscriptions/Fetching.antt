-- ===== src/Subscriptions/Fetching.antt =====
-- Which partitions are fetched next, and from where.
use kafka_python.Common.{
  Bool, true, false, not, Option, none, some, List, [], ◌∷◌, ◌++◌, ◌≡◌, refl, is_empty,
  if◌then◌else◌, arith, Bool-cases, inl, inr, sym, ◌∙◌, ◌≢◌, ap, ◌⊎◌,
}
use mathlib.Core.List.{append-nil}
use kafka_python.Common.Dict.{lookup, erase, moved, move_to_end, member-lookup, lookup-insert}
use kafka_python.Common.Set
use kafka_python.Errors.{no_offset_for_partition}
use kafka_python.Exec.{ok, err, ◌>>=◌}
use kafka_python.Structs.{TopicPartition, OffsetAndMetadata, tp_eq, tp_beq_iff}
use kafka_python.Subscriptions.Position.{
  TopicPartitionState, OffsetResetStrategy, is_fetchable, is_missing_position, has_valid_position,
  reset, awaiting_reset,
}
use kafka_python.Subscriptions.Position
use kafka_python.Subscriptions.State.{SubscriptionState}
use kafka_python.Subscriptions.Calls

-- The list without one partition.
abbrev pub without : TopicPartition → List TopicPartition → List TopicPartition
without tp l = Set.difference l (tp ∷ [])

where-append :
    (f : TopicPartitionState → Bool) (a b : Calls.Assignment)
    → Calls.partitions_where f (a ++ b) ≡ Calls.partitions_where f a ++ Calls.partitions_where f b
unfolding Calls.partitions_where
where-append f [] b = refl
where-append f ((u, v) ∷ a) b = elim (Bool-cases (f v)) [
  | inl c ↦ rw (c, where-append f a b) refl
  | inr c ↦ rw (c, where-append f a b) refl
]

where-erase :
    (f : TopicPartitionState → Bool) (a : Calls.Assignment) (tp : TopicPartition)
    → Calls.partitions_where f (erase a tp) ≡ without tp (Calls.partitions_where f a)
unfolding Calls.partitions_where erase Set.difference Set.contains
where-erase f [] tp = refl
where-erase f ((u, v) ∷ a) tp = ground (arith, where-erase f a tp, tp_beq_iff u tp, tp_beq_iff tp u)

where-lookup :
    (f : TopicPartitionState → Bool) (a : Calls.Assignment) (tp : TopicPartition)
    → lookup a tp ≡ none
    → without tp (Calls.partitions_where f a) ≡ Calls.partitions_where f a
unfolding Calls.partitions_where lookup Set.difference Set.contains
where-lookup f [] tp h = refl
where-lookup f ((u, v) ∷ a) tp h =
    ground (arith, where-lookup f a tp, tp_beq_iff u tp, tp_beq_iff tp u, h)

-- `move_partition_to_end` takes the partition out of the list of those to fetch from and, if it is
-- fetchable, puts it last; the others keep their order.
pub move_partition_to_end_lem :
    (tp : TopicPartition) (s : SubscriptionState)
    → Calls.fetchable_partitions (Calls.move_partition_to_end tp s).1
      ≡ without tp (Calls.fetchable_partitions s)
        ++ (if Calls.is_partition_fetchable tp s then tp ∷ [] else [])
unfolding Calls.fetchable_partitions Calls.move_partition_to_end Calls.is_partition_fetchable
    Calls.test_partition move_to_end Calls.partitions_where ◌>>=◌
move_partition_to_end_lem tp s = go s.assignment (lookup s.assignment tp) refl
  where
    go :
        (a : Calls.Assignment) (o : Option TopicPartitionState)
        → lookup a tp ≡ o
        → Calls.partitions_where is_fetchable (moved o a tp)
          ≡ without tp (Calls.partitions_where is_fetchable a)
            ++ (if elim o [ none ↦ false | some v ↦ is_fetchable v ] then tp ∷ [] else [])
    go a none q = sym (append-nil _ ∙ where-lookup is_fetchable a tp q)
    go a (some v) q =
        where-append is_fetchable (erase a tp) ((tp, v) ∷ [])
        ∙ ap (λ l. l ++ (if is_fetchable v then tp ∷ [] else [])) (where-erase is_fetchable a tp)

reset_missing-none :
    (x : OffsetResetStrategy) (a : Calls.Assignment)
    → Calls.partitions_where is_missing_position (Calls.reset_missing x a) ≡ []
unfolding Calls.partitions_where Calls.reset_missing is_missing_position reset awaiting_reset
    has_valid_position
reset_missing-none x [] = refl
reset_missing-none x ((u, v) ∷ a) = ground (arith, reset_missing-none x a)

reset_missing-consumed :
    (x : OffsetResetStrategy) (a : Calls.Assignment)
    → Calls.all_consumed (Calls.reset_missing x a) ≡ Calls.all_consumed a
unfolding Calls.all_consumed Calls.reset_missing is_missing_position reset has_valid_position
reset_missing-consumed x [] = refl
reset_missing-consumed x ((u, v) ∷ a) = ground (arith, reset_missing-consumed x a)

reset_missing-fetchable :
    (x : OffsetResetStrategy) (a : Calls.Assignment)
    → Calls.partitions_where is_fetchable (Calls.reset_missing x a)
      ≡ Calls.partitions_where is_fetchable a
unfolding Calls.partitions_where Calls.reset_missing is_missing_position reset is_fetchable
    has_valid_position
reset_missing-fetchable x [] = refl
reset_missing-fetchable x ((u, v) ∷ a) = ground (arith, reset_missing-fetchable x a)

-- Under a default strategy, `reset_missing_positions` returns, no partition is left without a
-- position and a reset, and the offsets consumed and the partitions to fetch from are those of
-- before. Without one nothing changes, and the call raises if a partition has neither.
pub reset_missing_positions_lem :
    (s : SubscriptionState)
    → let (r, t) = Calls.reset_missing_positions s in
      ((Calls.has_default_offset_reset_policy s ≡ true)
        × (r ≡ ok tt)
        × (Calls.missing_fetch_positions t ≡ [])
        × (Calls.all_consumed_offsets t ≡ Calls.all_consumed_offsets s)
        × (Calls.fetchable_partitions t ≡ Calls.fetchable_partitions s))
      ⊎ ((Calls.has_default_offset_reset_policy s ≡ false)
          × (t ≡ s)
          × (r ≡ (
              if is_empty (Calls.missing_fetch_positions s)
              then ok tt
              else err no_offset_for_partition)))
unfolding Calls.reset_missing_positions Calls.has_default_offset_reset_policy
    Calls.missing_fetch_positions Calls.all_consumed_offsets Calls.fetchable_partitions
reset_missing_positions_lem s =
    let x = s.default_offset_reset_strategy in
    elim (Bool-cases (Calls.has_policy x)) [
      | inl c ↦ rw c (
          inl (
            refl,
            refl,
            reset_missing-none x s.assignment,
            reset_missing-consumed x s.assignment,
            reset_missing-fetchable x s.assignment,
          ))
      | inr c ↦
          rw c
            (elim (Bool-cases
              (is_empty (Calls.partitions_where is_missing_position s.assignment))) [
                | inl d ↦ rw d (inr (refl, refl, refl))
                | inr d ↦ rw d (inr (refl, refl, refl))
              ])
    ]

-- `seek` on an assigned partition sets its position, ends the wait for a reset and makes it
-- fetchable unless it is paused; it changes no other partition.
pub seek_lem :
    (tp other : TopicPartition) (offset : OffsetAndMetadata) (s : SubscriptionState)
    → Calls.is_assigned tp s ≡ true
    → other ≢ tp
    → let (r, t) = Calls.seek tp offset s in
      (r ≡ ok tt)
      × ((Calls.position tp t).0 ≡ ok (some offset))
      × ((Calls.is_offset_reset_needed tp t).0 ≡ ok false)
      × (Calls.is_partition_fetchable tp t ≡ not (Calls.is_paused tp s))
      × (lookup t.assignment other ≡ lookup s.assignment other)
unfolding Calls.seek Calls.at_partition Calls.is_assigned Calls.position
    Calls.is_offset_reset_needed Calls.is_partition_fetchable Calls.is_paused Calls.test_partition
    Position.seek
seek_lem tp other offset s h ne = go (lookup s.assignment tp) refl
  where
    go :
        (o : Option TopicPartitionState)
        → lookup s.assignment tp ≡ o
        → let (r, t) = Calls.seek tp offset s in
          (r ≡ ok tt)
          × ((Calls.position tp t).0 ≡ ok (some offset))
          × ((Calls.is_offset_reset_needed tp t).0 ≡ ok false)
          × (Calls.is_partition_fetchable tp t ≡ not (Calls.is_paused tp s))
          × (lookup t.assignment other ≡ lookup s.assignment other)
    go none q = absurd (ground (arith, q, h, member-lookup s.assignment tp))
    go (some v) q = ground (
      arith,
      q,
      lookup-insert s.assignment tp tp (Position.seek offset v),
      lookup-insert s.assignment tp other (Position.seek offset v),
      tp_beq_iff tp tp,
      tp_beq_iff tp other,
    )
