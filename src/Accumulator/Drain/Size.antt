-- ===== src/Accumulator/Drain/Size.antt =====
-- How much a node is sent.
use kafka_python.Common.{
  ℕ, zero, suc, ◌+◌, ◌%◌, ◌≤◌, ◌≡◌, ◌⊎◌, inl, inr, refl, true, false, List, [], ◌∷◌, ◌++◌, length,
  Option, none, some, ltb, is_empty, Bool-cases, arith, get_elem?,
}
use kafka_python.Common.Dict.{lookup}
use kafka_python.Common.Set.{contains}
use kafka_python.Structs.{TopicPartition, tp_eq}
use kafka_python.Accumulator.{RecordAccumulator, backing_off, queue}
use kafka_python.Accumulator.Batch.{Builder, ProducerBatch}
use kafka_python.Accumulator.Drain.{
  Gate, Draining, sent_as, send_first, visit_first, visit, moved_on, drain_loop,
  drain_batches_for_one_node,
}

module _ {Records : Type 0} (builder : Builder Records) (gate : Gate Records) where
  -- To close records, numbered or not, does not make them larger.
  abbrev pub IsShrinking : Type 0
  IsShrinking =
      (tp : TopicPartition) (r : Records)
      → (builder.size_in_bytes (builder.close r) ≤ builder.size_in_bytes r)
        × (builder.size_in_bytes (builder.close (gate.numbered tp r)) ≤ builder.size_in_bytes r)

  abbrev pub total : List (ProducerBatch Records) → ℕ
  total [] = 0
  total (b ∷ bs) = builder.size_in_bytes b.records + total bs

  total-append :
      (bs : List (ProducerBatch Records)) (b : ProducerBatch Records)
      → total (bs ++ b ∷ []) ≡ total bs + builder.size_in_bytes b.records
  total-append [] b = omega arith
  total-append (c ∷ bs) b = omega (arith, total-append bs b)

  -- One batch at most, or the maximal size is kept.
  abbrev pub Fits : ℕ → List (ProducerBatch Records) → Type 0
  Fits max_size bs = (length bs ≤ 1) ⊎ (total bs ≤ max_size)

  abbrev IsSized : ℕ → Draining Records → Type 0
  IsSized max_size d = (d.size ≡ total d.ready) × Fits max_size d.ready

  sent_as-le :
      (now : ℕ) (b : ProducerBatch Records)
      → IsShrinking
      → builder.size_in_bytes (sent_as builder gate now b).records ≤ builder.size_in_bytes b.records
  unfolding sent_as
  sent_as-le now b h = elim (Bool-cases b.in_retry) [
    | inl c ↦ rw c (h b.topic_partition b.records).0
    | inr c ↦ rw c (h b.topic_partition b.records).1
  ]

  one_more :
      (max_size now : ℕ) (b : ProducerBatch Records) (ready : List (ProducerBatch Records))
      (size : ℕ)
      → IsShrinking
      → size ≡ total ready
      → (ltb max_size (size + builder.size_in_bytes b.records) ≡ false) ⊎ (is_empty ready ≡ true)
      → Fits max_size (ready ++ sent_as builder gate now b ∷ [])
  one_more max_size now b [] size s e h = inl (omega arith)
  one_more max_size now b (c ∷ ready) size s e h =
      let sent = sent_as builder gate now b in
      let smaller = sent_as-le now b s in
      elim h [
        | inl q ↦ inr (ground (arith, total-append (c ∷ ready) sent, smaller))
        | inr q ↦ absurd cc
      ]

  send_first-IsSized :
      (max_size now : ℕ) (tp : TopicPartition) (first : ProducerBatch Records)
      (dq : List (ProducerBatch Records)) (d : Draining Records)
      → IsShrinking
      → IsSized max_size d
      → (ltb max_size (d.size + builder.size_in_bytes first.records) ≡ false)
        ⊎ (is_empty d.ready ≡ true)
      → IsSized max_size (send_first builder gate now tp first dq d)
  unfolding send_first
  send_first-IsSized max_size now tp first dq d s h k = elim (Bool-cases (gate.should_stop tp)) [
    | inl c ↦ rw c h
    | inr c ↦
        let sent = sent_as builder gate now first in
        rw c (
          omega (arith, total-append d.ready sent, h.0),
          one_more max_size now first d.ready d.size s h.0 k,
        )
  ]

  visit_first-IsSized :
      (max_size now : ℕ) (tp : TopicPartition) (dq : List (ProducerBatch Records))
      (d : Draining Records)
      → IsShrinking
      → IsSized max_size d
      → IsSized max_size (visit_first builder gate max_size now tp dq d)
  visit_first-IsSized max_size now tp [] d s h = h
  visit_first-IsSized max_size now tp (first ∷ dq) d s h =
      elim (Bool-cases (backing_off d.accumulator now first)) [
        | inl c ↦ rw c h
        | inr c ↦
            rw c (elim (Bool-cases (ltb max_size (d.size + builder.size_in_bytes first.records))) [
              | inl l ↦ rw l (elim (Bool-cases (is_empty d.ready)) [
                | inl m ↦ rw m (send_first-IsSized max_size now tp first dq d s h (inr m))
                | inr m ↦ rw m h
              ])
              | inr l ↦ rw l (send_first-IsSized max_size now tp first dq d s h (inl l))
            ])
      ]

  visit-IsSized :
      (max_size now : ℕ) (o : Option TopicPartition) (d : Draining Records)
      → IsShrinking
      → IsSized max_size d
      → IsSized max_size (visit builder gate max_size now o d)
  visit-IsSized max_size now none d s h = h
  visit-IsSized max_size now (some tp) d s h = elim (Bool-cases (contains d.accumulator.muted tp)) [
    | inl c ↦ rw c h
    | inr c ↦
        rw c (visit_first-IsSized max_size now tp (queue (lookup d.accumulator.batches tp)) d s h)
  ]

  drain_loop-IsSized :
      (n max_size now : ℕ) (partitions : List TopicPartition) (d : Draining Records)
      → IsShrinking
      → IsSized max_size d
      → IsSized max_size (drain_loop builder gate n max_size now partitions d)
  unfolding drain_loop
  drain_loop-IsSized zero max_size now partitions d s h = h
  drain_loop-IsSized (suc n) max_size now partitions d s h =
      let tp = get_elem? partitions d.accumulator.drain_index in
      let e = visit builder gate max_size now tp (moved_on builder gate (length partitions) d) in
      let k = visit-IsSized max_size now tp (moved_on builder gate (length partitions) d) s h in
      elim (Bool-cases e.goes_on) [
        | inl c ↦ rw c (drain_loop-IsSized n max_size now partitions e s k)
        | inr c ↦ rw c k
      ]

  -- The batches that one node is sent are together at most as large as the maximal request, or there
  -- is one at most, provided that to close a batch does not make it larger. This holds whatever the
  -- partitions, the place where the loop starts, the backoffs and the transaction manager.
  pub drain_batches_lem :
      (partitions : List TopicPartition) (max_size now : ℕ) (s : RecordAccumulator Records)
      → IsShrinking
      → Fits max_size (drain_batches_for_one_node builder gate partitions max_size now s).0
  unfolding drain_batches_for_one_node
  drain_batches_lem [] max_size now s h = inl (omega arith)
  drain_batches_lem (tp ∷ tps) max_size now s h =
      let n = suc (length tps) in
      let start : Draining Records = record {
        accumulator = record s { drain_index = s.drain_index % n };
        size = 0;
        ready = [];
        goes_on = true;
      } in
      (drain_loop-IsSized n max_size now (tp ∷ tps) start h (refl, inl (omega arith))).1
