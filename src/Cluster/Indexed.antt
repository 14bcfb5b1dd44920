-- ===== src/Cluster/Indexed.antt =====
-- The partitions of a broker are those that it leads.
use kafka_python.Common.{
  ℕ, ◌≡◌, ◌≢◌, inl, inr, refl, sym, ◌∙◌, String, Bool, true, false, ◌&&◌, ◌||◌, List, [], ◌∷◌,
  Option, none, some, Bool-cases, if◌then◌else◌, arith,
}
use kafka_python.Common.Int.{ℤ, int_beq_iff}
use kafka_python.Common.Eq.{string_eq, nat_eq, int_eq, ◌==◌}
use kafka_python.Common.Dict.{Dict, lookup, insert, lookup-insert}
use kafka_python.Common.Set.{contains, add, contains-add}
use kafka_python.Errors.{for_code}
use kafka_python.Structs.{TopicPartition, tp_eq, tp_beq_iff}
use kafka_python.Cluster.{NodeId, broker, node_eq, PartitionMetadata, inner, no_leader, leader_of}
use kafka_python.Cluster.Reading.{
  Reading, members, add_at, set_at, dict_or_empty, put, put_all, read_topic, read_topics, read_as,
  is_no_error, is_unauthorized, PartitionData, TopicData, metadata_of,
}

pub contains-add_at :
    (d : Dict NodeId (List TopicPartition)) (i j : NodeId) (x y : TopicPartition)
    → contains (members (lookup (add_at d i x) j)) y
      ≡ ((i == j && x == y) || contains (members (lookup d j)) y)
unfolding add_at
contains-add_at d i j x y = elim (Bool-cases (i == j)) [
  | inl c ↦
      let same : i ≡ j = (node_eq.same_iff i j).0 c in
      rw
        (
          lookup-insert d i j (add (members (lookup d i)) x),
          c,
          contains-add (members (lookup d i)) x y,
          same,
        )
        (or_comm (contains (members (lookup d j)) y) (x == y))
  | inr c ↦ rw (lookup-insert d i j (add (members (lookup d i)) x), c) refl
]
  where
    or_comm : (a b : Bool) → (a || b) ≡ (b || a)
    or_comm a b = ground arith

inner_or_empty :
    (o : Option (Dict ℕ PartitionMetadata)) (p : ℕ) → lookup (dict_or_empty o) p ≡ inner o p
unfolding lookup
inner_or_empty none p = refl
inner_or_empty (some d) p = refl

pub lookup-set_at :
    (d : Dict String (Dict ℕ PartitionMetadata)) (m : PartitionMetadata) (topic : String) (p : ℕ)
    → inner (lookup (set_at d m) topic) p
      ≡ (if m.topic == topic && m.partition == p then some m else inner (lookup d topic) p)
unfolding set_at
lookup-set_at d m topic p = elim (Bool-cases (m.topic == topic)) [
  | inl c ↦
      let same : m.topic ≡ topic = (string_eq.same_iff m.topic topic).0 c in
      rw
        (
          lookup-insert d m.topic topic (insert (dict_or_empty (lookup d m.topic)) m.partition m),
          c,
          lookup-insert (dict_or_empty (lookup d m.topic)) m.partition p m,
          inner_or_empty (lookup d m.topic) p,
          same,
        )
        refl
  | inr c ↦
      rw
        (lookup-insert d m.topic topic (insert (dict_or_empty (lookup d m.topic)) m.partition m), c)
        refl
]

-- Every partition with a leader is among those of the leader.
pub record IsIndexed (r : Reading) : Type 0 where
  pub leads :
      (tp : TopicPartition) (leader : ℤ)
      → leader_of (inner (lookup r.partitions tp.topic) tp.partition) ≡ some leader
      → leader ≢ no_leader
      → contains (members (lookup r.broker_partitions (broker leader))) tp ≡ true

-- The set of a broker only grows.
put-keeps :
    (m : PartitionMetadata) (r : Reading) (id : NodeId) (tp : TopicPartition)
    → contains (members (lookup r.broker_partitions id)) tp ≡ true
    → contains (members (lookup (put m r).broker_partitions id)) tp ≡ true
unfolding put
put-keeps m r id tp h = elim (Bool-cases (m.leader == no_leader)) [
  | inl c ↦ rw c h
  | inr c ↦
      rw
        (
          c,
          contains-add_at r.broker_partitions (broker m.leader) id
              (record { topic = m.topic; partition = m.partition }) tp,
          h,
        )
        (ground arith)
]

put-leads :
    (m : PartitionMetadata) (r : Reading)
    → m.leader ≢ no_leader
    → contains
        (members (lookup (put m r).broker_partitions (broker m.leader)))
        (record { topic = m.topic; partition = m.partition })
      ≡ true
unfolding put
put-leads m r h =
    let tp : TopicPartition = record { topic = m.topic; partition = m.partition } in
    let other : (m.leader == no_leader) ≡ false = ground (arith, int_beq_iff m.leader no_leader) in
    let self : (broker m.leader == broker m.leader) ≡ true =
      (node_eq.same_iff (broker m.leader) (broker m.leader)).1 refl in
    let same : (tp == tp) ≡ true = (tp_beq_iff tp tp).1 refl in
    rw
      (
        other,
        contains-add_at r.broker_partitions (broker m.leader) (broker m.leader) tp tp,
        self,
        same,
      )
      refl

put-IsIndexed : (m : PartitionMetadata) (r : Reading) → IsIndexed r → IsIndexed (put m r)
put-IsIndexed m r h = record { leads = leads }
  where
    leads :
        (tp : TopicPartition) (leader : ℤ)
        → leader_of (inner (lookup (put m r).partitions tp.topic) tp.partition) ≡ some leader
        → leader ≢ no_leader
        → contains (members (lookup (put m r).broker_partitions (broker leader))) tp ≡ true
    leads tp leader e n = elim (Bool-cases (m.topic == tp.topic && m.partition == tp.partition)) [
      | inl c ↦
          let t : m.topic ≡ tp.topic = (string_eq.same_iff m.topic tp.topic).0 (ground arith) in
          let p : m.partition ≡ tp.partition =
            (nat_eq.same_iff m.partition tp.partition).0 (ground arith) in
          let found : inner (lookup (put m r).partitions tp.topic) tp.partition ≡ some m =
            unfold put in rw (lookup-set_at r.partitions m tp.topic tp.partition, c) refl in
          let led : some m.leader ≡ some leader = rw found at e in
          let same : m.leader ≡ leader = cc in
          let whole : record { topic = m.topic; partition = m.partition } ≡ tp = rw (t, p) refl in
          rw (← same, ← whole) (put-leads m r (λ q. n (sym same ∙ q)))
      | inr c ↦
          let found : inner (lookup (put m r).partitions tp.topic) tp.partition
              ≡ inner (lookup r.partitions tp.topic) tp.partition =
            unfold put in rw (lookup-set_at r.partitions m tp.topic tp.partition, c) refl in
          put-keeps m r (broker leader) tp (h.leads tp leader (rw (← found) e) n)
    ]

put_all-IsIndexed :
    (version : ℕ) (topic : String) (ds : List PartitionData) (r : Reading)
    → IsIndexed r
    → IsIndexed (put_all version topic ds r)
unfolding put_all
put_all-IsIndexed version topic [] r h = h
put_all-IsIndexed version topic (d ∷ ds) r h =
    put_all-IsIndexed version topic ds (put (metadata_of version topic d) r)
      (put-IsIndexed (metadata_of version topic d) r h)

-- A topic starts without partitions.
new_topic-IsIndexed :
    (topic : String) (r : Reading)
    → IsIndexed r
    → IsIndexed (record r { partitions = insert r.partitions topic [] })
new_topic-IsIndexed topic r h = record { leads = leads }
  where
    leads :
        (tp : TopicPartition) (leader : ℤ)
        → leader_of (inner (lookup (insert r.partitions topic []) tp.topic) tp.partition)
          ≡ some leader
        → leader ≢ no_leader
        → contains (members (lookup r.broker_partitions (broker leader))) tp ≡ true
    leads tp leader e n = elim (Bool-cases (topic == tp.topic)) [
      | inl c ↦
          let none_yet : inner (lookup (insert r.partitions topic []) tp.topic) tp.partition
              ≡ none =
            rw (lookup-insert r.partitions topic tp.topic [], c) (unfold lookup in refl) in
          let no : none ≡ some leader = rw none_yet at e in absurd cc
      | inr c ↦
          let old : lookup (insert r.partitions topic []) tp.topic ≡ lookup r.partitions tp.topic =
            rw (lookup-insert r.partitions topic tp.topic [], c) refl in
          h.leads tp leader (rw (← old) e) n
    ]

read_topic-IsIndexed :
    (version : ℕ) (all : Bool) (t : TopicData) (r : Reading)
    → IsIndexed r
    → IsIndexed (read_topic version all t r)
unfolding read_topic read_as
read_topic-IsIndexed version all t r h = elim (Bool-cases (is_no_error (for_code t.error_code))) [
  | inl c ↦ rw c (
      put_all-IsIndexed version t.topic t.partitions _
        (new_topic-IsIndexed t.topic _ (record { leads = h.leads })))
  | inr c ↦ rw c (elim (Bool-cases all) [
    | inl a ↦ rw a (record { leads = h.leads })
    | inr a ↦ rw a (elim (Bool-cases (is_unauthorized (for_code t.error_code))) [
      | inl u ↦ rw u (record { leads = h.leads })
      | inr u ↦ rw u (record { leads = h.leads })
    ])
  ])
]

pub read_topics-IsIndexed :
    (version : ℕ) (all : Bool) (ts : List TopicData) (r : Reading)
    → IsIndexed r
    → IsIndexed (read_topics version all ts r)
unfolding read_topics
read_topics-IsIndexed version all [] r h = h
read_topics-IsIndexed version all (t ∷ ts) r h =
    read_topics-IsIndexed version all ts (read_topic version all t r)
      (read_topic-IsIndexed version all t r h)
