-- ===== src/Assignors/RoundRobin/Search.antt =====
-- The search for a subscribed member ends.
use mathlib.Core.List.{append_assoc, append-nil}
use kafka_python.Common.{
  All-map, ℕ, zero, suc, ◌≡◌, refl, sym, ◌∙◌, String, Bool, true, false, ◌&&◌, Option, some, List,
  [], ◌∷◌, ◌++◌, length, Any, inl, inr, Bool-cases, arith, All, if◌then◌else◌,
}
use kafka_python.Common.Eq.{string_eq, ◌==◌}
use kafka_python.Common.Dict.{Dict, lookup, append_at, listed, lookup-insert, lookup-append_at}
use kafka_python.Structs.{TopicPartition}
use kafka_python.Assignors.RoundRobin.{
  next_member, is_subscribed, assign_partitions, store, Assigned, assigned_to,
}

Any-append_left : (P : String → Type 0) (xs ys : List String) → Any P xs → Any P (xs ++ ys)
Any-append_left P [] ys k = absurd k
Any-append_left P (x ∷ xs) ys (inl k) = inl k
Any-append_left P (x ∷ xs) ys (inr k) = inr (Any-append_left P xs ys k)

Any-append_right : (P : String → Type 0) (xs ys : List String) → Any P ys → Any P (xs ++ ys)
Any-append_right P [] ys k = k
Any-append_right P (x ∷ xs) ys k = inr (Any-append_right P xs ys k)

turn : (P : String → Type 0) (m : String) (l : List String) → Any P (m ∷ l) → Any P (l ++ m ∷ [])
turn P m l (inl k) = Any-append_right P l (m ∷ []) (inl k)
turn P m l (inr k) = Any-append_left P l (m ∷ []) k

-- What the search gives: a member that passes, and a turned cycle, where whatever test some member
-- passed, some member passes.
abbrev IsFound : (String → Bool) → List String → Option (String × List String) → Type 0
IsFound test members o =
    (m : String) × (cycle : List String) × (o ≡ some (m, cycle))
    × (test m ≡ true)
    × ((t : String → Bool) → Any (λ x. t x ≡ true) members → Any (λ x. t x ≡ true) cycle)

-- One that passes stands among the first `fuel` members.
next_member-IsFound :
    (fuel : ℕ) (test : String → Bool) (front back : List String)
    → length front ≡ fuel
    → Any (λ m. test m ≡ true) front
    → IsFound test (front ++ back) (next_member fuel test (front ++ back))
unfolding next_member
next_member-IsFound zero test [] back h k = absurd k
next_member-IsFound zero test (m ∷ front) back h k = absurd (omega arith)
next_member-IsFound (suc fuel) test [] back h k = absurd k
next_member-IsFound (suc fuel) test (m ∷ front) back h (inl k) =
    rw k (m, (front ++ back) ++ m ∷ [], refl, k, λ t. turn (λ x. t x ≡ true) m (front ++ back))
next_member-IsFound (suc fuel) test (m ∷ front) back h (inr k) = elim (Bool-cases (test m)) [
  | inl c ↦
      rw c (m, (front ++ back) ++ m ∷ [], refl, c, λ t. turn (λ x. t x ≡ true) m (front ++ back))
  | inr c ↦
      let ih : IsFound test ((front ++ back) ++ m ∷ [])
          (next_member fuel test ((front ++ back) ++ m ∷ [])) =
        rw (append_assoc front back (m ∷ []))
          (next_member-IsFound fuel test front (back ++ m ∷ []) (omega arith) k) in
      let (found, cycle, q, e, keep) = ih in
      rw c (found, cycle, q, e, λ t a. keep t (turn (λ x. t x ≡ true) m (front ++ back) a))
]

-- An owner for each partition, who subscribes to its topic.
abbrev pub IsOwned : Dict String (List String) → List TopicPartition → List String → Type 0
IsOwned member_metadata [] [] = Unit
IsOwned member_metadata (tp ∷ tps) (m ∷ owners) =
    (is_subscribed member_metadata tp.topic m ≡ true) × IsOwned member_metadata tps owners
IsOwned member_metadata _ _ = ⊥

-- The partitions of a topic that belong to a member, in their order.
unfoldable pub portion : String → String → List TopicPartition → List String → List ℕ
portion m topic (tp ∷ tps) (o ∷ owners) =
    let rest = portion m topic tps owners in
    if o == m && tp.topic == topic then tp.partition ∷ rest else rest
portion m topic _ _ = []

-- `assignment[member][topic]`
abbrev pub held : Assigned → String → String → List ℕ
held a m topic = listed (lookup (assigned_to (lookup a m)) topic)

held-store :
    (o : String) (tp : TopicPartition) (a : Assigned) (m topic : String)
    → held (store o tp a) m topic
      ≡ held a m topic ++ (if o == m && tp.topic == topic then tp.partition ∷ [] else [])
unfolding store
held-store o tp a m topic =
    let d = assigned_to (lookup a o) in
    elim (Bool-cases (o == m)) [
      | inl c ↦
          let same : o ≡ m = (string_eq.same_iff o m).0 c in
          elim (Bool-cases (tp.topic == topic)) [
            | inl k ↦
                let same_topic : tp.topic ≡ topic = (string_eq.same_iff tp.topic topic).0 k in
                rw
                  (
                    lookup-insert a o m (append_at d tp.topic tp.partition),
                    c,
                    lookup-append_at d tp.topic topic tp.partition,
                    k,
                    ← same_topic,
                    ← same,
                  )
                  refl
            | inr k ↦
                rw
                  (
                    lookup-insert a o m (append_at d tp.topic tp.partition),
                    c,
                    lookup-append_at d tp.topic topic tp.partition,
                    k,
                    ← same,
                  )
                  (sym (append-nil _))
          ]
      | inr c ↦
          rw (lookup-insert a o m (append_at d tp.topic tp.partition), c)
            (sym (append-nil (held a m topic)))
    ]

one_more :
    (l : List ℕ) (b : Bool) (p : ℕ) (rest : List ℕ)
    → (l ++ (if b then p ∷ [] else [])) ++ rest ≡ l ++ (if b then p ∷ rest else rest)
one_more l true p rest = append_assoc l (p ∷ []) rest
one_more l false p rest = rw (append-nil l) refl

-- What the loop over the partitions comes to: it ends, and every partition was appended to what
-- its owner held.
abbrev pub IsDealt :
    Dict String (List String) → List TopicPartition → Assigned → Option Assigned → Type 0
IsDealt member_metadata tps a o =
    (owners : List String) × (dealt : Assigned) × (o ≡ some dealt)
    × IsOwned member_metadata tps owners
    × ((m topic : String) → held dealt m topic ≡ held a m topic ++ portion m topic tps owners)

-- If some member subscribes to each topic among the partitions, the loop over them ends, and each
-- partition has an owner who subscribes to its topic: what a member holds of a topic in the end is
-- what it held before and then the partitions that it owns, in their order.
pub assign_partitions_lem :
    (member_metadata : Dict String (List String)) (tps : List TopicPartition) (cycle : List String)
    (a : Assigned)
    → All (λ tp. Any (λ m. is_subscribed member_metadata tp.topic m ≡ true) cycle) tps
    → IsDealt member_metadata tps a (assign_partitions member_metadata tps cycle a)
unfolding assign_partitions portion
assign_partitions_lem member_metadata [] cycle a h =
    ([], a, refl, tt, λ m topic. sym (append-nil (held a m topic)))
assign_partitions_lem member_metadata (tp ∷ tps) cycle a h =
    let found : IsFound (is_subscribed member_metadata tp.topic) (cycle ++ [])
        (next_member (length cycle) (is_subscribed member_metadata tp.topic) (cycle ++ [])) =
      next_member-IsFound (length cycle) (is_subscribed member_metadata tp.topic) cycle [] refl
        h.0 in
    let (o, cycle', q, e, keep) = found in
    let same : cycle ++ [] ≡ cycle = append-nil cycle in
    let q' : next_member (length cycle) (is_subscribed member_metadata tp.topic) cycle
        ≡ some (o, cycle') =
      rw same at q in
    let (owners, dealt, r, owned, holds) =
      assign_partitions_lem member_metadata tps cycle' (store o tp a)
        (All-map _ _ tps (λ u k. keep (is_subscribed member_metadata u.topic) (rw same k)) h.1) in
    rw q' (
      o ∷ owners,
      dealt,
      r,
      (e, owned),
      λ m topic.
          holds m topic
          ∙ rw (held-store o tp a m topic) (
              one_more (held a m topic) (o == m && tp.topic == topic) tp.partition
                (portion m topic tps owners)),
    )
