-- ===== src/Assignors/RoundRobin/Assigns.antt =====
-- The whole assignment: it ends whatever the cluster knows, since only topics to which a member
-- subscribes are looked up.
use kafka_python.Common.{
  All-map, ℕ, ◌≡◌, refl, String, Bool, true, false, ◌||◌, Option, some, none, List, [], ◌∷◌, Any,
  inl, inr, Bool-cases, All, All-append, map,
}
use kafka_python.Common.Eq.{string_eq, ◌==◌}
use kafka_python.Common.Dict.{Dict, lookup, keys_of}
use kafka_python.Common.Set.{contains, add, update}
use kafka_python.Assignors.Sort.{sort, insert_sorted, text_le}
use kafka_python.Assignors.RoundRobin.{
  is_subscribed, assign, all_topics, all_topic_partitions, partitions_of, tp_le, by_name, Assigned,
  assigned_to,
}
use kafka_python.Assignors.RoundRobin.Search.{IsOwned, held, portion, assign_partitions_lem}

or_true : (b : Bool) → (b || true) ≡ true
or_true true = refl
or_true false = refl

module _ {A : Type 0} (P : A → Type 0) (le : A → A → Bool) where
  All-insert_sorted : (x : A) (xs : List A) → P x → All P xs → All P (insert_sorted le x xs)
  unfolding insert_sorted
  All-insert_sorted x [] p h = (p, tt)
  All-insert_sorted x (y ∷ ys) p h = elim (Bool-cases (le x y)) [
    | inl c ↦ rw c (p, h)
    | inr c ↦ rw c (h.0, All-insert_sorted x ys p h.1)
  ]

  All-sort : (xs : List A) → All P xs → All P (sort le xs)
  unfolding sort
  All-sort [] h = tt
  All-sort (x ∷ xs) h = All-insert_sorted x (sort le xs) h.0 (All-sort xs h.1)

  Any-insert_sorted : (x : A) (xs : List A) → Any P (x ∷ xs) → Any P (insert_sorted le x xs)
  unfolding insert_sorted
  Any-insert_sorted x [] h = h
  Any-insert_sorted x (y ∷ ys) (inl p) = elim (Bool-cases (le x y)) [
    | inl c ↦ rw c (inl p)
    | inr c ↦ rw c (inr (Any-insert_sorted x ys (inl p)))
  ]
  Any-insert_sorted x (y ∷ ys) (inr (inl q)) = elim (Bool-cases (le x y)) [
    | inl c ↦ rw c (inr (inl q))
    | inr c ↦ rw c (inl q)
  ]
  Any-insert_sorted x (y ∷ ys) (inr (inr h)) = elim (Bool-cases (le x y)) [
    | inl c ↦ rw c (inr (inr h))
    | inr c ↦ rw c (inr (Any-insert_sorted x ys (inr h)))
  ]

  Any-sort : (xs : List A) → Any P xs → Any P (sort le xs)
  unfolding sort
  Any-sort [] h = h
  Any-sort (x ∷ xs) (inl p) = Any-insert_sorted x (sort le xs) (inl p)
  Any-sort (x ∷ xs) (inr h) = Any-insert_sorted x (sort le xs) (inr (Any-sort xs h))

module _ (Q : String → Type 0) where
  All-add : (s : List String) (x : String) → All Q s → Q x → All Q (add s x)
  unfolding add
  All-add s x h q = elim (Bool-cases (contains s x)) [
    | inl c ↦ rw c h
    | inr c ↦ rw c (All-append Q s (x ∷ []) h (q, tt))
  ]

  All-update : (s xs : List String) → All Q s → All Q xs → All Q (update s xs)
  unfolding update
  All-update s [] h k = h
  All-update s (x ∷ xs) h k = All-update (add s x) xs (All-add s x h k.0) k.1

  All-all_topics :
      (members : Dict String (List String)) (s : List String)
      → All Q s
      → All (λ m. All Q m.1) members
      → All Q (all_topics members s)
  unfolding all_topics
  All-all_topics [] s h k = h
  All-all_topics ((m, subscription) ∷ members) s h k =
      All-all_topics members (update s subscription) (All-update s subscription h k.0) k.1

  All-partitions_of :
      (topic : String) (o : Option (List ℕ))
      → Q topic
      → All (λ tp. Q tp.topic) (partitions_of topic o)
  All-partitions_of topic none q = tt
  All-partitions_of topic (some l) q = go l
    where
      go : (l : List ℕ) → All (λ tp. Q tp.topic) (partitions_of topic (some l))
      go [] = tt
      go (p ∷ l) = (q, go l)

  All-all_topic_partitions :
      (partitions_for_topic : String → Option (List ℕ)) (topics : List String)
      → All Q topics
      → All (λ tp. Q tp.topic) (all_topic_partitions partitions_for_topic topics)
  unfolding all_topic_partitions
  All-all_topic_partitions partitions_for_topic [] h = tt
  All-all_topic_partitions partitions_for_topic (topic ∷ topics) h =
      All-append (λ tp. Q tp.topic) (partitions_of topic (partitions_for_topic topic))
        (all_topic_partitions partitions_for_topic topics)
        (All-partitions_of topic (partitions_for_topic topic) h.0)
        (All-all_topic_partitions partitions_for_topic topics h.1)

-- The keys of a dict are distinct: each entry is what a lookup finds.
abbrev pub IsDict : Dict String (List String) → Type 0
IsDict d = All (λ m. lookup d m.0 ≡ some m.1) d

contains_self : (xs : List String) → All (λ t. contains xs t ≡ true) xs
unfolding contains
contains_self [] = tt
contains_self (x ∷ xs) = (
  rw ((string_eq.same_iff x x).1 refl) refl,
  All-map _ _ xs (λ t h. rw h (or_true (x == t))) (contains_self xs),
)

-- A key that is found is among the keys.
lookup-Any :
    (P : String → Type 0) (d : Dict String (List String)) (m : String) (v : List String)
    → P m
    → lookup d m ≡ some v
    → Any P (keys_of d)
unfolding lookup
lookup-Any P [] m v p e = absurd cc
lookup-Any P ((k, w) ∷ d) m v p e = elim (Bool-cases (k == m)) [
  | inl c ↦ let same : k ≡ m = (string_eq.same_iff k m).0 c in inl (rw same p)
  | inr c ↦ inr (lookup-Any P d m v p (rw c at e))
]

subscribed :
    (member_metadata : Dict String (List String)) (t m : String) (subscription : List String)
    → lookup member_metadata m ≡ some subscription
    → contains subscription t ≡ true
    → is_subscribed member_metadata t m ≡ true
unfolding is_subscribed
subscribed member_metadata t m subscription e c = rw (is_subscribed, e) c

module _ (member_metadata : Dict String (List String)) where
  abbrev HasSubscriber : String → Type 0
  HasSubscriber t = Any (λ m. is_subscribed member_metadata t m ≡ true) (keys_of member_metadata)

  -- Every topic of a subscription has a subscriber.
  All-subscriptions :
      (l : Dict String (List String))
      → All (λ m. lookup member_metadata m.0 ≡ some m.1) l
      → All (λ m. All HasSubscriber m.1) l
  All-subscriptions [] h = tt
  All-subscriptions ((m, subscription) ∷ l) h = (
    All-map (λ t. contains subscription t ≡ true) HasSubscriber subscription
        (λ t c.
          lookup-Any (λ x. is_subscribed member_metadata t x ≡ true) member_metadata m subscription
            (subscribed member_metadata t m subscription h.0 c) h.0)
        (contains_self subscription),
    All-subscriptions l h.1,
  )

  pub assign_lem :
      (partitions_for_topic : String → Option (List ℕ))
      → IsDict member_metadata
      → let tps =
          sort tp_le (all_topic_partitions partitions_for_topic (all_topics member_metadata [])) in
        (owners : List String) × (dealt : Assigned) × (assign partitions_for_topic member_metadata
          ≡ some (map (λ m. (m.0, sort by_name (assigned_to (lookup dealt m.0)))) member_metadata))
        × IsOwned member_metadata tps owners
        × ((m topic : String) → held dealt m topic ≡ portion m topic tps owners)
  unfolding assign
  assign_lem partitions_for_topic h =
      let topics = all_topics member_metadata [] in
      let tps = sort tp_le (all_topic_partitions partitions_for_topic topics) in
      let cycle = sort text_le (keys_of member_metadata) in
      let known : All HasSubscriber topics =
        All-all_topics HasSubscriber member_metadata [] tt (All-subscriptions member_metadata h) in
      let every : All (λ tp. Any (λ m. is_subscribed member_metadata tp.topic m ≡ true) cycle) tps =
        All-sort _ tp_le (all_topic_partitions partitions_for_topic topics) (
          All-all_topic_partitions (λ t. Any (λ m. is_subscribed member_metadata t m ≡ true) cycle)
            partitions_for_topic topics
            (All-map HasSubscriber _ topics (λ t. Any-sort _ text_le (keys_of member_metadata))
              known)) in
      let (owners, dealt, e, owned, holds) =
        assign_partitions_lem member_metadata tps cycle [] every in
      (owners, dealt, rw e refl, owned, λ m topic. unfold lookup in holds m topic)
