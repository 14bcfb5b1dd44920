-- ===== src/Cluster/Runs.antt =====
-- Any calls of the cluster's methods, in any order.
use kafka_python.Common.{
  ℕ, ◌≡◌, ◌≢◌, refl, sym, subst, String, true, List, [], ◌∷◌, Option, none, some, Bool-cases, inl,
  inr, is_empty, All, ◌∙◌,
}
use kafka_python.Common.Int.{ℤ}
use kafka_python.Common.Eq.{string_eq, nat_eq}
use kafka_python.Common.Dict.{Dict, lookup}
use kafka_python.Common.Set.{contains}
use kafka_python.Errors.{Exc, for_code}
use kafka_python.Exec.{Exec, Result, ok, err}
use kafka_python.Structs.{TopicPartition, tp_eq}
use kafka_python.Future.{Future}
use kafka_python.Cluster.{
  group, transaction, NodeId, broker, node_eq, BrokerMetadata, ClusterMetadata, CoordinatorType,
  inner, no_leader, leader_of, leader_for_partition, partitions_for_broker, init,
}
use kafka_python.Cluster.Reading.{Reading, members, MetadataResponse, is_no_error}
use kafka_python.Cluster.Calls.{
  Action, request, listen, unlisten, coordinate, want_all, on_done, act, Reactions, FindCoordinator,
  request_update, add_listener, remove_listener, add_coordinator, pending, returned,
}
use kafka_python.Cluster.Update.{
  update_metadata, failed_update, complete, stamped, only_error, update_or_fail, settled,
  after_success, updated, reading,
}
use kafka_python.Cluster.Reacts.{complete_keeps, notify_keeps}
use kafka_python.Cluster.Indexed.{IsIndexed, read_topics-IsIndexed}

-- The calls, with the time where it is read.
pub data Call : Type 0 where
  update : ℕ → MetadataResponse → Call
  fail : ℕ → Exc → Call
  other : Action → Call

module _ (react : Reactions) where
  -- What a call leaves, whether it returns or raises.
  abbrev pub call : Call → ClusterMetadata → ClusterMetadata
  call (update now m) s = (update_metadata react now m s).1
  call (fail now e) s = (failed_update react now e s).1
  call (other a) s = (act a s).1

  unfoldable pub run : List Call → ClusterMetadata → ClusterMetadata
  run [] s = s
  run (c ∷ cs) s = run cs (call c s)

-- The two dicts of the state, read together.
abbrev pub index_of : ClusterMetadata → Reading
index_of s = record {
  partitions = s.partitions;
  broker_partitions = s.broker_partitions;
  unauthorized_topics = s.unauthorized_topics;
  internal_topics = s.internal_topics;
}

abbrev Keeps : ClusterMetadata → ClusterMetadata → Type 0
Keeps s t = index_of t ≡ index_of s

remove-Keeps : (f : ℕ) (s : ClusterMetadata) → Keeps s (remove_listener f s).1
unfolding remove_listener
remove-Keeps f s = elim (Bool-cases (contains s.listeners f)) [
  | inl c ↦ rw c refl
  | inr c ↦ rw c refl
]

coordinate-Keeps :
    (f : FindCoordinator) (type : CoordinatorType) (key : String) (s : ClusterMetadata)
    → Keeps s (add_coordinator f type key s).1
unfolding add_coordinator
coordinate-Keeps f group key s = elim (Bool-cases (is_no_error (for_code f.error_code))) [
  | inl c ↦ rw c refl
  | inr c ↦ rw c refl
]
coordinate-Keeps f transaction key s = elim (Bool-cases (is_no_error (for_code f.error_code))) [
  | inl c ↦ rw c refl
  | inr c ↦ rw c refl
]

act-Keeps : (a : Action) (s : ClusterMetadata) → Keeps s (act a s).1
unfolding act request_update add_listener
act-Keeps request s = case (pending s.future s.futures)
  where
    case : (o : Option ℕ) → Keeps s (returned o s).1
    case none = refl
    case (some i) = refl
act-Keeps (listen f) s = refl
act-Keeps (unlisten f) s = remove-Keeps f s
act-Keeps (coordinate f type key) s = coordinate-Keeps f type key s
act-Keeps (want_all b) s = refl
act-Keeps (on_done i f) s = refl

acting-Keeps :
    (s : ClusterMetadata) (l : List Action)
    → All (λ a. (t : ClusterMetadata) → Keeps s t → Keeps s (act a t).1) l
acting-Keeps s [] = tt
acting-Keeps s (a ∷ l) = (λ t k. act-Keeps a t ∙ k, acting-Keeps s l)

complete-Keeps :
    (react : Reactions) (backs : Future Unit → List ℕ) (o : Option ℕ)
    (m : Exec (Future Unit) (Unit {0})) (s : ClusterMetadata)
    → Keeps s (complete react backs o m s).1
complete-Keeps react backs o m s =
    complete_keeps react (Keeps s) (λ f t. acting-Keeps s (react f t).actions) (λ t l k. k)
      (λ t l k. k) backs o m s refl

stamped-Keeps :
    (now : ℕ) (s : ClusterMetadata) (r : Result (Unit {0}) × ClusterMetadata)
    → Keeps s r.1
    → Keeps s (stamped now r).1
stamped-Keeps now s (ok t, u) h = h
stamped-Keeps now s (err e, u) h = h

failed_update-Keeps :
    (react : Reactions) (now : ℕ) (e : Exc) (s : ClusterMetadata)
    → Keeps s (failed_update react now e s).1
unfolding failed_update
failed_update-Keeps react now e s =
    stamped-Keeps now s _ (complete-Keeps react _ s.future _ (record s { future = none }))

settled-Keeps :
    (s : ClusterMetadata) (x : Result (Unit {0}) × ClusterMetadata)
    → Keeps s x.1
    → Keeps s (settled x).1
settled-Keeps s (ok t, u) h = h
settled-Keeps s (err e, u) h = h

after_success-Keeps :
    (react : Reactions) (s : ClusterMetadata) (r : Result (Unit {0}) × ClusterMetadata)
    → Keeps s r.1
    → Keeps s (after_success react r).1
after_success-Keeps react s (ok t, u) h = settled-Keeps s _ (
    notify_keeps react (Keeps s) (λ f t. acting-Keeps s (react f t).actions) (λ t l k. k)
      (λ t l k. k) u.listeners u h)
after_success-Keeps react s (err e, u) h = h

nothing :
    {A : Type 0} (tp : TopicPartition) (leader : ℤ)
    → leader_of (inner (lookup [] tp.topic) tp.partition) ≡ some leader
    → A
unfolding lookup
nothing tp leader e = absurd cc

updated-IsIndexed :
    (now : ℕ) (m : MetadataResponse) (s : ClusterMetadata) → IsIndexed (index_of (updated now m s))
unfolding updated reading
updated-IsIndexed now m s =
    let none_yet : IsIndexed (record {
      partitions = [];
      broker_partitions = [];
      unauthorized_topics = [];
      internal_topics = [];
    }) =
      record { leads = λ tp leader e n. nothing tp leader e } in
    record {
      leads =
          (read_topics-IsIndexed m.api_version s.need_all_topic_metadata m.topics _ none_yet).leads;
    }

update-IsIndexed :
    (react : Reactions) (now : ℕ) (m : MetadataResponse) (s : ClusterMetadata)
    → IsIndexed (index_of s)
    → IsIndexed (index_of (update_metadata react now m s).1)
unfolding update_metadata
update-IsIndexed react now m s h = case (only_error m.topics)
  where
    case : (o : Option ℤ) → IsIndexed (index_of (update_or_fail react now o m s).1)
    case (some code) = subst IsIndexed (sym (failed_update-Keeps react now _ s)) h
    case none = elim (Bool-cases (is_empty m.brokers)) [
      | inl c ↦ rw c (subst IsIndexed (sym (failed_update-Keeps react now _ s)) h)
      | inr c ↦ rw c (
          subst IsIndexed
            (sym (
              after_success-Keeps react (updated now m s) _
                (complete-Keeps react _ s.future _ (updated now m s))))
            (updated-IsIndexed now m s))
    ]

call-IsIndexed :
    (react : Reactions) (c : Call) (s : ClusterMetadata)
    → IsIndexed (index_of s)
    → IsIndexed (index_of (call react c s))
call-IsIndexed react (update now m) s h = update-IsIndexed react now m s h
call-IsIndexed react (fail now e) s h = subst IsIndexed (sym (failed_update-Keeps react now e s)) h
call-IsIndexed react (other a) s h = subst IsIndexed (sym (act-Keeps a s)) h

run-IsIndexed :
    (react : Reactions) (cs : List Call) (s : ClusterMetadata)
    → IsIndexed (index_of s)
    → IsIndexed (index_of (run react cs s))
unfolding run
run-IsIndexed react [] s h = h
run-IsIndexed react (c ∷ cs) s h =
    run-IsIndexed react cs (call react c s) (call-IsIndexed react c s h)

init-IsIndexed :
    (bootstrap_brokers : Dict NodeId BrokerMetadata) (backoff age : ℕ)
    → IsIndexed (index_of (init bootstrap_brokers backoff age))
unfolding init
init-IsIndexed bootstrap_brokers backoff age = record {
  leads = λ tp leader e n. nothing tp leader e;
}

-- After any calls, raising ones among them, on a new cluster, with any listeners and callbacks that
-- make any of the other calls themselves: whenever a partition is known to have a leader, it is among
-- the partitions of that broker.
pub leaders_indexed :
    (react : Reactions) (bootstrap_brokers : Dict NodeId BrokerMetadata) (backoff age : ℕ)
    (cs : List Call) (tp : TopicPartition) (leader : ℤ)
    → leader_for_partition (run react cs (init bootstrap_brokers backoff age)) tp ≡ some leader
    → leader ≢ no_leader
    → contains
        (members (
          partitions_for_broker
            (run react cs (init bootstrap_brokers backoff age))
            (broker leader)))
        tp
      ≡ true
unfolding leader_for_partition partitions_for_broker
leaders_indexed react bootstrap_brokers backoff age cs tp leader e n =
    let s = init bootstrap_brokers backoff age in
    (run-IsIndexed react cs s (init-IsIndexed bootstrap_brokers backoff age)).leads tp leader e n
