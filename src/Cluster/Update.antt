-- ===== src/Cluster/Update.antt =====
-- kafka/cluster.py: the methods that change what is known.
use kafka_python.Common.{
  ℕ, false, List, [], ◌∷◌, ◌++◌, length, Option, none, some, is_empty, if◌then◌else◌, get_elem?,
  set, ltb, nat_beq,
}
use kafka_python.Common.Int.{ℤ, pos}
use kafka_python.Common.Eq.{string_eq, nat_eq, int_eq, ◌==◌}
use kafka_python.Common.Dict.{lookup, member}
use kafka_python.Errors.{
  runtime_error, Exc, broker_error, for_code, metadata_empty_broker_list, key_error,
}
use kafka_python.Cluster.Calls.{Reactions, perform}
use kafka_python.Exec.{continue, Exec, Result, ok, err}
use kafka_python.Structs.{tp_eq}
use kafka_python.Future.{Future, success, failure}
use kafka_python.Cluster.{broker, node_eq, PartitionMetadata, ClusterMetadata, init}
use kafka_python.Cluster.Reading.{
  MetadataResponse, Reading, TopicData, new_brokers, put, read_topics,
}

-- Complete the future `i`, if there is one: what it does, and the list of futures after it.
abbrev pub completed :
    Option (Future Unit)
    → List (Future Unit)
    → ℕ
    → Exec (Future Unit) (Unit {0})
    → Result (Unit {0}) × List (Future Unit)
completed none futures i m = (ok tt, futures)
completed (some f) futures i m = let (r, f') = m f in (r, set futures i f')

-- What a callback raises is logged and goes no further.
unfoldable pub call_backs : Reactions → List ℕ → ClusterMetadata → ClusterMetadata
call_backs react [] s = s
call_backs react (f ∷ fs) s = call_backs react fs (perform (react f s) s).1

abbrev pub called_back :
    Reactions → List ℕ → Result (Unit {0}) × ClusterMetadata → Result (Unit {0}) × ClusterMetadata
called_back react fs (err e, s) = (err e, s)
called_back react fs (ok t, s) = (ok t, call_backs react fs s)

abbrev pub callbacks_in : (Future Unit → List ℕ) → Option (Future Unit) → List ℕ
callbacks_in backs none = []
callbacks_in backs (some f) = backs f

-- `backs` are the callbacks or the errbacks, which are called once the future is done.
unfoldable pub complete :
    Reactions
    → (Future Unit → List ℕ)
    → Option ℕ
    → Exec (Future Unit) (Unit {0})
    → Exec ClusterMetadata (Unit {0})
unfolding call_backs
complete react backs none m s = (ok tt, s)
complete react backs (some i) m s =
    let (r, futures) = completed (get_elem? s.futures i) s.futures i m in
    called_back react (callbacks_in backs (get_elem? s.futures i))
      (r, record s { futures = futures })

abbrev pub stamped : ℕ → Result (Unit {0}) × ClusterMetadata → Result (Unit {0}) × ClusterMetadata
stamped now (err e, s) = (err e, s)
stamped now (ok t, s) = (ok t, record s { last_refresh_ms = now })

unfoldable pub failed_update : Reactions → ℕ → Exc → Exec ClusterMetadata (Unit {0})
failed_update react now e s =
    stamped now (complete react (λ f. f.errbacks) s.future (failure e) (record s { future = none }))

-- `len(metadata.topics) == 1 and metadata.topics[0][0] != 0`
abbrev pub only_error : List TopicData → Option ℤ
only_error (t ∷ []) = if t.error_code == pos 0 then none else some t.error_code
only_error _ = none

-- The loop over the set of the listeners. A raise ends it, and so does a listener that changed the
-- size of the set.
unfoldable pub notify : Reactions → List ℕ → Exec ClusterMetadata (Unit {0})
notify react [] s = (ok tt, s)
notify react (f ∷ fs) s =
    let called = record s { notified = s.notified ++ f ∷ [] } in
    let (r, t) = perform (react f called) called in
    continue r
      (λ _ u.
        let rest = notify react fs u in
        if nat_beq (length u.listeners) (length s.listeners) then rest else (err runtime_error, u))
      t

-- The last write, where all topics were fetched.
abbrev pub settled : Result (Unit {0}) × ClusterMetadata → Result (Unit {0}) × ClusterMetadata
settled (err e, s) = (err e, s)
settled (ok t, s) =
    (ok t, record s { need_update = if s.need_all_topic_metadata then false else s.need_update })

abbrev pub after_success :
    Reactions → Result (Unit {0}) × ClusterMetadata → Result (Unit {0}) × ClusterMetadata
after_success react (err e, s) = (err e, s)
after_success react (ok t, s) = settled (notify react s.listeners s)

unfoldable pub reading : ClusterMetadata → MetadataResponse → Reading
reading s m = read_topics m.api_version s.need_all_topic_metadata m.topics (record {
  partitions = [];
  broker_partitions = [];
  unauthorized_topics = [];
  internal_topics = [];
})

-- The state that is written under the lock, and the times.
unfoldable pub updated : ℕ → MetadataResponse → ClusterMetadata → ClusterMetadata
updated now m s =
    let brokers = new_brokers m.api_version m.brokers [] in
    let r = reading s m in
    record s {
      brokers = brokers;
      controller =
          if nat_beq m.api_version 0 then none else lookup brokers (broker m.controller_id);
      cluster_id = if ltb m.api_version 2 then none else m.cluster_id;
      partitions = r.partitions;
      broker_partitions = r.broker_partitions;
      unauthorized_topics = r.unauthorized_topics;
      internal_topics = r.internal_topics;
      future = none;
      need_update = false;
      last_refresh_ms = now;
      last_successful_refresh_ms = now;
    }

abbrev pub update_or_fail :
    Reactions → ℕ → Option ℤ → MetadataResponse → Exec ClusterMetadata (Unit {0})
update_or_fail react now (some code) m s = failed_update react now (broker_error (for_code code)) s
update_or_fail react now none m s =
    if is_empty m.brokers
    then failed_update react now metadata_empty_broker_list s
    else after_success react
        (complete react (λ f. f.callbacks) s.future (success tt) (updated now m s))

unfoldable pub update_metadata : Reactions → ℕ → MetadataResponse → Exec ClusterMetadata (Unit {0})
update_metadata react now m s = update_or_fail react now (only_error m.topics) m s

-- The partitions are put into a copy; a topic that is not there raises.
unfoldable pub put_known : List PartitionMetadata → Reading → Result Reading
put_known [] r = ok r
put_known (m ∷ ms) r =
    let rest = put_known ms (put m r) in if member r.partitions m.topic then rest else err key_error

abbrev with_reading : ClusterMetadata → ClusterMetadata → Result Reading → Result ClusterMetadata
with_reading s fresh (err e) = err e
with_reading s fresh (ok r) = ok (record fresh {
  brokers = s.brokers;
  partitions = r.partitions;
  broker_partitions = r.broker_partitions;
  group_coordinators = s.group_coordinators;
  transaction_coordinators = s.transaction_coordinators;
  internal_topics = s.internal_topics;
  unauthorized_topics = s.unauthorized_topics;
})

-- A copy of the state with more partitions.
unfoldable pub with_partitions : List PartitionMetadata → ClusterMetadata → Result ClusterMetadata
with_partitions ms s =
    with_reading s (init s.bootstrap_brokers s.retry_backoff_ms s.metadata_max_age_ms) (
      put_known ms (record {
        partitions = s.partitions;
        broker_partitions = s.broker_partitions;
        unauthorized_topics = s.unauthorized_topics;
        internal_topics = s.internal_topics;
      }))
