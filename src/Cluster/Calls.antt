-- ===== src/Cluster/Calls.antt =====
-- kafka/cluster.py: the calls of the cluster that listeners and callbacks may make as well.
use kafka_python.Common.{
  ℕ, String, Bool, true, List, [], ◌∷◌, ◌++◌, length, Option, none, some, if◌then◌else◌, get_elem?,
  set,
}
use kafka_python.Common.Int.{ℤ}
use kafka_python.Common.Eq.{string_eq, nat_eq, int_eq}
use kafka_python.Common.Dict.{insert}
use kafka_python.Common.Set.{contains, add, difference}
use kafka_python.Errors.{Exc, for_code, key_error}
use kafka_python.Exec.{continue, Exec, ok, err}
use kafka_python.Structs.{tp_eq}
use kafka_python.Future.{Future}
use kafka_python.Future
use kafka_python.Cluster.{
  NodeId, broker, coordinator, node_eq, BrokerMetadata, CoordinatorType, group, transaction,
  ClusterMetadata, no_leader,
}
use kafka_python.Cluster.Reading.{is_no_error}

abbrev pub done_or_missing : Option (Future Unit) → Bool
done_or_missing none = true
done_or_missing (some f) = f.is_done

abbrev pub pending : Option ℕ → List (Future Unit) → Option ℕ
pending none futures = none
pending (some i) futures = if done_or_missing (get_elem? futures i) then none else some i

abbrev pub returned : Option ℕ → ClusterMetadata → ℕ × ClusterMetadata
returned (some i) s = (i, record s { need_update = true })
returned none s = (
  length s.futures,
  record s {
    need_update = true;
    future = some (length s.futures);
    futures = s.futures ++ Future.init ∷ [];
  },
)

-- The index of the future that the caller gets.
unfoldable pub request_update : ClusterMetadata → ℕ × ClusterMetadata
request_update s = returned (pending s.future s.futures) s

unfoldable pub add_listener : ℕ → ClusterMetadata → ClusterMetadata
add_listener f s = record s { listeners = add s.listeners f }

unfoldable pub remove_listener : ℕ → Exec ClusterMetadata (Unit {0})
remove_listener f s =
    if contains s.listeners f
    then (ok tt, record s { listeners = difference s.listeners (f ∷ []) })
    else (err key_error, s)

-- FindCoordinatorResponse
pub record FindCoordinator : Type 0 where
  pub error_code : ℤ
  pub coordinator_id : ℤ
  pub host : String
  pub port : ℤ

abbrev pub coordinated : CoordinatorType → String → NodeId → ClusterMetadata → ClusterMetadata
coordinated group key id s = record s { group_coordinators = insert s.group_coordinators key id }
coordinated transaction key id s = record s {
  transaction_coordinators = insert s.transaction_coordinators key id;
}

abbrev pub found_at : FindCoordinator → BrokerMetadata
found_at f = record {
  node_id = coordinator f.coordinator_id;
  host = f.host;
  port = f.port;
  rack = none;
}

unfoldable pub add_coordinator :
    FindCoordinator → CoordinatorType → String → ClusterMetadata → Option NodeId × ClusterMetadata
add_coordinator f type key s =
    let id = coordinator f.coordinator_id in
    if is_no_error (for_code f.error_code)
    then (
      some id,
      coordinated type key id
          (record s { coordinator_brokers = insert s.coordinator_brokers id (found_at f) }),
    )
    else (none, coordinated type key (broker no_leader) s)

-- The calls, by the listeners of the cluster and the callbacks of its futures as well as by other
-- code. `want_all` writes need_all_topic_metadata; `on_done` is `add_both` on a future that
-- `request` returned, by its index.
pub data Action : Type 0 where
  request : Action
  listen unlisten : ℕ → Action
  coordinate : FindCoordinator → CoordinatorType → String → Action
  want_all : Bool → Action
  on_done : ℕ → ℕ → Action

abbrev pub with_callback : ℕ → ℕ → Option (Future Unit) → List (Future Unit) → List (Future Unit)
with_callback i f none futures = futures
with_callback i f (some future) futures = set futures i (Future.add_both f future)

unfoldable pub act : Action → Exec ClusterMetadata (Unit {0})
act request s = (ok tt, (request_update s).1)
act (listen f) s = (ok tt, add_listener f s)
act (unlisten f) s = remove_listener f s
act (coordinate found type key) s = (ok tt, (add_coordinator found type key s).1)
act (want_all b) s = (ok tt, record s { need_all_topic_metadata = b })
act (on_done i f) s =
    (ok tt, record s { futures = with_callback i f (get_elem? s.futures i) s.futures })

unfoldable pub acts : List Action → Exec ClusterMetadata (Unit {0})
unfolding act
acts [] s = (ok tt, s)
acts (a ∷ rest) s = let (r, t) = act a s in continue r (λ _. acts rest) t

-- What a listener or a callback does to the cluster when it is called: the calls that it makes, and
-- what it raises in the end.
pub record Reaction : Type 0 where
  pub actions : List Action
  pub raises : Option Exc

-- The listeners and callbacks by the numbers that name them; each may depend on the state.
abbrev pub Reactions : Type 0
Reactions = ℕ → ClusterMetadata → Reaction

abbrev pub raised : Option Exc → Exec ClusterMetadata (Unit {0})
raised none s = (ok tt, s)
raised (some e) s = (err e, s)

unfoldable pub perform : Reaction → Exec ClusterMetadata (Unit {0})
unfolding acts
perform reaction s =
    let (r, t) = acts reaction.actions s in continue r (λ _. raised reaction.raises) t
