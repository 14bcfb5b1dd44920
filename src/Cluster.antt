-- ===== src/Cluster.antt =====
-- kafka/cluster.py: what the client knows of brokers, topics, partitions and coordinators.
pub mod Reading
pub mod Calls
pub mod Update
pub mod Reacts
pub mod Indexed
pub mod Runs
pub mod Refresh
mod Tests
use kafka_python.Common.{
  ℕ, ◌+◌, ◌-◌, ◌≡◌, ◌↔◌, String, Bool, true, false, not, ◌&&◌, ◌||◌, List, [], ◌∷◌, ◌++◌, length,
  Option, none, some, is_empty, max, if◌then◌else◌, get_elem?, set, arith, nat_beq_iff, nat_beq,
}
use kafka_python.Common.Int.{ℤ, pos, negsuc, int_beq, int_beq_iff}
use kafka_python.Common.Eq.{Eq, string_eq, nat_eq, int_eq, ◌==◌}
use kafka_python.Common.Dict.{Dict, lookup, insert, member, keys_of}
use kafka_python.Common.Set.{contains, add, difference}
use kafka_python.Errors.{Exc, no_error, broker_error, key_error, for_code, BrokerError}
use kafka_python.Exec.{Exec, Result, ok, err}
use kafka_python.Structs.{TopicPartition, tp_eq}
use kafka_python.Future.{Future}
use kafka_python.Future

-- A node id: a number, or the strings 'bootstrap-0' and 'coordinator-0' with their numbers.
pub data NodeId : Type 0 where
  broker : ℤ → NodeId
  bootstrap : ℕ → NodeId
  coordinator : ℤ → NodeId

abbrev pub node_beq : NodeId → NodeId → Bool
node_beq (broker a) (broker b) = int_beq a b
node_beq (bootstrap a) (bootstrap b) = nat_beq a b
node_beq (coordinator a) (coordinator b) = int_beq a b
node_beq _ _ = false

pub node_beq_iff : (a b : NodeId) → (node_beq a b ≡ true) ↔ (a ≡ b)
node_beq_iff (broker a) (broker b) = ground (arith, int_beq_iff a b)
node_beq_iff (bootstrap a) (bootstrap b) = ground (arith, nat_beq_iff a b)
node_beq_iff (coordinator a) (coordinator b) = ground (arith, int_beq_iff a b)
node_beq_iff (broker a) (bootstrap b) = ground arith
node_beq_iff (broker a) (coordinator b) = ground arith
node_beq_iff (bootstrap a) (broker b) = ground arith
node_beq_iff (bootstrap a) (coordinator b) = ground arith
node_beq_iff (coordinator a) (broker b) = ground arith
node_beq_iff (coordinator a) (bootstrap b) = ground arith

instance abbrev pub node_eq : Eq NodeId
node_eq = record { same = node_beq; same_iff = node_beq_iff }

pub record BrokerMetadata : Type 0 where
  pub node_id : NodeId
  pub host : String
  pub port : ℤ
  pub rack : Option String

pub record PartitionMetadata : Type 0 where
  pub topic : String
  pub partition : ℕ
  pub leader : ℤ
  pub leader_epoch : ℤ
  pub replicas : List ℤ
  pub isr : List ℤ
  pub offline_replicas : List ℤ
  pub error : ℤ

-- 'group' or 'transaction'
pub data CoordinatorType : Type 0 where
  group transaction : CoordinatorType

-- The future of the next update is an index into `futures`, which callers hold too. `notified` has
-- the calls of listeners, which are numbers that name them, oldest first.
pub record ClusterMetadata : Type 0 where
  pub brokers : Dict NodeId BrokerMetadata
  pub partitions : Dict String (Dict ℕ PartitionMetadata)
  pub broker_partitions : Dict NodeId (List TopicPartition)
  pub group_coordinators : Dict String NodeId
  pub transaction_coordinators : Dict String NodeId
  pub last_refresh_ms : ℕ
  pub last_successful_refresh_ms : ℕ
  pub need_update : Bool
  pub future : Option ℕ
  pub futures : List (Future Unit)
  pub listeners : List ℕ
  pub notified : List ℕ
  pub need_all_topic_metadata : Bool
  pub unauthorized_topics : List String
  pub internal_topics : List String
  pub controller : Option BrokerMetadata
  pub cluster_id : Option String
  pub bootstrap_brokers : Dict NodeId BrokerMetadata
  pub coordinator_brokers : Dict NodeId BrokerMetadata
  pub retry_backoff_ms : ℕ
  pub metadata_max_age_ms : ℕ

-- `__init__`, with the brokers that collect_hosts and the configuration give.
unfoldable pub init : Dict NodeId BrokerMetadata → ℕ → ℕ → ClusterMetadata
init bootstrap_brokers retry_backoff_ms metadata_max_age_ms = record {
  brokers = [];
  partitions = [];
  broker_partitions = [];
  group_coordinators = [];
  transaction_coordinators = [];
  last_refresh_ms = 0;
  last_successful_refresh_ms = 0;
  need_update = true;
  future = none;
  futures = [];
  listeners = [];
  notified = [];
  need_all_topic_metadata = false;
  unauthorized_topics = [];
  internal_topics = [];
  controller = none;
  cluster_id = none;
  bootstrap_brokers = bootstrap_brokers;
  coordinator_brokers = [];
  retry_backoff_ms = retry_backoff_ms;
  metadata_max_age_ms = metadata_max_age_ms;
}

unfoldable pub is_bootstrap : ClusterMetadata → NodeId → Bool
is_bootstrap s id = member s.bootstrap_brokers id

abbrev pub values_of {ℓ κ} : {K : Type ℓ} {V : Type κ} → Dict K V → List V
values_of [] = []
values_of ((k, v) ∷ d) = v ∷ values_of d

-- `set(a) or set(b)`
unfoldable pub all_brokers : ClusterMetadata → List BrokerMetadata
all_brokers s =
    if is_empty (values_of s.brokers) then values_of s.bootstrap_brokers else values_of s.brokers

abbrev or_else {ℓ} : {A : Type ℓ} → Option A → Option A → Option A
or_else none b = b
or_else (some a) b = some a

unfoldable pub broker_metadata : ClusterMetadata → NodeId → Option BrokerMetadata
broker_metadata s id =
    or_else (lookup s.brokers id)
      (or_else (lookup s.bootstrap_brokers id) (lookup s.coordinator_brokers id))

abbrev pub key_set : Option (Dict ℕ PartitionMetadata) → Option (List ℕ)
key_set none = none
key_set (some d) = some (keys_of d)

unfoldable pub partitions_for_topic : ClusterMetadata → String → Option (List ℕ)
partitions_for_topic s topic = key_set (lookup s.partitions topic)

-- -1
abbrev pub no_leader : ℤ
no_leader = negsuc 0

unfoldable pub with_leader : Dict ℕ PartitionMetadata → List ℕ
with_leader [] = []
with_leader ((p, m) ∷ d) =
    let rest = with_leader d in if m.leader == no_leader then rest else p ∷ rest

abbrev leader_set : Option (Dict ℕ PartitionMetadata) → Option (List ℕ)
leader_set none = none
leader_set (some d) = some (with_leader d)

unfoldable pub available_partitions_for_topic : ClusterMetadata → String → Option (List ℕ)
available_partitions_for_topic s topic = leader_set (lookup s.partitions topic)

abbrev pub inner : Option (Dict ℕ PartitionMetadata) → ℕ → Option PartitionMetadata
inner none p = none
inner (some d) p = lookup d p

abbrev pub leader_of : Option PartitionMetadata → Option ℤ
leader_of none = none
leader_of (some m) = some m.leader

unfoldable pub leader_for_partition : ClusterMetadata → TopicPartition → Option ℤ
leader_for_partition s tp = leader_of (inner (lookup s.partitions tp.topic) tp.partition)

abbrev epoch_of : Option PartitionMetadata → Result ℤ
epoch_of none = err key_error
epoch_of (some m) = ok m.leader_epoch

unfoldable pub leader_epoch_for_partition : ClusterMetadata → TopicPartition → Result ℤ
leader_epoch_for_partition s tp = epoch_of (inner (lookup s.partitions tp.topic) tp.partition)

unfoldable pub partitions_for_broker : ClusterMetadata → NodeId → Option (List TopicPartition)
partitions_for_broker s id = lookup s.broker_partitions id

unfoldable pub coordinator_for_group : ClusterMetadata → String → Option NodeId
coordinator_for_group s name = lookup s.group_coordinators name

-- Milliseconds; below 0 they count as 0.
unfoldable pub ttl : ClusterMetadata → ℕ → ℕ
ttl s now =
    max (if s.need_update then 0 else s.metadata_max_age_ms + s.last_successful_refresh_ms - now)
      (s.retry_backoff_ms + s.last_refresh_ms - now)

unfoldable pub topics : ClusterMetadata → Bool → List String
topics s exclude_internal_topics =
    if exclude_internal_topics
    then difference (keys_of s.partitions) s.internal_topics
    else keys_of s.partitions
