-- ===== src/Cluster/Reading.antt =====
-- kafka/cluster.py: how update_metadata reads a response.
use kafka_python.Common.{
  ℕ, String, Bool, true, false, not, ◌&&◌, List, [], ◌∷◌, Option, none, some, if◌then◌else◌, leb,
  nat_beq,
}
use kafka_python.Common.Int.{ℤ, negsuc}
use kafka_python.Common.Eq.{string_eq, nat_eq, int_eq, ◌==◌}
use kafka_python.Common.Dict.{Dict, lookup, insert}
use kafka_python.Common.Set.{add}
use kafka_python.Errors.{no_error, topic_authorization_failed, for_code, BrokerError}
use kafka_python.Structs.{TopicPartition, tp_eq}
use kafka_python.Cluster.{NodeId, broker, node_eq, BrokerMetadata, PartitionMetadata, no_leader}

-- A MetadataResponse. What the older versions leave out is there and not read, as the code reads it
-- by API_VERSION.
pub record BrokerData : Type 0 where
  pub node_id : ℤ
  pub host : String
  pub port : ℤ
  pub rack : Option String

pub record PartitionData : Type 0 where
  pub p_error : ℤ
  pub partition : ℕ
  pub leader : ℤ
  pub leader_epoch : ℤ
  pub replicas : List ℤ
  pub isr : List ℤ
  pub offline_replicas : List ℤ

pub record TopicData : Type 0 where
  pub error_code : ℤ
  pub topic : String
  pub is_internal : Bool
  pub partitions : List PartitionData

pub record MetadataResponse : Type 0 where
  pub api_version : ℕ
  pub brokers : List BrokerData
  pub cluster_id : Option String
  pub controller_id : ℤ
  pub topics : List TopicData

unfoldable pub new_brokers :
    ℕ → List BrokerData → Dict NodeId BrokerMetadata → Dict NodeId BrokerMetadata
new_brokers version [] d = d
new_brokers version (b ∷ bs) d = new_brokers version bs (
    insert d (broker b.node_id) (record {
      node_id = broker b.node_id;
      host = b.host;
      port = b.port;
      rack = if nat_beq version 0 then none else b.rack;
    }))

-- The new dicts and sets, while the topics are read.
pub record Reading : Type 0 where
  pub partitions : Dict String (Dict ℕ PartitionMetadata)
  pub broker_partitions : Dict NodeId (List TopicPartition)
  pub unauthorized_topics : List String
  pub internal_topics : List String

abbrev pub members : Option (List TopicPartition) → List TopicPartition
members none = []
members (some tps) = tps

-- `d[leader].add(tp)`, on a `defaultdict(set)`
unfoldable pub add_at :
    Dict NodeId (List TopicPartition) → NodeId → TopicPartition → Dict NodeId (List TopicPartition)
add_at d id tp = insert d id (add (members (lookup d id)) tp)

abbrev pub dict_or_empty : Option (Dict ℕ PartitionMetadata) → Dict ℕ PartitionMetadata
dict_or_empty none = []
dict_or_empty (some d) = d

-- `d[topic][partition] = metadata`, where the topic is known
unfoldable pub set_at :
    Dict String (Dict ℕ PartitionMetadata)
    → PartitionMetadata
    → Dict String (Dict ℕ PartitionMetadata)
set_at d m = insert d m.topic (insert (dict_or_empty (lookup d m.topic)) m.partition m)

unfoldable pub metadata_of : ℕ → String → PartitionData → PartitionMetadata
metadata_of version topic d = record {
  topic = topic;
  partition = d.partition;
  leader = d.leader;
  leader_epoch = if leb 7 version then d.leader_epoch else negsuc 0;
  replicas = d.replicas;
  isr = d.isr;
  offline_replicas = if leb 5 version then d.offline_replicas else [];
  error = d.p_error;
}

unfoldable pub put : PartitionMetadata → Reading → Reading
put m r = record r {
  partitions = set_at r.partitions m;
  broker_partitions =
      if m.leader == no_leader
      then r.broker_partitions
      else add_at r.broker_partitions (broker m.leader)
          (record { topic = m.topic; partition = m.partition });
}

unfoldable pub put_all : ℕ → String → List PartitionData → Reading → Reading
put_all version topic [] r = r
put_all version topic (d ∷ ds) r = put_all version topic ds (put (metadata_of version topic d) r)

-- `error_type is Errors.NoError`
abbrev pub is_no_error : BrokerError → Bool
is_no_error no_error = true
is_no_error e = false

abbrev pub is_unauthorized : BrokerError → Bool
is_unauthorized topic_authorization_failed = true
is_unauthorized e = false

-- A topic by its error. In a full fetch the errors are skipped; the others come to log messages, but
-- for the one of the authorization.
unfoldable pub read_as : ℕ → Bool → BrokerError → TopicData → Reading → Reading
read_as version all e t r =
    if is_no_error e
    then put_all version t.topic t.partitions
        (record r { partitions = insert r.partitions t.topic [] })
    else if all
    then r
    else if is_unauthorized e
    then record r { unauthorized_topics = add r.unauthorized_topics t.topic }
    else r

unfoldable pub read_topic : ℕ → Bool → TopicData → Reading → Reading
read_topic version all t r =
    let internal = not (nat_beq version 0) && t.is_internal in
    read_as version all (for_code t.error_code) t (record r {
      internal_topics = if internal then add r.internal_topics t.topic else r.internal_topics;
    })

unfoldable pub read_topics : ℕ → Bool → List TopicData → Reading → Reading
read_topics version all [] r = r
read_topics version all (t ∷ ts) r = read_topics version all ts (read_topic version all t r)
