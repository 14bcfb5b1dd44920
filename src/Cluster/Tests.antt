-- ===== src/Cluster/Tests.antt =====
-- A cluster at concrete responses.
use kafka_python.Common.{
  ℕ, ◌+◌, ◌≡◌, refl, true, false, none, some, List, [], ◌∷◌, arith, if◌then◌else◌,
}
use kafka_python.Common.Int.{ℤ, pos, negsuc}
use kafka_python.Common.Set.{contains}
use kafka_python.Common.Dict.{lookup, insert}
use kafka_python.Errors.{for_code, value_error}
use kafka_python.Common.Eq.{◌==◌, nat_eq}
use kafka_python.Common.Set
use kafka_python.Future
use kafka_python.Future.{success}
use kafka_python.Structs.{TopicPartition, tp_eq}
use kafka_python.Cluster.{
  ClusterMetadata, init, broker, leader_for_partition, partitions_for_broker,
}
use kafka_python.Cluster.Reading.{
  MetadataResponse, TopicData, PartitionData, read_topics, read_topic, read_as, put_all, put,
  set_at, metadata_of, members,
}
use kafka_python.Cluster.Calls.{
  Action, listen, on_done, act, acts, perform, Reactions, request_update, add_listener,
}
use kafka_python.Cluster.Update.{updated, reading, call_backs, complete, notify, update_metadata}
use kafka_python.Cluster.Runs.{Call, update, other, run, leaders_indexed}
use kafka_python.Cluster.Refresh.{IsDueFrom, IsDueAfter, update_metadata_lem}

abbrev led : ℕ → ℤ → PartitionData
led p leader = record {
  p_error = pos 0;
  partition = p;
  leader = leader;
  leader_epoch = pos 3;
  replicas = leader ∷ [];
  isr = leader ∷ [];
  offline_replicas = [];
}

abbrev orders : TopicData
orders = record {
  error_code = pos 0;
  topic = "orders";
  is_internal = false;
  partitions = led 0 (pos 1) ∷ led 1 (negsuc 0) ∷ led 2 (pos 2) ∷ [];
}

abbrev metadata : MetadataResponse
metadata = record {
  api_version = 7;
  brokers = record { node_id = pos 1; host = "a"; port = pos 9092; rack = none } ∷ [];
  cluster_id = some "c";
  controller_id = pos 1;
  topics = orders ∷ [];
}

-- A callback of the future that raises, and a listener that asks for another update.
abbrev react : Reactions
react f s =
    if f == 4
    then record { actions = []; raises = some value_error }
    else record { actions = Action.request ∷ []; raises = none }

abbrev calls : List Call
calls =
    other (listen 7)
    ∷ other Action.request
    ∷ other (on_done 0 4)
    ∷ update 1000 metadata
    ∷ other Action.request
    ∷ []

abbrev third : TopicPartition
third = record { topic = "orders"; partition = 2 }

led_by_two : leader_for_partition (run react calls (init [] 100 300000)) third ≡ some (pos 2)
unfolding leader_for_partition run init act add_listener Set.add Set.contains update_metadata
    request_update updated reading read_topics read_topic read_as for_code put_all put set_at
    metadata_of lookup insert complete call_backs notify perform acts success Future.init
    Future.add_both Future.add_errback Future.add_callback
led_by_two = refl

leaders_indexed_example :
    contains
      (members (partitions_for_broker (run react calls (init [] 100 300000)) (broker (pos 2))))
      third
    ≡ true
leaders_indexed_example =
    leaders_indexed react [] 100 300000 calls third (pos 2) led_by_two (λ q. ground arith)

-- The listener is called, and its request outlives the update.
asked_again :
    let t = run react (other (listen 7) ∷ update 1000 metadata ∷ []) (init [] 100 300000) in
    (t.notified ≡ 7 ∷ []) × (t.need_update ≡ true)
unfolding run init act add_listener Set.add Set.contains update_metadata request_update updated
    complete notify perform acts
asked_again = (refl, refl)

abbrev listening : ClusterMetadata
listening = record (init [] 100 300000) { listeners = 7 ∷ [] }

update_metadata_example :
    IsDueAfter react 1000 listening (update_metadata react 1000 metadata listening)
    × IsDueFrom (request_update (update_metadata react 1000 metadata listening).1).1 (100 + 1000)
unfolding init
update_metadata_example = update_metadata_lem react 1000 metadata listening refl refl
