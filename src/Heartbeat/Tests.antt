-- ===== src/Heartbeat/Tests.antt =====
-- A member's heartbeats at concrete times.
use kafka_python.Common.{◌+◌, ◌≤◌, ◌<◌, ◌≡◌, ◌↔◌, refl, true, false, none, some, arith}
use kafka_python.Heartbeat.{
  Config, Heartbeat, init, sent_heartbeat, fail_heartbeat, received_heartbeat, reset_timeouts, poll,
  should_heartbeat, session_timeout_expired, poll_timeout_expired,
}
use kafka_python.Heartbeat.Deadlines.{sent_heartbeat_lem, reset_timeouts_lem}

abbrev config : Config
config = record {
  group_id = some "group";
  heartbeat_interval_ms = 3000;
  session_timeout_ms = 10000;
  max_poll_interval_ms = 300000;
  retry_backoff_ms = 100;
}

abbrev started : Heartbeat
started = record {
  config = config;
  last_send = none;
  last_receive = none;
  last_poll = none;
  last_reset = 1000;
  heartbeat_failed = none;
}

init_started : init config 1000 ≡ some started
unfolding init
init_started = refl

sent_heartbeat_example :
    ((should_heartbeat 5000 (sent_heartbeat 2000 started) ≡ true) ↔ (2000 + 3000 ≤ 5000))
    × ((should_heartbeat 5000 (fail_heartbeat (sent_heartbeat 2000 started)) ≡ true)
        ↔ (2000 + 100 ≤ 5000))
sent_heartbeat_example = sent_heartbeat_lem started 2000 5000 (omega arith)

reset_timeouts_example :
    let t = reset_timeouts 3000 (received_heartbeat 2500 started) in
    ((session_timeout_expired 20000 t ≡ true) ↔ (3000 + 10000 < 20000))
    × ((poll_timeout_expired 20000 t ≡ true) ↔ (3000 + 300000 < 20000))
    × (poll_timeout_expired 20000 (poll 20000 t) ≡ false)
reset_timeouts_example = reset_timeouts_lem started 2500 3000 20000 (omega arith)
