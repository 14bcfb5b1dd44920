-- ===== src/Heartbeat.antt =====
-- kafka/coordinator/heartbeat.py: when a group member sends heartbeats, and when it gives up.
pub mod Deadlines
mod Tests
use kafka_python.Common.{
  ℕ, ◌+◌, ◌-◌, Bool, true, false, Option, none, some, String, is_some, leb, ltb, ◌&&◌, nat_beq,
  if◌then◌else◌,
}

-- What the configuration says. Times are whole milliseconds; the code counts in seconds.
pub record Config : Type 0 where
  pub group_id : Option String
  pub heartbeat_interval_ms : ℕ
  pub session_timeout_ms : ℕ
  pub max_poll_interval_ms : ℕ
  pub retry_backoff_ms : ℕ

-- A time of none is minus infinity. `heartbeat_failed` starts as None, which is no failure.
pub record Heartbeat : Type 0 where
  pub config : Config
  pub last_send : Option ℕ
  pub last_receive : Option ℕ
  pub last_poll : Option ℕ
  pub last_reset : ℕ
  pub heartbeat_failed : Option Bool

-- `__init__` at the time `now`; none is KafkaConfigurationError.
unfoldable pub init : Config → ℕ → Option Heartbeat
init config now =
    if is_some config.group_id && leb config.session_timeout_ms config.heartbeat_interval_ms
    then none
    else some (record {
      config = config;
      last_send = none;
      last_receive = none;
      last_poll = none;
      last_reset = now;
      heartbeat_failed = none;
    })

unfoldable pub poll : ℕ → Heartbeat → Heartbeat
poll now s = record s { last_poll = some now }

unfoldable pub sent_heartbeat : ℕ → Heartbeat → Heartbeat
sent_heartbeat now s = record s { last_send = some now; heartbeat_failed = some false }

unfoldable pub fail_heartbeat : Heartbeat → Heartbeat
fail_heartbeat s = record s { heartbeat_failed = some true }

unfoldable pub received_heartbeat : ℕ → Heartbeat → Heartbeat
received_heartbeat now s = record s { last_receive = some now }

unfoldable pub reset_timeouts : ℕ → Heartbeat → Heartbeat
reset_timeouts now s = record s {
  last_reset = now;
  last_poll = some now;
  heartbeat_failed = some false;
}

-- `max(t, reset)`
unfoldable pub latest : Option ℕ → ℕ → ℕ
latest none reset = reset
latest (some t) reset = if leb reset t then t else reset

abbrev pub has_failed : Option Bool → Bool
has_failed none = false
has_failed (some b) = b

-- The delay that applies.
unfoldable pub delay : Heartbeat → ℕ
delay s =
    if has_failed s.heartbeat_failed
    then s.config.retry_backoff_ms
    else s.config.heartbeat_interval_ms

-- `max(0, delay - (now - last))`: the clock may stand before the last heartbeat, so the difference
-- is taken as `delay + last - now`.
unfoldable pub time_to_next_heartbeat : ℕ → Heartbeat → ℕ
time_to_next_heartbeat now s = delay s + latest s.last_send s.last_reset - now

unfoldable pub should_heartbeat : ℕ → Heartbeat → Bool
should_heartbeat now s = nat_beq (time_to_next_heartbeat now s) 0

unfoldable pub session_timeout_expired : ℕ → Heartbeat → Bool
session_timeout_expired now s =
    ltb (latest s.last_receive s.last_reset + s.config.session_timeout_ms) now

unfoldable pub poll_timeout_expired : ℕ → Heartbeat → Bool
poll_timeout_expired now s = elim s.last_poll [
  | none ↦ true
  | some t ↦ ltb (t + s.config.max_poll_interval_ms) now
]
