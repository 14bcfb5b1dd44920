-- ===== src/Heartbeat/Deadlines.antt =====
-- The deadlines after each event.
use kafka_python.Common.{ℕ, ◌+◌, ◌≤◌, ◌<◌, ◌≡◌, ◌↔◌, true, false, arith}
use kafka_python.Heartbeat.{
  Heartbeat, sent_heartbeat, fail_heartbeat, received_heartbeat, reset_timeouts, poll, latest,
  delay, time_to_next_heartbeat, should_heartbeat, session_timeout_expired, poll_timeout_expired,
}

-- After a heartbeat was sent, at a time not before the last reset, the next one is due exactly when
-- the heartbeat interval has passed; once that heartbeat has failed, when the retry backoff has
-- passed since it was sent.
pub sent_heartbeat_lem :
    (s : Heartbeat) (sent now : ℕ)
    → s.last_reset ≤ sent
    → ((should_heartbeat now (sent_heartbeat sent s) ≡ true)
        ↔ (sent + s.config.heartbeat_interval_ms ≤ now))
      × ((should_heartbeat now (fail_heartbeat (sent_heartbeat sent s)) ≡ true)
          ↔ (sent + s.config.retry_backoff_ms ≤ now))
unfolding should_heartbeat time_to_next_heartbeat sent_heartbeat fail_heartbeat delay latest
sent_heartbeat_lem s sent now h = ground arith

-- After a heartbeat was received and then the timeouts were reset, the session has expired exactly
-- when more than the session timeout has passed since the reset, and the poll exactly when more than
-- the poll interval has; at a poll it has not.
pub reset_timeouts_lem :
    (s : Heartbeat) (received reset now : ℕ)
    → received ≤ reset
    → let t = reset_timeouts reset (received_heartbeat received s) in
      ((session_timeout_expired now t ≡ true) ↔ (reset + s.config.session_timeout_ms < now))
      × ((poll_timeout_expired now t ≡ true) ↔ (reset + s.config.max_poll_interval_ms < now))
      × (poll_timeout_expired now (poll now t) ≡ false)
unfolding reset_timeouts received_heartbeat session_timeout_expired poll_timeout_expired poll latest
reset_timeouts_lem s received reset now h = ground arith
