-- ===== src/Session/Heartbeat.antt =====
-- crates/rsms-session/src/heartbeat.rs: the heartbeat timer. Time is an argument.
use rsms.Common.{ℕ, ◌-◌, ◌≡◌, refl, Bool, true, false, List, [], ◌∷◌, ltb, leb, if◌then◌else◌}

pub record HeartbeatConfig : Type 0 where
  pub interval : ℕ
  pub timeout : ℕ

pub record HeartbeatState : Type 0 where
  pub last_sent : ℕ
  pub last_response : ℕ
  pub consecutive_failures : ℕ

unfoldable pub new_state : ℕ → HeartbeatState
new_state now = record { last_sent = now; last_response = now; consecutive_failures = 0 }

unfoldable pub record_sent : HeartbeatState → ℕ → HeartbeatState
record_sent s now = record s { last_sent = now }

unfoldable pub record_response : HeartbeatState → ℕ → HeartbeatState
record_response s now = record s { last_response = now; consecutive_failures = 0 }

unfoldable pub is_timeout : HeartbeatState → ℕ → ℕ → Bool
is_timeout s timeout now = ltb timeout (now - s.last_response)

unfoldable pub should_retry : HeartbeatState → ℕ → Bool
should_retry s max_retries = ltb s.consecutive_failures max_retries

pub record HeartbeatTimer : Type 0 where
  pub config : HeartbeatConfig
  pub state : HeartbeatState
  pub running : Bool

unfoldable pub new : HeartbeatConfig → ℕ → HeartbeatTimer
unfolding new_state
new config now = record { config = config; state = new_state now; running = false }

unfoldable pub start : HeartbeatTimer → HeartbeatTimer
start t = record t { running = true }

unfoldable pub stop : HeartbeatTimer → HeartbeatTimer
stop t = record t { running = false }

unfoldable pub record_heartbeat_sent : HeartbeatTimer → ℕ → HeartbeatTimer
unfolding record_sent
record_heartbeat_sent t now = record t { state = record_sent t.state now }

unfoldable pub record_heartbeat_response : HeartbeatTimer → ℕ → HeartbeatTimer
unfolding record_response
record_heartbeat_response t now = record t { state = record_response t.state now }

unfoldable pub is_timed_out : HeartbeatTimer → ℕ → Bool
unfolding is_timeout
is_timed_out t now = is_timeout t.state t.config.timeout now

unfoldable pub should_send_heartbeat : HeartbeatTimer → ℕ → Bool
should_send_heartbeat t now =
    if t.running then leb t.config.interval (now - t.state.last_sent) else false

-- One call of the timer, at a time.
pub data Call : Type 0 where
  starts stops sends responds : Call

unfoldable pub run : HeartbeatTimer → List (ℕ × Call) → HeartbeatTimer
unfolding start stop record_heartbeat_sent record_heartbeat_response
run t [] = t
run t ((now, starts) ∷ calls) = run (start t) calls
run t ((now, stops) ∷ calls) = run (stop t) calls
run t ((now, sends) ∷ calls) = run (record_heartbeat_sent t now) calls
run t ((now, responds) ∷ calls) = run (record_heartbeat_response t now) calls

run-failures :
    (t : HeartbeatTimer) (calls : List (ℕ × Call))
    → t.state.consecutive_failures ≡ 0
    → (run t calls).state.consecutive_failures ≡ 0
unfolding run record_sent record_response
run-failures t [] h = h
run-failures t ((now, starts) ∷ calls) h = run-failures (start t) calls h
run-failures t ((now, stops) ∷ calls) h = run-failures (stop t) calls h
run-failures t ((now, sends) ∷ calls) h = run-failures (record_heartbeat_sent t now) calls h
run-failures t ((now, responds) ∷ calls) h =
    run-failures (record_heartbeat_response t now) calls refl

-- Whatever calls are made on a new timer, and however long no response comes, another retry is
-- allowed as soon as the limit is above zero: no call counts a failure.
pub should_retry-run :
    (config : HeartbeatConfig) (now max_retries : ℕ) (calls : List (ℕ × Call))
    → should_retry (run (new config now) calls).state max_retries ≡ ltb 0 max_retries
unfolding should_retry new new_state
should_retry-run config now max_retries calls = rw (run-failures (new config now) calls refl)
