-- ===== src/Agent/Reconnect.antt =====
-- `New` and `Run` in agent/internal/gatewayclient/client.go: sessions one after the other, with a
-- growing delay between them. What a call of `Connect` and of `wait` comes to is an argument. A
-- duration is a number of nanoseconds.
pub mod Delays
pub mod Counters
mod Examples
use my_ngrok.Base.{
  u64, ℕ, ◌+◌, ◌*◌, ◌%◌, Bool, true, false, List, [], ◌∷◌, ◌++◌, ltb, if◌then◌else◌,
}

pub record SessionMetrics : Type 0 where
  pub active_sessions : ℕ
  pub connections_total : ℕ
  pub disconnections_total : ℕ

-- The client's two delays.
pub record Client : Type 0 where
  pub reconnect_initial_delay : ℕ
  pub reconnect_max_delay : ℕ

abbrev pub second : ℕ
second = 1000000000

unfoldable pub new : Client
new = record { reconnect_initial_delay = second; reconnect_max_delay = 30 * second }

-- One call of `Connect`, and what follows it: it got as far as a session, the caller's context is
-- done on its return, it returned an error, and the wait ended by itself.
pub record Attempt : Type 0 where
  pub connected : Bool
  pub context_done : Bool
  pub errored : Bool
  pub waited : Bool

-- The loop's variables, the metrics that were reported, and the delays that were announced.
pub record Run : Type 0 where
  pub delay : ℕ
  pub metrics : SessionMetrics
  pub reports : List SessionMetrics
  pub retries : List ℕ

pub data Progress : Type 0 where
  looping : Run → Progress
  returned : Run → Progress

unfoldable pub begin_run : Client → Run
begin_run c = record {
  delay = c.reconnect_initial_delay;
  metrics = record { active_sessions = 0; connections_total = 0; disconnections_total = 0 };
  reports = [];
  retries = [];
}

pub report : SessionMetrics → Run → Run
report m r = record r { metrics = m; reports = r.reports ++ m ∷ [] }

pub on_connected : Run → Run
unfolding report
on_connected r =
    report
      (record (r.metrics) {
        active_sessions = 1;
        connections_total = u64 (r.metrics.connections_total + 1);
      })
      r

pub on_disconnected : Run → Run
unfolding report
on_disconnected r =
    report
      (record (r.metrics) {
        active_sessions = 0;
        disconnections_total = u64 (r.metrics.disconnections_total + 1);
      })
      r

pub session : Run → Bool → Run
unfolding on_connected on_disconnected
session r connected = if connected then on_disconnected (on_connected r) else r

abbrev pub next_delay : Client → ℕ → ℕ
next_delay c delay =
    if ltb c.reconnect_max_delay (delay * 2) then c.reconnect_max_delay else delay * 2

pub retry : Client → Run → Bool → Progress
retry c r waited =
    let r' = record r { retries = r.retries ++ r.delay ∷ [] } in
    if waited then looping (record r' { delay = next_delay c r.delay }) else returned r'

unfoldable pub iterate : Client → Run → Attempt → Progress
unfolding session retry
iterate c r a =
    let r' = session r a.connected in
    if a.context_done
    then returned r'
    else if a.errored
    then retry c r' a.waited
    else looping (record r' { delay = c.reconnect_initial_delay })

unfoldable pub run : Client → Progress → List Attempt → Progress
run c (looping r) (a ∷ attempts) = run c (iterate c r a) attempts
run c (looping r) [] = looping r
run c (returned r) attempts = returned r
