-- ===== src/Traffic.antt =====
-- backend/internal/traffic/service.go, and flushTraffic of backend/cmd/server/main.go. The table
-- `traffic_totals` is a map from users to their totals, which are BIGINT.
pub mod Flush
mod Examples
use my_ngrok.Base.{
  Fate, exec, ℕ, ◌+◌, Bool, true, false, ◌||◌, List, [], ◌∷◌, Option, none, some, Bytes, ltb,
  if◌then◌else◌,
}
use my_ngrok.Map.{Map, get, put, value_or}
use my_ngrok.Tunnels.Registry.{TrafficMetrics, Registry, no_traffic, drain_user_deltas}

abbrev pub Totals : Type 0
Totals = Map TrafficMetrics

abbrev pub max_bigint : ℕ
max_bigint = 9223372036854775807

-- A counter that BIGINT does not hold.
abbrev pub overflows : TrafficMetrics → Bool
overflows t =
    ltb max_bigint t.requests_total
    || ltb max_bigint t.request_bytes
    || ltb max_bigint t.response_bytes

abbrev pub added : TrafficMetrics → TrafficMetrics → TrafficMetrics
added total delta = record {
  requests_total = total.requests_total + delta.requests_total;
  request_bytes = total.request_bytes + delta.request_bytes;
  response_bytes = total.response_bytes + delta.response_bytes;
}

-- INSERT ... ON CONFLICT (user_id) DO UPDATE, which is refused when a counter is out of range. A user with
-- no row has the totals 0.
unfoldable pub add_delta : Totals → Bytes → TrafficMetrics → Fate → Totals × Bool
add_delta t user_id delta update =
    let sum = added (value_or no_traffic (get t user_id)) delta in
    if overflows sum then (t, false) else exec update t (put t user_id sum)

-- `GetTotals`, whose SELECT may fail.
unfoldable pub get_totals : Totals → Bytes → Bool → Option TrafficMetrics
get_totals t user_id select_fails =
    if select_fails then none else some (value_or no_traffic (get t user_id))

-- The loop over the drained deltas, each with the fate of its statement; an error is only logged.
unfoldable pub flush_all : Totals → Map TrafficMetrics → (Bytes → Fate) → Totals
flush_all t [] fates = t
flush_all t ((user_id, delta) ∷ deltas) fates =
    flush_all (add_delta t user_id delta (fates user_id)).0 deltas fates

unfoldable pub flush_traffic : Registry → Totals → (Bytes → Fate) → Registry × Totals
flush_traffic r t fates = let (r', deltas) = drain_user_deltas r in (r', flush_all t deltas fates)
