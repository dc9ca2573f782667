-- ===== src/Server/Metrics.antt =====
-- backend/internal/server/metrics.go: the counters that the middleware keeps. Requests are served at the
-- same time, so the start of a request and its end are two events; each holds the lock for all that it
-- does to the map. The counters are uint64; the sum of the durations stays below 292 years.
pub mod Counts
mod Examples
use my_ngrok.Base.{u64, ℕ, ◌+◌, ◌%◌, List, [], ◌∷◌, ◌++◌, Bytes, bytes, bytes_eq, if◌then◌else◌}
use my_ngrok.Map.{Map, get, put, value_or}
use my_ngrok.Strings.{has_prefix}

pub record MetricValue : Type 0 where
  pub count : ℕ
  pub duration : ℕ
  pub in_flight : ℕ

-- `&metricValue{}`
abbrev pub no_value : MetricValue
no_value = record { count = 0; duration = 0; in_flight = 0 }

-- The field `values`.
abbrev pub Metrics : Type 0
Metrics = Map MetricValue

unfoldable pub new_metrics : Metrics
new_metrics = []

-- `m.value(key)`, whose entry is put back by what follows.
unfoldable pub value : Metrics → Bytes → MetricValue
value m key = value_or no_value (get m key)

unfoldable pub metric_route : Bytes → Bytes
metric_route path =
    if has_prefix path (bytes "/api/")
    then bytes "api"
    else if has_prefix path (bytes "/health/")
    then bytes "health"
    else bytes "tunnel"

unfoldable pub metric_key : Bytes → Bytes → Bytes
metric_key method path = method ++ bytes ":" ++ metric_route path

-- `inFlight++`
abbrev pub begun : MetricValue → MetricValue
begun v = record v { in_flight = u64 (v.in_flight + 1) }

-- `inFlight--`, `count++` and the duration
abbrev pub ended : ℕ → MetricValue → MetricValue
ended elapsed v = record {
  count = u64 (v.count + 1);
  duration = v.duration + elapsed;
  in_flight = u64 (v.in_flight + 18446744073709551615);
}

-- The two critical sections of `Middleware`, on either side of the call of `next`, with the method, the
-- path and the time that the call has taken.
pub data Event : Type 0 where
  starts : Bytes → Bytes → Event
  ends : Bytes → Bytes → ℕ → Event

abbrev pub metrics_path : Bytes
metrics_path = bytes "/metrics"

unfoldable pub middleware : Metrics → Event → Metrics
middleware m (starts method path) =
    let key = metric_key method path in
    if bytes_eq path metrics_path then m else put m key (begun (value m key))
middleware m (ends method path elapsed) =
    let key = metric_key method path in
    if bytes_eq path metrics_path then m else put m key (ended elapsed (value m key))
