-- ===== src/Server/Metrics/Counts.antt =====
-- What the counters count.
use my_ngrok.Base.{
  u64, ℕ, ◌+◌, ◌<◌, Bool, not, ◌&&◌, List, [], ◌∷◌, Bytes, bytes_eq, if◌then◌else◌, ◌≡◌,
}
use my_ngrok.Server.Metrics.{
  MetricValue, Metrics, metric_key, metrics_path, begun, ended, Event, starts, ends, middleware,
}

-- The middleware over a history of requests that start and end, in any order.
unfoldable pub serve_all : Metrics → List Event → Metrics
serve_all m [] = m
serve_all m (e ∷ es) = serve_all (middleware m e) es

-- Whether a request of the method and the path counts under the key.
abbrev pub under : Bytes → Bytes → Bytes → Bool
under key method path = not (bytes_eq path metrics_path) && bytes_eq (metric_key method path) key

-- How many of the requests under the key have started, and how many have ended.
unfoldable pub started : Bytes → List Event → ℕ
started key [] = 0
started key (starts method path ∷ es) = (if under key method path then 1 else 0) + started key es
started key (ends method path elapsed ∷ es) = started key es

unfoldable pub finished : Bytes → List Event → ℕ
finished key [] = 0
finished key (starts method path ∷ es) = finished key es
finished key (ends method path elapsed ∷ es) =
    (if under key method path then 1 else 0) + finished key es

-- One event, for the key.
abbrev on_key : Bytes → Event → MetricValue → MetricValue
on_key key (starts method path) v = if under key method path then begun v else v
on_key key (ends method path elapsed) v = if under key method path then ended elapsed v else v

-- The counters of a key before and after a history: the requests under way are those before and those
-- that start, less those that end; the count grows by those that end. Both are modulo 2^64.
record Counted (v w : MetricValue) (s e : ℕ) : Type 0 where
  under_way : u64 (w.in_flight + e) ≡ u64 (v.in_flight + s)
  counted : u64 w.count ≡ u64 (v.count + e)
  small : v.in_flight < 18446744073709551616 → w.in_flight < 18446744073709551616
  small_count : v.count < 18446744073709551616 → w.count < 18446744073709551616
