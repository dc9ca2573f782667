-- ===== src/Traffic/Examples.antt =====
-- A flush of two users, whose first statement is executed and whose second is not.
use my_ngrok.Base.{
  Fate, executed, not_executed, [], ◌∷◌, Bytes, bytes, bytes_eq, if◌then◌else◌, ◌≡◌, refl,
}
use my_ngrok.Map.{Map, get, Distinct}
use my_ngrok.Tunnels.Registry.{TrafficMetrics, Registry, no_traffic}
use my_ngrok.Traffic.{flush_traffic}
use my_ngrok.Traffic.Flush.{settled, total_of, flush_traffic_lem}

abbrev delta : TrafficMetrics
delta = record { requests_total = 2; request_bytes = 30; response_bytes = 400 }

abbrev deltas : Map TrafficMetrics
deltas = (bytes "u1", delta) ∷ (bytes "u2", delta) ∷ []

abbrev registry : Registry
registry = record { by_subdomain = []; by_id = []; traffic = no_traffic; per_user = deltas }

abbrev fates : Bytes → Fate
fates user = if bytes_eq user (bytes "u1") then executed else not_executed

deltas-Distinct : Distinct deltas
unfolding get bytes_eq
deltas-Distinct = (refl, (refl, tt))

flush_traffic_lem_example :
    ((flush_traffic registry [] fates).0.per_user ≡ [])
    × (total_of (flush_traffic registry [] fates).1 (bytes "u2")
        ≡ settled (fates (bytes "u2")) (total_of [] (bytes "u2")) (get deltas (bytes "u2")))
flush_traffic_lem_example = flush_traffic_lem registry [] fates (bytes "u2") deltas-Distinct
