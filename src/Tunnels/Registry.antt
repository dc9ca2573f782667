-- ===== src/Tunnels/Registry.antt =====
-- backend/internal/tunnels/registry.go: the routes of the open tunnels, and their traffic. Each
-- method holds the registry's lock from end to end, so a call is one step. Counters are uint64.
pub mod Routes
pub mod Closing
pub mod Books
pub mod Ledger
mod Examples
use my_ngrok.Base.{
  u64, ℕ, ◌+◌, ◌%◌, Bool, true, false, List, [], ◌∷◌, Option, none, some, Bytes, bytes_eq, ℤ, pos,
  pos_part, ltb_ℤ, if◌then◌else◌,
}
use my_ngrok.Map.{Map, get, put, delete, size, value_or}

pub record ActiveTunnel : Type 0 where
  pub id : Bytes
  pub subdomain : Bytes
  pub agent_id : Bytes
  pub user_id : Bytes
  pub session_id : Bytes
  pub local_address : Bytes

pub record TrafficMetrics : Type 0 where
  pub requests_total : ℕ
  pub request_bytes : ℕ
  pub response_bytes : ℕ

pub record Registry : Type 0 where
  pub by_subdomain : Map ActiveTunnel
  pub by_id : Map Bytes
  pub traffic : TrafficMetrics
  pub per_user : Map TrafficMetrics

abbrev pub no_tunnel : ActiveTunnel
no_tunnel = record {
  id = [];
  subdomain = [];
  agent_id = [];
  user_id = [];
  session_id = [];
  local_address = [];
}

abbrev pub no_traffic : TrafficMetrics
no_traffic = record { requests_total = 0; request_bytes = 0; response_bytes = 0 }

unfoldable pub new_registry : Registry
new_registry = record { by_subdomain = []; by_id = []; traffic = no_traffic; per_user = [] }

unfoldable pub open_tunnel : Registry → ActiveTunnel → Registry
open_tunnel r tunnel = record r {
  by_subdomain = put r.by_subdomain tunnel.subdomain tunnel;
  by_id = put r.by_id tunnel.id tunnel.subdomain;
}

unfoldable pub get_tunnel : Registry → Bytes → Option ActiveTunnel
get_tunnel r subdomain = get r.by_subdomain subdomain

abbrev forget : Registry → Bytes → Bytes → Registry
forget r id subdomain = record r {
  by_id = delete r.by_id id;
  by_subdomain = delete r.by_subdomain subdomain;
}

close_found : Registry → Bytes → Option Bytes → Registry × Bool
close_found r id none = (r, false)
close_found r id (some subdomain) = (forget r id subdomain, true)

unfoldable pub close_tunnel : Registry → Bytes → Registry × Bool
unfolding close_found
close_tunnel r id = close_found r id (get r.by_id id)

-- One round of the loop of `CloseSession`. An entry that is gone by now is not visited.
visit : Registry → Bytes → Bytes → Option Bytes → Registry
visit r session_id id none = r
visit r session_id id (some subdomain) =
    if bytes_eq (value_or no_tunnel (get r.by_subdomain subdomain)).session_id session_id
    then forget r id subdomain
    else r

-- `range` goes through the keys of a map in an order of its own: the list of IDs is that order.
unfoldable pub close_session : List Bytes → Registry → Bytes → Registry
unfolding visit
close_session [] r session_id = r
close_session (id ∷ order) r session_id =
    close_session order (visit r session_id id (get r.by_id id)) session_id

unfoldable pub count : Registry → ℕ
count r = size r.by_id

-- `if n > 0 { total += uint64(n) }`
abbrev pub add_bytes : ℕ → ℤ → ℕ
add_bytes total n = if ltb_ℤ (pos 0) n then u64 (total + pos_part n) else total

-- The three increments that `RecordTraffic` makes on the total and on the user's delta.
abbrev pub bump : TrafficMetrics → ℤ → ℤ → TrafficMetrics
bump t request_bytes response_bytes = record {
  requests_total = u64 (t.requests_total + 1);
  request_bytes = add_bytes t.request_bytes request_bytes;
  response_bytes = add_bytes t.response_bytes response_bytes;
}

bump_user : Map TrafficMetrics → Bytes → ℤ → ℤ → Map TrafficMetrics
bump_user m user_id request_bytes response_bytes =
    if bytes_eq user_id []
    then m
    else put m user_id (bump (value_or no_traffic (get m user_id)) request_bytes response_bytes)

record_found : Registry → Option Bytes → ℤ → ℤ → Registry
unfolding bump_user
record_found r none request_bytes response_bytes = r
record_found r (some subdomain) request_bytes response_bytes = record r {
  traffic = bump r.traffic request_bytes response_bytes;
  per_user =
      bump_user r.per_user (value_or no_tunnel (get r.by_subdomain subdomain)).user_id request_bytes
        response_bytes;
}

unfoldable pub record_traffic : Registry → Bytes → ℤ → ℤ → Registry
unfolding record_found
record_traffic r tunnel_id request_bytes response_bytes =
    record_found r (get r.by_id tunnel_id) request_bytes response_bytes

unfoldable pub traffic_metrics : Registry → TrafficMetrics
traffic_metrics r = r.traffic

unfoldable pub drain_user_deltas : Registry → Registry × Map TrafficMetrics
drain_user_deltas r = (record r { per_user = [] }, r.per_user)
