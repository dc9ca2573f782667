-- ===== src/Gateway/Sessions.antt =====
-- backend/internal/gateway/session_manager.go, each method as a function of the manager's state.
-- A method holds the lock for all that it does to the maps, so a call is one step. The counters
-- are uint64 and wrap; `len` of a map is below 2^64, so a snapshot's conversions change nothing.
pub mod Pending
pub mod Invariant
pub mod Trace
pub mod Removal
mod Examples
use my_ngrok.Base.{
  u64, ℕ, suc, ◌+◌, ◌%◌, ◌<◌, Bool, true, false, not, ◌&&◌, List, [], ◌∷◌, ◌++◌, Option, none, some,
  Bytes, bytes, bytes_eq, length, drop, pos, ltb, ◌==◌, if◌then◌else◌,
}
use my_ngrok.Map.{Map, get, put, delete, size, retain}
use my_ngrok.Gateway.Types.{
  MessageType, message_text, message_binary, OutboundMessage, Session, PendingRequest, Response,
  SessionManager, MetricsSnapshot, update,
}

-- sessionOutboundQueueCapacity of agent_connect.go, with which every session's channel is made.
abbrev pub session_outbound_queue_capacity : ℕ
session_outbound_queue_capacity = 32

unfoldable pub new_session_manager : SessionManager
new_session_manager = record {
  sessions = [];
  pending = [];
  connections_total = 0;
  disconnections_total = 0;
  outbound_buffers = λ _. [];
  response_buffers = λ _. [];
  cancelled = λ _. false;
  next_channel = 0;
}

-- `select { case c <- message: return true; default: return false }`
offer : SessionManager → Option ℕ → OutboundMessage → SessionManager × Bool
offer m none message = (m, false)
offer m (some c) message =
    let queue = m.outbound_buffers c in
    if ltb (length queue) session_outbound_queue_capacity
    then (record m { outbound_buffers = update m.outbound_buffers c (queue ++ message ∷ []) }, true)
    else (m, false)

-- The common part of `Send` and `SendBinary`.
offer_session : SessionManager → Option Session → OutboundMessage → SessionManager × Bool
unfolding offer
offer_session m none message = (m, false)
offer_session m (some session) message = offer m session.outbound message

unfoldable pub send : SessionManager → Bytes → Bytes → SessionManager × Bool
unfolding offer_session
send m id message =
    offer_session m (get m.sessions id) (record { message_type = message_text; content = message })

unfoldable pub send_binary : SessionManager → Bytes → Bytes → SessionManager × Bool
unfolding offer_session
send_binary m id message =
    offer_session m (get m.sessions id)
      (record { message_type = message_binary; content = message })

-- How the `select` of `sendContext` ends: the context is done, or the channel has room after the
-- writer has taken some messages from its front.
pub data Wake : Type 0 where
  done : Wake
  room : ℕ → Wake

-- `none`: the channel is still full, so the send stays blocked.
unfoldable pub wait_room :
    SessionManager → Option ℕ → OutboundMessage → Wake → Option (SessionManager × Bool)
wait_room m none message w = some (m, false)
wait_room m (some c) message done = some (m, false)
wait_room m (some c) message (room taken) =
    let queue = drop taken (m.outbound_buffers c) in
    if ltb (length queue) session_outbound_queue_capacity
    then some
        (record m { outbound_buffers = update m.outbound_buffers c (queue ++ message ∷ []) }, true)
    else none

unfoldable pub send_session :
    SessionManager → Option Session → OutboundMessage → Wake → Option (SessionManager × Bool)
unfolding wait_room
send_session m none message w = some (m, false)
send_session m (some session) message w = wait_room m session.outbound message w

unfoldable pub send_context :
    SessionManager → Wake → Bytes → OutboundMessage → Option (SessionManager × Bool)
unfolding send_session
send_context m w id message = send_session m (get m.sessions id) message w

-- Returns the new channel, `make(chan Response, 1)`.
unfoldable pub register_request : SessionManager → Bytes → Bytes → SessionManager × ℕ
register_request m session_id id =
    let c = m.next_channel in
    (
      record m {
        pending = put m.pending id (record { session_id = session_id; response = c });
        response_buffers = update m.response_buffers c [];
        next_channel = suc c;
      },
      c,
    )

unfoldable pub cancel_request : SessionManager → Bytes → SessionManager
cancel_request m id = record m { pending = delete m.pending id }

-- `c <- response`. The channel buffers one value; `Sessions.Invariant` shows that it has room.
abbrev pub respond : (ℕ → List Response) → ℕ → Response → ℕ → List Response
respond buffers c response = update buffers c (buffers c ++ response ∷ [])

deliver : SessionManager → Bytes → Response → Option PendingRequest → SessionManager × Bool
deliver m id response none = (m, false)
deliver m id response (some p) = (
  record m {
    pending = delete m.pending id;
    response_buffers = respond m.response_buffers p.response response;
  },
  true,
)

unfoldable pub deliver_response : SessionManager → Bytes → Response → SessionManager × Bool
unfolding deliver
deliver_response m id response = deliver m id response (get m.pending id)

-- `now` is `time.Now().UTC()`.
unfoldable pub register : SessionManager → ℕ → Session → SessionManager
register m now session =
    let session' = if session.last_seen == 0 then record session { last_seen = now } else session in
    record m {
      sessions = put m.sessions session'.id session';
      connections_total = u64 (m.connections_total + 1);
    }

touch_session : SessionManager → ℕ → Bytes → Option Session → SessionManager × Bool
touch_session m now id none = (m, false)
touch_session m now id (some session) =
    (record m { sessions = put m.sessions id (record session { last_seen = now }) }, true)

unfoldable pub touch : SessionManager → ℕ → Bytes → SessionManager × Bool
unfolding touch_session
touch m now id = touch_session m now id (get m.sessions id)

abbrev pub agent_disconnected : Response
agent_disconnected = record {
  status_code = pos 0;
  headers = [];
  body = [];
  error = bytes "tunnel agent disconnected";
}

-- The channels of the removed session's requests, each sent the error.
pub fail_all : Bytes → Map PendingRequest → (ℕ → List Response) → ℕ → List Response
fail_all id [] buffers = buffers
fail_all id ((k, p) ∷ m) buffers =
    fail_all id m
      (if bytes_eq p.session_id id then respond buffers p.response agent_disconnected else buffers)

drop_session : SessionManager → Bytes → Option Session → SessionManager
drop_session m id none = m
drop_session m id (some session) = record m {
  sessions = delete m.sessions id;
  disconnections_total = u64 (m.disconnections_total + 1);
}

unfoldable pub remove : SessionManager → Bytes → SessionManager
unfolding drop_session
remove m id = record (drop_session m id (get m.sessions id)) {
  pending = retain (λ _ p. not (bytes_eq p.session_id id)) m.pending;
  response_buffers = fail_all id m.pending m.response_buffers;
}

unfoldable pub metrics_snapshot : SessionManager → MetricsSnapshot
metrics_snapshot m = record {
  active_sessions = size m.sessions;
  pending_requests = size m.pending;
  connections_total = m.connections_total;
  disconnections_total = m.disconnections_total;
}

-- `if session.Cancel != nil { session.Cancel() }`
abbrev pub cancel_context : Option ℕ → (ℕ → Bool) → ℕ → Bool
cancel_context none cancelled = cancelled
cancel_context (some c) cancelled = update cancelled c true

-- Cancels the sessions that pass the test, in the order of the map.
pub cancel_sessions : (Session → Bool) → Map Session → (ℕ → Bool) → ℕ → Bool
cancel_sessions test [] cancelled = cancelled
cancel_sessions test ((k, s) ∷ m) cancelled =
    cancel_sessions test m (if test s then cancel_context s.cancel cancelled else cancelled)

unfoldable pub close_all : SessionManager → SessionManager
unfolding cancel_sessions
close_all m = record m { cancelled = cancel_sessions (λ _. true) m.sessions m.cancelled }

unfoldable pub disconnect_token_hash : SessionManager → Bytes → SessionManager
unfolding cancel_sessions
disconnect_token_hash m token_hash = record m {
  cancelled = cancel_sessions (λ s. bytes_eq s.agent_token_hash token_hash) m.sessions m.cancelled;
}

unfoldable pub count : SessionManager → ℕ
count m = size m.sessions

found_agent : Option Session → Bytes × Bool
found_agent none = ([], false)
found_agent (some session) = (session.agent_id, true)

unfoldable pub agent_id : SessionManager → Bytes → Bytes × Bool
unfolding found_agent
agent_id m id = found_agent (get m.sessions id)
