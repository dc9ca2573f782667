-- ===== src/Gateway/Serve.antt =====
-- `serveSession` of backend/internal/gateway/agent_connect.go, and the closure of
-- backend/cmd/server/main.go that opens a tunnel for it. The select loop is one step for each event
-- that it takes. A text frame is seen through `decode`, which is what json.Unmarshal makes of it;
-- `encode` is json.Marshal.
pub mod Streams
pub mod Bounds
pub mod Delivery
pub mod Acceptance
mod Examples
use my_ngrok.Base.{
  ℕ, ◌+◌, ◌%◌, Bool, true, false, not, ◌&&◌, ◌||◌, List, [], ◌∷◌, ◌++◌, Option, none, some, Bytes,
  bytes, bytes_eq, length, ℤ, pos, negsuc, ltb_ℤ, leb_ℤ, eq_ℤ, Result, ok, err, ltb, leb, ◌==◌,
  if◌then◌else◌,
}
use my_ngrok.Map.{Map, get, put, delete, size}
use my_ngrok.Protocol.{BinaryFrame, FrameError, parse_binary_frame, response_body_chunk}
use my_ngrok.Protocol.Messages.{
  OpenTunnelPayload, TunnelOpenedPayload, HttpResponsePayload, HttpResponseEndPayload,
}
use my_ngrok.Gateway.Types.{
  MessageType, message_text, message_binary, OutboundMessage, SessionManager, Session, update,
  Response,
}
use my_ngrok.Gateway.Sessions.{send, deliver_response, touch, agent_id}
use my_ngrok.Tunnels.Registry.{ActiveTunnel, Registry, open_tunnel}

abbrev pub max_pending_response_streams : ℕ
max_pending_response_streams = 32

-- 64 << 10
abbrev pub websocket_read_limit : ℕ
websocket_read_limit = 65536

-- 32 << 20
abbrev pub max_tunnel_response_body_bytes : ℕ
max_tunnel_response_body_bytes = 33554432

-- What a text frame decodes to: no envelope; an envelope of one of the types that the loop knows,
-- with its payload if that decodes; or another envelope.
pub data Message : Type 0 where
  malformed ping pong other : Message
  http_response_start : Option HttpResponsePayload → Message
  open_tunnel_request : Option OpenTunnelPayload → Message
  http_response_end : Option HttpResponseEndPayload → Message

-- The envelopes that the loop sends.
pub data Envelope : Type 0 where
  ping_envelope pong_envelope : Envelope
  tunnel_opened : TunnelOpenedPayload → Envelope

-- tunnels.Tunnel, as far as the closure reads it.
pub record Tunnel : Type 0 where
  pub id : Bytes
  pub subdomain : Bytes
  pub user_id : Bytes

-- What the handler is built with: the JSON codec, `strings.TrimSpace`, the database's answer of
-- `ReopenForSession`, the configured base domain, and whether `agents` and `openTunnel` are not nil.
pub record Handler : Type 0 where
  pub decode : Bytes → Message
  pub encode : Envelope → Bytes
  pub trim_space : Bytes → Bytes
  pub reopen : ℕ → Bytes → Bytes → Option Tunnel
  pub public_base_domain : Bytes
  pub has_agents : Bool
  pub has_open_tunnel : Bool

pub record ResponseAssembly : Type 0 where
  pub payload : HttpResponsePayload
  pub next : ℕ
  pub body : Bytes

-- The loop's streams, with what it shares and what it has sent: the frames written to the socket
-- and the agents touched in the database, the latest last.
pub record Serving : Type 0 where
  pub sessions : SessionManager
  pub registry : Registry
  pub responses : Map ResponseAssembly
  pub written : List OutboundMessage
  pub touched : List Bytes

pub data CloseReason : Type 0 where
  invalid_body_chunk invalid_message_type invalid_message : CloseReason
  invalid_response_start too_many_streams : CloseReason

-- `continue`, or `return`, perhaps after a close of the socket.
pub data Outcome : Type 0 where
  running : Serving → Outcome
  closed : CloseReason → Serving → Outcome
  returned : Bool → Serving → Outcome

-- An event of the select, with how the write ends that it leads to. An inbound message is the one
-- that the agent sent.
pub data Event : Type 0 where
  context_done read_failed : Event
  heartbeat : Bool → Event
  outbound_ready : Bool → Event
  inbound_binary : Bytes → Event
  inbound_text : Bytes → Bool → Event
  inbound_other : Event

-- `conn.Write`
pub write : Serving → OutboundMessage → Bool → Outcome
write s message true = running (record s { written = s.written ++ message ∷ [] })
write s message false = returned false s

abbrev pub text_message : Bytes → OutboundMessage
text_message content = record { message_type = message_text; content = content }

-- The rest of the condition on a chunk whose stream is open.
pub chunk_fits : ResponseAssembly → BinaryFrame → Bool
chunk_fits a f =
    let total = length a.body + length f.payload in
    not (
      not (f.frame_type == response_body_chunk)
      || not (f.sequence == a.next)
      || ltb max_tunnel_response_body_bytes total
      || (leb_ℤ (pos 0) a.payload.content_length && ltb_ℤ a.payload.content_length (pos total)))

-- The pointer in the map is written through.
abbrev pub extend : ResponseAssembly → Bytes → ResponseAssembly
extend a chunk = record a { body = a.body ++ chunk; next = (a.next + 1) % 4294967296 }

pub on_chunk : Serving → BinaryFrame → Option ResponseAssembly → Outcome
unfolding chunk_fits
on_chunk s f none = closed invalid_body_chunk s
on_chunk s f (some a) =
    if chunk_fits a f
    then running (record s { responses = put s.responses f.request_id (extend a f.payload) })
    else closed invalid_body_chunk s

pub on_frame : Serving → Result FrameError BinaryFrame → Outcome
unfolding on_chunk
on_frame s (err e) = closed invalid_body_chunk s
on_frame s (ok f) = on_chunk s f (get s.responses f.request_id)

abbrev pub is_new : Option ResponseAssembly → Bool
is_new none = true
is_new (some a) = false

-- The two guards on a response start.
abbrev pub is_bad_start : HttpResponsePayload → Bool
is_bad_start p =
    bytes_eq p.request_id []
    || ltb_ℤ p.content_length (negsuc 0)
    || ltb_ℤ (pos max_tunnel_response_body_bytes) p.content_length

abbrev pub is_full : Serving → Bytes → Bool
is_full s id = is_new (get s.responses id) && leb max_pending_response_streams (size s.responses)

pub on_response_start : Serving → Option HttpResponsePayload → Outcome
on_response_start s none = closed invalid_response_start s
on_response_start s (some p) =
    if is_bad_start p
    then closed invalid_response_start s
    else if is_full s p.request_id
    then closed too_many_streams s
    else running (record s {
      responses = put s.responses p.request_id (record { payload = p; next = 0; body = [] });
    })

abbrev assembled : ResponseAssembly → Response
assembled a = record {
  status_code = a.payload.status_code;
  headers = a.payload.headers;
  body = a.body;
  error = a.payload.error;
}

pub on_stream_end : Serving → Bytes → Option ResponseAssembly → Outcome
on_stream_end s id none = returned false s
on_stream_end s id (some a) =
    if leb_ℤ (pos 0) a.payload.content_length
      && not (eq_ℤ (pos (length a.body)) a.payload.content_length)
    then returned false s
    else running (record s {
      responses = delete s.responses id;
      sessions = (deliver_response s.sessions id (assembled a)).0;
    })

pub on_response_end : Serving → Option HttpResponseEndPayload → Outcome
unfolding on_stream_end
on_response_end s none = returned false s
on_response_end s (some e) = on_stream_end s e.request_id (get s.responses e.request_id)

-- The closure of main.go: the database reopens or creates the tunnel, and the registry routes it.
unfoldable pub open_for_session :
    Handler
    → Registry
    → Bytes
    → Bytes
    → Bytes
    → Option Tunnel
    → Option (Registry × TunnelOpenedPayload)
open_for_session h r session_id agent local_address none = none
open_for_session h r session_id agent local_address (some t) = some (
  open_tunnel r (record {
    id = t.id;
    subdomain = t.subdomain;
    agent_id = agent;
    user_id = t.user_id;
    session_id = session_id;
    local_address = local_address;
  }),
  record {
    request_id = [];
    tunnel_id = t.id;
    subdomain = t.subdomain;
    public_url = bytes "https://" ++ (t.subdomain ++ (bytes "." ++ h.public_base_domain));
  },
)

-- The encoded answer is queued for the session's writer.
reply_opened : Serving → SessionManager × Bool → Outcome
reply_opened s (m, true) = running (record s { sessions = m })
reply_opened s (m, false) = returned false (record s { sessions = m })

on_opened : Handler → Serving → Bytes → Bytes → Option (Registry × TunnelOpenedPayload) → Outcome
unfolding reply_opened
on_opened h s session_id request_id none = returned false s
on_opened h s session_id request_id (some (r, opened)) =
    reply_opened (record s { registry = r })
      (send s.sessions session_id
        (h.encode (tunnel_opened (record opened { request_id = request_id }))))

on_open_agent : Handler → ℕ → Serving → Bytes → OpenTunnelPayload → Bytes × Bool → Outcome
unfolding on_opened
on_open_agent h now s session_id p (agent, false) = returned false s
on_open_agent h now s session_id p (agent, true) = on_opened h s session_id p.request_id (
    open_for_session h s.registry session_id agent p.local_address
      (h.reopen now agent p.local_address))

pub on_open_tunnel : Handler → ℕ → Serving → Bytes → Option OpenTunnelPayload → Outcome
unfolding on_open_agent
on_open_tunnel h now s session_id none = returned false s
on_open_tunnel h now s session_id (some p) =
    if not h.has_open_tunnel
      || bytes_eq p.request_id []
      || bytes_eq (h.trim_space p.local_address) []
    then returned false s
    else on_open_agent h now s session_id p (agent_id s.sessions session_id)

-- `touchAgent`
touch_found : Serving → Bytes × Bool → Serving
touch_found s (agent, found) =
    if found && not (bytes_eq agent []) then record s { touched = s.touched ++ agent ∷ [] } else s

touch_agent : Handler → Serving → Bytes → Serving
unfolding touch_found
touch_agent h s session_id =
    if h.has_agents then touch_found s (agent_id s.sessions session_id) else s

-- `Touch` and `touchAgent`, at the time `now`.
pub touch_both : Handler → ℕ → Serving → Bytes → Serving
unfolding touch_agent
touch_both h now s session_id =
    touch_agent h (record s { sessions = (touch s.sessions now session_id).0 }) session_id

pub touch_running : Handler → ℕ → Bytes → Outcome → Outcome
unfolding touch_both
touch_running h now session_id (running s) = running (touch_both h now s session_id)
touch_running h now session_id (closed reason s) = closed reason s
touch_running h now session_id (returned b s) = returned b s

pub on_message : Handler → ℕ → Bytes → Serving → Message → Bool → Outcome
unfolding on_response_start on_response_end on_open_tunnel touch_running write
on_message h now session_id s malformed sent = closed invalid_message s
on_message h now session_id s (http_response_start p) sent = on_response_start s p
on_message h now session_id s (open_tunnel_request p) sent = on_open_tunnel h now s session_id p
on_message h now session_id s (http_response_end p) sent = on_response_end s p
on_message h now session_id s pong sent = running (touch_both h now s session_id)
on_message h now session_id s ping sent =
    touch_running h now session_id (write s (text_message (h.encode pong_envelope)) sent)
on_message h now session_id s other sent = running s

-- A message is received from the session's channel, if it has one and that is not empty.
take_outbound : Serving → ℕ → List OutboundMessage → Bool → Outcome
unfolding write
take_outbound s c [] sent = running s
take_outbound s c (message ∷ queue) sent =
    let m = s.sessions in
    write
      (record s { sessions = record m { outbound_buffers = update m.outbound_buffers c queue } })
      message sent

on_channel : Serving → Option ℕ → Bool → Outcome
unfolding take_outbound
on_channel s none sent = running s
on_channel s (some c) sent = take_outbound s c (s.sessions.outbound_buffers c) sent

pub on_outbound : Serving → Option Session → Bool → Outcome
unfolding on_channel
on_outbound s none sent = running s
on_outbound s (some session) sent = on_channel s session.outbound sent

-- `conn.SetReadLimit`: a message over the limit is not received, and conn.Read returns an error in its
-- place.
pub received : Event → Event
received (inbound_binary bs) =
    if ltb websocket_read_limit (length bs) then read_failed else inbound_binary bs
received (inbound_text bs sent) =
    if ltb websocket_read_limit (length bs) then read_failed else inbound_text bs sent
received e = e

-- What the select does with what it takes.
pub handle : Handler → ℕ → Bytes → Serving → Event → Outcome
unfolding on_frame on_message on_outbound
handle h now session_id s context_done = returned true s
handle h now session_id s read_failed = returned true s
handle h now session_id s (heartbeat sent) = write s (text_message (h.encode ping_envelope)) sent
handle h now session_id s (outbound_ready sent) =
    on_outbound s (get s.sessions.sessions session_id) sent
handle h now session_id s (inbound_binary bs) = on_frame s (parse_binary_frame bs)
handle h now session_id s (inbound_text bs sent) = on_message h now session_id s (h.decode bs) sent
handle h now session_id s inbound_other = closed invalid_message_type s

-- One round of the loop, for an event at the socket or elsewhere.
unfoldable pub step : Handler → ℕ → Bytes → Serving → Event → Outcome
unfolding received handle
step h now session_id s e = handle h now session_id s (received e)

-- The loop over a history of events, each with its time.
unfoldable pub serve : Handler → Bytes → Outcome → List (ℕ × Event) → Outcome
serve h session_id (running s) ((now, e) ∷ events) =
    serve h session_id (step h now session_id s e) events
serve h session_id (running s) [] = running s
serve h session_id (closed reason s) events = closed reason s
serve h session_id (returned b s) events = returned b s
