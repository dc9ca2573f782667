-- ===== src/Agent/Client.antt =====
-- The loop of `Connect` in agent/internal/gatewayclient/client.go, after the handshake: one step for
-- each message that is read, and for each job that ends. A text frame is seen through what
-- json.Unmarshal makes of it. Contexts live in a store under numbers.
pub mod Bounds
pub mod Streams
pub mod Requests
pub mod Acceptance
mod Examples
use my_ngrok.Base.{
  ℕ, suc, Bool, true, false, not, ◌||◌, List, [], ◌∷◌, ◌++◌, Option, none, some, Bytes, bytes_eq,
  Result, ok, err, leb, ◌==◌, if◌then◌else◌,
}
use my_ngrok.Map.{Map, get, put, delete, size}
use my_ngrok.Protocol.{BinaryFrame, FrameError, request_body_chunk}
use my_ngrok.Protocol.Messages.{Headers, HttpRequestPayload, HttpRequestEndPayload}
use my_ngrok.Gateway.Types.{update}
use my_ngrok.Agent.Frame.{parse_binary_frame}
use my_ngrok.Agent.Assembler.{ChunkAssembler, AssembleError, new_chunk_assembler, add, complete}

abbrev pub max_pending_request_streams : ℕ
max_pending_request_streams = 32

-- The envelope's type, as far as the loop tells types apart.
pub data Kind : Type 0 where
  ping http_request_start http_request_end cancel_request other : Kind

-- What a text frame decodes to. The payload is read as a request's for every type; the last part is
-- what the second decoding makes of the frame, as a request's end.
pub data Message : Type 0 where
  malformed : Message
  message : Kind → HttpRequestPayload → Option HttpRequestEndPayload → Message

pub record PendingStream : Type 0 where
  pub payload : HttpRequestPayload
  pub assembler : ChunkAssembler

pub record Request : Type 0 where
  pub id : Bytes
  pub method : Bytes
  pub path : Bytes
  pub headers : Headers
  pub body : Bytes

-- The loop's maps, the store of contexts, the requests put on the job channel, and the number of
-- pongs sent; and the capacity up to which `make` can allocate.
pub record Connection : Type 0 where
  pub pending : Map PendingStream
  pub active : Map ℕ
  pub cancelled : ℕ → Bool
  pub next_context : ℕ
  pub jobs : List Request
  pub pongs : ℕ
  pub max_capacity : ℕ

pub data ClientError : Type 0 where
  connection_closed invalid_chunk unknown_chunk unsupported_message_type : ClientError
  invalid_message no_request_id duplicate_start too_many_streams : ClientError
  invalid_end unknown_end : ClientError
  assembly : AssembleError → ClientError

-- `continue`, an error returned (or a panic, for `make_panics`), or nil returned.
pub data Outcome : Type 0 where
  running : Connection → Outcome
  failed : ClientError → Connection → Outcome
  finished : Connection → Outcome

-- What wakes the loop. The flag of a text frame says whether the channel that its handling sends to
-- takes the value before the session's context is done. A job that ends has its request's ID and the
-- context that was made for it. An inbound message is one that conn.Read returned: at one over the read
-- limit of 64 KiB it returns an error, which is `read_failed`.
pub data Event : Type 0 where
  read_failed : Event
  inbound_binary : Bytes → Event
  inbound_text : Message → Bool → Event
  inbound_other : Event
  job_ended : Bytes → ℕ → Event

pub on_added :
    Connection → Bytes → PendingStream → Result AssembleError (ChunkAssembler × Bool) → Outcome
on_added c id p (err e) = failed (assembly e) c
on_added c id p (ok (a, reached)) =
    running (record c { pending = put c.pending id (record p { assembler = a }) })

pub on_chunk : Connection → BinaryFrame → Option PendingStream → Outcome
unfolding on_added
on_chunk c f none = failed unknown_chunk c
on_chunk c f (some p) = on_added c f.request_id p (add p.assembler f)

pub on_frame : Connection → Result FrameError BinaryFrame → Outcome
unfolding on_chunk
on_frame c (err e) = failed invalid_chunk c
on_frame c (ok f) =
    if not (f.frame_type == request_body_chunk)
    then failed invalid_chunk c
    else on_chunk c f (get c.pending f.request_id)

abbrev pub exists {ℓ} : {A : Type ℓ} → Option A → Bool
exists none = false
exists (some a) = true

pub on_assembler : Connection → HttpRequestPayload → Result AssembleError ChunkAssembler → Outcome
on_assembler c p (err e) = failed (assembly e) c
on_assembler c p (ok a) =
    running
      (record c { pending = put c.pending p.request_id (record { payload = p; assembler = a }) })

pub on_start : Connection → HttpRequestPayload → Outcome
unfolding on_assembler
on_start c p =
    if bytes_eq p.request_id []
    then failed no_request_id c
    else if exists (get c.pending p.request_id)
    then failed duplicate_start c
    else if leb max_pending_request_streams (size c.pending)
    then failed too_many_streams c
    else on_assembler c p (new_chunk_assembler c.max_capacity p.content_length)

abbrev pub request_of : PendingStream → Request
request_of p = record {
  id = p.payload.request_id;
  method = p.payload.method;
  path = p.payload.path;
  headers = p.payload.headers;
  body = p.assembler.body;
}

-- The request's context is made and registered under the request's own ID, and the job queued.
pub dispatch : Connection → Bytes → PendingStream → Bool → Outcome
dispatch c id p queued =
    let request = request_of p in
    let c' = record c {
      pending = delete c.pending id;
      active = put c.active request.id c.next_context;
      cancelled = update c.cancelled c.next_context false;
      next_context = suc c.next_context;
    } in
    if queued then running (record c' { jobs = c.jobs ++ request ∷ [] }) else finished c'

pub on_completed :
    Connection → Bytes → PendingStream → Bool → Result AssembleError (Unit {0}) → Outcome
unfolding dispatch
on_completed c id p queued (err e) = failed (assembly e) c
on_completed c id p queued (ok _) = dispatch c id p queued

pub on_stream_end : Connection → Bytes → Option PendingStream → Bool → Outcome
unfolding on_completed
on_stream_end c id none queued = failed unknown_end c
on_stream_end c id (some p) queued = on_completed c id p queued (complete p.assembler)

pub on_end : Connection → Option HttpRequestEndPayload → Bool → Outcome
unfolding on_stream_end
on_end c none queued = failed invalid_end c
on_end c (some e) queued = on_stream_end c e.request_id (get c.pending e.request_id) queued

abbrev cancel_found : Option ℕ → (ℕ → Bool) → ℕ → Bool
cancel_found none cancelled = cancelled
cancel_found (some x) cancelled = update cancelled x true

pub on_cancel : Connection → Bytes → Outcome
on_cancel c id = running (record c {
  pending = delete c.pending id;
  cancelled = cancel_found (get c.active id) c.cancelled;
})

pub on_message : Connection → Message → Bool → Outcome
unfolding on_start on_end on_cancel
on_message c malformed sent = failed invalid_message c
on_message c (message ping p e) sent =
    running (if sent then record c { pongs = suc c.pongs } else c)
on_message c (message http_request_start p e) sent = on_start c p
on_message c (message http_request_end p e) sent = on_end c e sent
on_message c (message cancel_request p e) sent = on_cancel c p.request_id
on_message c (message other p e) sent = running c

-- The deferred part of a job: whatever context is under its ID leaves the map, and its own context is
-- cancelled.
pub end_job : Connection → Bytes → ℕ → Connection
end_job c id own = record c { active = delete c.active id; cancelled = update c.cancelled own true }

unfoldable pub step : Connection → Event → Outcome
unfolding on_frame on_message end_job
step c read_failed = failed connection_closed c
step c (inbound_binary bs) = on_frame c (parse_binary_frame bs)
step c (inbound_text m sent) = on_message c m sent
step c inbound_other = failed unsupported_message_type c
step c (job_ended id own) = running (end_job c id own)

unfoldable pub serve : Outcome → List Event → Outcome
serve (running c) (e ∷ events) = serve (step c e) events
serve (running c) [] = running c
serve (failed e c) events = failed e c
serve (finished c) events = finished c
