-- ===== src/Agent/Local/Arrivals.antt =====
-- The messages of a job as the gateway's loop is woken by them, and the response that they stand for.
use my_ngrok.Base.{
  ℕ, ◌+◌, ◌≤◌, ◌≡◌, refl, ap, true, List, [], ◌∷◌, ◌++◌, some, Bytes, length, pos, negsuc,
}
use my_ngrok.Protocol.{binary_frame_header, max_binary_frame_payload}
use my_ngrok.Protocol.Messages.{HttpResponsePayload, HttpResponseEndPayload}
use my_ngrok.Gateway.Types.{Response}
use my_ngrok.Gateway.Serve.{
  http_response_start, http_response_end, Handler, Event, inbound_binary, inbound_text,
  max_tunnel_response_body_bytes, websocket_read_limit,
}
use my_ngrok.Agent.Local.{
  ReadEnd, more, eof, read_error, Read, Service, refused, answered, Outgoing, response_start,
  response_chunk, response_end,
}
use my_ngrok.Agent.Local.Answers.{Ends}

-- The bytes of the reads, up to the first that has an error.
abbrev pub joined_after : ReadEnd → Bytes → Bytes
joined_after more body = body
joined_after _ body = []

abbrev pub joined : List Read → Bytes
joined [] = []
joined (r ∷ reads) = r.chunk ++ joined_after r.end (joined reads)

pub joined_room :
    (e : ReadEnd) (body rest : Bytes)
    → e ≡ more
    → length body + length (joined_after e rest) ≤ max_tunnel_response_body_bytes
    → length body + length rest ≤ max_tunnel_response_body_bytes
joined_room more body rest on room = room
joined_room eof body rest on room = cc
joined_room read_error body rest on room = cc

-- The response that a service's answer stands for.
abbrev pub response_of : Service → Response
response_of (refused e) = record { status_code = pos 502; headers = []; body = []; error = e }
response_of (answered status headers reads) = record {
  status_code = status;
  headers = headers;
  body = joined reads;
  error = [];
}

abbrev pub start_payload : Bytes → Service → HttpResponsePayload
start_payload id (refused e) = record {
  request_id = id;
  status_code = pos 502;
  headers = [];
  content_length = pos 0;
  error = e;
}
start_payload id (answered status headers reads) = record {
  request_id = id;
  status_code = status;
  headers = headers;
  content_length = negsuc 0;
  error = [];
}

-- The reads end, and the body keeps within the gateway's limit.
abbrev pub IsSmall : Service → Type 0
IsSmall (refused e) = Unit {0}
IsSmall (answered status headers reads) =
    Ends reads × (length (joined reads) ≤ max_tunnel_response_body_bytes)

-- The agent's json.Marshal on the two envelopes; the handler's json.Unmarshal reads them back.
pub record Codec : Type 0 where
  pub encode_start : HttpResponsePayload → Bytes
  pub encode_end : HttpResponseEndPayload → Bytes

abbrev pub Decodes : Handler → Codec → HttpResponsePayload → Type 0
Decodes h c p =
    (h.decode (c.encode_start p) ≡ http_response_start (some p))
    × (h.decode (c.encode_end (record { request_id = p.request_id }))
        ≡ http_response_end (some (record { request_id = p.request_id })))

-- The two envelopes, and a frame with a full payload, keep within the gateway's read limit.
pub record IsReadable (c : Codec) (p : HttpResponsePayload) : Type 0 where
  pub start_limit : length (c.encode_start p) ≤ websocket_read_limit
  pub end_limit :
      length (c.encode_end (record { request_id = p.request_id })) ≤ websocket_read_limit
  pub frame_limit :
      binary_frame_header + (length p.request_id + max_binary_frame_payload) ≤ websocket_read_limit

abbrev pub arrival : Codec → Outgoing → Event
arrival c (response_start p) = inbound_text (c.encode_start p) true
arrival c (response_chunk frame) = inbound_binary frame
arrival c (response_end e) = inbound_text (c.encode_end e) true

-- The messages as the loop is woken by them, at some time.
abbrev pub arrivals : Codec → ℕ → List Outgoing → List (ℕ × Event)
arrivals c now [] = []
arrivals c now (m ∷ ms) = (now, arrival c m) ∷ arrivals c now ms

pub arrivals-append :
    (c : Codec) (now : ℕ) (xs ys : List Outgoing)
    → arrivals c now (xs ++ ys) ≡ arrivals c now xs ++ arrivals c now ys
arrivals-append c now [] ys = refl
arrivals-append c now (x ∷ xs) ys = ap (◌∷◌ (now, arrival c x)) (arrivals-append c now xs ys)
