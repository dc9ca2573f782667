-- ===== src/Gateway/Serve/Examples.antt =====
-- A session that forwards one response of three bytes.
use my_ngrok.Base.{
  ℕ, ◌≡◌, refl, true, List, [], ◌∷◌, ◌++◌, none, some, Bytes, bytes_eq, pos, if◌then◌else◌, length,
  leb_ℤ,
}
use my_ngrok.Map.{get, put, delete, size}
use my_ngrok.Protocol.{wire, parse_binary_frame, payloads}
use my_ngrok.Protocol.Messages.{HttpResponsePayload}
use my_ngrok.Gateway.Sessions.{new_session_manager, register_request, deliver_response}
use my_ngrok.Tunnels.Registry.{new_registry}
use my_ngrok.Gateway.Serve.{
  Message, malformed, http_response_start, http_response_end, Handler, Serving, Event, inbound_text,
  inbound_binary, running, received, handle, step, serve, on_message, on_frame, on_chunk,
  chunk_fits, on_response_start, on_response_end, on_stream_end,
}
use my_ngrok.Gateway.Serve.Bounds.{Inv, after, serve_bounded}
use my_ngrok.Gateway.Serve.Streams.{InOrder, own_frames}
use my_ngrok.Gateway.Serve.Delivery.{end_of, response_of, serve-deliver_response}

abbrev start : HttpResponsePayload
start = record {
  request_id = 7 ∷ [];
  status_code = pos 200;
  headers = [];
  content_length = pos 3;
  error = [];
}

abbrev decode : Bytes → Message
decode bs =
    if bytes_eq bs (1 ∷ [])
    then http_response_start (some start)
    else if bytes_eq bs (2 ∷ [])
    then http_response_end (some (end_of (7 ∷ [])))
    else malformed

abbrev handler : Handler
handler = record {
  decode = decode;
  encode = λ e. [];
  trim_space = λ bs. bs;
  reopen = λ now agent local. none;
  public_base_domain = [];
  has_agents = true;
  has_open_tunnel = true;
}

abbrev initial : Serving
initial = record {
  sessions = (register_request new_session_manager (5 ∷ []) (7 ∷ [])).0;
  registry = new_registry;
  responses = [];
  written = [];
  touched = [];
}

abbrev chunk : ℕ → Bytes → Event
chunk n bs =
    inbound_binary
      (wire (record { frame_type = 2; request_id = 7 ∷ []; sequence = n; payload = bs }))

abbrev chunks : List (ℕ × Event)
chunks = (1, chunk 0 (10 ∷ 20 ∷ [])) ∷ (2, chunk 1 (30 ∷ [])) ∷ []

abbrev history : List (ℕ × Event)
history = (0, inbound_text (1 ∷ []) true) ∷ (chunks ++ (3, inbound_text (2 ∷ []) true) ∷ [])

serve_bounded_example : Inv (after (serve handler (5 ∷ []) (running initial) history)).responses
serve_bounded_example = serve_bounded handler (5 ∷ []) initial history refl

abbrev final : Serving
final = after (serve handler (5 ∷ []) (running initial) history)

serve-deliver_response_example :
    let fs = own_frames (7 ∷ []) chunks in
    (m : Serving) × (serve handler
        (5 ∷ [])
        (running initial)
        ((0, inbound_text (1 ∷ []) true) ∷ chunks)
      ≡ running m)
    × (final.sessions ≡ (deliver_response m.sessions (7 ∷ []) (response_of start fs)).0)
    × InOrder 0 fs
    × (leb_ℤ (pos 0) (pos 3) ≡ true → pos 3 ≡ pos (length (payloads fs)))
unfolding serve step received handle on_message on_frame on_chunk chunk_fits on_response_start
    on_response_end on_stream_end get put delete size bytes_eq parse_binary_frame deliver_response
serve-deliver_response_example =
    serve-deliver_response handler (5 ∷ []) initial final start (1 ∷ []) (2 ∷ []) 0 3 true true
      chunks refl refl tt refl

abbrev begun : Serving
begun = record initial {
  responses = (7 ∷ [], record { payload = start; next = 0; body = [] }) ∷ [];
}

abbrev grown : Serving
grown = after (serve handler (5 ∷ []) (running begun) chunks)
