-- ===== src/Agent/Client/Examples.antt =====
-- A connection that takes one request of three bytes.
use my_ngrok.Base.{
  ℕ, ◌≡◌, ◌⊎◌, refl, true, false, List, [], ◌∷◌, ◌++◌, none, some, Bytes, bytes_eq, pos, length,
  leb_ℤ,
}
use my_ngrok.Map.{get, put, delete, size}
use my_ngrok.Protocol.{wire, payloads}
use my_ngrok.Protocol.Messages.{HttpRequestPayload}
use my_ngrok.Agent.Frame.{parse_binary_frame}
use my_ngrok.Agent.Assembler.{new_chunk_assembler, add, complete}
use my_ngrok.Agent.Assembler.Order.{InSequence}
use my_ngrok.Agent.Client.{
  message, http_request_start, http_request_end, Connection, running, Event, inbound_binary,
  inbound_text, on_added, on_chunk, on_frame, on_assembler, on_start, dispatch, on_completed,
  on_stream_end, on_end, on_message, step, serve,
}
use my_ngrok.Agent.Client.Bounds.{Inv, after, serve-Bounded}
use my_ngrok.Agent.Client.Streams.{own_frames}
use my_ngrok.Agent.Client.Requests.{end_of, request_from, serve-request}

abbrev start : HttpRequestPayload
start = record {
  request_id = 7 ∷ [];
  method = 71 ∷ [];
  path = 47 ∷ [];
  headers = [];
  content_length = pos 3;
}

abbrev connection : Connection
connection = record {
  pending = [];
  active = [];
  cancelled = λ x. false;
  next_context = 0;
  jobs = [];
  pongs = 0;
  max_capacity = 33554432;
}

abbrev chunk : ℕ → Bytes → Event
chunk n bs =
    inbound_binary
      (wire (record { frame_type = 1; request_id = 7 ∷ []; sequence = n; payload = bs }))

abbrev chunks : List Event
chunks = chunk 0 (10 ∷ 20 ∷ []) ∷ chunk 1 (30 ∷ []) ∷ []

abbrev history : List Event
history =
    inbound_text (message http_request_start start none) true
    ∷ (chunks ++ inbound_text (message http_request_end start (some (end_of (7 ∷ [])))) true ∷ [])

serve-Bounded_example : Inv (after (serve (running connection) history)).pending
serve-Bounded_example = serve-Bounded connection history refl

abbrev final : Connection
final = after (serve (running connection) history)

serve-request_example :
    let fs = own_frames (7 ∷ []) chunks in
    (m : Connection) × (serve
        (running connection)
        (inbound_text (message http_request_start start none) true ∷ chunks)
      ≡ running m)
    × (final.jobs ≡ m.jobs ++ request_from start fs ∷ [])
    × InSequence 0 fs
    × ((pos 3 ≡ pos (length (payloads fs))) ⊎ (leb_ℤ (pos 0) (pos 3) ≡ false))
unfolding serve step on_message on_frame on_chunk on_added on_start on_assembler on_end
    on_stream_end on_completed dispatch get put delete size bytes_eq parse_binary_frame
    new_chunk_assembler add complete
serve-request_example = serve-request connection final start start none true true chunks tt refl
