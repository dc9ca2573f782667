-- ===== src/Tunnels/RequestBody/Examples.antt =====
-- A body of three bytes, read in two pieces.
use my_ngrok.Base.{◌≡◌, inl, refl, false, List, [], ◌∷◌, ◌++◌, Option, some, Bytes, bytes_eq, pos}
use my_ngrok.Map.{get, put, delete}
use my_ngrok.Protocol.{marshal_binary}
use my_ngrok.Protocol.Messages.{HttpRequestPayload}
use my_ngrok.Gateway.Types.{SessionManager}
use my_ngrok.Gateway.Sessions.{
  new_session_manager, register, room, send_context, send_session, wait_room,
}
use my_ngrok.Agent.Client.{Message, message, http_request_end, Connection, running, serve}
use my_ngrok.Agent.Client.Requests.{end_of, fresh_stream}
use my_ngrok.Tunnels.RequestBody.{
  Turn, more, eof, Read, Sender, Progress, going, all_sent, failed, blocked, new_sender,
  send_request_body, send_chunk, after_chunk, send_frame, send_end, put_message, put_result,
  advance,
}
use my_ngrok.Tunnels.RequestBody.Chunks.{joined}
use my_ngrok.Tunnels.RequestBody.Forwarding.{arrivals, send_request_body-serve}

abbrev start : HttpRequestPayload
start = record {
  request_id = 7 ∷ [];
  method = 71 ∷ [];
  path = 47 ∷ [];
  headers = [];
  content_length = pos 3;
}

abbrev connection : Connection
connection = record {
  pending = (7 ∷ [], fresh_stream start) ∷ [];
  active = [];
  cancelled = λ x. false;
  next_context = 0;
  jobs = [];
  pongs = 0;
  max_capacity = 33554432;
}

abbrev manager : SessionManager
manager = register new_session_manager 1 (record {
  id = 5 ∷ [];
  agent_id = [];
  agent_token_hash = [];
  last_seen = 0;
  outbound = some 0;
  cancel = some 0;
})

abbrev turn : Turn
turn = record { others = λ m. m; wake = room 0 }

abbrev reads : List Read
reads =
    record { chunk = 10 ∷ 20 ∷ []; end = more; turn = turn }
    ∷ record { chunk = 30 ∷ []; end = eof; turn = turn }
    ∷ []

abbrev encode_end : Bytes → Option Bytes
encode_end id = some (99 ∷ id)

abbrev decode : Bytes → Message
decode bs = message http_request_end start (some (end_of (7 ∷ [])))

abbrev sender_of : Progress → Sender
sender_of (going s) = s
sender_of (all_sent s) = s
sender_of (failed e s) = s
sender_of (blocked s) = s

abbrev final : Sender
final =
    sender_of
      (send_request_body encode_end (5 ∷ []) (7 ∷ []) turn reads (going (new_sender manager)))

send_request_body-serve_example :
    (c' : Connection) × (serve (running connection) (arrivals decode final.sent) ≡ running c')
    × (c'.jobs
        ≡ []
          ++ record {
            id = 7 ∷ [];
            method = 71 ∷ [];
            path = 47 ∷ [];
            headers = [];
            body = joined reads;
          }
            ∷ [])
unfolding new_sender send_request_body send_chunk after_chunk send_frame send_end put_message
    put_result advance marshal_binary send_context send_session wait_room register
    new_session_manager get put delete bytes_eq
send_request_body-serve_example =
    send_request_body-serve encode_end decode (5 ∷ []) turn manager reads final connection start
      start refl (λ bs h. refl) refl (inl refl)
