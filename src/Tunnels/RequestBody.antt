-- ===== src/Tunnels/RequestBody.antt =====
-- `sendRequestBody` in backend/internal/tunnels/public_handler.go: a request's body, read in pieces and
-- put on a session's channel as numbered frames. Other goroutines use the session manager between
-- two sends; what they do to it is a part of each turn. json.Marshal is a parameter.
pub mod Chunks
pub mod Forwarding
mod Examples
use my_ngrok.Base.{
  ℕ, zero, suc, ◌+◌, ◌%◌, Bool, true, false, List, [], ◌∷◌, ◌++◌, Option, none, some, Bytes, length,
  Result, ok, err, ◌==◌, if◌then◌else◌,
}
use my_ngrok.Protocol.{BinaryFrame, FrameError, request_body_chunk, marshal_binary}
use my_ngrok.Gateway.Types.{
  MessageType, message_text, message_binary, OutboundMessage, SessionManager,
}
use my_ngrok.Gateway.Sessions.{Wake, send_context}

-- What the other goroutines have done to the manager before a send, and how its `select` ends.
pub record Turn : Type 0 where
  pub others : SessionManager → SessionManager
  pub wake : Wake

-- The error of a `Read`: nil, io.EOF, or another one.
pub data ReadEnd : Type 0 where
  more eof read_error : ReadEnd

-- One `body.Read(buffer)`: the bytes that it reads, its error, and the turn of the send that follows.
pub record Read : Type 0 where
  pub chunk : Bytes
  pub end : ReadEnd
  pub turn : Turn

-- The manager, the next sequence number, and the messages that went on the channel so far.
pub record Sender : Type 0 where
  pub sessions : SessionManager
  pub sequence : ℕ
  pub sent : List OutboundMessage

pub data SendError : Type 0 where
  frame_error : FrameError → SendError
  agent_unavailable end_error body_error : SendError

-- The loop goes on, nil or an error is returned, or a send stays blocked.
pub data Progress : Type 0 where
  going : Sender → Progress
  all_sent : Sender → Progress
  failed : SendError → Sender → Progress
  blocked : Sender → Progress

-- What a send's result leads to; `next` is for a message that went on the channel.
put_result :
    (Sender → Progress) → Sender → OutboundMessage → Option (SessionManager × Bool) → Progress
put_result next s message none = blocked s
put_result next s message (some (m, false)) = failed agent_unavailable (record s { sessions = m })
put_result next s message (some (m, true)) =
    next (record s { sessions = m; sent = s.sent ++ message ∷ [] })

put_message : (Sender → Progress) → Bytes → Turn → OutboundMessage → Sender → Progress
unfolding put_result
put_message next session_id t message s =
    put_result next s message (send_context (t.others s.sessions) t.wake session_id message)

-- `sequence++`, on a uint32
advance : Sender → Progress
advance s = going (record s { sequence = (s.sequence + 1) % 4294967296 })

send_frame : Bytes → Turn → Sender → Result FrameError Bytes → Progress
unfolding put_message advance
send_frame session_id t s (err e) = failed (frame_error e) s
send_frame session_id t s (ok frame) =
    put_message advance session_id t (record { message_type = message_binary; content = frame }) s

abbrev pub frame_of : Bytes → ℕ → Bytes → BinaryFrame
frame_of request_id sequence chunk = record {
  frame_type = request_body_chunk;
  request_id = request_id;
  sequence = sequence;
  payload = chunk;
}

send_chunk : Bytes → Bytes → Turn → Sender → Bytes → Progress
unfolding send_frame
send_chunk session_id request_id t s [] = going s
send_chunk session_id request_id t s (b ∷ bs) =
    send_frame session_id t s (marshal_binary (frame_of request_id s.sequence (b ∷ bs)))

send_end : Bytes → Turn → Sender → Option Bytes → Progress
unfolding put_message
send_end session_id t s none = failed end_error s
send_end session_id t s (some encoded) =
    put_message all_sent session_id t (record { message_type = message_text; content = encoded }) s

-- What follows a piece that was sent. The end takes a turn of its own.
after_chunk : (Bytes → Option Bytes) → Bytes → Bytes → Turn → ReadEnd → Progress → Progress
unfolding send_end
after_chunk encode_end session_id request_id t more (going s) = going s
after_chunk encode_end session_id request_id t eof (going s) =
    send_end session_id t s (encode_end request_id)
after_chunk encode_end session_id request_id t read_error (going s) = failed body_error s
after_chunk encode_end session_id request_id t e p = p

-- The loop, for the reads that it makes; the first argument is json.Marshal on the end's envelope.
unfoldable pub send_request_body :
    (Bytes → Option Bytes) → Bytes → Bytes → Turn → List Read → Progress → Progress
unfolding send_chunk after_chunk
send_request_body encode_end session_id request_id last (r ∷ reads) (going s) =
    send_request_body encode_end session_id request_id last reads (
      after_chunk encode_end session_id request_id last r.end
        (send_chunk session_id request_id r.turn s r.chunk))
send_request_body encode_end session_id request_id last reads p = p

unfoldable pub new_sender : SessionManager → Sender
new_sender m = record { sessions = m; sequence = 0; sent = [] }
