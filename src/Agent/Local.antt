-- ===== src/Agent/Local.antt =====
-- The job of a request: `StreamLocal` in agent/internal/gatewayclient/local_http.go, and the closure in
-- client.go that turns its callbacks into messages. The local service is an argument: the error of a
-- request that did not go through, or a response with the reads of its body. Whether a send finds the
-- session alive is an argument too, by the send's number. The client has a local address; without one
-- a job sends nothing.
pub mod Answers
pub mod Arrivals
pub mod Delivery
mod Examples
use my_ngrok.Base.{
  ℕ, suc, ◌+◌, ◌%◌, Bool, true, false, not, ◌&&◌, List, [], ◌∷◌, ◌++◌, Bytes, bytes, ℤ, pos, negsuc,
  Result, ok, err, if◌then◌else◌,
}
use my_ngrok.Protocol.{BinaryFrame, FrameError, response_body_chunk}
use my_ngrok.Protocol.Messages.{Headers, HttpResponsePayload, HttpResponseEndPayload}
use my_ngrok.Agent.Frame.{marshal_binary}

-- The error of a `Read`: nil, io.EOF, or another one.
pub data ReadEnd : Type 0 where
  more eof read_error : ReadEnd

pub record Read : Type 0 where
  pub chunk : Bytes
  pub end : ReadEnd

-- `refused`: a bad address or request, or a service that cannot be reached. The headers of a
-- response are those that `withoutHopByHopHeaders` has left.
pub data Service : Type 0 where
  refused : Bytes → Service
  answered : ℤ → Headers → List Read → Service

pub data Outgoing : Type 0 where
  response_start : HttpResponsePayload → Outgoing
  response_chunk : Bytes → Outgoing
  response_end : HttpResponseEndPayload → Outgoing

pub record Job : Type 0 where
  pub sequence : ℕ
  pub response_started : Bool
  pub sent : List Outgoing
  pub sends : ℕ

-- `StreamLocal` returns nil or an error, or waits for the service. An error's text is looked at only
-- before the response has started.
pub data Streamed : Type 0 where
  streamed stream_waiting : Job → Streamed
  stream_failed : Bytes → Job → Streamed

pub data Done : Type 0 where
  done job_waiting : Job → Done

abbrev pub connection_closed : Bytes
connection_closed = bytes "gateway connection closed"

abbrev pub new_job : Job
new_job = record { sequence = 0; response_started = false; sent = []; sends = 0 }

abbrev pub chunk_frame : Bytes → ℕ → Bytes → BinaryFrame
chunk_frame request_id sequence chunk = record {
  frame_type = response_body_chunk;
  request_id = request_id;
  sequence = sequence;
  payload = chunk;
}

abbrev pub start_of : Bytes → ℤ → Headers → ℤ → Bytes → Outgoing
start_of request_id status headers content_length error = response_start (record {
  request_id = request_id;
  status_code = status;
  headers = headers;
  content_length = content_length;
  error = error;
})

abbrev pub end_message : Bytes → Outgoing
end_message request_id = response_end (record { request_id = request_id })

module _ (alive : ℕ → Bool) (request_id : Bytes) where
  pub send_out : Job → Outgoing → Job × Bool
  send_out j message =
      if alive j.sends
      then (record j { sent = j.sent ++ message ∷ []; sends = suc j.sends }, true)
      else (record j { sends = suc j.sends }, false)

  pub send_chunk : Job → Result FrameError Bytes → Job × Bool
  unfolding send_out
  send_chunk j (err e) = (j, false)
  send_chunk j (ok frame) =
      let (j', sent) = send_out j (response_chunk frame) in
      if sent then (record j' { sequence = (j.sequence + 1) % 4294967296 }, true) else (j', false)

  -- A piece that is not empty is sent on.
  pub send_piece : Job → Bytes → Job × Bool
  unfolding send_chunk
  send_piece j [] = (j, true)
  send_piece j (b ∷ bs) = send_chunk j (marshal_binary (chunk_frame request_id j.sequence (b ∷ bs)))

  -- The part of the loop after a piece, with what the rest of the loop does.
  pub after_piece : (Job → Streamed) → ReadEnd → Job × Bool → Streamed
  after_piece rest e (j, false) = stream_failed connection_closed j
  after_piece rest more (j, true) = rest j
  after_piece rest eof (j, true) = streamed j
  after_piece rest read_error (j, true) = stream_failed (bytes "read local response") j

  pub stream_body : List Read → Job → Streamed
  unfolding send_piece after_piece
  stream_body [] j = stream_waiting j
  stream_body (r ∷ reads) j = after_piece (λ n. stream_body reads n) r.end (send_piece j r.chunk)

  pub start_body : List Read → Job × Bool → Streamed
  unfolding stream_body
  start_body reads (j, false) = stream_failed connection_closed j
  start_body reads (j, true) = stream_body reads (record j { response_started = true })

  pub stream_local : Service → Job → Streamed
  unfolding start_body
  stream_local (refused e) j = stream_failed e j
  stream_local (answered status headers reads) j =
      start_body reads (send_out j (start_of request_id status headers (negsuc 0) []))

  pub finish : Streamed → Done
  unfolding send_out
  finish (streamed j) = done (send_out j (end_message request_id)).0
  finish (stream_failed e j) =
      if j.response_started
      then done (send_out j (end_message request_id)).0
      else done
          (send_out (send_out j (start_of request_id (pos 502) [] (pos 0) e)).0
            (end_message request_id)).0
  finish (stream_waiting j) = job_waiting j

  unfoldable pub run_job : Service → Done
  unfolding stream_local finish
  run_job service = finish (stream_local service new_job)
