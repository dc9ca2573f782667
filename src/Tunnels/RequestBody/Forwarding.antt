-- ===== src/Tunnels/RequestBody/Forwarding.antt =====
-- A request's body on its way: sent by the public handler, assembled by the agent's loop.
use my_ngrok.Base.{
  ℕ, ◌+◌, ◌%◌, ◌≡◌, ◌∙◌, refl, ap, true, false, List, [], ◌∷◌, ◌++◌, Option, some, Bytes, length,
  pos, leb_ℤ, ok, ◌⊎◌, arith, bind-eq-ok,
}
use my_ngrok.Map.{get, put}
use my_ngrok.Map.Laws.{get-put_self}
use my_ngrok.Protocol.{BinaryFrame, payloads, IsU32, request_body_chunk}
use my_ngrok.Protocol.Messages.{HttpRequestPayload}
use my_ngrok.Gateway.Types.{
  MessageType, message_text, message_binary, OutboundMessage, SessionManager,
}
use my_ngrok.Agent.Frame.Interop.{parse-marshal_across}
use my_ngrok.Agent.Assembler.{ChunkAssembler, add, complete}
use my_ngrok.Agent.Assembler.Order.{add_all, add_all_complete, complete_iff, InSequence}
use my_ngrok.Agent.Client.{
  Message, message, http_request_end, PendingStream, Request, Connection, running, Event,
  inbound_binary, inbound_text, request_of, step, serve,
}
use my_ngrok.Agent.Client.Acceptance.{step-chunk, step-end}
use my_ngrok.Agent.Client.Requests.{fresh_stream, end_of, serve-append}
use my_ngrok.Tunnels.RequestBody.{
  Turn, ReadEnd, more, eof, read_error, Read, Sender, going, all_sent, send_request_body,
  new_sender,
}
use my_ngrok.Tunnels.RequestBody.Chunks.{
  joined, frames, frames_after, piece, Carries, text, send_request_body_lem, payloads-frames,
}

abbrev arrival_of : (Bytes → Message) → MessageType → Bytes → Event
arrival_of decode message_text encoded = inbound_text (decode encoded) true
arrival_of decode message_binary encoded = inbound_binary encoded

-- Messages as the agent's loop is woken by them, with room on the job channel.
abbrev pub arrivals : (Bytes → Message) → List OutboundMessage → List Event
arrivals decode [] = []
arrivals decode (m ∷ messages) =
    arrival_of decode m.message_type m.content ∷ arrivals decode messages

-- Chunks of one request, numbered from `n`.
abbrev Chunked : Bytes → ℕ → List BinaryFrame → Type 0
Chunked id n [] = Unit {0}
Chunked id n (f ∷ fs) =
    (f.frame_type ≡ request_body_chunk)
    × (f.request_id ≡ id)
    × (f.sequence ≡ n)
    × IsU32 n
    × Chunked id ((n + 1) % 4294967296) fs

piece-Chunked :
    (id : Bytes) (n : ℕ) (chunk : Bytes) (rest : ℕ → List BinaryFrame)
    → IsU32 n
    → ((k : ℕ) → IsU32 k → Chunked id k (rest k))
    → Chunked id n (piece id n chunk rest)
piece-Chunked id n [] rest u h = h n u
piece-Chunked id n (b ∷ bs) rest u h = (refl, refl, refl, u, h ((n + 1) % 4294967296) (omega arith))

frames_after-Chunked :
    (id : Bytes) (n : ℕ) (e : ReadEnd) (fs : List BinaryFrame)
    → Chunked id n fs
    → Chunked id n (frames_after e fs)
frames_after-Chunked id n more fs h = h
frames_after-Chunked id n eof fs h = tt
frames_after-Chunked id n read_error fs h = tt

frames-Chunked :
    (id : Bytes) (reads : List Read) (n : ℕ) → IsU32 n → Chunked id n (frames id n reads)
frames-Chunked id [] n u = tt
frames-Chunked id (r ∷ reads) n u =
    piece-Chunked id n r.chunk (λ k. frames_after r.end (frames id k reads)) u
      (λ k v. frames_after-Chunked id k r.end (frames id k reads) (frames-Chunked id reads k v))

Chunked-InSequence :
    (id : Bytes) (n : ℕ) (fs : List BinaryFrame) → Chunked id n fs → InSequence n fs
Chunked-InSequence id n [] h = tt
Chunked-InSequence id n (f ∷ fs) (t, i, q, u, h) =
    (t, q, Chunked-InSequence id ((n + 1) % 4294967296) fs h)

-- The stream's own chunks, arriving one after the other.
frames_taken :
    (decode : Bytes → Message) (id : Bytes) (fs : List BinaryFrame)
    (messages : List OutboundMessage) (n : ℕ) (c : Connection) (p : PendingStream)
    (a : ChunkAssembler)
    → Carries fs messages
    → Chunked id n fs
    → get c.pending id ≡ some p
    → add_all p.assembler fs ≡ ok a
    → (c' : Connection) × (serve (running c) (arrivals decode messages) ≡ running c')
      × (get c'.pending id ≡ some (record p { assembler = a }))
      × (c'.jobs ≡ c.jobs)
unfolding add_all serve
frames_taken decode id [] [] n c p a k h g e = (c, refl, ground arith, refl)
frames_taken decode id [] (m ∷ ms) n c p a k h g e = absurd k
frames_taken decode id (f ∷ fs) [] n c p a k h g e = absurd k
frames_taken decode id (f ∷ fs) (m ∷ messages) n c p a (bs, enc, is, k) (t, i, q, u, h) g e =
    let (r, first, rest) = bind-eq-ok (add p.assembler f) (λ r. add_all r.0 fs) e in
    let parsed = (parse-marshal_across f bs (rw q u)).0 enc in
    let c1 = record c { pending = put c.pending f.request_id (record p { assembler = r.0 }) } in
    let taken = step-chunk c bs f p r parsed t (rw i g) first in
    let (c', went, there, same) =
      frames_taken decode id fs messages ((n + 1) % 4294967296) c1 (record p { assembler = r.0 }) a
        k h (rw (← i) (get-put_self c.pending f.request_id (record p { assembler = r.0 }))) rest in
    (c', rw is (ap (λ o. serve o (arrivals decode messages)) taken ∙ went), there, same)

arrivals-append :
    (decode : Bytes → Message) (xs ys : List OutboundMessage)
    → arrivals decode (xs ++ ys) ≡ arrivals decode xs ++ arrivals decode ys
arrivals-append decode [] ys = refl
arrivals-append decode (x ∷ xs) ys =
    ap (◌∷◌ (arrival_of decode x.message_type x.content)) (arrivals-append decode xs ys)

-- A body that fits its announcement is assembled whole.
assembled_whole :
    (p : HttpRequestPayload) (fs : List BinaryFrame)
    → InSequence 0 fs
    → (p.content_length ≡ pos (length (payloads fs))) ⊎ (leb_ℤ (pos 0) p.content_length ≡ false)
    → (a : ChunkAssembler) × (add_all (fresh_stream p).assembler fs ≡ ok a)
      × (complete a ≡ ok tt)
      × (a.body ≡ payloads fs)
assembled_whole p fs order whole =
    let (n, went) = add_all_complete (fresh_stream p).assembler fs order (λ h. ground arith) in
    (
      record { expected = p.content_length; next = n; body = payloads fs },
      went,
      (complete_iff (record { expected = p.content_length; next = n; body = payloads fs })).1 whole,
      refl,
    )

-- A request body that the public handler has sent whole reaches the agent whole. The loop of `Connect`
-- has seen the request's start, nothing else is on the way, conn.Read returns each message, which it
-- does for one within its read limit, json.Unmarshal reads back the end that
-- json.Marshal wrote, and the announced length, if there is one, is that of the bytes read. Then the
-- loop takes every message without an error, and puts one job on its channel: the request of the
-- start, with the bytes that the handler read as its body.
pub send_request_body-serve :
    (encode_end : Bytes → Option Bytes) (decode : Bytes → Message) (session_id : Bytes)
    (last : Turn) (m : SessionManager) (reads : List Read) (s' : Sender) (c : Connection)
    (p q : HttpRequestPayload)
    → send_request_body encode_end session_id p.request_id last reads (going (new_sender m))
      ≡ all_sent s'
    → ((bs : Bytes)
        → encode_end p.request_id ≡ some bs
        → decode bs ≡ message http_request_end q (some (end_of p.request_id)))
    → get c.pending p.request_id ≡ some (fresh_stream p)
    → (p.content_length ≡ pos (length (joined reads))) ⊎ (leb_ℤ (pos 0) p.content_length ≡ false)
    → (c' : Connection) × (serve (running c) (arrivals decode s'.sent) ≡ running c')
      × (c'.jobs
          ≡ c.jobs
            ++ record {
              id = p.request_id;
              method = p.method;
              path = p.path;
              headers = p.headers;
              body = joined reads;
            }
              ∷ [])
unfolding new_sender serve
send_request_body-serve encode_end decode session_id last m reads s' c p q sent codec started
      whole =
    let fs = frames p.request_id 0 reads in
    let (messages, encoded, en, k, all) =
      send_request_body_lem encode_end session_id p.request_id last reads (new_sender m) s' sent in
    let chunked = frames-Chunked p.request_id reads 0 (omega arith) in
    let body = payloads-frames p.request_id 0 reads in
    let (a, went, done, same) =
      assembled_whole p fs (Chunked-InSequence p.request_id 0 fs chunked) (rw body whole) in
    let (m1, through, there, before) =
      frames_taken decode p.request_id fs messages 0 c (fresh_stream p) a k chunked started went in
    let (c', ended, job) =
      step-end m1 p.request_id (record { payload = p; assembler = a }) q there done in
    let halves = arrivals-append decode messages (text encoded ∷ []) in
    let stop = arrivals decode (text encoded ∷ []) in
    let parted = serve-append (arrivals decode messages) (running c) stop in
    (
      c',
      ap (λ ms. serve (running c) (arrivals decode ms)) all
          ∙ (ap (serve (running c)) halves
              ∙ (parted
                  ∙ (ap (λ o. serve o stop) through
                      ∙ (ap (λ x. serve (step m1 (inbound_text x true)) []) (codec encoded en)
                          ∙ ap (λ o. serve o []) ended)))),
      job
          ∙ (ap (λ js. js ++ request_of (record { payload = p; assembler = a }) ∷ []) before
              ∙ ap (λ b. c.jobs ++ request_with b ∷ []) (same ∙ body)),
    )
  where
    request_with : Bytes → Request
    request_with b = record {
      id = p.request_id;
      method = p.method;
      path = p.path;
      headers = p.headers;
      body = b;
    }
