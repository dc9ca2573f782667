-- ===== src/Gateway/Serve/Streams.antt =====
-- One response stream among all that a session's loop does.
use my_ngrok.Base.{
  ℕ, ltb, length, if_cases, ◌+◌, ◌%◌, ◌≡◌, ◌∙◌, refl, sym, ap, Bool, true, false, List, [], ◌∷◌,
  ◌++◌, Option, none, some, Bytes, bytes_eq, bytes_eq_iff, Bool-cases, inl, inr, append-nil,
  append_assoc, Result, ok, err, if◌then◌else◌, arith,
}
use my_ngrok.Map.{get, put}
use my_ngrok.Map.Laws.{get-put, get-delete}
use my_ngrok.Protocol.{BinaryFrame, FrameError, parse_binary_frame, response_body_chunk, payloads}
use my_ngrok.Protocol.Messages.{HttpResponsePayload, HttpResponseEndPayload}
use my_ngrok.Gateway.Types.{OutboundMessage}
use my_ngrok.Gateway.Serve.{
  Message, malformed, ping, pong, other, http_response_start, open_tunnel_request,
  http_response_end, Handler, ResponseAssembly, Serving, Outcome, running, closed, returned, Event,
  context_done, read_failed, heartbeat, outbound_ready, inbound_binary, inbound_text, inbound_other,
  write, chunk_fits, extend, on_chunk, on_frame, on_response_start, on_stream_end, on_response_end,
  on_open_tunnel, touch_both, touch_running, on_message, on_outbound, received, handle, step, serve,
  text_message, websocket_read_limit, ping_envelope, pong_envelope, invalid_message_type,
}
use my_ngrok.Gateway.Serve.Bounds.{
  after, on_open_tunnel-responses, touch_both-responses, write-responses, touch_running-responses,
  on_outbound-responses,
}

-- The frames of a stream among those that are received.
abbrev pub own_frame : Bytes → Result FrameError BinaryFrame → List BinaryFrame
own_frame id (err e) = []
own_frame id (ok f) = if bytes_eq f.request_id id then f ∷ [] else []

abbrev pub own_frames : Bytes → List (ℕ × Event) → List BinaryFrame
own_frames id [] = []
own_frames id ((now, inbound_binary bs) ∷ events) =
    own_frame id (parse_binary_frame bs) ++ own_frames id events
own_frames id ((now, e) ∷ events) = own_frames id events

-- A text frame starts or ends the stream.
abbrev pub starts_or_ends : Bytes → Message → Bool
starts_or_ends id (http_response_start (some p)) = bytes_eq p.request_id id
starts_or_ends id (http_response_end (some e)) = bytes_eq e.request_id id
starts_or_ends id _ = false

abbrev pub Between : Handler → Bytes → List (ℕ × Event) → Type 0
Between h id [] = Unit {0}
Between h id ((now, inbound_text bs sent) ∷ events) =
    (starts_or_ends id (h.decode bs) ≡ false) × Between h id events
Between h id ((now, e) ∷ events) = Between h id events

-- The frames' numbers count up from the stream's next one, and each is a response chunk.
abbrev pub InOrder : ℕ → List BinaryFrame → Type 0
InOrder n [] = Unit {0}
InOrder n (f ∷ fs) =
    (f.frame_type ≡ response_body_chunk) × (f.sequence ≡ n) × InOrder ((n + 1) % 4294967296) fs

abbrev pub advance : ℕ → List BinaryFrame → ℕ
advance n [] = n
advance n (f ∷ fs) = advance ((n + 1) % 4294967296) fs

abbrev pub extended : ResponseAssembly → List BinaryFrame → ResponseAssembly
extended a fs = record a { body = a.body ++ payloads fs; next = advance a.next fs }

-- A stream's state, and the numbering of the frames that brought it there.
abbrev Grown : Bytes → ResponseAssembly → List BinaryFrame → Serving → Type 0
Grown id a fs s = (get s.responses id ≡ some (extended a fs)) × InOrder a.next fs

unchanged :
    (s s' : Serving) (id : Bytes) (a : ResponseAssembly)
    → s'.responses ≡ s.responses
    → get s.responses id ≡ some a
    → Grown id a [] s'
unchanged s s' id a e h = (rw (e, append-nil a.body) h, tt)

chunk_accepted :
    (s s' : Serving) (f : BinaryFrame) (a : ResponseAssembly)
    → on_chunk s f (some a) ≡ running s'
    → (chunk_fits a f ≡ true)
      × (f.frame_type ≡ response_body_chunk)
      × (f.sequence ≡ a.next)
      × (s'.responses ≡ put s.responses f.request_id (extend a f.payload))
unfolding on_chunk
chunk_accepted s s' f a r = ground arith

on_chunk-Grown :
    (id : Bytes) (a : ResponseAssembly) (s s' : Serving) (f : BinaryFrame)
    (o : Option ResponseAssembly)
    → get s.responses f.request_id ≡ o
    → get s.responses id ≡ some a
    → on_chunk s f o ≡ running s'
    → Grown id a (if bytes_eq f.request_id id then f ∷ [] else []) s'
unfolding on_chunk
on_chunk-Grown id a s s' f none e h r = cc
on_chunk-Grown id a s s' f (some b) e h r =
    let (fits, t, q, grown) = chunk_accepted s s' f b r in
    let there = get-put s.responses f.request_id (extend b f.payload) id in
    elim (Bool-cases (bytes_eq f.request_id id)) [
      | inl own ↦ rw own (
          let same : b ≡ a = ground (arith, bytes_eq_iff f.request_id id) in
          (ground (arith, append-nil f.payload), ground arith))
      | inr foreign ↦ rw foreign (ground (arith, append-nil a.body), tt)
    ]

on_frame-Grown :
    (id : Bytes) (a : ResponseAssembly) (s s' : Serving) (r : Result FrameError BinaryFrame)
    → get s.responses id ≡ some a
    → on_frame s r ≡ running s'
    → Grown id a (own_frame id r) s'
unfolding on_frame
on_frame-Grown id a s s' (err e) h r = cc
on_frame-Grown id a s s' (ok f) h r =
    on_chunk-Grown id a s s' f (get s.responses f.request_id) refl h r

-- A start or an end of another stream.
on_response_start-other :
    (id : Bytes) (s s' : Serving) (o : Option HttpResponsePayload)
    → starts_or_ends id (http_response_start o) ≡ false
    → on_response_start s o ≡ running s'
    → get s'.responses id ≡ get s.responses id
unfolding on_response_start
on_response_start-other id s s' none b r = cc
on_response_start-other id s s' (some p) b r =
    ground
      (arith, get-put s.responses p.request_id (record { payload = p; next = 0; body = [] }) id)

on_stream_end-other :
    (id k : Bytes) (s s' : Serving) (o : Option ResponseAssembly)
    → bytes_eq k id ≡ false
    → on_stream_end s k o ≡ running s'
    → get s'.responses id ≡ get s.responses id
unfolding on_stream_end
on_stream_end-other id k s s' none b r = cc
on_stream_end-other id k s s' (some a) b r = ground (arith, get-delete s.responses k id)

on_response_end-other :
    (id : Bytes) (s s' : Serving) (o : Option HttpResponseEndPayload)
    → starts_or_ends id (http_response_end o) ≡ false
    → on_response_end s o ≡ running s'
    → get s'.responses id ≡ get s.responses id
unfolding on_response_end
on_response_end-other id s s' none b r = cc
on_response_end-other id s s' (some e) b r =
    on_stream_end-other id e.request_id s s' (get s.responses e.request_id) b r

-- A handler that leaves the streams alone.
still :
    (s s' : Serving) (id : Bytes) (o : Outcome)
    → (after o).responses ≡ s.responses
    → o ≡ running s'
    → get s'.responses id ≡ get s.responses id
still s s' id o e r = ap (λ m. get m id) (ap (λ x. (after x).responses) (sym r) ∙ e)

on_message-other :
    (h : Handler) (now : ℕ) (session_id id : Bytes) (s s' : Serving) (message : Message)
    (sent : Bool)
    → starts_or_ends id message ≡ false
    → on_message h now session_id s message sent ≡ running s'
    → get s'.responses id ≡ get s.responses id
unfolding on_message
on_message-other h now session_id id s s' malformed sent b r = cc
on_message-other h now session_id id s s' (http_response_start p) sent b r =
    on_response_start-other id s s' p b r
on_message-other h now session_id id s s' (open_tunnel_request p) sent b r =
    still s s' id (on_open_tunnel h now s session_id p)
      (on_open_tunnel-responses h now s session_id p) r
on_message-other h now session_id id s s' (http_response_end p) sent b r =
    on_response_end-other id s s' p b r
on_message-other h now session_id id s s' pong sent b r =
    still s s' id (running (touch_both h now s session_id))
      (touch_both-responses h now s session_id) r
on_message-other h now session_id id s s' ping sent b r =
    still s s' id (touch_running h now session_id (write s pong_message sent))
      (touch_running-responses h now session_id (write s pong_message sent)
        ∙ write-responses s pong_message sent)
      r
  where
    pong_message : OutboundMessage
    pong_message = text_message (h.encode pong_envelope)
on_message-other h now session_id id s s' other sent b r = still s s' id (running s) refl r

pub serve_on :
    (h : Handler) (session_id : Bytes) (o : Outcome) (events : List (ℕ × Event)) (s' m : Serving)
    → serve h session_id o events ≡ running s'
    → o ≡ running m
    → serve h session_id (running m) events ≡ running s'
serve_on h session_id o events s' m r e = ap (λ x. serve h session_id x events) (sym e) ∙ r

pub serve_stuck :
    (h : Handler) (session_id : Bytes) (o : Outcome) (events : List (ℕ × Event)) {s' : Serving}
    → serve h session_id o events ≡ running s'
    → (s : Serving) × (o ≡ running s)
unfolding serve
serve_stuck h session_id (running s) events r = (s, refl)
serve_stuck h session_id (closed reason s) [] r = cc
serve_stuck h session_id (closed reason s) (e ∷ events) r = cc
serve_stuck h session_id (returned b s) [] r = cc
serve_stuck h session_id (returned b s) (e ∷ events) r = cc

payloads-append : (fs gs : List BinaryFrame) → payloads (fs ++ gs) ≡ payloads fs ++ payloads gs
payloads-append [] gs = refl
payloads-append (f ∷ fs) gs =
    rw (payloads-append fs gs) (sym (append_assoc f.payload (payloads fs) (payloads gs)))

advance-append :
    (fs gs : List BinaryFrame) (n : ℕ) → advance n (fs ++ gs) ≡ advance (advance n fs) gs
advance-append [] gs n = refl
advance-append (f ∷ fs) gs n = advance-append fs gs ((n + 1) % 4294967296)

extended_append :
    (fs : List BinaryFrame) (a : ResponseAssembly) (gs : List BinaryFrame)
    → extended (extended a fs) gs ≡ extended a (fs ++ gs)
extended_append fs a gs = rw (
  payloads-append fs gs,
  advance-append fs gs a.next,
  append_assoc a.body (payloads fs) (payloads gs),
)

InOrder-append :
    (fs gs : List BinaryFrame) (n : ℕ)
    → InOrder n fs
    → InOrder (advance n fs) gs
    → InOrder n (fs ++ gs)
InOrder-append [] gs n o p = p
InOrder-append (f ∷ fs) gs n (t, q, o) p = (t, q, InOrder-append fs gs ((n + 1) % 4294967296) o p)

Grown-append :
    (id : Bytes) (a : ResponseAssembly) (fs gs : List BinaryFrame) (m s : Serving)
    → Grown id a fs m
    → Grown id (extended a fs) gs s
    → Grown id a (fs ++ gs) s
Grown-append id a fs gs m s (h, o) (k, p) =
    (k ∙ ap some (extended_append fs a gs), InOrder-append fs gs a.next o p)

-- A message that leaves the loop running was received.
step-binary :
    (h : Handler) (now : ℕ) (session_id bs : Bytes) (s m : Serving)
    → step h now session_id s (inbound_binary bs) ≡ running m
    → on_frame s (parse_binary_frame bs) ≡ running m
unfolding step received handle
step-binary h now session_id bs s m =
    if_cases P (ltb websocket_read_limit (length bs)) _ _ (λ over r. cc) (λ small r. r)
  where
    P : Event → Type 0
    P e = handle h now session_id s e ≡ running m → on_frame s (parse_binary_frame bs) ≡ running m

pub step-text :
    (h : Handler) (now : ℕ) (session_id bs : Bytes) (sent : Bool) (s m : Serving)
    → step h now session_id s (inbound_text bs sent) ≡ running m
    → on_message h now session_id s (h.decode bs) sent ≡ running m
unfolding step received handle
step-text h now session_id bs sent s m =
    if_cases P (ltb websocket_read_limit (length bs)) _ _ (λ over r. cc) (λ small r. r)
  where
    P : Event → Type 0
    P e =
        handle h now session_id s e ≡ running m
        → on_message h now session_id s (h.decode bs) sent ≡ running m

-- While the loop runs and no text frame starts or ends a stream, the stream's body grows by the
-- payloads of its own frames, in the order of their arrival, and those frames are numbered from
-- the stream's next number on; all other events leave it alone.
pub serve-extended :
    (h : Handler) (session_id id : Bytes) (events : List (ℕ × Event)) (s s' : Serving)
    (a : ResponseAssembly)
    → get s.responses id ≡ some a
    → Between h id events
    → serve h session_id (running s) events ≡ running s'
    → (get s'.responses id ≡ some (extended a (own_frames id events)))
      × InOrder a.next (own_frames id events)
unfolding serve step received handle
serve-extended h session_id id [] s s' a g b r = unchanged s s' id a (ground arith) g
serve-extended h session_id id ((now, inbound_binary bs) ∷ events) s s' a g b r =
    let o = step h now session_id s (inbound_binary bs) in
    let (m, e) = serve_stuck h session_id o events r in
    let fs = own_frame id (parse_binary_frame bs) in
    let grown =
      on_frame-Grown id a s m (parse_binary_frame bs) g (step-binary h now session_id bs s m e) in
    Grown-append id a fs (own_frames id events) m s' grown (
      serve-extended h session_id id events m s' (extended a fs) grown.0 b
        (serve_on h session_id o events s' m r e))
serve-extended h session_id id ((now, inbound_text bs sent) ∷ events) s s' a g b r =
    let o = step h now session_id s (inbound_text bs sent) in
    let (m, e) = serve_stuck h session_id o events r in
    serve-extended h session_id id events m s' a
      (on_message-other h now session_id id s m (h.decode bs) sent b.0
          (step-text h now session_id bs sent s m e)
        ∙ g)
      b.1 (serve_on h session_id o events s' m r e)
serve-extended h session_id id ((now, heartbeat sent) ∷ events) s s' a g b r =
    let o = write s (text_message (h.encode ping_envelope)) sent in
    let (m, e) = serve_stuck h session_id o events r in
    serve-extended h session_id id events m s' a
      (still s m id o (write-responses s (text_message (h.encode ping_envelope)) sent) e ∙ g) b
      (serve_on h session_id o events s' m r e)
serve-extended h session_id id ((now, outbound_ready sent) ∷ events) s s' a g b r =
    let c = get s.sessions.sessions session_id in
    let o = on_outbound s c sent in
    let (m, e) = serve_stuck h session_id o events r in
    serve-extended h session_id id events m s' a
      (still s m id o (on_outbound-responses s c sent) e ∙ g) b
      (serve_on h session_id o events s' m r e)
serve-extended h session_id id ((now, context_done) ∷ events) s s' a g b r =
    cc (serve_stuck h session_id (returned true s) events r).1
serve-extended h session_id id ((now, read_failed) ∷ events) s s' a g b r =
    cc (serve_stuck h session_id (returned true s) events r).1
serve-extended h session_id id ((now, inbound_other) ∷ events) s s' a g b r =
    cc (serve_stuck h session_id (closed invalid_message_type s) events r).1
