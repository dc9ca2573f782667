-- ===== src/Agent/Client/Streams.antt =====
-- One request stream among all that a connection's loop does.
use my_ngrok.Base.{
  ◌≡◌, ◌∙◌, refl, sym, ap, Bool, false, List, [], ◌∷◌, ◌++◌, Option, none, some, Bytes, bytes_eq,
  bytes_eq_iff, Bool-cases, inl, inr, Result, ok, err, if◌then◌else◌, arith, bind-eq-ok,
}
use my_ngrok.Map.{get, put}
use my_ngrok.Map.Laws.{get-put, get-delete}
use my_ngrok.Protocol.{BinaryFrame, FrameError}
use my_ngrok.Protocol.Messages.{HttpRequestPayload}
use my_ngrok.Agent.Frame.{parse_binary_frame}
use my_ngrok.Agent.Assembler.{ChunkAssembler, AssembleError, new_chunk_assembler, add, complete}
use my_ngrok.Agent.Assembler.Order.{add_all}
use my_ngrok.Agent.Client.{
  Message, malformed, message, ping, http_request_start, http_request_end, cancel_request, other,
  PendingStream, Connection, Outcome, running, failed, finished, Event, read_failed, inbound_binary,
  inbound_text, inbound_other, job_ended, on_added, on_chunk, on_frame, on_assembler, on_start,
  dispatch, on_completed, on_stream_end, on_end, on_cancel, on_message, end_job, step, serve,
}

-- The frames of a stream among those that are received.
abbrev pub own_frame : Bytes → Result FrameError BinaryFrame → List BinaryFrame
own_frame id (err e) = []
own_frame id (ok f) = if bytes_eq f.request_id id then f ∷ [] else []

abbrev pub own_frames : Bytes → List Event → List BinaryFrame
own_frames id [] = []
own_frames id (inbound_binary bs ∷ events) =
    own_frame id (parse_binary_frame bs) ++ own_frames id events
own_frames id (e ∷ events) = own_frames id events

-- A text frame starts, ends or cancels the stream.
abbrev pub names_stream : Bytes → Message → Bool
names_stream id (message http_request_start p e) = bytes_eq p.request_id id
names_stream id (message http_request_end p (some e)) = bytes_eq e.request_id id
names_stream id (message cancel_request p e) = bytes_eq p.request_id id
names_stream id _ = false

abbrev pub Between : Bytes → List Event → Type 0
Between id [] = Unit {0}
Between id (inbound_text m sent ∷ events) = (names_stream id m ≡ false) × Between id events
Between id (e ∷ events) = Between id events

-- The stream's assembler has gone through the frames, and its payload is still the start's.
abbrev pub Grown : Bytes → PendingStream → List BinaryFrame → Connection → Type 0
Grown id p fs c =
    (a : ChunkAssembler) × (get c.pending id ≡ some (record { payload = p.payload; assembler = a }))
    × (add_all p.assembler fs ≡ ok a)

unchanged :
    (c c' : Connection) (id : Bytes) (p : PendingStream)
    → get c'.pending id ≡ get c.pending id
    → get c.pending id ≡ some p
    → Grown id p [] c'
unfolding add_all
unchanged c c' id p e g = (p.assembler, e ∙ g, refl)

on_added-Grown :
    (id k : Bytes) (c c' : Connection) (p q : PendingStream) (f : BinaryFrame)
    (r : Result AssembleError (ChunkAssembler × Bool))
    → f.request_id ≡ k
    → add q.assembler f ≡ r
    → get c.pending k ≡ some q
    → get c.pending id ≡ some p
    → on_added c k q r ≡ running c'
    → Grown id p (if bytes_eq f.request_id id then f ∷ [] else []) c'
unfolding on_added add_all
on_added-Grown id k c c' p q f (err e) n h old g r = cc
on_added-Grown id k c c' p q f (ok (a, reached)) n h old g r =
    let there = get-put c.pending k (record q { assembler = a }) id in
    let now : c'.pending ≡ put c.pending k (record q { assembler = a }) = ground arith in
    elim (Bool-cases (bytes_eq f.request_id id)) [
      | inl own ↦ rw own (
          let same : p ≡ q = ground (arith, bytes_eq_iff f.request_id id) in
          (a, ground arith, rw (same, h) refl))
      | inr foreign ↦ rw foreign (p.assembler, ground arith, refl)
    ]

on_chunk-Grown :
    (id : Bytes) (c c' : Connection) (p : PendingStream) (f : BinaryFrame)
    (o : Option PendingStream)
    → get c.pending f.request_id ≡ o
    → get c.pending id ≡ some p
    → on_chunk c f o ≡ running c'
    → Grown id p (if bytes_eq f.request_id id then f ∷ [] else []) c'
unfolding on_chunk
on_chunk-Grown id c c' p f none e g r = cc
on_chunk-Grown id c c' p f (some q) e g r =
    on_added-Grown id f.request_id c c' p q f (add q.assembler f) refl refl e g r

on_frame-Grown :
    (id : Bytes) (c c' : Connection) (p : PendingStream) (x : Result FrameError BinaryFrame)
    → get c.pending id ≡ some p
    → on_frame c x ≡ running c'
    → Grown id p (own_frame id x) c'
unfolding on_frame
on_frame-Grown id c c' p (err e) g r = cc
on_frame-Grown id c c' p (ok f) g r =
    on_chunk-Grown id c c' p f (get c.pending f.request_id) refl g (ground arith)

on_assembler-other :
    (id : Bytes) (c c' : Connection) (p : HttpRequestPayload)
    (x : Result AssembleError ChunkAssembler)
    → bytes_eq p.request_id id ≡ false
    → on_assembler c p x ≡ running c'
    → get c'.pending id ≡ get c.pending id
unfolding on_assembler
on_assembler-other id c c' p (err e) b r = cc
on_assembler-other id c c' p (ok a) b r =
    ground (arith, get-put c.pending p.request_id (record { payload = p; assembler = a }) id)

pub start_assembles :
    (c c' : Connection) (p : HttpRequestPayload)
    → on_start c p ≡ running c'
    → on_assembler c p (new_chunk_assembler c.max_capacity p.content_length) ≡ running c'
unfolding on_start
start_assembles c c' p r = ground arith

dispatch-other :
    (id k : Bytes) (c c' : Connection) (p : PendingStream) (queued : Bool)
    → bytes_eq k id ≡ false
    → dispatch c k p queued ≡ running c'
    → get c'.pending id ≡ get c.pending id
unfolding dispatch
dispatch-other id k c c' p queued b r = ground (arith, get-delete c.pending k id)

on_completed-other :
    (id k : Bytes) (c c' : Connection) (p : PendingStream) (queued : Bool)
    (x : Result AssembleError (Unit {0}))
    → bytes_eq k id ≡ false
    → on_completed c k p queued x ≡ running c'
    → get c'.pending id ≡ get c.pending id
unfolding on_completed
on_completed-other id k c c' p queued (err e) b r = cc
on_completed-other id k c c' p queued (ok u) b r = dispatch-other id k c c' p queued b r

on_stream_end-other :
    (id k : Bytes) (c c' : Connection) (o : Option PendingStream) (queued : Bool)
    → bytes_eq k id ≡ false
    → on_stream_end c k o queued ≡ running c'
    → get c'.pending id ≡ get c.pending id
unfolding on_stream_end
on_stream_end-other id k c c' none queued b r = cc
on_stream_end-other id k c c' (some p) queued b r =
    on_completed-other id k c c' p queued (complete p.assembler) b r

on_message-other :
    (id : Bytes) (c c' : Connection) (m : Message) (sent : Bool)
    → names_stream id m ≡ false
    → on_message c m sent ≡ running c'
    → get c'.pending id ≡ get c.pending id
unfolding on_message on_end on_cancel
on_message-other id c c' malformed sent b r = cc
on_message-other id c c' (message ping p e) sent b r = ground arith
on_message-other id c c' (message http_request_start p e) sent b r =
    on_assembler-other id c c' p (new_chunk_assembler c.max_capacity p.content_length) b
      (start_assembles c c' p r)
on_message-other id c c' (message http_request_end p none) sent b r = cc
on_message-other id c c' (message http_request_end p (some e)) sent b r =
    on_stream_end-other id e.request_id c c' (get c.pending e.request_id) sent b r
on_message-other id c c' (message cancel_request p e) sent b r =
    ground (arith, get-delete c.pending p.request_id id)
on_message-other id c c' (message other p e) sent b r = ground arith

pub serve_on :
    (o : Outcome) (events : List Event) (c' c : Connection)
    → serve o events ≡ running c'
    → o ≡ running c
    → serve (running c) events ≡ running c'
serve_on o events c' c r e = ap (λ x. serve x events) (sym e) ∙ r

pub serve_stuck :
    (o : Outcome) (events : List Event) {c' : Connection}
    → serve o events ≡ running c'
    → (c : Connection) × (o ≡ running c)
unfolding serve
serve_stuck (running c) events r = (c, refl)
serve_stuck (failed x c) [] r = cc
serve_stuck (failed x c) (e ∷ events) r = cc
serve_stuck (finished c) [] r = cc
serve_stuck (finished c) (e ∷ events) r = cc

add_all-append :
    (a b : ChunkAssembler) (fs gs : List BinaryFrame)
    → add_all a fs ≡ ok b
    → add_all a (fs ++ gs) ≡ add_all b gs
unfolding add_all
add_all-append a b [] gs h = ground arith
add_all-append a b (f ∷ fs) gs h =
    let (r, first, rest) = bind-eq-ok (add a f) (λ r. add_all r.0 fs) h in
    rw first (add_all-append r.0 b fs gs rest)

-- While the loop runs and no text frame starts, ends or cancels a stream, its assembler goes through
-- the stream's own frames, in the order of their arrival; all other events leave it alone.
pub serve-add_all :
    (id : Bytes) (events : List Event) (c c' : Connection) (p : PendingStream)
    → get c.pending id ≡ some p
    → Between id events
    → serve (running c) events ≡ running c'
    → Grown id p (own_frames id events) c'
unfolding serve step end_job
serve-add_all id [] c c' p g b r = unchanged c c' id p (ground arith) g
serve-add_all id (inbound_binary bs ∷ events) c c' p g b r =
    let o = on_frame c (parse_binary_frame bs) in
    let (m, e) = serve_stuck o events r in
    let fs = own_frame id (parse_binary_frame bs) in
    let (a, there, went) = on_frame-Grown id c m p (parse_binary_frame bs) g e in
    let (a', there', went') =
      serve-add_all id events m c' (record { payload = p.payload; assembler = a }) there b
        (serve_on o events c' m r e) in
    (a', there', add_all-append p.assembler a fs (own_frames id events) went ∙ went')
serve-add_all id (inbound_text x sent ∷ events) c c' p g b r =
    let o = on_message c x sent in
    let (m, e) = serve_stuck o events r in
    serve-add_all id events m c' p (on_message-other id c m x sent b.0 e ∙ g) b.1
      (serve_on o events c' m r e)
serve-add_all id (job_ended k own ∷ events) c c' p g b r =
    serve-add_all id events (end_job c k own) c' p g b r
serve-add_all id (read_failed ∷ events) c c' p g b r =
    cc (serve_stuck (step c read_failed) events r).1
serve-add_all id (inbound_other ∷ events) c c' p g b r =
    cc (serve_stuck (step c inbound_other) events r).1
