-- ===== src/Agent/Client/Requests.antt =====
-- From a request's start to the job that forwards it.
use my_ngrok.Base.{
  ◌≡◌, ◌∙◌, ◌⊎◌, refl, sym, Bool, false, List, [], ◌∷◌, ◌++◌, Option, none, some, Bytes, pos, leb_ℤ,
  length, Result, ok, err, arith,
}
use my_ngrok.Map.{get}
use my_ngrok.Map.Laws.{get-put_self}
use my_ngrok.Protocol.{BinaryFrame, payloads}
use my_ngrok.Protocol.Messages.{HttpRequestPayload, HttpRequestEndPayload}
use my_ngrok.Agent.Assembler.{ChunkAssembler, AssembleError, new_chunk_assembler, complete}
use my_ngrok.Agent.Assembler.Order.{
  add_all, add_all_sound, complete_iff, InSequence, new_chunk_assembler_lem,
}
use my_ngrok.Agent.Client.{
  message, http_request_start, http_request_end, PendingStream, Request, Connection, Outcome,
  running, failed, finished, Event, inbound_text, on_assembler, on_start, request_of, dispatch,
  on_completed, on_stream_end, on_end, on_message, step, serve,
}
use my_ngrok.Agent.Client.Streams.{
  own_frames, Between, serve-add_all, serve_stuck, serve_on, start_assembles,
}

pub serve-append :
    (xs : List Event) (o : Outcome) (ys : List Event) → serve o (xs ++ ys) ≡ serve (serve o xs) ys
unfolding serve
serve-append [] (running c) ys = refl
serve-append [] (failed e c) ys = refl
serve-append [] (finished c) ys = refl
serve-append (x ∷ xs) (running c) ys = serve-append xs (step c x) ys
serve-append (x ∷ xs) (failed e c) [] = refl
serve-append (x ∷ xs) (failed e c) (y ∷ ys) = refl
serve-append (x ∷ xs) (finished c) [] = refl
serve-append (x ∷ xs) (finished c) (y ∷ ys) = refl

serve-nil : (o : Outcome) → serve o [] ≡ o
unfolding serve
serve-nil (running c) = refl
serve-nil (failed e c) = refl
serve-nil (finished c) = refl

abbrev pub fresh_stream : HttpRequestPayload → PendingStream
fresh_stream p = record {
  payload = p;
  assembler = record { expected = p.content_length; next = 0; body = [] };
}

assembler_accepted :
    (c m : Connection) (p : HttpRequestPayload) (x : Result AssembleError ChunkAssembler)
    → new_chunk_assembler c.max_capacity p.content_length ≡ x
    → on_assembler c p x ≡ running m
    → get m.pending p.request_id ≡ some (fresh_stream p)
unfolding on_assembler
assembler_accepted c m p (err e) h r = cc
assembler_accepted c m p (ok a) h r =
    let (e, fit) = new_chunk_assembler_lem c.max_capacity p.content_length h in
    ground (arith, get-put_self c.pending p.request_id (record { payload = p; assembler = a }))

-- What an end that goes through has put on the job channel.
completed_accepted :
    (m c : Connection) (id : Bytes) (p : PendingStream) (queued : Bool)
    (x : Result AssembleError (Unit {0}))
    → on_completed m id p queued x ≡ running c
    → (x ≡ ok tt) × (c.jobs ≡ m.jobs ++ request_of p ∷ [])
unfolding on_completed dispatch
completed_accepted m c id p queued (err e) r = cc
completed_accepted m c id p queued (ok u) r = (refl, ground arith)

end_accepted :
    (m c : Connection) (id : Bytes) (p : PendingStream) (queued : Bool) (o : Option PendingStream)
    → o ≡ some p
    → on_stream_end m id o queued ≡ running c
    → (complete p.assembler ≡ ok tt) × (c.jobs ≡ m.jobs ++ request_of p ∷ [])
unfolding on_stream_end
end_accepted m c id p queued none e r = cc
end_accepted m c id p queued (some q) e r =
    completed_accepted m c id p queued (complete p.assembler) (ground arith)

abbrev pub end_of : Bytes → HttpRequestEndPayload
end_of id = record { request_id = id }

abbrev pub request_from : HttpRequestPayload → List BinaryFrame → Request
request_from p fs = record {
  id = p.request_id;
  method = p.method;
  path = p.path;
  headers = p.headers;
  body = payloads fs;
}

request_lem :
    (m c : Connection) (p : HttpRequestPayload) (fs : List BinaryFrame) (a : ChunkAssembler)
    → add_all (fresh_stream p).assembler fs ≡ ok a
    → complete a ≡ ok tt
    → c.jobs ≡ m.jobs ++ request_of (record { payload = p; assembler = a }) ∷ []
    → (c.jobs ≡ m.jobs ++ request_from p fs ∷ [])
      × InSequence 0 fs
      × ((p.content_length ≡ pos (length (payloads fs))) ⊎ (leb_ℤ (pos 0) p.content_length ≡ false))
request_lem m c p fs a h done queued =
    let (order, joined, same, fit) =
      add_all_sound (fresh_stream p).assembler fs (λ z. ground arith) h in
    let whole = (complete_iff a).0 done in (ground arith, order, ground arith)

-- A loop that is still running after a request's start, any further events that do not start, end or
-- cancel that request, and its end, has put one job on the job channel: the request with the method,
-- path and headers of the start, and as its body the payloads of the stream's frames, joined in the
-- order of their arrival. Those frames are request chunks numbered from 0, and if a length was
-- announced it is the body's.
pub serve-request :
    (c c' : Connection) (p q : HttpRequestPayload) (o : Option HttpRequestEndPayload) (b b' : Bool)
    (events : List Event)
    → Between p.request_id events
    → serve (running c) (
        inbound_text (message http_request_start p o) b
        ∷ (events
            ++ inbound_text (message http_request_end q (some (end_of p.request_id))) b' ∷ []))
      ≡ running c'
    → let fs = own_frames p.request_id events in
      (m : Connection) × (serve
          (running c)
          (inbound_text (message http_request_start p o) b ∷ events)
        ≡ running m)
      × (c'.jobs ≡ m.jobs ++ request_from p fs ∷ [])
      × InSequence 0 fs
      × ((p.content_length ≡ pos (length (payloads fs))) ⊎ (leb_ℤ (pos 0) p.content_length ≡ false))
unfolding serve step on_message on_start on_end
serve-request c c' p q o b b' events between r =
    let stop = inbound_text (message http_request_end q (some (end_of p.request_id))) b' ∷ [] in
    let opening = inbound_text (message http_request_start p o) b ∷ events in
    let split = serve-append opening (running c) stop in
    let (m, em) = serve_stuck (serve (running c) opening) stop (sym split ∙ r) in
    let (m0, e0) = serve_stuck (on_start c p) events em in
    let opened =
      assembler_accepted c m0 p (new_chunk_assembler c.max_capacity p.content_length) refl
        (start_assembles c m0 p e0) in
    let (a, there, went) =
      serve-add_all p.request_id events m0 m (fresh_stream p) opened between
        (serve_on (on_start c p) events m m0 em e0) in
    let closing = serve_on (serve (running c) opening) stop c' m (sym split ∙ r) em in
    let (done, queued) =
      end_accepted m c' p.request_id (record { payload = p; assembler = a }) b'
        (get m.pending p.request_id) there
        (sym (serve-nil (on_stream_end m p.request_id (get m.pending p.request_id) b'))
          ∙ closing) in
    let (job, order, whole) =
      request_lem m c' p (own_frames p.request_id events) a went done queued in
    (m, em, job, order, whole)
