-- ===== src/Agent/Client/Bounds.antt =====
-- What bounds the memory that a gateway can make its agent hold.
use my_ngrok.Base.{
  pos, leb_ℤ, ◌≤ℤ◌, length, ap, subst, ◌∙◌, suc, ◌≤◌, ◌≡◌, refl, Bool, true, false, not, List, [],
  ◌∷◌, Option, none, some, Bytes, bytes_eq, Bool-cases, if_cases, Option-cases, inl, inr, Result,
  ok, err, leb, ◌==◌, arith,
}
use my_ngrok.Map.{Map, get, put, delete, size, Distinct}
use my_ngrok.Map.Laws.{get-put, get-delete, put-Distinct, delete-Distinct, size-put, size-delete}
use my_ngrok.Protocol.{BinaryFrame, FrameError, request_body_chunk}
use my_ngrok.Protocol.Messages.{HttpRequestPayload, HttpRequestEndPayload}
use my_ngrok.Agent.Frame.{parse_binary_frame}
use my_ngrok.Agent.Assembler.{ChunkAssembler, AssembleError, new_chunk_assembler, add, complete}
use my_ngrok.Agent.Assembler.Order.{Fits, add-Fits, add-expected, new_chunk_assembler_lem}
use my_ngrok.Agent.Client.{
  Message, malformed, message, ping, http_request_start, http_request_end, cancel_request, other,
  PendingStream, Connection, Outcome, running, failed, finished, Event, read_failed, inbound_binary,
  inbound_text, inbound_other, job_ended, on_added, on_chunk, on_frame, on_assembler, on_start,
  exists, dispatch, on_completed, on_stream_end, on_end, on_cancel, on_message, end_job, step,
  serve, max_pending_request_streams,
}

abbrev pub after : Outcome → Connection
after (running c) = c
after (failed e c) = c
after (finished c) = c

-- The stream's assembler expects what the request's start announced, and its body is no longer.
pub record IsWithin (p : PendingStream) : Type 0 where
  pub announced : p.assembler.expected ≡ p.payload.content_length
  pub body_limit :
      leb_ℤ (pos 0) p.payload.content_length ≡ true
      → pos (length p.assembler.body) ≤ℤ p.payload.content_length

pub record Inv (pending : Map PendingStream) : Type 0 where
  pub distinct : Distinct pending
  pub few : size pending ≤ max_pending_request_streams
  pub within : (k : Bytes) (p : PendingStream) → get pending k ≡ some p → IsWithin p

put-Inv :
    (m : Map PendingStream) (k : Bytes) (p : PendingStream)
    → Inv m
    → (get m k ≡ none → suc (size m) ≤ max_pending_request_streams)
    → IsWithin p
    → Inv (put m k p)
put-Inv m k p v room w = record {
  distinct = put-Distinct m k p v.distinct;
  few = elim (Option-cases (get m k)) [
    | inl fresh ↦ let r = room fresh in ground (arith, size-put m k p v.distinct)
    | inr (b, old) ↦ let f = v.few in ground (arith, size-put m k p v.distinct)
  ];
  within = λ j q h. elim (Bool-cases (bytes_eq k j)) [
    | inl hit ↦ let e : p ≡ q = ground (arith, get-put m k p j) in rw (← e) w
    | inr miss ↦ v.within j q (ground (arith, get-put m k p j))
  ];
}

delete-Inv : (m : Map PendingStream) (k : Bytes) → Inv m → Inv (delete m k)
delete-Inv m k v = record {
  distinct = delete-Distinct m k v.distinct;
  few = let f = v.few in omega (arith, size-delete m k v.distinct);
  within = λ j p h. v.within j p (ground (arith, get-delete m k j));
}

fitting :
    (p : PendingStream)
    → p.assembler.expected ≡ p.payload.content_length
    → Fits p.assembler
    → IsWithin p
fitting p e fit = record {
  announced = e;
  body_limit = subst (λ n. leb_ℤ (pos 0) n ≡ true → pos (length p.assembler.body) ≤ℤ n) e fit;
}

added-IsWithin :
    (p : PendingStream) (f : BinaryFrame) {r : ChunkAssembler × Bool}
    → p.assembler.expected ≡ p.payload.content_length
    → add p.assembler f ≡ ok r
    → IsWithin (record p { assembler = r.0 })
added-IsWithin p f {r} e h =
    fitting (record p { assembler = r.0 }) (add-expected p.assembler f h ∙ e)
      (add-Fits p.assembler f h)

on_added-Inv :
    (c : Connection) (id : Bytes) (p : PendingStream) (f : BinaryFrame)
    (r : Result AssembleError (ChunkAssembler × Bool))
    → get c.pending id ≡ some p
    → add p.assembler f ≡ r
    → Inv c.pending
    → Inv (after (on_added c id p r)).pending
unfolding on_added
on_added-Inv c id p f (err e) old h v = v
on_added-Inv c id p f (ok (a, reached)) old h v =
    put-Inv c.pending id (record p { assembler = a }) v (λ fresh. absurd (ground arith))
      (added-IsWithin p f (v.within id p old).announced h)

on_chunk-Inv :
    (c : Connection) (f : BinaryFrame) (o : Option PendingStream)
    → get c.pending f.request_id ≡ o
    → Inv c.pending
    → Inv (after (on_chunk c f o)).pending
unfolding on_chunk
on_chunk-Inv c f none e v = v
on_chunk-Inv c f (some p) e v = on_added-Inv c f.request_id p f (add p.assembler f) e refl v

on_frame-Inv :
    (c : Connection) (r : Result FrameError BinaryFrame)
    → Inv c.pending
    → Inv (after (on_frame c r)).pending
unfolding on_frame
on_frame-Inv c (err e) v = v
on_frame-Inv c (ok f) v =
    if_cases P (not (f.frame_type == request_body_chunk)) _ _ (λ strange. v)
      (λ chunk. on_chunk-Inv c f (get c.pending f.request_id) refl v)
  where
    P : Outcome → Type 0
    P o = Inv (after o).pending

on_assembler-Inv :
    (c : Connection) (p : HttpRequestPayload) (r : Result AssembleError ChunkAssembler)
    → new_chunk_assembler c.max_capacity p.content_length ≡ r
    → suc (size c.pending) ≤ max_pending_request_streams
    → Inv c.pending
    → Inv (after (on_assembler c p r)).pending
unfolding on_assembler
on_assembler-Inv c p (err e) h room v = v
on_assembler-Inv c p (ok a) h room v =
    put-Inv c.pending p.request_id (record { payload = p; assembler = a }) v (λ fresh. room)
      (let (made, fit) = new_chunk_assembler_lem c.max_capacity p.content_length h in
        fitting (record { payload = p; assembler = a }) (ap (λ x. x.expected) made) fit)

on_start-Inv :
    (c : Connection) (p : HttpRequestPayload) → Inv c.pending → Inv (after (on_start c p)).pending
unfolding on_start
on_start-Inv c p v =
    if_cases P (bytes_eq p.request_id []) _ _ (λ empty. v)
      λ named.
        if_cases P (exists (get c.pending p.request_id)) _ _ (λ again. v)
          λ fresh.
            if_cases P (leb max_pending_request_streams (size c.pending)) _ _ (λ full. v)
              λ room.
                on_assembler-Inv c p (new_chunk_assembler c.max_capacity p.content_length) refl
                  (ground arith) v
  where
    P : Outcome → Type 0
    P o = Inv (after o).pending

dispatch-Inv :
    (c : Connection) (id : Bytes) (p : PendingStream) (queued : Bool)
    → Inv c.pending
    → Inv (after (dispatch c id p queued)).pending
unfolding dispatch
dispatch-Inv c id p true v = delete-Inv c.pending id v
dispatch-Inv c id p false v = delete-Inv c.pending id v

on_completed-Inv :
    (c : Connection) (id : Bytes) (p : PendingStream) (queued : Bool)
    (r : Result AssembleError (Unit {0}))
    → Inv c.pending
    → Inv (after (on_completed c id p queued r)).pending
unfolding on_completed
on_completed-Inv c id p queued (err e) v = v
on_completed-Inv c id p queued (ok u) v = dispatch-Inv c id p queued v

on_stream_end-Inv :
    (c : Connection) (id : Bytes) (o : Option PendingStream) (queued : Bool)
    → Inv c.pending
    → Inv (after (on_stream_end c id o queued)).pending
unfolding on_stream_end
on_stream_end-Inv c id none queued v = v
on_stream_end-Inv c id (some p) queued v = on_completed-Inv c id p queued (complete p.assembler) v

on_end-Inv :
    (c : Connection) (o : Option HttpRequestEndPayload) (queued : Bool)
    → Inv c.pending
    → Inv (after (on_end c o queued)).pending
unfolding on_end
on_end-Inv c none queued v = v
on_end-Inv c (some e) queued v =
    on_stream_end-Inv c e.request_id (get c.pending e.request_id) queued v

on_message-Inv :
    (c : Connection) (m : Message) (sent : Bool)
    → Inv c.pending
    → Inv (after (on_message c m sent)).pending
unfolding on_message on_cancel
on_message-Inv c malformed sent v = v
on_message-Inv c (message ping p e) true v = v
on_message-Inv c (message ping p e) false v = v
on_message-Inv c (message http_request_start p e) sent v = on_start-Inv c p v
on_message-Inv c (message http_request_end p e) sent v = on_end-Inv c e sent v
on_message-Inv c (message cancel_request p e) sent v = delete-Inv c.pending p.request_id v
on_message-Inv c (message other p e) sent v = v

step-Inv : (c : Connection) (e : Event) → Inv c.pending → Inv (after (step c e)).pending
unfolding step end_job
step-Inv c read_failed v = v
step-Inv c (inbound_binary bs) v = on_frame-Inv c (parse_binary_frame bs) v
step-Inv c (inbound_text m sent) v = on_message-Inv c m sent v
step-Inv c inbound_other v = v
step-Inv c (job_ended id x) v = v

serve-Inv :
    (o : Outcome) (events : List Event)
    → Inv (after o).pending
    → Inv (after (serve o events)).pending
unfolding serve
serve-Inv (running c) (e ∷ events) v = serve-Inv (step c e) events (step-Inv c e v)
serve-Inv (running c) [] v = v
serve-Inv (failed e c) events v = v
serve-Inv (finished c) events v = v

-- Whatever a gateway sends, a connection that began with no stream holds at most 32 request streams,
-- under distinct request IDs, and no stream's body is longer than the length that the start of its request
-- announced, if it announced one.
pub serve-Bounded :
    (c : Connection) (events : List Event)
    → c.pending ≡ []
    → Inv (after (serve (running c) events)).pending
unfolding get size
serve-Bounded c events e =
    serve-Inv (running c) events
      (rw e (record { distinct = tt; few = omega arith; within = λ k a h. cc }))
