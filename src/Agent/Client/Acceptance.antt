-- ===== src/Agent/Client/Acceptance.antt =====
-- What the loop takes in: a stream's next chunk, and its end.
use my_ngrok.Base.{◌≡◌, refl, Bool, true, [], ◌∷◌, ◌++◌, Option, some, Bytes, ok, arith}
use my_ngrok.Map.{get, put}
use my_ngrok.Protocol.{BinaryFrame, request_body_chunk}
use my_ngrok.Protocol.Messages.{HttpRequestPayload}
use my_ngrok.Agent.Frame.{parse_binary_frame}
use my_ngrok.Agent.Assembler.{ChunkAssembler, add, complete}
use my_ngrok.Agent.Client.{
  message, http_request_end, PendingStream, Connection, running, inbound_binary, inbound_text,
  on_added, on_chunk, on_frame, request_of, dispatch, on_completed, on_stream_end, on_end,
  on_message, step,
}
use my_ngrok.Agent.Client.Requests.{end_of}

frame_taken :
    (c : Connection) (f : BinaryFrame) (p : PendingStream) (o : Option PendingStream)
    (r : ChunkAssembler × Bool)
    → o ≡ some p
    → add p.assembler f ≡ ok r
    → on_chunk c f o
      ≡ running (record c { pending = put c.pending f.request_id (record p { assembler = r.0 }) })
unfolding on_chunk on_added
frame_taken c f p o r e h = ground arith

-- A chunk that its stream's assembler accepts.
pub step-chunk :
    (c : Connection) (bs : Bytes) (f : BinaryFrame) (p : PendingStream) (r : ChunkAssembler × Bool)
    → parse_binary_frame bs ≡ ok f
    → f.frame_type ≡ request_body_chunk
    → get c.pending f.request_id ≡ some p
    → add p.assembler f ≡ ok r
    → step c (inbound_binary bs)
      ≡ running (record c { pending = put c.pending f.request_id (record p { assembler = r.0 }) })
unfolding step on_frame
step-chunk c bs f p r parsed t g h =
    let taken = frame_taken c f p (get c.pending f.request_id) r g h in rw parsed (ground arith)

completed :
    (c : Connection) (id : Bytes) (p : PendingStream) (o : Option PendingStream)
    → o ≡ some p
    → complete p.assembler ≡ ok tt
    → on_stream_end c id o true ≡ dispatch c id p true
unfolding on_stream_end on_completed
completed c id p o e h = ground arith

-- The end of a stream that is complete.
pub step-end :
    (c : Connection) (id : Bytes) (p : PendingStream) (q : HttpRequestPayload)
    → get c.pending id ≡ some p
    → complete p.assembler ≡ ok tt
    → (c' : Connection) × (step c
          (inbound_text (message http_request_end q (some (end_of id))) true)
        ≡ running c')
      × (c'.jobs ≡ c.jobs ++ request_of p ∷ [])
unfolding step on_message on_end dispatch
step-end c id p q g h = (_, completed c id p (get c.pending id) g h, refl)
