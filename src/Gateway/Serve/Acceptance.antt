-- ===== src/Gateway/Serve/Acceptance.antt =====
-- What the loop takes in: a response's start, its next chunk, and its end.
use my_ngrok.Base.{
  ℕ, ◌+◌, ◌≤◌, ◌<◌, ◌≡◌, ◌∙◌, ◌⊎◌, refl, ap, Bool, true, false, [], ◌∷◌, Option, some, Bytes,
  bytes_eq, length, pos, negsuc, leb_ℤ, ok, arith,
}
use my_ngrok.Map.{get, put, delete, size}
use my_ngrok.Protocol.{BinaryFrame, response_body_chunk, parse_binary_frame}
use my_ngrok.Protocol.Messages.{HttpResponsePayload}
use my_ngrok.Gateway.Sessions.{deliver_response}
use my_ngrok.Gateway.Serve.{
  http_response_start, http_response_end, Handler, ResponseAssembly, Serving, running,
  inbound_binary, inbound_text, chunk_fits, extend, on_chunk, on_frame, is_bad_start, is_full,
  on_response_start, on_stream_end, on_response_end, assembled, on_message, received, handle, step,
  websocket_read_limit, max_pending_response_streams, max_tunnel_response_body_bytes,
}
use my_ngrok.Gateway.Serve.Delivery.{end_of}

bytes_eq_nil : (k : Bytes) → 0 < length k → bytes_eq k [] ≡ false
unfolding bytes_eq
bytes_eq_nil [] h = absurd (omega arith)
bytes_eq_nil (b ∷ bs) h = refl

good_start :
    (p : HttpResponsePayload)
    → 0 < length p.request_id
    → (p.content_length ≡ negsuc 0) ⊎ (p.content_length ≡ pos 0)
    → is_bad_start p ≡ false
good_start p named announced = ground (arith, bytes_eq_nil p.request_id)

room_left :
    (s : Serving) (id : Bytes)
    → size s.responses < max_pending_response_streams
    → is_full s id ≡ false
room_left s id room = ground arith

received_binary :
    (bs : Bytes)
    → length bs ≤ websocket_read_limit
    → received (inbound_binary bs) ≡ inbound_binary bs
unfolding received
received_binary bs small = ground arith

received_text :
    (bs : Bytes) (sent : Bool)
    → length bs ≤ websocket_read_limit
    → received (inbound_text bs sent) ≡ inbound_text bs sent
unfolding received
received_text bs sent small = ground arith

-- A start with no announced length, when there is room for one more stream.
pub step-start :
    (h : Handler) (now : ℕ) (session_id bs : Bytes) (s : Serving) (p : HttpResponsePayload)
    → length bs ≤ websocket_read_limit
    → h.decode bs ≡ http_response_start (some p)
    → 0 < length p.request_id
    → (p.content_length ≡ negsuc 0) ⊎ (p.content_length ≡ pos 0)
    → size s.responses < max_pending_response_streams
    → step h now session_id s (inbound_text bs true)
      ≡ running (record s {
        responses = put s.responses p.request_id (record { payload = p; next = 0; body = [] });
      })
unfolding step handle on_message on_response_start
step-start h now session_id bs s p read d named announced room =
    ap (handle h now session_id s) (received_text bs true read)
    ∙ ap (λ m. on_message h now session_id s m true) d
    ∙ rw (good_start p named announced, room_left s p.request_id room) refl

chunk_taken :
    (s : Serving) (f : BinaryFrame) (a : ResponseAssembly) (o : Option ResponseAssembly)
    → o ≡ some a
    → chunk_fits a f ≡ true
    → on_chunk s f o
      ≡ running (record s { responses = put s.responses f.request_id (extend a f.payload) })
unfolding on_chunk
chunk_taken s f a o e fits = ground arith

-- A chunk that its stream accepts.
pub step-chunk :
    (h : Handler) (now : ℕ) (session_id bs : Bytes) (s : Serving) (f : BinaryFrame)
    (a : ResponseAssembly)
    → length bs ≤ websocket_read_limit
    → parse_binary_frame bs ≡ ok f
    → get s.responses f.request_id ≡ some a
    → f.frame_type ≡ response_body_chunk
    → f.sequence ≡ a.next
    → length a.body + length f.payload ≤ max_tunnel_response_body_bytes
    → leb_ℤ (pos 0) a.payload.content_length ≡ false
    → step h now session_id s (inbound_binary bs)
      ≡ running (record s { responses = put s.responses f.request_id (extend a f.payload) })
unfolding step handle on_frame chunk_fits
step-chunk h now session_id bs s f a read parsed there kind number small unannounced =
    let fits : chunk_fits a f ≡ true = ground arith in
    ap (handle h now session_id s) (received_binary bs read)
    ∙ ap (on_frame s) parsed
    ∙ chunk_taken s f a (get s.responses f.request_id) there fits

end_taken :
    (s : Serving) (id : Bytes) (a : ResponseAssembly) (o : Option ResponseAssembly)
    → o ≡ some a
    → (leb_ℤ (pos 0) a.payload.content_length ≡ false)
      ⊎ (a.payload.content_length ≡ pos (length a.body))
    → on_stream_end s id o
      ≡ running (record s {
        responses = delete s.responses id;
        sessions = (deliver_response s.sessions id (assembled a)).0;
      })
unfolding on_stream_end
end_taken s id a o e whole = ground arith

-- The end of a stream that is whole.
pub step-end :
    (h : Handler) (now : ℕ) (session_id bs id : Bytes) (s : Serving) (a : ResponseAssembly)
    → length bs ≤ websocket_read_limit
    → h.decode bs ≡ http_response_end (some (end_of id))
    → get s.responses id ≡ some a
    → (leb_ℤ (pos 0) a.payload.content_length ≡ false)
      ⊎ (a.payload.content_length ≡ pos (length a.body))
    → step h now session_id s (inbound_text bs true)
      ≡ running (record s {
        responses = delete s.responses id;
        sessions = (deliver_response s.sessions id (assembled a)).0;
      })
unfolding step handle on_message on_response_end
step-end h now session_id bs id s a read d there whole =
    ap (handle h now session_id s) (received_text bs true read)
    ∙ ap (λ m. on_message h now session_id s m true) d
    ∙ end_taken s id a (get s.responses id) there whole
