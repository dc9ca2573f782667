-- ===== src/Gateway/Serve/Bounds.antt =====
-- What bounds the memory that an agent can make its session hold.
use my_ngrok.Base.{
  ℕ, suc, ◌≤◌, ◌≡◌, ◌∙◌, refl, sym, subst, Bool, true, false, List, [], ◌∷◌, Option, none, some,
  Bytes, bytes_eq, Bool-cases, if_cases, Option-cases, inl, inr, length, length-append, pos, leb_ℤ,
  ◌≤ℤ◌, Result, ok, err, arith,
}
use my_ngrok.Map.{Map, get, put, delete, size, Distinct}
use my_ngrok.Map.Laws.{get-put, get-delete, put-Distinct, delete-Distinct, size-put, size-delete}
use my_ngrok.Protocol.{BinaryFrame, FrameError, parse_binary_frame}
use my_ngrok.Protocol.Messages.{OpenTunnelPayload, HttpResponsePayload, HttpResponseEndPayload}
use my_ngrok.Gateway.Types.{OutboundMessage, Session}
use my_ngrok.Gateway.Serve.{
  Message, malformed, ping, pong, other, http_response_start, open_tunnel_request,
  http_response_end, Handler, ResponseAssembly, Serving, Outcome, running, closed, returned, Event,
  context_done, read_failed, heartbeat, outbound_ready, inbound_binary, inbound_text, inbound_other,
  write, chunk_fits, extend, on_chunk, on_frame, on_response_start, on_stream_end, on_response_end,
  on_open_tunnel, open_for_session, touch_both, touch_running, on_message, on_outbound, received,
  handle, step, serve, is_bad_start, is_full, text_message, pong_envelope,
  max_pending_response_streams, max_tunnel_response_body_bytes,
}

abbrev pub after : Outcome → Serving
after (running s) = s
after (closed reason s) = s
after (returned b s) = s

-- A stream's body keeps within the limit for a response, and within an announced length.
pub record IsWithin (a : ResponseAssembly) : Type 0 where
  pub body_limit : length a.body ≤ max_tunnel_response_body_bytes
  pub announced :
      leb_ℤ (pos 0) a.payload.content_length ≡ true
      → pos (length a.body) ≤ℤ a.payload.content_length

pub record Inv (responses : Map ResponseAssembly) : Type 0 where
  pub distinct : Distinct responses
  pub few : size responses ≤ max_pending_response_streams
  pub within : (k : Bytes) (a : ResponseAssembly) → get responses k ≡ some a → IsWithin a

chunk_fits-IsWithin :
    (a : ResponseAssembly) (f : BinaryFrame) → chunk_fits a f ≡ true → IsWithin (extend a f.payload)
unfolding chunk_fits
chunk_fits-IsWithin a f h = record {
  body_limit = ground (arith, length-append a.body f.payload);
  announced = λ p. ground (arith, length-append a.body f.payload);
}

put-Inv :
    (m : Map ResponseAssembly) (k : Bytes) (a : ResponseAssembly)
    → Inv m
    → (get m k ≡ none → suc (size m) ≤ max_pending_response_streams)
    → IsWithin a
    → Inv (put m k a)
put-Inv m k a v room w = record {
  distinct = put-Distinct m k a v.distinct;
  few = elim (Option-cases (get m k)) [
    | inl fresh ↦ let r = room fresh in ground (arith, size-put m k a v.distinct)
    | inr (b, old) ↦ let f = v.few in ground (arith, size-put m k a v.distinct)
  ];
  within = λ j b h. elim (Bool-cases (bytes_eq k j)) [
    | inl hit ↦ let e : a ≡ b = ground (arith, get-put m k a j) in rw (← e) w
    | inr miss ↦ v.within j b (ground (arith, get-put m k a j))
  ];
}

delete-Inv : (m : Map ResponseAssembly) (k : Bytes) → Inv m → Inv (delete m k)
delete-Inv m k v = record {
  distinct = delete-Distinct m k v.distinct;
  few = let f = v.few in omega (arith, size-delete m k v.distinct);
  within = λ j a h. v.within j a (ground (arith, get-delete m k j));
}

on_chunk-Inv :
    (s : Serving) (f : BinaryFrame) (o : Option ResponseAssembly)
    → get s.responses f.request_id ≡ o
    → Inv s.responses
    → Inv (after (on_chunk s f o)).responses
unfolding on_chunk
on_chunk-Inv s f none e v = v
on_chunk-Inv s f (some a) e v = elim (Bool-cases (chunk_fits a f)) [
  | inl fits ↦ rw fits (
      put-Inv s.responses f.request_id (extend a f.payload) v (λ fresh. absurd (ground arith))
        (chunk_fits-IsWithin a f fits))
  | inr misfit ↦ rw misfit v
]

on_frame-Inv :
    (s : Serving) (r : Result FrameError BinaryFrame)
    → Inv s.responses
    → Inv (after (on_frame s r)).responses
unfolding on_frame
on_frame-Inv s (err e) v = v
on_frame-Inv s (ok f) v = on_chunk-Inv s f (get s.responses f.request_id) refl v

on_response_start-Inv :
    (s : Serving) (o : Option HttpResponsePayload)
    → Inv s.responses
    → Inv (after (on_response_start s o)).responses
unfolding on_response_start
on_response_start-Inv s none v = v
on_response_start-Inv s (some p) v =
    if_cases P (is_bad_start p) _ _ (λ bad. v)
      λ good.
        if_cases P (is_full s p.request_id) _ _ (λ full. v)
          λ room.
            put-Inv s.responses p.request_id (record { payload = p; next = 0; body = [] }) v
              (λ fresh. ground arith)
              (record { body_limit = omega arith; announced = λ e. ground arith })
  where
    P : Outcome → Type 0
    P o = Inv (after o).responses

on_stream_end-Inv :
    (s : Serving) (id : Bytes) (o : Option ResponseAssembly)
    → Inv s.responses
    → Inv (after (on_stream_end s id o)).responses
unfolding on_stream_end
on_stream_end-Inv s id none v = v
on_stream_end-Inv s id (some a) v = ground (arith, delete-Inv s.responses id v)

on_response_end-Inv :
    (s : Serving) (o : Option HttpResponseEndPayload)
    → Inv s.responses
    → Inv (after (on_response_end s o)).responses
unfolding on_response_end
on_response_end-Inv s none v = v
on_response_end-Inv s (some e) v = on_stream_end-Inv s e.request_id (get s.responses e.request_id) v

-- The other handlers leave the streams alone.
pub on_open_tunnel-responses :
    (h : Handler) (now : ℕ) (s : Serving) (session_id : Bytes) (o : Option OpenTunnelPayload)
    → (after (on_open_tunnel h now s session_id o)).responses ≡ s.responses
unfolding on_open_tunnel open_for_session
on_open_tunnel-responses h now s session_id o = ground arith

pub touch_both-responses :
    (h : Handler) (now : ℕ) (s : Serving) (session_id : Bytes)
    → (touch_both h now s session_id).responses ≡ s.responses
unfolding touch_both
touch_both-responses h now s session_id = ground arith

pub write-responses :
    (s : Serving) (message : OutboundMessage) (sent : Bool)
    → (after (write s message sent)).responses ≡ s.responses
unfolding write
write-responses s message true = refl
write-responses s message false = refl

pub touch_running-responses :
    (h : Handler) (now : ℕ) (session_id : Bytes) (o : Outcome)
    → (after (touch_running h now session_id o)).responses ≡ (after o).responses
unfolding touch_running
touch_running-responses h now session_id (running s) = touch_both-responses h now s session_id
touch_running-responses h now session_id (closed reason s) = refl
touch_running-responses h now session_id (returned b s) = refl

pub on_outbound-responses :
    (s : Serving) (o : Option Session) (sent : Bool)
    → (after (on_outbound s o sent)).responses ≡ s.responses
unfolding on_outbound
on_outbound-responses s o sent = ground arith

on_message-Inv :
    (h : Handler) (now : ℕ) (session_id : Bytes) (s : Serving) (message : Message) (sent : Bool)
    → Inv s.responses
    → Inv (after (on_message h now session_id s message sent)).responses
unfolding on_message
on_message-Inv h now session_id s malformed sent v = v
on_message-Inv h now session_id s (http_response_start p) sent v = on_response_start-Inv s p v
on_message-Inv h now session_id s (open_tunnel_request p) sent v =
    rw (on_open_tunnel-responses h now s session_id p) v
on_message-Inv h now session_id s (http_response_end p) sent v = on_response_end-Inv s p v
on_message-Inv h now session_id s pong sent v = rw (touch_both-responses h now s session_id) v
on_message-Inv h now session_id s ping sent v =
    subst Inv
      (sym (
        touch_running-responses h now session_id (write s pong_message sent)
        ∙ write-responses s pong_message sent))
      v
  where
    pong_message : OutboundMessage
    pong_message = text_message (h.encode pong_envelope)
on_message-Inv h now session_id s other sent v = v

handle-Inv :
    (h : Handler) (now : ℕ) (session_id : Bytes) (s : Serving) (e : Event)
    → Inv s.responses
    → Inv (after (handle h now session_id s e)).responses
unfolding handle
handle-Inv h now session_id s context_done v = v
handle-Inv h now session_id s read_failed v = v
handle-Inv h now session_id s (heartbeat sent) v = rw (write-responses s _ sent) v
handle-Inv h now session_id s (outbound_ready sent) v =
    rw (on_outbound-responses s (get s.sessions.sessions session_id) sent) v
handle-Inv h now session_id s (inbound_binary bs) v = on_frame-Inv s (parse_binary_frame bs) v
handle-Inv h now session_id s (inbound_text bs sent) v =
    on_message-Inv h now session_id s (h.decode bs) sent v
handle-Inv h now session_id s inbound_other v = v

step-Inv :
    (h : Handler) (now : ℕ) (session_id : Bytes) (s : Serving) (e : Event)
    → Inv s.responses
    → Inv (after (step h now session_id s e)).responses
unfolding step
step-Inv h now session_id s e v = handle-Inv h now session_id s (received e) v

serve-Inv :
    (h : Handler) (session_id : Bytes) (o : Outcome) (events : List (ℕ × Event))
    → Inv (after o).responses
    → Inv (after (serve h session_id o events)).responses
unfolding serve
serve-Inv h session_id (running s) ((now, e) ∷ events) v =
    serve-Inv h session_id (step h now session_id s e) events (step-Inv h now session_id s e v)
serve-Inv h session_id (running s) [] v = v
serve-Inv h session_id (closed reason s) events v = v
serve-Inv h session_id (returned b s) events v = v

-- Whatever an agent sends, and whatever else the loop is woken by: a session that began with no
-- stream holds at most 32 response streams, under distinct request IDs, and each body is at most
-- 32 MiB and at most the announced length, if one was announced.
pub serve_bounded :
    (h : Handler) (session_id : Bytes) (s : Serving) (events : List (ℕ × Event))
    → s.responses ≡ []
    → Inv (after (serve h session_id (running s) events)).responses
unfolding get size
serve_bounded h session_id s events e =
    serve-Inv h session_id (running s) events
      (rw e (record { distinct = tt; few = omega arith; within = λ k a h. cc }))
