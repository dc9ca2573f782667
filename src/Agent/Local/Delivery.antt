-- ===== src/Agent/Local/Delivery.antt =====
-- A response on its way: sent by the agent's job, assembled and delivered by the gateway's loop.
use my_ngrok.Base.{
  ℕ, ◌+◌, ◌%◌, ◌≤◌, ◌<◌, ◌≡◌, ◌∙◌, ◌⊎◌, inl, inr, refl, sym, ap, subst, Bool, true, false, List, [],
  ◌∷◌, ◌++◌, append_assoc, append-nil, some, Bytes, length, length-append, pos, negsuc, leb_ℤ,
  arith,
}
use my_ngrok.Map.{get, put, delete, size}
use my_ngrok.Map.Laws.{get-put_self}
use my_ngrok.Protocol.{IsFrame, IsU32, wire, binary_frame_header, max_binary_frame_payload}
use my_ngrok.Protocol.Messages.{HttpResponsePayload}
use my_ngrok.Protocol.RoundTrip.{parse-wire}
use my_ngrok.Gateway.Types.{Response}
use my_ngrok.Gateway.Sessions.{deliver_response}
use my_ngrok.Gateway.Serve.{
  http_response_end, Handler, Serving, running, inbound_binary, inbound_text, extend, step, serve,
  max_pending_response_streams, max_tunnel_response_body_bytes, websocket_read_limit,
}
use my_ngrok.Gateway.Serve.Acceptance.{step-start, step-chunk, step-end}
use my_ngrok.Gateway.Serve.Delivery.{serve-append}
use my_ngrok.Agent.Local.{
  ReadEnd, more, eof, read_error, Read, Service, refused, answered, Outgoing, response_start, Job,
  done, chunk_frame, end_message, run_job,
}
use my_ngrok.Agent.Local.Answers.{
  messages, messages_after, piece, Ends, run_job-answered, run_job-refused,
}
use my_ngrok.Agent.Local.Arrivals.{
  joined_after, joined, joined_room, response_of, start_payload, IsSmall, Codec, Decodes,
  IsReadable, arrivals, arrivals-append,
}

whole_body :
    (p : HttpResponsePayload) (body : Bytes)
    → (p.content_length ≡ negsuc 0) ⊎ ((p.content_length ≡ pos 0) × (body ≡ []))
    → (leb_ℤ (pos 0) p.content_length ≡ false) ⊎ (p.content_length ≡ pos (length body))
whole_body p body (inl unknown) = inl (ground arith)
whole_body p body (inr (zero_length, empty)) = inr (rw empty zero_length)

module _ (h : Handler) (c : Codec) (now : ℕ) (session_id id : Bytes) (named : 0 < length id)
    (short : binary_frame_header + (length id + max_binary_frame_payload)
      ≤ websocket_read_limit) where
  -- The messages take the loop to where the stream holds `body`, and nothing is delivered yet.
  Reaches : HttpResponsePayload → Bytes → Serving → List Outgoing → Type 0
  Reaches p body s ms =
      (m : Serving) × (n : ℕ) × (serve h session_id (running s) (arrivals c now ms) ≡ running m)
      × (get m.responses id ≡ some (record { payload = p; next = n; body = body }))
      × (m.sessions ≡ s.sessions)

  frame_taken :
      (p : HttpResponsePayload) (n : ℕ) (body chunk : Bytes) (s : Serving)
      → p.content_length ≡ negsuc 0
      → IsU32 n
      → length chunk ≤ max_binary_frame_payload
      → get s.responses id ≡ some (record { payload = p; next = n; body = body })
      → length body + length chunk ≤ max_tunnel_response_body_bytes
      → step h now session_id s (inbound_binary (wire (chunk_frame id n chunk)))
        ≡ running (record s {
          responses =
              put s.responses id (extend (record { payload = p; next = n; body = body }) chunk);
        })
  frame_taken p n body chunk s ann u small there fits =
      let f = chunk_frame id n chunk in
      let valid : IsFrame f = record {
        known_type = refl;
        id_pos = named;
        id_bound = omega arith;
        payload_bound = omega arith;
      } in
      step-chunk h now session_id (wire f) s f (record { payload = p; next = n; body = body })
        (omega (arith, length-append id chunk)) (parse-wire f valid u) there refl refl fits
        (ground arith)

  piece_taken :
      (p : HttpResponsePayload) (n : ℕ) (body chunk tail : Bytes) (rest : ℕ → List Outgoing)
      (s : Serving)
      → p.content_length ≡ negsuc 0
      → IsU32 n
      → length chunk ≤ max_binary_frame_payload
      → get s.responses id ≡ some (record { payload = p; next = n; body = body })
      → length body + length (chunk ++ tail) ≤ max_tunnel_response_body_bytes
      → ((k : ℕ) (m : Serving) (more_body : Bytes)
          → IsU32 k
          → get m.responses id ≡ some (record { payload = p; next = k; body = more_body })
          → length more_body + length tail ≤ max_tunnel_response_body_bytes
          → Reaches p (more_body ++ tail) m (rest k))
      → Reaches p (body ++ (chunk ++ tail)) s (piece id n chunk rest)
  unfolding Reaches serve
  piece_taken p n body [] tail rest s ann u small there fits next = next n s body u there fits
  piece_taken p n body (b ∷ bs) tail rest s ann u small there fits next =
      let taken =
        frame_taken p n body (b ∷ bs) s ann u small there
          (omega (arith, length-append (b ∷ bs) tail)) in
      let a = extend (record { payload = p; next = n; body = body }) (b ∷ bs) in
      let (m, k, went, held, same) =
        next ((n + 1) % 4294967296) (record s { responses = put s.responses id a }) (body ++ b ∷ bs)
          (omega arith) (get-put_self s.responses id a)
          (omega (arith, length-append (b ∷ bs) tail, length-append body (b ∷ bs))) in
      (
        m,
        k,
        ap (λ o. serve h session_id o (arrivals c now (rest ((n + 1) % 4294967296)))) taken ∙ went,
        held
            ∙ ap (λ x. some (record { payload = p; next = k; body = x }))
                (append_assoc body (b ∷ bs) tail),
        same,
      )

  rest_taken :
      (p : HttpResponsePayload) (e : ReadEnd) (k : ℕ) (m : Serving) (body tail : Bytes)
      (ms : List Outgoing)
      → get m.responses id ≡ some (record { payload = p; next = k; body = body })
      → (e ≡ more → Reaches p (body ++ tail) m ms)
      → Reaches p (body ++ joined_after e tail) m (messages_after e ms)
  unfolding Reaches serve
  rest_taken p more k m body tail ms there next = next refl
  rest_taken p eof k m body tail ms there next = (
    m,
    k,
    refl,
    there ∙ ap (λ x. some (record { payload = p; next = k; body = x })) (sym (append-nil body)),
    refl,
  )
  rest_taken p read_error k m body tail ms there next = (
    m,
    k,
    refl,
    there ∙ ap (λ x. some (record { payload = p; next = k; body = x })) (sym (append-nil body)),
    refl,
  )

  body_taken :
      (p : HttpResponsePayload) (reads : List Read) (n : ℕ) (body : Bytes) (s : Serving)
      → p.content_length ≡ negsuc 0
      → IsU32 n
      → Ends reads
      → get s.responses id ≡ some (record { payload = p; next = n; body = body })
      → length body + length (joined reads) ≤ max_tunnel_response_body_bytes
      → Reaches p (body ++ joined reads) s (messages id n reads)
  body_taken p [] n body s ann u ends there fits = absurd ends
  body_taken p (r ∷ reads) n body s ann u (small, ends) there fits =
      piece_taken p n body r.chunk (joined_after r.end (joined reads))
        (λ k. messages_after r.end (messages id k reads)) s ann u small there fits
        λ k m more_body v held room.
          rest_taken p r.end k m more_body (joined reads) (messages id k reads) held λ on.
            body_taken p reads k more_body m ann v
              (elim ends [ inl last ↦ absurd (last on) | inr later ↦ later ]) held
              (joined_room r.end more_body (joined reads) on room)

  -- The start, and the stream that it opens.
  begun : HttpResponsePayload → Serving → Serving
  begun p s = record s {
    responses = put s.responses id (record { payload = p; next = 0; body = [] });
  }

  start_taken :
      (p : HttpResponsePayload) (s : Serving)
      → p.request_id ≡ id
      → (p.content_length ≡ negsuc 0) ⊎ (p.content_length ≡ pos 0)
      → IsReadable c p
      → Decodes h c p
      → size s.responses < max_pending_response_streams
      → (step h now session_id s (inbound_text (c.encode_start p) true) ≡ running (begun p s))
        × (get (begun p s).responses id ≡ some (record { payload = p; next = 0; body = [] }))
  unfolding begun
  start_taken p s own ann readable codec room = (
    subst
        (λ k.
          step h now session_id s (inbound_text (c.encode_start p) true)
          ≡ running (record s {
            responses = put s.responses k (record { payload = p; next = 0; body = [] });
          }))
        own
        (step-start h now session_id (c.encode_start p) s p readable.start_limit codec.0
          (rw own named) ann room),
    get-put_self s.responses id (record { payload = p; next = 0; body = [] }),
  )

  empty_Reaches : (p : HttpResponsePayload) (s : Serving) → Reaches p [] (begun p s) []
  unfolding Reaches serve begun
  empty_Reaches p s = (
    begun p s,
    0,
    refl,
    get-put_self s.responses id (record { payload = p; next = 0; body = [] }),
    refl,
  )

  abbrev delivered : HttpResponsePayload → Bytes → Response
  delivered p body = record {
    status_code = p.status_code;
    headers = p.headers;
    body = body;
    error = p.error;
  }

  -- From the start to the delivery.
  answer_taken :
      (p : HttpResponsePayload) (body : Bytes) (ms : List Outgoing) (s : Serving)
      → p.request_id ≡ id
      → (p.content_length ≡ negsuc 0) ⊎ ((p.content_length ≡ pos 0) × (body ≡ []))
      → IsReadable c p
      → Decodes h c p
      → size s.responses < max_pending_response_streams
      → Reaches p body (begun p s) ms
      → (s' : Serving) × (serve h session_id
            (running s)
            (arrivals c now (response_start p ∷ (ms ++ end_message id ∷ [])))
          ≡ running s')
        × (s'.sessions ≡ (deliver_response s.sessions id (delivered p body)).0)
  unfolding begun Reaches serve
  answer_taken p body ms s own ann readable codec room (m, n, went, held, same) =
      let (opened, there) = start_taken p s own (ground arith) readable codec room in
      let end_codec =
        subst
          (λ k.
            h.decode (c.encode_end (record { request_id = k }))
            ≡ http_response_end (some (record { request_id = k })))
          own codec.1 in
      let end_limit =
        subst (λ k. length (c.encode_end (record { request_id = k })) ≤ websocket_read_limit) own
          readable.end_limit in
      let closed =
        step-end h now session_id (c.encode_end (record { request_id = id })) id m
          (record { payload = p; next = n; body = body }) end_limit end_codec held
          (whole_body p body ann) in
      let stop = arrivals c now (end_message id ∷ []) in
      (
        record m {
          responses = delete m.responses id;
          sessions = (deliver_response m.sessions id (delivered p body)).0;
        },
        ap (λ o. serve h session_id o (arrivals c now (ms ++ end_message id ∷ []))) opened
            ∙ (ap (serve h session_id (running (begun p s)))
                  (arrivals-append c now ms (end_message id ∷ []))
                ∙ (serve-append h session_id (arrivals c now ms) (running (begun p s)) stop
                    ∙ (ap (λ o. serve h session_id o stop) went
                        ∙ ap (λ o. serve h session_id o []) closed))),
        ap (λ x. (deliver_response x id (delivered p body)).0) same,
      )

short_id :
    (id : Bytes)
    → binary_frame_header + (length id + max_binary_frame_payload) ≤ websocket_read_limit
    → length id < 65536
short_id id room = omega arith

-- A job's answer reaches the pending request. The session stays alive, nothing else is on the way,
-- the loop has room for one more stream, json.Unmarshal reads back what json.Marshal wrote, the
-- encoded start and end and a frame with a full payload keep within the gateway's read limit of
-- 64 KiB, and the body, whose reads end, is at most 32 MiB. Then the job ends, the loop takes all its
-- messages without an error, and it hands the manager one response: the service's status, headers and
-- bytes, or status 502 with the error if the service could not be asked.
pub run_job-deliver_response :
    (alive : ℕ → Bool) (h : Handler) (c : Codec) (now : ℕ) (session_id id : Bytes)
    (service : Service) (s : Serving)
    → ((k : ℕ) → alive k ≡ true)
    → IsReadable c (start_payload id service)
    → Decodes h c (start_payload id service)
    → 0 < length id
    → size s.responses < max_pending_response_streams
    → IsSmall service
    → (j : Job) × (s' : Serving) × (run_job alive id service ≡ done j)
      × (serve h session_id (running s) (arrivals c now j.sent) ≡ running s')
      × (s'.sessions ≡ (deliver_response s.sessions id (response_of service)).0)
unfolding begun
run_job-deliver_response alive h c now session_id id (refused e) s up readable codec named room
      small =
    let (j, ran, sent) = run_job-refused alive id up e in
    let p = start_payload id (refused e) in
    let (s', went, given) =
      answer_taken h c now session_id id named readable.frame_limit p [] [] s refl
        (inr (refl, refl)) readable codec room
        (empty_Reaches h c now session_id id named readable.frame_limit p s) in
    (j, s', ran, ap (λ ms. serve h session_id (running s) (arrivals c now ms)) sent ∙ went, given)
run_job-deliver_response alive h c now session_id id (answered status headers reads) s up readable
      codec named room (ends, fits) =
    let (j, ran, sent) =
      run_job-answered alive id up status headers reads named (short_id id readable.frame_limit)
        ends in
    let p = start_payload id (answered status headers reads) in
    let (s', went, given) =
      answer_taken h c now session_id id named readable.frame_limit p (joined reads)
        (messages id 0 reads) s refl (inl refl) readable codec room
        (body_taken h c now session_id id named readable.frame_limit p reads 0 []
          (begun h c now session_id id named readable.frame_limit p s) refl (omega arith) ends
          (get-put_self s.responses id (record { payload = p; next = 0; body = [] }))
          (omega arith)) in
    (j, s', ran, ap (λ ms. serve h session_id (running s) (arrivals c now ms)) sent ∙ went, given)
