-- ===== src/Gateway/Serve/Delivery.antt =====
-- From a response's start to its delivery.
use my_ngrok.Base.{
  ℕ, ◌≡◌, ◌∙◌, refl, sym, ap, Bool, true, List, [], ◌∷◌, ◌++◌, Option, none, some, Bytes, length,
  pos, leb_ℤ, arith,
}
use my_ngrok.Map.{get}
use my_ngrok.Map.Laws.{get-put_self}
use my_ngrok.Protocol.{BinaryFrame, payloads}
use my_ngrok.Protocol.Messages.{HttpResponsePayload, HttpResponseEndPayload}
use my_ngrok.Gateway.Types.{Response}
use my_ngrok.Gateway.Sessions.{deliver_response}
use my_ngrok.Gateway.Serve.{
  http_response_start, http_response_end, Handler, ResponseAssembly, Serving, Outcome, running,
  closed, returned, Event, inbound_text, on_response_start, on_response_end, on_stream_end,
  assembled, on_message, step, serve,
}
use my_ngrok.Gateway.Serve.Streams.{
  own_frames, Between, InOrder, serve-extended, serve_stuck, serve_on, step-text,
}

pub serve-append :
    (h : Handler) (session_id : Bytes) (xs : List (ℕ × Event)) (o : Outcome) (ys : List (ℕ × Event))
    → serve h session_id o (xs ++ ys) ≡ serve h session_id (serve h session_id o xs) ys
unfolding serve
serve-append h session_id [] (running s) ys = refl
serve-append h session_id [] (closed reason s) ys = refl
serve-append h session_id [] (returned b s) ys = refl
serve-append h session_id ((now, e) ∷ xs) (running s) ys =
    serve-append h session_id xs (step h now session_id s e) ys
serve-append h session_id (x ∷ xs) (closed reason s) [] = refl
serve-append h session_id (x ∷ xs) (closed reason s) (y ∷ ys) = refl
serve-append h session_id (x ∷ xs) (returned b s) [] = refl
serve-append h session_id (x ∷ xs) (returned b s) (y ∷ ys) = refl

serve-nil : (h : Handler) (session_id : Bytes) (o : Outcome) → serve h session_id o [] ≡ o
unfolding serve
serve-nil h session_id (running s) = refl
serve-nil h session_id (closed reason s) = refl
serve-nil h session_id (returned b s) = refl

start_accepted :
    (s m : Serving) (p : HttpResponsePayload)
    → on_response_start s (some p) ≡ running m
    → get m.responses p.request_id ≡ some (record { payload = p; next = 0; body = [] })
unfolding on_response_start
start_accepted s m p r =
    ground
      (arith, get-put_self s.responses p.request_id (record { payload = p; next = 0; body = [] }))

-- An announced length is the length of the whole body.
abbrev pub IsWhole : ResponseAssembly → Type 0
IsWhole a =
    leb_ℤ (pos 0) a.payload.content_length ≡ true → a.payload.content_length ≡ pos (length a.body)

end_accepted :
    (m s : Serving) (id : Bytes) (a : ResponseAssembly) (o : Option ResponseAssembly)
    → o ≡ some a
    → on_stream_end m id o ≡ running s
    → (s.sessions ≡ (deliver_response m.sessions id (assembled a)).0) × IsWhole a
unfolding on_stream_end
end_accepted m s id a none e r = cc
end_accepted m s id a (some b) e r = (ground arith, λ h. ground arith)

abbrev pub end_of : Bytes → HttpResponseEndPayload
end_of id = record { request_id = id }

abbrev pub response_of : HttpResponsePayload → List BinaryFrame → Response
response_of p fs = record {
  status_code = p.status_code;
  headers = p.headers;
  body = payloads fs;
  error = p.error;
}

-- A loop that is still running after a response's start, any further events that neither start nor
-- end that response, and its end, has handed the manager one response for the request: the status,
-- headers and error of the start, and the payloads of the stream's frames, joined in the order of
-- their arrival. Those frames are response chunks numbered from 0, and if a length was announced
-- it is the body's.
pub serve-deliver_response :
    (h : Handler) (session_id : Bytes) (s s' : Serving) (p : HttpResponsePayload)
    (start stop : Bytes) (t t' : ℕ) (b b' : Bool) (events : List (ℕ × Event))
    → h.decode start ≡ http_response_start (some p)
    → h.decode stop ≡ http_response_end (some (end_of p.request_id))
    → Between h p.request_id events
    → serve h session_id
        (running s)
        ((t, inbound_text start b) ∷ (events ++ (t', inbound_text stop b') ∷ []))
      ≡ running s'
    → let fs = own_frames p.request_id events in
      (m : Serving) × (serve h session_id (running s) ((t, inbound_text start b) ∷ events)
        ≡ running m)
      × (s'.sessions ≡ (deliver_response m.sessions p.request_id (response_of p fs)).0)
      × InOrder 0 fs
      × (leb_ℤ (pos 0) p.content_length ≡ true → p.content_length ≡ pos (length (payloads fs)))
unfolding serve step on_message on_response_end
serve-deliver_response h session_id s s' p start stop t t' b b' events ds de between r =
    let last = (t', inbound_text stop b') ∷ [] in
    let split = serve-append h session_id ((t, inbound_text start b) ∷ events) (running s) last in
    let (m, em) =
      serve_stuck h session_id (serve h session_id (running s) ((t, inbound_text start b) ∷ events))
        last (sym split ∙ r) in
    let first = step h t session_id s (inbound_text start b) in
    let (m0, e0) = serve_stuck h session_id first events em in
    let opened = start_accepted s m0 p (
      sym (ap (λ x. on_message h t session_id s x b) ds)
      ∙ step-text h t session_id start b s m0 e0) in
    let (grown, order) =
      serve-extended h session_id p.request_id events m0 m
        (record { payload = p; next = 0; body = [] }) opened between
        (serve_on h session_id first events m m0 em e0) in
    let closing =
      serve_on h session_id (serve h session_id (running s) ((t, inbound_text start b) ∷ events))
        last s' m (sym split ∙ r) em in
    let (handed, whole) = end_accepted m s' p.request_id _ (get m.responses p.request_id) grown (
      sym (ap (λ x. on_message h t' session_id m x b') de)
      ∙ step-text h t' session_id stop b' m s' (
          sym (serve-nil h session_id (step h t' session_id m (inbound_text stop b')))
          ∙ closing)) in
    (m, em, handed, order, whole)
