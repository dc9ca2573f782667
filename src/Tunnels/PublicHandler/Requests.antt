-- ===== src/Tunnels/PublicHandler/Requests.antt =====
-- What a public request leaves behind.
use my_ngrok.Base.{
  ◌≡◌, subst, Bool, true, false, [], Option, none, some, Bytes, bytes_eq, ltb_ℤ, if_cases, arith,
}
use my_ngrok.Map.{get}
use my_ngrok.Map.Laws.{get-delete_self}
use my_ngrok.Gateway.Types.{message_text, SessionManager}
use my_ngrok.Gateway.Sessions.{send, send_context, register_request, cancel_request}
use my_ngrok.Tunnels.Registry.{ActiveTunnel, get_tunnel}
use my_ngrok.Tunnels.RequestBody.{
  Progress, going, all_sent, failed, blocked, send_request_body, new_sender,
}
use my_ngrok.RateLimiter.{allow}
use my_ngrok.Tunnels.PublicHandler.{
  Awaited, response, context_done, timed_out, PublicRequest, PublicHandler, Answer, forwarded,
  gateway_timeout, body_too_large, body_failed, agent_unavailable, bad_gateway, Served, served,
  stuck, finish, abandon, on_response, await, after_body, after_start, with_id, limiter_key,
  with_tunnel, with_subdomain, serve_http, max_tunnel_body_bytes,
}

-- No request is pending under the ID, if the handler has answered.
abbrev IsClean : Bytes → Served → Type 0
IsClean id (served h answer) = get h.sessions.pending id ≡ none
IsClean id (stuck h) = Unit {0}

module _ (tunnel : ActiveTunnel) (r : PublicRequest) (id : Bytes) where
  finish-IsClean :
      (h : PublicHandler) (m : SessionManager) (answer : Answer) → IsClean id (finish h m id answer)
  unfolding cancel_request
  finish-IsClean h m answer = get-delete_self m.pending id

  abandon-IsClean :
      (h : PublicHandler) (m : SessionManager) (answer : Answer)
      → IsClean id (abandon h tunnel r m id answer)
  unfolding abandon
  abandon-IsClean h m answer = finish-IsClean h (send m tunnel.session_id r.cancel).0 answer

  await-IsClean :
      (h : PublicHandler) (m : SessionManager) (a : Awaited) → IsClean id (await h tunnel r m id a)
  unfolding await on_response
  await-IsClean h m (response x) =
      if_cases (IsClean id) (bytes_eq x.error []) _ _ (λ fine. finish-IsClean h m (forwarded x))
        (λ bad. finish-IsClean h m (bad_gateway x.error))
  await-IsClean h m context_done = abandon-IsClean h m gateway_timeout
  await-IsClean h m timed_out = abandon-IsClean h m gateway_timeout

  after_body-IsClean : (h : PublicHandler) (p : Progress) → IsClean id (after_body h tunnel r id p)
  unfolding after_body
  after_body-IsClean h (all_sent s) = await-IsClean h (r.meanwhile s.sessions) r.awaited
  after_body-IsClean h (failed e s) =
      if_cases (IsClean id) r.too_large _ _ (λ large. abandon-IsClean h s.sessions body_too_large)
        (λ other. abandon-IsClean h s.sessions (body_failed e))
  after_body-IsClean h (going s) = tt
  after_body-IsClean h (blocked s) = tt

  after_start-IsClean :
      (h : PublicHandler) (m : SessionManager) (o : Option (SessionManager × Bool))
      → IsClean id (after_start h tunnel r id m o)
  unfolding after_start
  after_start-IsClean h m none = tt
  after_start-IsClean h m (some (n, false)) = finish-IsClean h n agent_unavailable
  after_start-IsClean h m (some (n, true)) = after_body-IsClean h (
      send_request_body r.encode_end tunnel.session_id id r.end_turn r.reads (going (new_sender n)))

with_id-IsClean :
    (h : PublicHandler) (tunnel : ActiveTunnel) (r : PublicRequest) (id : Bytes) (o : Option Bytes)
    → o ≡ some id
    → IsClean id (with_id h tunnel r o)
unfolding with_id
with_id-IsClean h tunnel r id none e = cc
with_id-IsClean h tunnel r id (some k) e =
    let same : k ≡ id = ground arith in
    let m = r.start_turn.others (register_request h.sessions tunnel.session_id k).0 in
    subst (λ x. IsClean x (with_id h tunnel r (some k))) same
      (after_start-IsClean tunnel r k h m (
        send_context m r.start_turn.wake tunnel.session_id
          (record { message_type = message_text; content = r.start })))

with_tunnel-IsClean :
    (h : PublicHandler) (r : PublicRequest) (id : Bytes) (o : Option ActiveTunnel)
    → r.request_id ≡ some id
    → get h.sessions.pending id ≡ none
    → IsClean id (with_tunnel h r o)
unfolding with_tunnel
with_tunnel-IsClean h r id none e fresh = fresh
with_tunnel-IsClean h r id (some tunnel) e fresh =
    if_cases (IsClean id) (allow h.limiter (limiter_key tunnel r.client_ip) r.now).1 _ _
      (λ allowed.
        if_cases (IsClean id) (ltb_ℤ max_tunnel_body_bytes r.content_length) _ _ (λ large. fresh)
          (λ small.
            with_id-IsClean
              (record h { limiter = (allow h.limiter (limiter_key tunnel r.client_ip) r.now).0 })
              tunnel r id r.request_id e))
      (λ refused. fresh)

with_subdomain-IsClean :
    (h : PublicHandler) (r : PublicRequest) (id : Bytes) (o : Option Bytes)
    → r.request_id ≡ some id
    → get h.sessions.pending id ≡ none
    → IsClean id (with_subdomain h r o)
unfolding with_subdomain
with_subdomain-IsClean h r id none e fresh = fresh
with_subdomain-IsClean h r id (some s) e fresh =
    with_tunnel-IsClean h r id (get_tunnel h.registry s) e fresh

-- However a public request ends, with a response or with any error or timeout: once the handler has
-- answered, no request is pending under its ID. The ID is new when the request comes in.
pub serve_http-pending :
    (h h' : PublicHandler) (r : PublicRequest) (id : Bytes) (answer : Answer)
    → r.request_id ≡ some id
    → get h.sessions.pending id ≡ none
    → serve_http h r ≡ served h' answer
    → get h'.sessions.pending id ≡ none
unfolding serve_http
serve_http-pending h h' r id answer e fresh done =
    subst (IsClean id) done (with_subdomain-IsClean h r id r.subdomain e fresh)
