-- ===== src/Tunnels/PublicHandler.antt =====
-- `ServeHTTP` and `sendCancel` in backend/internal/tunnels/public_handler.go: one public request, from its
-- guards to its answer. What ParsePublicHost makes of the host, the client's address, the clock, json.Marshal, the random
-- request ID and the reads of the body are parts of the request; so is what other goroutines do to the
-- session manager between two calls, and how each wait ends. A forwarded answer is the agent's response,
-- before `withoutHopByHopHeaders`.
pub mod Requests
mod Examples
use my_ngrok.Base.{
  ℕ, suc, Bool, true, false, List, [], ◌∷◌, ◌++◌, Option, none, some, Bytes, bytes, bytes_eq,
  length, ℤ, pos, ltb_ℤ, if◌then◌else◌,
}
use my_ngrok.Gateway.Types.{message_text, OutboundMessage, SessionManager, Response}
use my_ngrok.Gateway.Sessions.{send, send_context, register_request, cancel_request}
use my_ngrok.Tunnels.Registry.{ActiveTunnel, Registry, get_tunnel, record_traffic}
use my_ngrok.Tunnels.RequestBody.{
  Turn, Read, Sender, SendError, Progress, going, all_sent, failed, blocked, send_request_body,
  new_sender,
}
use my_ngrok.RateLimiter.{RateLimiter, allow, public_rate_limiter}

abbrev pub max_tunnel_body_bytes : ℤ
max_tunnel_body_bytes = pos 33554432

-- How the last select ends: with the value of the response channel, with the request's context, or
-- with the timer.
pub data Awaited : Type 0 where
  response : Response → Awaited
  context_done timed_out : Awaited

pub record PublicRequest : Type 0 where
  pub subdomain : Option Bytes
  pub client_ip : Bytes
  pub now : ℕ
  pub content_length : ℤ
  pub request_id : Option Bytes
  pub start : Bytes
  pub cancel : Bytes
  pub encode_end : Bytes → Option Bytes
  pub start_turn : Turn
  pub reads : List Read
  pub end_turn : Turn
  pub too_large : Bool
  pub meanwhile : SessionManager → SessionManager
  pub awaited : Awaited

-- What the handler shares with others.
pub record PublicHandler : Type 0 where
  pub registry : Registry
  pub sessions : SessionManager
  pub limiter : RateLimiter

-- NewPublicHandler; the timeout shows only in how the last select ends.
unfoldable pub new_public_handler : Registry → SessionManager → PublicHandler
new_public_handler registry sessions = record {
  registry = registry;
  sessions = sessions;
  limiter = public_rate_limiter;
}

pub data Answer : Type 0 where
  not_found request_id_failed agent_unavailable body_too_large gateway_timeout : Answer
  too_many_requests : ℤ → Answer
  bad_gateway : Bytes → Answer
  body_failed : SendError → Answer
  forwarded : Response → Answer

-- An answer, or a wait that has not ended.
pub data Served : Type 0 where
  served : PublicHandler → Answer → Served
  stuck : PublicHandler → Served

-- The deferred `CancelRequest`.
abbrev finish : PublicHandler → SessionManager → Bytes → Answer → Served
finish h m id answer = served (record h { sessions = cancel_request m id }) answer

-- `sendCancel`; a full channel drops the message.
abbrev send_cancel : ActiveTunnel → PublicRequest → SessionManager → SessionManager
send_cancel tunnel r m = (send m tunnel.session_id r.cancel).0

-- `sendCancel`, and then the deferred call.
pub abandon :
    PublicHandler → ActiveTunnel → PublicRequest → SessionManager → Bytes → Answer → Served
abandon h tunnel r m id answer = finish h (send_cancel tunnel r m) id answer

pub on_response :
    PublicHandler → ActiveTunnel → PublicRequest → SessionManager → Bytes → Response → Served
on_response h tunnel r m id answer =
    if bytes_eq answer.error []
    then finish
        (record h {
          registry =
              record_traffic h.registry tunnel.id r.content_length (pos (length answer.body));
        })
        m id (forwarded answer)
    else finish h m id (bad_gateway answer.error)

pub await : PublicHandler → ActiveTunnel → PublicRequest → SessionManager → Bytes → Awaited → Served
unfolding on_response abandon
await h tunnel r m id (response answer) = on_response h tunnel r m id answer
await h tunnel r m id context_done = abandon h tunnel r m id gateway_timeout
await h tunnel r m id timed_out = abandon h tunnel r m id gateway_timeout

-- What the result of `sendRequestBody` leads to.
pub after_body : PublicHandler → ActiveTunnel → PublicRequest → Bytes → Progress → Served
unfolding await abandon
after_body h tunnel r id (all_sent s) = await h tunnel r (r.meanwhile s.sessions) id r.awaited
after_body h tunnel r id (failed e s) =
    if r.too_large
    then abandon h tunnel r s.sessions id body_too_large
    else abandon h tunnel r s.sessions id (body_failed e)
after_body h tunnel r id (going s) = stuck (record h { sessions = s.sessions })
after_body h tunnel r id (blocked s) = stuck (record h { sessions = s.sessions })

pub after_start :
    PublicHandler
    → ActiveTunnel
    → PublicRequest
    → Bytes
    → SessionManager
    → Option (SessionManager × Bool)
    → Served
unfolding after_body
after_start h tunnel r id m none = stuck (record h { sessions = m })
after_start h tunnel r id m (some (n, false)) = finish h n id agent_unavailable
after_start h tunnel r id m (some (n, true)) =
    after_body h tunnel r id (
      send_request_body r.encode_end tunnel.session_id id r.end_turn r.reads (going (new_sender n)))

pub with_id : PublicHandler → ActiveTunnel → PublicRequest → Option Bytes → Served
unfolding after_start
with_id h tunnel r none = served h request_id_failed
with_id h tunnel r (some id) =
    let m = r.start_turn.others (register_request h.sessions tunnel.session_id id).0 in
    after_start h tunnel r id m (
      send_context m r.start_turn.wake tunnel.session_id
        (record { message_type = message_text; content = r.start }))

abbrev pub limiter_key : ActiveTunnel → Bytes → Bytes
limiter_key tunnel client_ip = tunnel.id ++ bytes ":" ++ client_ip

pub with_tunnel : PublicHandler → PublicRequest → Option ActiveTunnel → Served
unfolding with_id
with_tunnel h r none = served h not_found
with_tunnel h r (some tunnel) =
    let (limiter, allowed, retry_after) = allow h.limiter (limiter_key tunnel r.client_ip) r.now in
    let h' = record h { limiter = limiter } in
    if allowed
    then (if ltb_ℤ max_tunnel_body_bytes r.content_length
        then served h' body_too_large
        else with_id h' tunnel r r.request_id)
    else served h' (too_many_requests retry_after)

pub with_subdomain : PublicHandler → PublicRequest → Option Bytes → Served
unfolding with_tunnel
with_subdomain h r none = served h not_found
with_subdomain h r (some subdomain) = with_tunnel h r (get_tunnel h.registry subdomain)

unfoldable pub serve_http : PublicHandler → PublicRequest → Served
unfolding with_subdomain
serve_http h r = with_subdomain h r r.subdomain
