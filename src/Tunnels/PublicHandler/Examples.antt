-- ===== src/Tunnels/PublicHandler/Examples.antt =====
-- A request for a tunnel whose agent has just gone.
use my_ngrok.Base.{◌≡◌, refl, false, [], ◌∷◌, none, some, bytes_eq, pos}
use my_ngrok.Map.{get, put, delete, retain}
use my_ngrok.Gateway.Sessions.{
  new_session_manager, room, register_request, send_context, send_session, cancel_request,
}
use my_ngrok.Tunnels.Registry.{new_registry, open_tunnel, get_tunnel}
use my_ngrok.Tunnels.RequestBody.{Turn}
use my_ngrok.RateLimiter.{new_rate_limiter, public_rate_limiter, allow, decide_entry}
use my_ngrok.Tunnels.PublicHandler.{
  new_public_handler, PublicRequest, PublicHandler, Served, served, stuck, agent_unavailable,
  timed_out, after_start, with_id, with_tunnel, with_subdomain, serve_http,
}
use my_ngrok.Tunnels.PublicHandler.Requests.{serve_http-pending}

abbrev turn : Turn
turn = record { others = λ m. m; wake = room 0 }

abbrev request : PublicRequest
request = record {
  subdomain = some (2 ∷ []);
  client_ip = [];
  now = 5;
  content_length = pos 0;
  request_id = some (7 ∷ []);
  start = [];
  cancel = [];
  encode_end = λ id. some id;
  start_turn = turn;
  reads = [];
  end_turn = turn;
  too_large = false;
  meanwhile = λ m. m;
  awaited = timed_out;
}

abbrev handler : PublicHandler
handler =
    new_public_handler
      (open_tunnel new_registry (record {
        id = 1 ∷ [];
        subdomain = 2 ∷ [];
        agent_id = 3 ∷ [];
        user_id = 4 ∷ [];
        session_id = 5 ∷ [];
        local_address = [];
      }))
      new_session_manager

abbrev handler_of : Served → PublicHandler
handler_of (served h answer) = h
handler_of (stuck h) = h

abbrev final : PublicHandler
final = handler_of (serve_http handler request)

serve_http-pending_example : get final.sessions.pending (7 ∷ []) ≡ none
unfolding new_public_handler serve_http with_subdomain with_tunnel with_id after_start get put
    delete retain bytes_eq allow decide_entry open_tunnel get_tunnel new_registry
    new_session_manager new_rate_limiter public_rate_limiter register_request send_context
    send_session cancel_request
serve_http-pending_example =
    serve_http-pending handler final request (7 ∷ []) agent_unavailable refl refl refl
