-- ===== src/Gateway/Sessions/Examples.antt =====
-- A manager with one session, and one request that waits on it.
use my_ngrok.Base.{
  ◌≡◌, ◌⊎◌, ◌↔◌, refl, true, false, [], ◌∷◌, none, some, Bytes, bytes_eq, pos, if◌then◌else◌,
}
use my_ngrok.Map.{get, put, delete}
use my_ngrok.Gateway.Types.{Session, Response, SessionManager, PendingRequest}
use my_ngrok.Gateway.Sessions.{
  new_session_manager, register, register_request, deliver_response, remove, disconnect_token_hash,
  agent_disconnected,
}
use my_ngrok.Gateway.Sessions.Invariant.{Inv}
use my_ngrok.Gateway.Sessions.Trace.{
  registers, requests, Reach, here, next, Reach-Inv, deliver_response_once,
}
use my_ngrok.Gateway.Sessions.Removal.{Holder, remove_lem, disconnect_token_hash_iff}

abbrev session : Session
session = record {
  id = 5 ∷ [];
  agent_id = 6 ∷ [];
  agent_token_hash = 8 ∷ [];
  last_seen = 0;
  outbound = some 3;
  cancel = some 4;
}

abbrev manager : SessionManager
manager = (register_request (register new_session_manager 100 session) (5 ∷ []) (7 ∷ [])).0

history : Reach new_session_manager manager
unfolding new_session_manager get
history = next (next here (registers 100 session refl)) (requests (5 ∷ []) (7 ∷ []))

abbrev waiting : PendingRequest
waiting = record { session_id = 5 ∷ []; response = 0 }

abbrev answer : Response
answer = record { status_code = pos 200; headers = []; body = 1 ∷ []; error = [] }

Reach-Inv_example : Inv manager
Reach-Inv_example = Reach-Inv history

deliver_response_once_example :
    let n = (deliver_response manager (7 ∷ []) answer).0 in
    ((deliver_response manager (7 ∷ []) answer).1 ≡ true)
    × (manager.response_buffers 0 ≡ [])
    × (n.response_buffers 0 ≡ answer ∷ [])
    × (deliver_response n (7 ∷ []) answer ≡ (n, false))
unfolding register register_request new_session_manager get put delete bytes_eq
deliver_response_once_example =
    deliver_response_once manager (7 ∷ []) answer answer {p = waiting} (Reach-Inv history) refl

remove_lem_example :
    let n = remove manager (5 ∷ []) in
    ((j : Bytes)
      → get n.sessions j ≡ (if bytes_eq (5 ∷ []) j then none else get manager.sessions j))
    × (get n.pending (7 ∷ []) ≡ (if bytes_eq (5 ∷ []) (5 ∷ []) then none else some waiting))
    × (n.response_buffers 0 ≡ (if bytes_eq (5 ∷ []) (5 ∷ []) then agent_disconnected ∷ [] else []))
unfolding register register_request new_session_manager get put delete bytes_eq
remove_lem_example = remove_lem manager (5 ∷ []) (7 ∷ []) {p = waiting} (Reach-Inv history) refl

disconnect_token_hash_iff_example :
    ((disconnect_token_hash manager (8 ∷ [])).cancelled 4 ≡ true) ↔ (
      (manager.cancelled 4 ≡ true)
      ⊎ Holder (λ s. bytes_eq s.agent_token_hash (8 ∷ [])) manager.sessions 4)
disconnect_token_hash_iff_example = disconnect_token_hash_iff manager (8 ∷ []) 4 (Reach-Inv history)
