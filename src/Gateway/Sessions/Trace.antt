-- ===== src/Gateway/Sessions/Trace.antt =====
-- Every history of calls on a session manager, in any interleaving.
use my_ngrok.Base.{
  ℕ, ◌≤◌, ◌≡◌, refl, Bool, true, false, [], ◌∷◌, Option, none, some, Bytes, length, drop, arith,
  inl, inr, Option-cases, length-append, length-drop,
}
use my_ngrok.Map.{get}
use my_ngrok.Map.Laws.{get-delete_self}
use my_ngrok.Gateway.Types.{
  Session, SessionManager, PendingRequest, Response, OutboundMessage, update,
}
use my_ngrok.Gateway.Sessions.{
  Wake, done, room, offer, offer_session, wait_room, send_session, new_session_manager, send,
  send_binary, send_context, register_request, cancel_request, deliver_response, register, touch,
  remove, close_all, disconnect_token_hash, session_outbound_queue_capacity,
}
use my_ngrok.Gateway.Sessions.Pending.{get-owner, Waiting_emptied}
use my_ngrok.Gateway.Sessions.Invariant.{
  Inv, new_session_manager-Inv, SameRequests-Inv, send-SameRequests, send_binary-SameRequests,
  send_context-SameRequests, register-Inv, touch-Inv, register_request-Inv, cancel_request-Inv,
  deliver_response-Inv, remove-Inv,
}

-- A handler takes what its response channel buffers.
abbrev pub receive_response : SessionManager → ℕ → SessionManager
receive_response m c = record m { response_buffers = update m.response_buffers c [] }

-- A session's writer takes messages from the front of its outbound channel.
abbrev pub write_out : SessionManager → ℕ → ℕ → SessionManager
write_out m c n = record m {
  outbound_buffers = update m.outbound_buffers c (drop n (m.outbound_buffers c));
}

-- One call on the manager, or one read of a channel that it hands out. Session IDs are random, and
-- a session is registered under an ID that no open session has.
pub data Step (m : SessionManager) : SessionManager → Type 0 where
  registers : (now : ℕ) (s : Session) → get m.sessions s.id ≡ none → Step m (register m now s)
  touches : (now : ℕ) (id : Bytes) → Step m (touch m now id).0
  removes : (id : Bytes) → Step m (remove m id)
  requests : (session_id id : Bytes) → Step m (register_request m session_id id).0
  cancels : (id : Bytes) → Step m (cancel_request m id)
  delivers : (id : Bytes) (r : Response) → Step m (deliver_response m id r).0
  sends : (id message : Bytes) → Step m (send m id message).0
  sends_binary : (id message : Bytes) → Step m (send_binary m id message).0
  waits :
      (w : Wake) (id : Bytes) (message : OutboundMessage) {n : SessionManager} {b : Bool}
      → send_context m w id message ≡ some (n, b)
      → Step m n
  closes : Step m (close_all m)
  disconnects : (token_hash : Bytes) → Step m (disconnect_token_hash m token_hash)
  receives : (c : ℕ) → Step m (receive_response m c)
  writes : (c n : ℕ) → Step m (write_out m c n)

pub data Reach (m : SessionManager) : SessionManager → Type 0 where
  here : Reach m m
  next : {n o : SessionManager} → Reach m n → Step n o → Reach m o

receive_response-Inv : (m : SessionManager) (c : ℕ) → Inv m → Inv (receive_response m c)
receive_response-Inv m c v = record {
  sessions_distinct = v.sessions_distinct;
  pending_distinct = v.pending_distinct;
  waiting = Waiting_emptied m.next_channel m.response_buffers m.pending c v.waiting;
  buffered = λ d. ground (arith, v.buffered d);
  balance = v.balance;
}

Step-Inv : {m n : SessionManager} → Step m n → Inv m → Inv n
unfolding close_all disconnect_token_hash
Step-Inv {m} (registers now s fresh) v = register-Inv m now s fresh v
Step-Inv {m} (touches now id) v = touch-Inv m now id v
Step-Inv {m} (removes id) v = remove-Inv m id v
Step-Inv {m} (requests session_id id) v = register_request-Inv m session_id id v
Step-Inv {m} (cancels id) v = cancel_request-Inv m id v
Step-Inv {m} (delivers id r) v = deliver_response-Inv m id r v
Step-Inv {m} (sends id message) v = SameRequests-Inv (send-SameRequests m id message) v
Step-Inv {m} (sends_binary id message) v =
    SameRequests-Inv (send_binary-SameRequests m id message) v
Step-Inv {m} (waits w id message e) v =
    SameRequests-Inv (send_context-SameRequests m w id message e) v
Step-Inv closes v = SameRequests-Inv (refl, refl, refl, refl, refl, refl) v
Step-Inv (disconnects token_hash) v = SameRequests-Inv (refl, refl, refl, refl, refl, refl) v
Step-Inv {m} (receives c) v = receive_response-Inv m c v
Step-Inv (writes c n) v = SameRequests-Inv (refl, refl, refl, refl, refl, refl) v

-- After any history of calls on a new manager: the map keys are distinct, each pending request has
-- a response channel of its own which is still empty, no response channel buffers more than the
-- one value that it has room for, and the connections registered are those disconnected and those
-- still open, modulo 2^64.
pub Reach-Inv : {m : SessionManager} → Reach new_session_manager m → Inv m
Reach-Inv here = new_session_manager-Inv
Reach-Inv (next r s) = Step-Inv s (Reach-Inv r)

abbrev pub Bounded : SessionManager → Type 0
Bounded m = (c : ℕ) → length (m.outbound_buffers c) ≤ session_outbound_queue_capacity

offer_session-Bounded :
    (m : SessionManager) (o : Option Session) (message : OutboundMessage)
    → Bounded m
    → Bounded (offer_session m o message).0
unfolding offer_session
offer_session-Bounded m none message b c = b c
offer_session-Bounded m (some s) message b c = elim (Option-cases s.outbound) [
  | inl e ↦ rw (e, offer) (b c)
  | inr (d, e) ↦
      rw (e, offer) (ground (arith, b c, length-append (m.outbound_buffers d) (message ∷ [])))
]

wait_room-Bounded :
    (m : SessionManager) (o : Option ℕ) (message : OutboundMessage) (w : Wake) {n : SessionManager}
    {r : Bool}
    → wait_room m o message w ≡ some (n, r)
    → Bounded m
    → Bounded n
unfolding wait_room
wait_room-Bounded m none message w e b c = ground (arith, b c)
wait_room-Bounded m (some d) message done e b c = ground (arith, b c)
wait_room-Bounded m (some d) message (room taken) e b c =
    ground (arith, b c, length-append (drop taken (m.outbound_buffers d)) (message ∷ []))

send_session-Bounded :
    (m : SessionManager) (o : Option Session) (message : OutboundMessage) (w : Wake)
    {n : SessionManager} {r : Bool}
    → send_session m o message w ≡ some (n, r)
    → Bounded m
    → Bounded n
unfolding send_session
send_session-Bounded m none message w e b c = ground (arith, b c)
send_session-Bounded m (some s) message w e b c = wait_room-Bounded m s.outbound message w e b c

Step-Bounded : {m n : SessionManager} → Step m n → Bounded m → Bounded n
unfolding close_all disconnect_token_hash register touch remove register_request cancel_request
    deliver_response send send_binary send_context
Step-Bounded (registers now s fresh) b c = b c
Step-Bounded (touches now id) b c = ground (arith, b c)
Step-Bounded (removes id) b c = ground (arith, b c)
Step-Bounded (requests session_id id) b c = b c
Step-Bounded (cancels id) b c = b c
Step-Bounded (delivers id r) b c = ground (arith, b c)
Step-Bounded {m} (sends id message) b c = offer_session-Bounded m (get m.sessions id) _ b c
Step-Bounded {m} (sends_binary id message) b c = offer_session-Bounded m (get m.sessions id) _ b c
Step-Bounded {m} (waits w id message e) b c =
    send_session-Bounded m (get m.sessions id) message w e b c
Step-Bounded closes b c = b c
Step-Bounded (disconnects token_hash) b c = b c
Step-Bounded (receives d) b c = b c
Step-Bounded {m} (writes d n) b c = ground (arith, b c, b d, length-drop n (m.outbound_buffers d))

-- After any history of calls on a new manager, no outbound channel buffers more than the 32 messages
-- that it has room for.
pub Reach-Bounded : {m : SessionManager} → Reach new_session_manager m → Bounded m
unfolding new_session_manager
Reach-Bounded here c = omega arith
Reach-Bounded (next r s) c = Step-Bounded s (Reach-Bounded r) c

-- A pending request gets the first response delivered to it, and no other: the send finds its
-- channel empty, and a second response for the same request is refused and changes nothing.
pub deliver_response_once :
    (m : SessionManager) (id : Bytes) (r r' : Response) {p : PendingRequest}
    → Inv m
    → get m.pending id ≡ some p
    → let n = (deliver_response m id r).0 in
      ((deliver_response m id r).1 ≡ true)
      × (m.response_buffers p.response ≡ [])
      × (n.response_buffers p.response ≡ r ∷ [])
      × (deliver_response n id r' ≡ (n, false))
unfolding deliver_response
deliver_response_once m id r r' v h = ground (
  arith,
  get-owner m.next_channel m.response_buffers m.pending id v.waiting h,
  get-delete_self m.pending id,
)
