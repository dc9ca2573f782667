-- ===== src/Gateway/Sessions/Invariant.antt =====
-- What holds of a session manager between two calls.
use my_ngrok.Base.{
  u64, ℕ, ◌+◌, ◌≤◌, ◌≡◌, Bool, [], none, some, Bytes, length, arith, inl, inr, Option-cases,
}
use my_ngrok.Map.{get, put, delete, size, Distinct}
use my_ngrok.Map.Laws.{put-Distinct, delete-Distinct, retain-Distinct, size-put, size-delete}
use my_ngrok.Gateway.Types.{Session, SessionManager, Response, OutboundMessage}
use my_ngrok.Gateway.Sessions.{
  Wake, new_session_manager, send, send_binary, send_context, register_request, cancel_request,
  deliver_response, register, touch, remove,
}
use my_ngrok.Gateway.Sessions.Pending.{
  Waiting, Waiting-delete, Waiting-update, Waiting-suc, Waiting-fail_all, owner_fresh, get-owner,
  owner-delete_self, fail_all-buffered,
}

pub record Inv (m : SessionManager) : Type 0 where
  pub sessions_distinct : Distinct m.sessions
  pub pending_distinct : Distinct m.pending
  pub waiting : Waiting m.next_channel m.response_buffers m.pending
  pub buffered : (c : ℕ) → length (m.response_buffers c) ≤ 1
  pub balance : m.connections_total ≡ u64 (m.disconnections_total + size m.sessions)

pub new_session_manager-Inv : Inv new_session_manager
unfolding new_session_manager size
new_session_manager-Inv = record {
  sessions_distinct = tt;
  pending_distinct = tt;
  waiting = tt;
  buffered = λ c. omega arith;
  balance = omega arith;
}

-- A call that leaves the maps, the counters and the response channels alone.
abbrev pub SameRequests : SessionManager → SessionManager → Type 0
SameRequests m n =
    (n.sessions ≡ m.sessions)
    × (n.pending ≡ m.pending)
    × (n.connections_total ≡ m.connections_total)
    × (n.disconnections_total ≡ m.disconnections_total)
    × (n.response_buffers ≡ m.response_buffers)
    × (n.next_channel ≡ m.next_channel)

pub SameRequests-Inv : {m n : SessionManager} → SameRequests m n → Inv m → Inv n
SameRequests-Inv (s, p, c, d, r, x) v = record {
  sessions_distinct = rw s (v.sessions_distinct);
  pending_distinct = rw p (v.pending_distinct);
  waiting = rw (p, r, x) (v.waiting);
  buffered = rw r (v.buffered);
  balance = rw (s, c, d) (v.balance);
}

pub send-SameRequests :
    (m : SessionManager) (id message : Bytes) → SameRequests m (send m id message).0
unfolding send
send-SameRequests m id message = ground arith

pub send_binary-SameRequests :
    (m : SessionManager) (id message : Bytes) → SameRequests m (send_binary m id message).0
unfolding send_binary
send_binary-SameRequests m id message = ground arith

pub send_context-SameRequests :
    (m : SessionManager) (w : Wake) (id : Bytes) (message : OutboundMessage) {n : SessionManager}
    {b : Bool}
    → send_context m w id message ≡ some (n, b)
    → SameRequests m n
unfolding send_context
send_context-SameRequests m w id message h = ground arith

pub register-Inv :
    (m : SessionManager) (now : ℕ) (s : Session)
    → get m.sessions s.id ≡ none
    → Inv m
    → Inv (register m now s)
unfolding register
register-Inv m now s fresh v = record {
  sessions_distinct = put-Distinct m.sessions _ _ v.sessions_distinct;
  pending_distinct = v.pending_distinct;
  waiting = v.waiting;
  buffered = v.buffered;
  balance = ground (
    arith,
    size-put m.sessions s.id s v.sessions_distinct,
    size-put m.sessions s.id (record s { last_seen = now }) v.sessions_distinct,
    v.balance,
  );
}

pub touch-Inv : (m : SessionManager) (now : ℕ) (id : Bytes) → Inv m → Inv (touch m now id).0
unfolding touch
touch-Inv m now id v = elim (Option-cases (get m.sessions id)) [
  | inl e ↦ rw (e, touch) v
  | inr (s, e) ↦
      rw (e, touch)
        (record {
          sessions_distinct = put-Distinct m.sessions id _ v.sessions_distinct;
          pending_distinct = v.pending_distinct;
          waiting = v.waiting;
          buffered = v.buffered;
          balance = ground (
            arith,
            size-put m.sessions id (record s { last_seen = now }) v.sessions_distinct,
            v.balance,
          );
        })
]

pub register_request-Inv :
    (m : SessionManager) (session_id id : Bytes) → Inv m → Inv (register_request m session_id id).0
unfolding register_request put
register_request-Inv m session_id id v = record {
  sessions_distinct = v.sessions_distinct;
  pending_distinct =
      put-Distinct m.pending id (record { session_id = session_id; response = m.next_channel })
        v.pending_distinct;
  waiting =
      let x = m.next_channel in
      let b = m.response_buffers in
      let rest = Waiting-delete x b m.pending id v.waiting in
      let free = owner_fresh x b (delete m.pending id) x rest (omega arith) in
      (
        omega arith,
        ground arith,
        free,
        Waiting-suc x _ (delete m.pending id)
            (Waiting-update x b (delete m.pending id) x [] free rest),
      );
  buffered = λ c. ground (arith, v.buffered c);
  balance = v.balance;
}

pub cancel_request-Inv : (m : SessionManager) (id : Bytes) → Inv m → Inv (cancel_request m id)
unfolding cancel_request
cancel_request-Inv m id v = record {
  sessions_distinct = v.sessions_distinct;
  pending_distinct = delete-Distinct m.pending id v.pending_distinct;
  waiting = Waiting-delete m.next_channel m.response_buffers m.pending id v.waiting;
  buffered = v.buffered;
  balance = v.balance;
}

pub deliver_response-Inv :
    (m : SessionManager) (id : Bytes) (r : Response) → Inv m → Inv (deliver_response m id r).0
unfolding deliver_response
deliver_response-Inv m id r v = elim (Option-cases (get m.pending id)) [
  | inl e ↦ rw (e, deliver_response) v
  | inr (p, e) ↦
      rw (e, deliver_response)
        (record {
          sessions_distinct = v.sessions_distinct;
          pending_distinct = delete-Distinct m.pending id v.pending_distinct;
          waiting =
              Waiting-update m.next_channel m.response_buffers (delete m.pending id) p.response _
                (owner-delete_self m.next_channel m.response_buffers m.pending id v.waiting e)
                (Waiting-delete m.next_channel m.response_buffers m.pending id v.waiting);
          buffered = λ c. ground (
            arith,
            v.buffered c,
            get-owner m.next_channel m.response_buffers m.pending id v.waiting e,
          );
          balance = v.balance;
        })
]

pub remove-Inv : (m : SessionManager) (id : Bytes) → Inv m → Inv (remove m id)
unfolding remove
remove-Inv m id v = elim (Option-cases (get m.sessions id)) [
  | inl e ↦
      rw (e, remove)
        (record {
          sessions_distinct = v.sessions_distinct;
          pending_distinct = retain-Distinct _ m.pending v.pending_distinct;
          waiting = Waiting-fail_all m.next_channel id m.pending m.response_buffers v.waiting;
          buffered = λ c.
              fail_all-buffered m.next_channel id m.pending m.response_buffers c v.waiting
                (v.buffered c);
          balance = v.balance;
        })
  | inr (s, e) ↦
      rw (e, remove)
        (record {
          sessions_distinct = delete-Distinct m.sessions id v.sessions_distinct;
          pending_distinct = retain-Distinct _ m.pending v.pending_distinct;
          waiting = Waiting-fail_all m.next_channel id m.pending m.response_buffers v.waiting;
          buffered = λ c.
              fail_all-buffered m.next_channel id m.pending m.response_buffers c v.waiting
                (v.buffered c);
          balance = ground (arith, size-delete m.sessions id v.sessions_distinct, v.balance);
        })
]
