-- ===== src/Gateway/Connect/Cleanup.antt =====
-- What is left of a session that has ended, and whom a session is refused.
use my_ngrok.Base.{
  ◌==◌, Option, Fate, executed, ℕ, Bool, true, false, not, ◌||◌, List, [], ◌∷◌, none, some, Bytes,
  bytes, bytes_eq, if◌then◌else◌, ok, err, All, ◌≡◌, refl, ◌∙◌, ap, arith,
}
use my_ngrok.Map.{get, kept}
use my_ngrok.Strings.{has_prefix}
use my_ngrok.Gateway.Types.{SessionManager, PendingRequest, Response, update}
use my_ngrok.Gateway.Sessions.{agent_disconnected, remove}
use my_ngrok.Gateway.Sessions.Invariant.{Inv}
use my_ngrok.Gateway.Sessions.Removal.{
  remove_pending, remove_sessions, remove_cancelled, remove_lem,
}
use my_ngrok.Tunnels.Registry.{get_tunnel}
use my_ngrok.Tunnels.Registry.Routes
use my_ngrok.Tunnels.Registry.Closing.{Covers, close_session_lem}
use my_ngrok.Tunnels.Service.{TunnelRow, close_rows, close_agent_tunnels}
use my_ngrok.Agents.{
  AgentTables, AgentRow, ClientHelloPayload, Digests, disconnect, disconnect_rows, revoke,
}
use my_ngrok.Agents.Revocation.{Unique, Reach, Reach-Spent, Spent, Spent-refused, revoke-Spent}
use my_ngrok.Gateway.Connect.{
  Hub, Started, EndRun, StartRun, unauthorized, start_session, raw_token, end_session,
  disconnect_agent,
}

-- No row of the agent is open.
abbrev pub AllClosed : Bytes → List TunnelRow → Type 0
AllClosed agent = All (λ r. bytes_eq r.agent_id agent ≡ true → r.is_open ≡ false)

abbrev pub AllDisconnected : Bytes → List AgentRow → Type 0
AllDisconnected agent = All (λ a. bytes_eq a.id agent ≡ true → a.connected ≡ false)

close_rows-AllClosed :
    (t : List TunnelRow) (agent : Bytes) (now : ℕ) → AllClosed agent (close_rows agent now t)
unfolding close_rows
close_rows-AllClosed [] agent now = tt
close_rows-AllClosed (r ∷ rs) agent now = (ground arith, close_rows-AllClosed rs agent now)

disconnect_rows-AllDisconnected :
    (t : List AgentRow) (agent : Bytes) (now : ℕ)
    → AllDisconnected agent (disconnect_rows agent now t)
unfolding disconnect_rows
disconnect_rows-AllDisconnected [] agent now = tt
disconnect_rows-AllDisconnected (a ∷ rest) agent now =
    (ground arith, disconnect_rows-AllDisconnected rest agent now)

closed_tunnels :
    (t : List TunnelRow) (agent : Bytes) (now : ℕ) (update : Fate)
    → bytes_eq agent [] ≡ false
    → update ≡ executed
    → AllClosed agent (close_agent_tunnels t agent now update)
unfolding close_agent_tunnels
closed_tunnels t agent now update named fate = rw (named, fate) (close_rows-AllClosed t agent now)

disconnected_agent :
    (t : AgentTables) (agent : Bytes) (run : EndRun)
    → bytes_eq agent [] ≡ false
    → run.disconnect ≡ executed
    → AllDisconnected agent (disconnect_agent t agent run).agents
unfolding disconnect
disconnected_agent t agent run named fate =
    rw (named, fate) (disconnect_rows-AllDisconnected t.agents agent run.disconnect_at)

-- What a pending request's channel holds.
abbrev pub buffered_for : SessionManager → Option PendingRequest → List Response
buffered_for m none = []
buffered_for m (some p) = m.response_buffers p.response

-- What the end of a session leaves there.
abbrev pub told : Bytes → Option PendingRequest → List Response
told session_id none = []
told session_id (some p) = if bytes_eq p.session_id session_id then agent_disconnected ∷ [] else []

remove-told :
    (m : SessionManager) (id request : Bytes) (o : Option PendingRequest)
    → Inv m
    → get m.pending request ≡ o
    → buffered_for (remove m id) o ≡ told id o
remove-told m id request none v e = refl
remove-told m id request (some p) v e = (remove_lem m id request v e).2

-- However a session ends: its context is cancelled, and no other context; it, and no other session, is
-- gone from the manager; the requests that waited for it, and no others, are pending no longer, and the
-- channel of each of them holds the error that the agent is disconnected, while the channels of the
-- other pending requests are empty; and its routes, and no others, are gone from the registry, in
-- whatever order the registry's map is gone through.
pub end_session_lem :
    (hub : Hub) (started : Started) (cancel : ℕ) (run : EndRun) (c : ℕ) (j request z : Bytes)
    → Inv hub.sessions
    → Routes.Inv hub.registry
    → Covers run.order hub.registry
    → let after = end_session hub started cancel run in
      (after.sessions.cancelled c ≡ (if cancel == c then true else hub.sessions.cancelled c))
      × (get after.sessions.sessions j
          ≡ (if bytes_eq started.session_id j then none else get hub.sessions.sessions j))
      × (get after.sessions.pending request
          ≡ kept
              (λ _ p. not (bytes_eq p.session_id started.session_id))
              request
              (get hub.sessions.pending request))
      × (buffered_for after.sessions (get hub.sessions.pending request)
          ≡ told started.session_id (get hub.sessions.pending request))
      × (get_tunnel after.registry z
          ≡ kept
              (λ _ t. not (bytes_eq t.session_id started.session_id))
              z
              (get_tunnel hub.registry z))
unfolding end_session
end_session_lem hub started cancel run c j request z v routes covers =
    let m : SessionManager = record hub.sessions {
      cancelled = update hub.sessions.cancelled cancel true;
    } in
    let w : Inv m = record {
      sessions_distinct = v.sessions_distinct;
      pending_distinct = v.pending_distinct;
      waiting = v.waiting;
      buffered = v.buffered;
      balance = v.balance;
    } in
    (
      ap (λ f. f c) (remove_cancelled m started.session_id) ∙ ground arith,
      remove_sessions m started.session_id j,
      remove_pending m started.session_id request v.pending_distinct,
      remove-told m started.session_id request (get hub.sessions.pending request) w refl,
      (close_session_lem run.order hub.registry started.session_id z routes covers).1,
    )

-- When the statements of its end are executed, the agent of a session has no open tunnel in the
-- database and is not connected.
pub end_session_closes :
    (hub : Hub) (started : Started) (cancel : ℕ) (run : EndRun)
    → bytes_eq started.agent_id [] ≡ false
    → run.close ≡ executed
    → run.disconnect ≡ executed
    → let after = end_session hub started cancel run in
      AllClosed started.agent_id after.tunnels
      × AllDisconnected started.agent_id after.agents.agents
unfolding end_session
end_session_closes hub started cancel run named closed gone = (
  closed_tunnels hub.tunnels started.agent_id run.close_at run.close named closed,
  disconnected_agent hub.agents started.agent_id run named gone,
)

either_refuses : (b : Bool) → (b || true) ≡ true
either_refuses true = refl
either_refuses false = refl

any_hello : ClientHelloPayload
any_hello = record { instance_id = []; hostname = []; os = []; arch = []; agent_version = [] }

-- A spent token is unauthorized, and nothing is changed.
Spent-unauthorized :
    (d : Digests) (hub : Hub) (authorization : Bytes) (run : StartRun)
    → Spent (d.sha256_hex (raw_token authorization)) hub.agents
    → start_session d hub authorization run ≡ (hub, err unauthorized)
unfolding start_session
Spent-unauthorized d hub authorization run s =
    let raw = raw_token authorization in
    rw
      (
        (Spent-refused d hub.agents raw any_hello run.connect run.valid_at run.valid_fails s).0,
        either_refuses (not (has_prefix raw (bytes "tkn_"))),
      )
      refl

-- After a token has been revoked, when no two tokens had one hash, and after any later statements of
-- any requests on the tokens and the agents, in any order, a connection with the token starts no
-- session: it is unauthorized and changes nothing.
pub revoke-start_session :
    (d : Digests) (t t' : AgentTables) (hub : Hub) (user_id id authorization : Bytes) (now : ℕ)
    (update : Fate) (run : StartRun)
    → Unique t.agent_tokens
    → revoke t user_id id now update ≡ (t', ok (some (d.sha256_hex (raw_token authorization))))
    → Reach t' hub.agents
    → start_session d hub authorization run ≡ (hub, err unauthorized)
revoke-start_session d t t' hub user_id id authorization now update run u revoked history =
    let hash = d.sha256_hex (raw_token authorization) in
    Spent-unauthorized d hub authorization run
      (Reach-Spent hash history (revoke-Spent t t' user_id id hash now update u revoked))
