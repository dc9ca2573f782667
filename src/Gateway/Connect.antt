-- ===== src/Gateway/Connect.antt =====
-- `ServeHTTP` and `handshake` of backend/internal/gateway/agent_connect.go, with the closure of
-- backend/cmd/server/main.go that cleans a session up. Other requests use the same state while a
-- session is served, so the start of a session and its end are two functions of the state. As main builds the
-- handler, `agents` and `cleanupSession` are not nil. A session whose hello cannot be written ends too.
pub mod Cleanup
mod Examples
use my_ngrok.Base.{
  Fate, ℕ, Bool, true, false, not, ◌&&◌, ◌||◌, List, [], ◌∷◌, ◌++◌, Option, none, some, Bytes,
  bytes, bytes_eq, ℤ, pos, eq_ℤ, if◌then◌else◌, Result, ok, err,
}
use my_ngrok.Strings.{has_prefix, trim_prefix, trim_space}
use my_ngrok.Gateway.Types.{SessionManager, Session, update}
use my_ngrok.Gateway.Sessions.{register, remove}
use my_ngrok.Tunnels.Registry.{Registry, close_session}
use my_ngrok.Tunnels.Service.{TunnelRow, close_agent_tunnels}
use my_ngrok.Agents.{
  AgentTables, AgentError, Digests, ClientHelloPayload, ConnectRun, connect, disconnect, valid,
}

-- What the requests share.
pub record Hub : Type 0 where
  pub sessions : SessionManager
  pub registry : Registry
  pub agents : AgentTables
  pub tunnels : List TunnelRow

-- The first message, as json.Unmarshal gives it.
pub record Hello : Type 0 where
  pub kind : Bytes
  pub protocol_version : ℤ
  pub payload : ClientHelloPayload

-- How a connection ends before its session starts. The socket is accepted after `unauthorized`.
pub data Refusal : Type 0 where
  unauthorized : Refusal
  not_accepted : Refusal
  not_read : Refusal
  unsupported_protocol : Refusal
  no_session : Refusal
  registration_failed : Refusal

-- What the outside gives to the start of a session: the token check's time and error, the socket, the
-- first message (none for a failed read, then none for no JSON), the random bytes, the run of
-- `Connect`, the clock, and the numbers of the session's channel and context.
pub record StartRun : Type 0 where
  pub valid_at : ℕ
  pub valid_fails : Bool
  pub accepted : Bool
  pub hello : Option (Option Hello)
  pub random : Option Bytes
  pub connect : ConnectRun
  pub now : ℕ
  pub outbound : ℕ
  pub cancel : ℕ

abbrev pub version : ℕ
version = 1

-- A session that has started: its ID and its agent.
pub record Started : Type 0 where
  pub session_id : Bytes
  pub agent_id : Bytes

-- `newSessionID`
abbrev pub new_session_id : Digests → Bytes → Bytes
new_session_id d random = bytes "ses_" ++ d.encode random

abbrev pub register_session :
    Digests
    → Hub
    → Bytes
    → StartRun
    → Bytes
    → AgentTables × Result AgentError Bytes
    → Hub × Result Refusal Started
register_session d hub raw run id (agents, err e) =
    (record hub { agents = agents }, err registration_failed)
register_session d hub raw run id (agents, ok agent) = (
  record hub {
    agents = agents;
    sessions = register hub.sessions run.now (record {
      id = id;
      agent_id = agent;
      agent_token_hash = d.sha256_hex raw;
      last_seen = 0;
      outbound = some run.outbound;
      cancel = some run.cancel;
    });
  },
  ok (record { session_id = id; agent_id = agent }),
)

abbrev pub start_greeted :
    Digests → Hub → Bytes → StartRun → Hello → Option Bytes → Hub × Result Refusal Started
start_greeted d hub raw run hello none = (hub, err no_session)
start_greeted d hub raw run hello (some random) =
    register_session d hub raw run (new_session_id d random)
      (connect d hub.agents raw hello.payload run.connect)

abbrev pub start_read :
    Digests → Hub → Bytes → StartRun → Option (Option Hello) → Hub × Result Refusal Started
start_read d hub raw run none = (hub, err not_read)
start_read d hub raw run (some none) = (hub, err unsupported_protocol)
start_read d hub raw run (some (some hello)) =
    if not (bytes_eq hello.kind (bytes "client_hello"))
      || not (eq_ℤ hello.protocol_version (pos version))
    then (hub, err unsupported_protocol)
    else start_greeted d hub raw run hello run.random

-- `rawToken`
unfoldable pub raw_token : Bytes → Bytes
raw_token authorization = trim_space (trim_prefix authorization (bytes "Bearer "))

unfoldable pub start_session : Digests → Hub → Bytes → StartRun → Hub × Result Refusal Started
start_session d hub authorization run =
    let raw = raw_token authorization in
    if not (has_prefix raw (bytes "tkn_"))
      || not (valid d hub.agents raw run.valid_at run.valid_fails)
    then (hub, err unauthorized)
    else if run.accepted
    then start_read d hub raw run run.hello
    else (hub, err not_accepted)

-- What the outside gives to the end of a session: the order in which the registry's map is gone
-- through, and the statements' times and fates.
pub record EndRun : Type 0 where
  pub order : List Bytes
  pub close_at : ℕ
  pub close : Fate
  pub disconnect_at : ℕ
  pub disconnect : Fate

abbrev pub disconnect_agent : AgentTables → Bytes → EndRun → AgentTables
disconnect_agent t agent run =
    if bytes_eq agent [] then t else disconnect t agent run.disconnect_at run.disconnect

-- The deferred function of `handshake`, which runs however the session ends: the context of the
-- session is cancelled, the session removed, its routes and tunnels closed, its agent disconnected.
unfoldable pub end_session : Hub → Started → ℕ → EndRun → Hub
end_session hub started cancel run = record {
  sessions =
      remove (record hub.sessions { cancelled = update hub.sessions.cancelled cancel true })
        started.session_id;
  registry = close_session run.order hub.registry started.session_id;
  tunnels = close_agent_tunnels hub.tunnels started.agent_id run.close_at run.close;
  agents = disconnect_agent hub.agents started.agent_id run;
}
