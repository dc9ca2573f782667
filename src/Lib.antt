-- ===== src/Lib.antt =====
-- myNgrok: a gateway that makes a local web server public through a tunnel, and the agent that the
-- tunnel ends at.
--
-- A public request reaches the gateway, which finds the tunnel of its subdomain in the registry
-- (backend/internal/tunnels/registry.go), asks the rate limiter (rate_limiter.go), registers a pending
-- request with the session manager (backend/internal/gateway/session_manager.go), and puts the
-- request's start, the frames of its body and its end on the channel of the agent's session
-- (public_handler.go). The session's loop (backend/internal/gateway/agent_connect.go) writes the channel
-- to the socket. The agent's loop (agent/internal/gatewayclient/client.go) assembles the body
-- (chunk_assembler.go) and queues a job, which forwards the request (local_http.go) and sends the
-- response back in frames. The session's loop puts these together and delivers the response to the
-- pending request. Both sides have a frame codec of their own (backend/internal/protocol/frame.go,
-- agent/internal/gatewayclient/frame.go).
--
-- An agent connects with a token (agent_connect.go), which the database checks (backend/internal/agents)
-- and whose owner revokes it (backend/internal/agenttokens); when the session ends, it is taken out of the
-- manager, the registry and the database (backend/internal/tunnels/service.go). The dashboard's users
-- have access tokens and refresh tokens (backend/internal/auth).
--
-- Base        bytes, native integers, Boolean tests, results and list lemmas
-- Map         Go's maps as association lists with one entry for a key
-- Strings     what is used of Go's package strings, for ASCII
-- Protocol    protocol/frame.go; Protocol/Messages the payloads of protocol/messages.go
-- Agent/Frame, Agent/Assembler, Agent/Client, Agent/Reconnect, Agent/Local
--             frame.go, chunk_assembler.go, the loop of Connect, Run, and a job with StreamLocal
-- Gateway/Types, Gateway/Sessions
--             session_manager.go: the structs, and each method as a function of the manager
-- Gateway/Serve
--             serveSession in agent_connect.go, and the closure of backend/cmd/server/main.go that
--             opens a tunnel for a session
-- Gateway/Connect
--             ServeHTTP and handshake in agent_connect.go: the start of a session and its end
-- Tunnels/Registry, Tunnels/RequestBody, Tunnels/PublicHandler, Tunnels/Subdomain, Tunnels/Service
--             registry.go, sendRequestBody and ServeHTTP in public_handler.go, subdomain.go, the
--             statements of tunnels/service.go
-- Tunnels/PublicHost
--             public_host.go
-- Auth/Jwt, Auth/Tables, Auth/Service, Auth/Http
--             auth/service.go: signJWT and verifyJWT, the SQL statements, the operations of Service;
--             auth/http.go. Auth/Tables/History is the relation of all histories of statements
-- Agents, Agents/Http
--             agenttokens/service.go and agents/service.go; agenttokens/http.go. Agents/Revocation is
--             the relation of all histories of statements
-- RateLimiter the limiter that tunnels/rate_limiter.go and auth/rate_limiter.go both hold
-- Server/Metrics, Server/RequestId, Server/Cors, Traffic
--             the middleware of server/metrics.go, request_id.go and cors.go; traffic/service.go and flushTraffic of main.go
--
-- A component's children are named for what they prove; Examples modules hold tests and concrete
-- instances. State is passed explicitly. A method that holds a lock from end to end is one step; a
-- select loop is a step for each event, run over a list of events, so that no fuel is needed. Channels
-- and contexts live in a store, under numbers. Loops over a map take the order of the visit as an
-- argument where the order could matter. Sequence numbers wrap at 2^32 and counters at 2^64. A message over the
-- gateway's read limit of 64 KiB is a failed read; at the agent, an event is what conn.Read returned, so
-- that a message over its limit is the event of a failed read.
--
-- A table of the database is the list of its rows. A statement is one step, read from its SQL text, with
-- the constraints UNIQUE that it can break; it has a time, and a fate: it is executed, it is not
-- executed, or its reply is lost. IDs that the database draws are arguments.
--
-- Parameters: encoding/json is a pair of functions on whole frames; HMAC, SHA-256, base64 and bcrypt are
-- functions; clocks, random bytes, reads of a body, answers of the local service, and the outcome of a
-- write are arguments, and so is the capacity beyond which make panics. Modules named Sample hold concrete ones.
--
-- Not modelled: the agent's side of the WebSocket handshake, the headers that the public handler and the
-- agent take out and put in, the routes of the dashboard that only read a table (agents, tunnels, traffic),
-- the server's log and security headers, configuration, migrations and main. The frontend is not part of
-- the Go program.
pub mod Base
pub mod Map
pub mod Protocol
pub mod Agent
pub mod Gateway
pub mod Tunnels
pub mod RateLimiter
pub mod Strings
pub mod Auth
pub mod Agents
pub mod Server
pub mod Traffic
