-- ===== src/Agents/Http.antt =====
-- backend/internal/agenttokens/http.go: the routes of the agent tokens. The JSON decoder is outside,
-- its result is in the request.
pub mod Cutoff
use my_ngrok.Base.{
  Fate, ℕ, Bool, true, false, not, ◌&&◌, ◌||◌, List, [], ◌∷◌, Option, none, some, Bytes, bytes,
  bytes_eq, if◌then◌else◌, Result, ok, err,
}
use my_ngrok.Strings.{has_prefix, trim_prefix, trim_space, contains_byte}
use my_ngrok.Gateway.Types.{SessionManager}
use my_ngrok.Gateway.Sessions.{disconnect_token_hash}
use my_ngrok.Auth.Jwt.{AuthError}
use my_ngrok.Auth.Tables.{User, Tables}
use my_ngrok.Auth.Service.{Service, user_from_access_token}
use my_ngrok.Agents.{
  AgentTables, AgentError, Digests, CreateRun, CreatedToken, TokenRow, create, revoke,
}

pub record HttpHandler : Type 0 where
  pub digests : Digests
  pub auth : Service

-- `name` is none where the body is no JSON or above 16 KiB.
pub record Request : Type 0 where
  pub method : Bytes
  pub path : Bytes
  pub authorization : Bytes
  pub name : Option Bytes

-- What the handlers share: the users, the tokens, and the sessions of the gateway.
pub record World : Type 0 where
  pub accounts : Tables
  pub tables : AgentTables
  pub sessions : SessionManager

-- What the outside gives to a request.
pub record Run : Type 0 where
  pub auth_at : ℕ
  pub auth_fails : Bool
  pub list_fails : Bool
  pub create : CreateRun
  pub revoke_at : ℕ
  pub revoke : Fate

pub data Payload : Type 0 where
  no_payload : Payload
  -- The code of an error.
  failure : Bytes → Payload
  created_token : CreatedToken → Payload
  tokens : List TokenRow → Payload

pub record Reply : Type 0 where
  pub status : ℕ
  pub payload : Payload

abbrev pub write_error : ℕ → Bytes → Reply
write_error status code = record { status = status; payload = failure code }

-- The rows of WHERE user_id=$1, whose order is the database's.
unfoldable pub own_tokens : Bytes → List TokenRow → List TokenRow
own_tokens user_id [] = []
own_tokens user_id (r ∷ rs) =
    if bytes_eq r.user_id user_id then r ∷ own_tokens user_id rs else own_tokens user_id rs

abbrev pub handle_list : World → User → Run → Reply
handle_list w user run =
    if run.list_fails
    then write_error 500 (bytes "INTERNAL_ERROR")
    else record { status = 200; payload = tokens (own_tokens user.id w.tables.agent_tokens) }

abbrev pub reply_created : World → AgentTables × Result AgentError CreatedToken → World × Reply
reply_created w (t, ok created) =
    (record w { tables = t }, record { status = 201; payload = created_token created })
reply_created w (t, err e) = (record w { tables = t }, write_error 400 (bytes "INVALID_TOKEN_NAME"))

abbrev pub handle_create : HttpHandler → World → User → Option Bytes → Run → World × Reply
handle_create h w user none run = (w, write_error 400 (bytes "INVALID_JSON"))
handle_create h w user (some name) run =
    reply_created w (create h.digests w.tables user.id name run.create)

abbrev pub reply_revoked : World → AgentTables × Result AgentError (Option Bytes) → World × Reply
reply_revoked w (t, err e) = (record w { tables = t }, write_error 500 (bytes "INTERNAL_ERROR"))
reply_revoked w (t, ok none) = (record w { tables = t }, write_error 404 (bytes "NOT_FOUND"))
reply_revoked w (t, ok (some hash)) = (
  record w { tables = t; sessions = disconnect_token_hash w.sessions hash },
  record { status = 204; payload = no_payload },
)

abbrev pub tokens_path : Bytes
tokens_path = bytes "/api/v1/agent-tokens"

abbrev pub token_path : Bytes
token_path = bytes "/api/v1/agent-tokens/"

unfoldable pub handle_revoke : World → User → Request → Run → World × Reply
handle_revoke w user r run =
    let id = trim_prefix r.path token_path in
    if bytes_eq id [] || contains_byte id 47
    then (w, write_error 404 (bytes "NOT_FOUND"))
    else reply_revoked w (revoke w.tables user.id id run.revoke_at run.revoke)

abbrev pub route : HttpHandler → World → User → Request → Run → World × Reply
route h w user r run =
    if bytes_eq r.path tokens_path && bytes_eq r.method (bytes "GET")
    then (w, handle_list w user run)
    else if bytes_eq r.path tokens_path && bytes_eq r.method (bytes "POST")
    then handle_create h w user r.name run
    else if has_prefix r.path token_path && bytes_eq r.method (bytes "DELETE")
    then handle_revoke w user r run
    else (w, write_error 404 (bytes "NOT_FOUND"))

abbrev pub route_user : HttpHandler → World → Result AuthError User → Request → Run → World × Reply
route_user h w (err e) r run = (w, write_error 401 (bytes "UNAUTHORIZED"))
route_user h w (ok user) r run = route h w user r run

unfoldable pub bearer : Request → Bytes
bearer r = trim_space (trim_prefix r.authorization (bytes "Bearer "))

unfoldable pub serve_http : HttpHandler → World → Request → Run → World × Reply
serve_http h w r run =
    route_user h w (user_from_access_token h.auth w.accounts (bearer r) run.auth_at run.auth_fails)
      r run
