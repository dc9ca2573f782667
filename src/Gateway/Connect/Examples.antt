-- ===== src/Gateway/Connect/Examples.antt =====
-- An agent that connects, and whose session ends.
use my_ngrok.Base.{
  ◌==◌, executed, true, false, not, [], ◌∷◌, none, some, Bytes, bytes, bytes_eq, bytes_eq_iff, ok,
  err, if◌then◌else◌, ◌≡◌, refl, arith,
}
use my_ngrok.Map.{get, put, delete, kept}
use my_ngrok.Strings.{has_prefix, drop_prefix, trim_prefix, trim_left, trim_space, reversed}
use my_ngrok.Gateway.Types.{Session, SessionManager}
use my_ngrok.Gateway.Sessions.{new_session_manager, register}
use my_ngrok.Gateway.Sessions.Invariant.{Inv, new_session_manager-Inv, register-Inv}
use my_ngrok.Tunnels.Registry.{ActiveTunnel, Registry, new_registry, open_tunnel, get_tunnel}
use my_ngrok.Tunnels.Registry.Routes
use my_ngrok.Tunnels.Registry.Closing.{contains, Covers}
use my_ngrok.Tunnels.Service.{TunnelRow}
use my_ngrok.Agents.{TokenRow, AgentTables, Digests, has_hash, revoke, revoke_rows, returning}
use my_ngrok.Agents.Revocation.{Unique, here}
use my_ngrok.Gateway.Connect.{
  Hub, Started, StartRun, EndRun, raw_token, start_session, end_session, unauthorized,
}
use my_ngrok.Gateway.Connect.Cleanup.{buffered_for, told, end_session_lem, revoke-start_session}

abbrev session : Session
session = record {
  id = bytes "ses_1";
  agent_id = bytes "a1";
  agent_token_hash = 0 ∷ bytes "tkn_1";
  last_seen = 3;
  outbound = some 0;
  cancel = some 1;
}

abbrev manager : SessionManager
manager = register new_session_manager 3 session

no_session : get new_session_manager.sessions (bytes "ses_1") ≡ none
unfolding new_session_manager get
no_session = refl

manager-Inv : Inv manager
manager-Inv = register-Inv new_session_manager 3 session no_session new_session_manager-Inv

abbrev tunnel : ActiveTunnel
tunnel = record {
  id = bytes "1";
  subdomain = bytes "abc";
  agent_id = bytes "a1";
  user_id = bytes "u1";
  session_id = bytes "ses_1";
  local_address = bytes "localhost:3000";
}

abbrev registry : Registry
registry = open_tunnel new_registry tunnel

can_open : Routes.CanOpen new_registry tunnel
unfolding new_registry get
can_open = record { same_subdomain = λ s h. cc; same_id = λ u h. cc }

covered : Covers (bytes "1" ∷ []) registry
unfolding new_registry open_tunnel get put delete contains bytes_eq
covered id s h = ground (arith, bytes_eq_iff (bytes "1") id)

abbrev row : TunnelRow
row = record {
  id = bytes "1";
  user_id = bytes "u1";
  agent_id = bytes "a1";
  subdomain = bytes "abc";
  local_address = bytes "localhost:3000";
  is_open = true;
  updated_at = 4;
}

abbrev token : TokenRow
token = record {
  id = bytes "t1";
  user_id = bytes "u1";
  name = bytes "laptop";
  token_prefix = bytes "tkn_1";
  token_hash = 0 ∷ bytes "tkn_1";
  created_at = 1;
  last_used_at = none;
  expires_at = none;
  revoked_at = none;
}

abbrev tables : AgentTables
tables = record { agent_tokens = token ∷ []; agents = [] }

abbrev hub : Hub
hub = record { sessions = manager; registry = registry; agents = tables; tunnels = row ∷ [] }

abbrev started : Started
started = record { session_id = bytes "ses_1"; agent_id = bytes "a1" }

abbrev end_run : EndRun
end_run = record {
  order = bytes "1" ∷ [];
  close_at = 9;
  close = executed;
  disconnect_at = 9;
  disconnect = executed;
}

end_session_lem_example :
    let after = end_session hub started 1 end_run in
    (after.sessions.cancelled 2 ≡ (if 1 == 2 then true else manager.cancelled 2))
    × (get after.sessions.sessions (bytes "ses_1") ≡ (
        if bytes_eq (bytes "ses_1") (bytes "ses_1")
        then none
        else get manager.sessions (bytes "ses_1")))
    × (get after.sessions.pending (bytes "r")
        ≡ kept
            (λ _ p. not (bytes_eq p.session_id (bytes "ses_1")))
            (bytes "r")
            (get manager.pending (bytes "r")))
    × (buffered_for after.sessions (get manager.pending (bytes "r"))
        ≡ told (bytes "ses_1") (get manager.pending (bytes "r")))
    × (get_tunnel after.registry (bytes "abc")
        ≡ kept
            (λ _ t. not (bytes_eq t.session_id (bytes "ses_1")))
            (bytes "abc")
            (get_tunnel registry (bytes "abc")))
end_session_lem_example =
    end_session_lem hub started 1 end_run 2 (bytes "ses_1") (bytes "r") (bytes "abc") manager-Inv
      (Routes.open_tunnel-Inv new_registry tunnel can_open Routes.new_registry-Inv) covered

named : bytes_eq (bytes "a1") [] ≡ false
unfolding bytes_eq
named = refl

abbrev digests : Digests
digests = record { sha256_hex = λ text. 0 ∷ text; encode = λ text. text }

abbrev revoked : AgentTables
revoked = (revoke tables (bytes "u1") (bytes "t1") 5 executed).0

abbrev authorization : Bytes
authorization = bytes "Bearer tkn_1"

revocation :
    revoke tables (bytes "u1") (bytes "t1") 5 executed
    ≡ (revoked, ok (some (digests.sha256_hex (raw_token authorization))))
unfolding raw_token revoke revoke_rows returning has_prefix drop_prefix trim_prefix trim_left
    trim_space reversed bytes_eq
revocation = refl

unique : Unique tables.agent_tokens
unfolding Unique has_hash
unique = (refl, tt)

abbrev start_run : StartRun
start_run = record {
  valid_at = 6;
  valid_fails = false;
  accepted = true;
  hello = none;
  random = none;
  connect = record {
    select_fails = false;
    now = 6;
    id = [];
    upsert = executed;
    mark_used = executed;
  };
  now = 6;
  outbound = 2;
  cancel = 3;
}

abbrev later : Hub
later = record hub { agents = revoked }

revoke-start_session_example :
    start_session digests later authorization start_run ≡ (later, err unauthorized)
revoke-start_session_example =
    revoke-start_session digests tables revoked later (bytes "u1") (bytes "t1") authorization 5
      executed start_run unique revocation here
