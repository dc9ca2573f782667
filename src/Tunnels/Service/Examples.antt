-- ===== src/Tunnels/Service/Examples.antt =====
-- An agent with one tunnel.
use my_ngrok.Base.{executed, true, false, [], ◌∷◌, some, bytes, bytes_eq, ◌≡◌, refl}
use my_ngrok.Tunnels.Service.{TunnelRow, ReopenRun, close_agent_tunnels, reopen_for_session}
use my_ngrok.Tunnels.Service.Reopening.{has_tunnel, Reopened, reopen_for_session-Reopened}

abbrev row : TunnelRow
row = record {
  id = bytes "1";
  user_id = bytes "u1";
  agent_id = bytes "a1";
  subdomain = bytes "abc";
  local_address = bytes "localhost:3000";
  is_open = true;
  updated_at = 4;
}

abbrev run : ReopenRun
run = record {
  now = 9;
  update = executed;
  owner = some (bytes "u1");
  id = bytes "2";
  random = [];
  insert = executed;
}

named : bytes_eq (bytes "a1") [] ≡ false
unfolding bytes_eq
named = refl

has : has_tunnel (row ∷ []) (bytes "a1") (bytes "localhost:3000") ≡ true
unfolding has_tunnel bytes_eq
has = refl

reopen_for_session-Reopened_example : Reopened (row ∷ []) (bytes "a1") (bytes "localhost:3000") (
    reopen_for_session
      (close_agent_tunnels (row ∷ []) (bytes "a1") 8 executed)
      (bytes "a1")
      (bytes "localhost:3000")
      run)
reopen_for_session-Reopened_example =
    reopen_for_session-Reopened (row ∷ []) (bytes "a1") (bytes "localhost:3000") 8 executed run
      named refl refl has
