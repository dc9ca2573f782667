-- ===== src/Tunnels/Service.antt =====
-- backend/internal/tunnels/service.go: the table `tunnels` and the statements that open and close its
-- rows.
pub mod Reopening
mod Examples
use my_ngrok.Base.{
  Fate, exec, ℕ, Bool, true, false, ◌&&◌, List, [], ◌∷◌, Option, none, some, Bytes, bytes_eq, leb,
  if◌then◌else◌,
}
use my_ngrok.Tunnels.Subdomain.{Generated, label, failed, unfinished, generate_subdomain}

-- `is_open` is the status, which a constraint keeps to `open` and `closed`.
pub record TunnelRow : Type 0 where
  pub id : Bytes
  pub user_id : Bytes
  pub agent_id : Bytes
  pub subdomain : Bytes
  pub local_address : Bytes
  pub is_open : Bool
  pub updated_at : ℕ

-- UPDATE tunnels SET status='closed', ... WHERE agent_id=$1 AND status='open'
unfoldable pub close_rows : Bytes → ℕ → List TunnelRow → List TunnelRow
close_rows agent now [] = []
close_rows agent now (r ∷ rs) =
    (if bytes_eq r.agent_id agent && r.is_open
      then record r { is_open = false; updated_at = now }
      else r)
    ∷ close_rows agent now rs

unfoldable pub close_agent_tunnels : List TunnelRow → Bytes → ℕ → Fate → List TunnelRow
close_agent_tunnels t agent now update =
    if bytes_eq agent [] then t else (exec update t (close_rows agent now t)).0

abbrev pub candidate : Bytes → Bytes → TunnelRow → Bool
candidate agent address r =
    bytes_eq r.agent_id agent
    && bytes_eq r.local_address address
    && (if r.is_open then false else true)

-- ORDER BY updated_at DESC LIMIT 1
abbrev pub later_of : TunnelRow → Option TunnelRow → TunnelRow
later_of r none = r
later_of r (some q) = if leb q.updated_at r.updated_at then r else q

unfoldable pub latest_closed : List TunnelRow → Bytes → Bytes → Option TunnelRow
latest_closed [] agent address = none
latest_closed (r ∷ rs) agent address =
    if candidate agent address r
    then some (later_of r (latest_closed rs agent address))
    else latest_closed rs agent address

abbrev pub reopened : ℕ → TunnelRow → TunnelRow
reopened now r = record r { is_open = true; updated_at = now }

unfoldable pub reopen_rows : Bytes → ℕ → List TunnelRow → List TunnelRow
reopen_rows id now [] = []
reopen_rows id now (r ∷ rs) =
    (if bytes_eq r.id id then reopened now r else r) ∷ reopen_rows id now rs

-- What the outside gives: the agent's user, for an agent of the table, the ID of a new row, the random
-- bytes, and the fates of the statements.
pub record ReopenRun : Type 0 where
  pub now : ℕ
  pub update : Fate
  pub owner : Option Bytes
  pub id : Bytes
  pub random : List (Option ℕ)
  pub insert : Fate

unfoldable pub has_subdomain : List TunnelRow → Bytes → Bool
has_subdomain [] subdomain = false
has_subdomain (r ∷ rs) subdomain =
    if bytes_eq r.subdomain subdomain then true else has_subdomain rs subdomain

-- A row that the caller has, if there was no error.
abbrev pub with_row : TunnelRow → List TunnelRow × Bool → List TunnelRow × Option TunnelRow
with_row r (t, true) = (t, some r)
with_row r (t, false) = (t, none)

-- INSERT INTO tunnels ... SELECT ... FROM agents WHERE id=$1, with the constraint that a subdomain is
-- UNIQUE.
abbrev pub insert_tunnel :
    List TunnelRow
    → Bytes
    → Bytes
    → ReopenRun
    → Option Bytes
    → Bytes
    → List TunnelRow × Option TunnelRow
insert_tunnel t agent address run none subdomain = (t, none)
insert_tunnel t agent address run (some owner) subdomain =
    let row : TunnelRow = record {
      id = run.id;
      user_id = owner;
      agent_id = agent;
      subdomain = subdomain;
      local_address = address;
      is_open = true;
      updated_at = run.now;
    } in
    if has_subdomain t subdomain then (t, none) else with_row row (exec run.insert t (row ∷ t))

abbrev pub create_tunnel :
    List TunnelRow → Bytes → Bytes → ReopenRun → Generated → List TunnelRow × Option TunnelRow
create_tunnel t agent address run (label subdomain) =
    insert_tunnel t agent address run run.owner subdomain
create_tunnel t agent address run failed = (t, none)
create_tunnel t agent address run unfinished = (t, none)

abbrev pub reopen_found :
    List TunnelRow
    → Bytes
    → Bytes
    → ReopenRun
    → Option TunnelRow
    → List TunnelRow × Option TunnelRow
reopen_found t agent address run none =
    create_tunnel t agent address run (generate_subdomain run.random)
reopen_found t agent address run (some r) =
    with_row (reopened run.now r) (exec run.update t (reopen_rows r.id run.now t))

unfoldable pub reopen_for_session :
    List TunnelRow → Bytes → Bytes → ReopenRun → List TunnelRow × Option TunnelRow
reopen_for_session t agent address run =
    reopen_found t agent address run (latest_closed t agent address)
