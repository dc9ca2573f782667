-- ===== src/Agents.antt =====
-- backend/internal/agenttokens and backend/internal/agents: the tokens that agents connect with, and
-- the agents. The tables are those of backend/migrations/003 and 004.
pub mod Revocation
pub mod Http
mod Examples
use my_ngrok.Base.{
  Fate, exec, ℕ, Bool, true, false, not, ◌&&◌, ◌||◌, List, [], ◌∷◌, ◌++◌, Option, none, some, Bytes,
  bytes, bytes_eq, length, take, ltb, leb, if◌then◌else◌, Result, ok, err,
}
use my_ngrok.Strings.{trim_space}

pub record TokenRow : Type 0 where
  pub id : Bytes
  pub user_id : Bytes
  pub name : Bytes
  pub token_prefix : Bytes
  pub token_hash : Bytes
  pub created_at : ℕ
  pub last_used_at : Option ℕ
  pub expires_at : Option ℕ
  pub revoked_at : Option ℕ

pub record AgentRow : Type 0 where
  pub id : Bytes
  pub user_id : Bytes
  pub agent_token_id : Bytes
  pub instance_id : Bytes
  pub hostname : Bytes
  pub os : Bytes
  pub arch : Bytes
  pub agent_version : Bytes
  pub connected : Bool
  pub connected_at : ℕ
  pub disconnected_at : Option ℕ
  pub last_seen_at : ℕ

pub record AgentTables : Type 0 where
  pub agent_tokens : List TokenRow
  pub agents : List AgentRow

-- The hexadecimal SHA-256 of a text, and base64.RawURLEncoding.
pub record Digests : Type 0 where
  pub sha256_hex : Bytes → Bytes
  pub encode : Bytes → Bytes

pub data AgentError : Type 0 where
  invalid_name : AgentError
  failed : AgentError

-- `visiblePrefix`
unfoldable pub visible_prefix : Bytes → Bytes
visible_prefix raw = if leb (length raw) 12 then raw else take 12 raw

-- `generate`: `rand.Read` gives the bytes or fails.
unfoldable pub generate : Digests → Option Bytes → Result AgentError Bytes
generate d none = err failed
generate d (some random) = ok (bytes "tkn_" ++ d.encode random)

unfoldable pub has_hash : List TokenRow → Bytes → Bool
has_hash [] hash = false
has_hash (r ∷ rs) hash = if bytes_eq r.token_hash hash then true else has_hash rs hash

-- INSERT INTO agent_tokens, with the constraint that a token_hash is UNIQUE.
unfoldable pub insert_token : AgentTables → TokenRow → Option AgentTables
insert_token t row =
    if has_hash t.agent_tokens row.token_hash
    then none
    else some (record t { agent_tokens = row ∷ t.agent_tokens })

-- What the outside gives to `Create`.
pub record CreateRun : Type 0 where
  pub random : Option Bytes
  pub id : Bytes
  pub now : ℕ
  pub insert : Fate

pub record CreatedToken : Type 0 where
  pub id : Bytes
  pub name : Bytes
  pub prefix : Bytes
  pub created_at : ℕ
  pub plaintext : Bytes

abbrev pub new_token : Digests → Bytes → Bytes → Bytes → CreateRun → TokenRow
new_token d user_id name raw run = record {
  id = run.id;
  user_id = user_id;
  name = name;
  token_prefix = visible_prefix raw;
  token_hash = d.sha256_hex raw;
  created_at = run.now;
  last_used_at = none;
  expires_at = none;
  revoked_at = none;
}

abbrev pub store_token :
    AgentTables
    → Option AgentTables
    → Fate
    → CreatedToken
    → AgentTables × Result AgentError CreatedToken
store_token t none insert created = (t, err failed)
store_token t (some t') insert created =
    let (after, succeeded) = exec insert t t' in
    (after, if succeeded then ok created else err failed)

abbrev pub create_raw :
    Digests
    → AgentTables
    → Bytes
    → Bytes
    → CreateRun
    → Result AgentError Bytes
    → AgentTables × Result AgentError CreatedToken
create_raw d t user_id name run (err e) = (t, err e)
create_raw d t user_id name run (ok raw) =
    store_token t (insert_token t (new_token d user_id name raw run)) run.insert (record {
      id = run.id;
      name = name;
      prefix = visible_prefix raw;
      created_at = run.now;
      plaintext = raw;
    })

unfoldable pub create :
    Digests → AgentTables → Bytes → Bytes → CreateRun → AgentTables × Result AgentError CreatedToken
create d t user_id name run =
    let name = trim_space name in
    if bytes_eq name [] || ltb 128 (length name)
    then (t, err invalid_name)
    else create_raw d t user_id name run (generate d run.random)

-- WHERE id=$1 AND user_id=$2 AND revoked_at IS NULL
abbrev pub unrevoked : TokenRow → Bool
unrevoked r = elim r.revoked_at [ none ↦ true | some _ ↦ false ]

abbrev pub revocable : Bytes → Bytes → TokenRow → Bool
revocable id user_id r = bytes_eq r.id id && bytes_eq r.user_id user_id && unrevoked r

unfoldable pub revoke_rows : Bytes → Bytes → ℕ → List TokenRow → List TokenRow
revoke_rows id user_id now [] = []
revoke_rows id user_id now (r ∷ rs) =
    (if revocable id user_id r then record r { revoked_at = some now } else r)
    ∷ revoke_rows id user_id now rs

-- RETURNING token_hash, of the first row.
unfoldable pub returning : Bytes → Bytes → List TokenRow → Option Bytes
returning id user_id [] = none
returning id user_id (r ∷ rs) =
    if revocable id user_id r then some r.token_hash else returning id user_id rs

-- The hash of the revoked token, or none for ErrNoRows.
unfoldable pub revoke :
    AgentTables → Bytes → Bytes → ℕ → Fate → AgentTables × Result AgentError (Option Bytes)
revoke t user_id id now update =
    let (after, succeeded) =
      exec update t (record t { agent_tokens = revoke_rows id user_id now t.agent_tokens }) in
    (after, if succeeded then ok (returning id user_id t.agent_tokens) else err failed)

-- WHERE token_hash=$1 AND revoked_at IS NULL AND (expires_at IS NULL OR expires_at>NOW())
abbrev pub unexpired : ℕ → TokenRow → Bool
unexpired now r = elim r.expires_at [ none ↦ true | some expires_at ↦ ltb now expires_at ]

unfoldable pub find_token : List TokenRow → Bytes → ℕ → Option TokenRow
find_token [] hash now = none
find_token (r ∷ rs) hash now =
    if bytes_eq r.token_hash hash && unrevoked r && unexpired now r
    then some r
    else find_token rs hash now

-- `AgentConnectHandler.valid`: EXISTS of that SELECT; an error leaves the answer false.
unfoldable pub valid : Digests → AgentTables → Bytes → ℕ → Bool → Bool
valid d t raw now select_fails =
    not select_fails
    && elim (find_token t.agent_tokens (d.sha256_hex raw) now) [ none ↦ false | some _ ↦ true ]

pub record ClientHelloPayload : Type 0 where
  pub instance_id : Bytes
  pub hostname : Bytes
  pub os : Bytes
  pub arch : Bytes
  pub agent_version : Bytes

-- UPDATE agent_tokens SET last_used_at=NOW() WHERE id=$1
unfoldable pub use_rows : Bytes → ℕ → List TokenRow → List TokenRow
use_rows id now [] = []
use_rows id now (r ∷ rs) =
    (if bytes_eq r.id id then record r { last_used_at = some now } else r) ∷ use_rows id now rs

-- INSERT INTO agents ... ON CONFLICT (user_id,instance_id) DO UPDATE ... RETURNING id::text, where
-- `id` is the ID that a new row would get.
unfoldable pub upsert :
    Bytes → TokenRow → ClientHelloPayload → ℕ → List AgentRow → List AgentRow × Bytes
upsert id token hello now [] = (
  record {
    id = id;
    user_id = token.user_id;
    agent_token_id = token.id;
    instance_id = hello.instance_id;
    hostname = hello.hostname;
    os = hello.os;
    arch = hello.arch;
    agent_version = hello.agent_version;
    connected = true;
    connected_at = now;
    disconnected_at = none;
    last_seen_at = now;
  }
      ∷ [],
  id,
)
upsert id token hello now (a ∷ rest) =
    let (after, found) = upsert id token hello now rest in
    if bytes_eq a.user_id token.user_id && bytes_eq a.instance_id hello.instance_id
    then (
      record a {
        agent_token_id = token.id;
        hostname = hello.hostname;
        os = hello.os;
        arch = hello.arch;
        agent_version = hello.agent_version;
        connected = true;
        connected_at = now;
        disconnected_at = none;
        last_seen_at = now;
      }
          ∷ rest,
      a.id,
    )
    else (a ∷ after, found)

pub record ConnectRun : Type 0 where
  pub select_fails : Bool
  pub now : ℕ
  pub id : Bytes
  pub upsert : Fate
  pub mark_used : Fate

-- The last statement, whose error is dropped.
abbrev pub connect_used :
    TokenRow → ConnectRun → AgentTables × Bool → Bytes → AgentTables × Result AgentError Bytes
connect_used token run (t, false) id = (t, err failed)
connect_used token run (t, true) id = (
  (exec run.mark_used t (record t { agent_tokens = use_rows token.id run.now t.agent_tokens })).0,
  ok id,
)

abbrev pub connect_token :
    AgentTables
    → ClientHelloPayload
    → ConnectRun
    → Option TokenRow
    → AgentTables × Result AgentError Bytes
connect_token t hello run none = (t, err failed)
connect_token t hello run (some token) =
    let (agents, id) = upsert run.id token hello run.now t.agents in
    connect_used token run (exec run.upsert t (record t { agents = agents })) id

unfoldable pub connect :
    Digests
    → AgentTables
    → Bytes
    → ClientHelloPayload
    → ConnectRun
    → AgentTables × Result AgentError Bytes
connect d t raw hello run =
    if bytes_eq (trim_space hello.instance_id) [] || bytes_eq (trim_space hello.hostname) []
    then (t, err failed)
    else connect_token t hello run
        (if run.select_fails then none else find_token t.agent_tokens (d.sha256_hex raw) run.now)

-- UPDATE agents SET last_seen_at=NOW(), ... WHERE id=$1 AND connected=TRUE
unfoldable pub touch_rows : Bytes → ℕ → List AgentRow → List AgentRow
touch_rows id now [] = []
touch_rows id now (a ∷ rest) =
    (if bytes_eq a.id id && a.connected then record a { last_seen_at = now } else a)
    ∷ touch_rows id now rest

unfoldable pub touch : AgentTables → Bytes → ℕ → Fate → AgentTables
touch t id now update = (exec update t (record t { agents = touch_rows id now t.agents })).0

-- UPDATE agents SET connected=FALSE, disconnected_at=NOW(), ... WHERE id=$1
unfoldable pub disconnect_rows : Bytes → ℕ → List AgentRow → List AgentRow
disconnect_rows id now [] = []
disconnect_rows id now (a ∷ rest) =
    (if bytes_eq a.id id then record a { connected = false; disconnected_at = some now } else a)
    ∷ disconnect_rows id now rest

unfoldable pub disconnect : AgentTables → Bytes → ℕ → Fate → AgentTables
disconnect t id now update =
    (exec update t (record t { agents = disconnect_rows id now t.agents })).0
