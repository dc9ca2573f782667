-- ===== src/Auth/Tables.antt =====
-- The tables `users` and `refresh_tokens` (backend/migrations/002_create_auth.up.sql) and the SQL
-- statements of backend/internal/auth/service.go on them. A table is the list of its rows; a
-- statement is one step, and its time is `NOW()`. PostgreSQL reports a broken UNIQUE constraint.
pub mod History
use my_ngrok.Base.{
  Fate, executed, not_executed, reply_lost, exec, exec-true, ℕ, Bool, true, false, ◌&&◌, List, [],
  ◌∷◌, Option, none, some, Bytes, bytes, bytes_eq, ltb, if◌then◌else◌,
}

pub record User : Type 0 where
  pub id : Bytes
  pub email : Bytes

pub record UserRow : Type 0 where
  pub id : Bytes
  pub email : Bytes
  pub password_hash : Bytes
  pub status : Bytes
  pub updated_at : ℕ
  pub last_login_at : Option ℕ

pub record RefreshRow : Type 0 where
  pub user_id : Bytes
  pub token_hash : Bytes
  pub expires_at : ℕ
  pub revoked_at : Option ℕ
  pub user_agent : Bytes
  pub ip_address : Option Bytes

pub record Tables : Type 0 where
  pub users : List UserRow
  pub refresh_tokens : List RefreshRow

abbrev pub active : Bytes
active = bytes "active"

abbrev pub user_of : UserRow → User
user_of u = record { id = u.id; email = u.email }

-- SELECT ... FROM users WHERE email=$1
unfoldable pub find_email : List UserRow → Bytes → Option UserRow
find_email [] email = none
find_email (u ∷ us) email = if bytes_eq u.email email then some u else find_email us email

-- SELECT id::text, email FROM users WHERE id=$1 AND status='active'
unfoldable pub find_active : List UserRow → Bytes → Option User
find_active [] id = none
find_active (u ∷ us) id =
    if bytes_eq u.id id && bytes_eq u.status active then some (user_of u) else find_active us id

-- INSERT INTO users (email, password_hash) VALUES ($1, $2), with the constraint `users_email_key`
-- and the defaults of the other columns.
abbrev pub new_user : Bytes → Bytes → Bytes → ℕ → UserRow
new_user id email password_hash now = record {
  id = id;
  email = email;
  password_hash = password_hash;
  status = active;
  updated_at = now;
  last_login_at = none;
}

unfoldable pub insert_user : Tables → Bytes → Bytes → Bytes → ℕ → Option Tables
insert_user t id email password_hash now = elim (find_email t.users email) [
  | some _ ↦ none
  | none ↦ some (record t { users = new_user id email password_hash now ∷ t.users })
]

-- UPDATE users SET last_login_at=NOW(), updated_at=NOW() WHERE id=$1
unfoldable pub touch_user : Bytes → ℕ → List UserRow → List UserRow
touch_user id now [] = []
touch_user id now (u ∷ us) =
    (if bytes_eq u.id id then record u { last_login_at = some now; updated_at = now } else u)
    ∷ touch_user id now us

abbrev pub touch_login : Tables → Bytes → ℕ → Tables
touch_login t id now = record t { users = touch_user id now t.users }

-- revoked_at IS NULL
abbrev pub unrevoked : RefreshRow → Bool
unrevoked r = elim r.revoked_at [ none ↦ true | some _ ↦ false ]

-- SELECT u.id::text, u.email FROM refresh_tokens r JOIN users u ON u.id=r.user_id WHERE
-- r.token_hash=$1 AND r.revoked_at IS NULL AND r.expires_at>NOW() AND u.status='active'. Of the rows
-- with this hash and an active user, the first is taken.
abbrev pub first_of : Option User → Option User → Option User
first_of none o = o
first_of (some u) o = some u

unfoldable pub find_live : List RefreshRow → List UserRow → Bytes → ℕ → Option User
find_live [] users hash now = none
find_live (r ∷ rs) users hash now =
    if bytes_eq r.token_hash hash && unrevoked r && ltb now r.expires_at
    then first_of (find_active users r.user_id) (find_live rs users hash now)
    else find_live rs users hash now

-- UPDATE refresh_tokens SET revoked_at=NOW() WHERE token_hash=$1
unfoldable pub revoke_rows : Bytes → ℕ → List RefreshRow → List RefreshRow
revoke_rows hash now [] = []
revoke_rows hash now (r ∷ rs) =
    (if bytes_eq r.token_hash hash then record r { revoked_at = some now } else r)
    ∷ revoke_rows hash now rs

abbrev pub revoke : Tables → Bytes → ℕ → Tables
revoke t hash now = record t { refresh_tokens = revoke_rows hash now t.refresh_tokens }

-- UPDATE refresh_tokens SET revoked_at=NOW() WHERE token_hash=$1 AND revoked_at IS NULL
unfoldable pub revoke_live_rows : Bytes → ℕ → List RefreshRow → List RefreshRow
revoke_live_rows hash now [] = []
revoke_live_rows hash now (r ∷ rs) =
    (if bytes_eq r.token_hash hash && unrevoked r then record r { revoked_at = some now } else r)
    ∷ revoke_live_rows hash now rs

abbrev pub revoke_live : Tables → Bytes → ℕ → Tables
revoke_live t hash now = record t { refresh_tokens = revoke_live_rows hash now t.refresh_tokens }

unfoldable pub has_hash : List RefreshRow → Bytes → Bool
has_hash [] hash = false
has_hash (r ∷ rs) hash = if bytes_eq r.token_hash hash then true else has_hash rs hash

-- NULLIF($5,'')
abbrev pub nullif_empty : Bytes → Option Bytes
nullif_empty [] = none
nullif_empty (b ∷ bs) = some (b ∷ bs)

abbrev pub new_refresh : Bytes → Bytes → ℕ → Bytes → Bytes → RefreshRow
new_refresh user_id hash expires_at user_agent ip = record {
  user_id = user_id;
  token_hash = hash;
  expires_at = expires_at;
  revoked_at = none;
  user_agent = user_agent;
  ip_address = nullif_empty ip;
}

-- INSERT INTO refresh_tokens (user_id, token_hash, expires_at, user_agent, ip_address), with the
-- constraint that a token_hash is UNIQUE.
unfoldable pub insert_refresh : Tables → RefreshRow → Option Tables
insert_refresh t row =
    if has_hash t.refresh_tokens row.token_hash
    then none
    else some (record t { refresh_tokens = row ∷ t.refresh_tokens })
