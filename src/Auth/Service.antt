-- ===== src/Auth/Service.antt =====
-- backend/internal/auth/service.go: the operations of `Service` on the tables. Every statement has
-- its time and its fate, the random bytes are read before a call, and bcrypt is a parameter.
pub mod Rotation
pub mod Accounts
pub mod Access
pub mod Race
pub mod Registration
pub mod Sample
mod Examples
use my_ngrok.Base.{
  Fate, executed, not_executed, reply_lost, exec, exec-true, ℕ, ◌+◌, ◌/◌, Bool, true, false, not,
  ◌&&◌, ◌||◌, List, [], ◌∷◌, Option, none, some, Bytes, bytes, bytes_eq, ℤ, pos, length, leb, ltb,
  ltb_ℤ, ◌==◌, if◌then◌else◌, Result, ok, err,
}
use my_ngrok.Strings.{count_byte, has_prefix, has_suffix, trim_space, to_lower}
use my_ngrok.Auth.Jwt.{
  AuthError, invalid_credentials, email_taken, unauthorized, other, Claims, Primitives, sign_jwt,
  verify_jwt,
}
use my_ngrok.Auth.Tables.{
  User, UserRow, Tables, active, user_of, find_email, find_active, insert_user, touch_login,
  find_live, revoke, revoke_live, insert_refresh, new_refresh,
}

pub record Tokens : Type 0 where
  pub access_token : Bytes
  pub refresh_token : Bytes
  pub refresh_expires_at : ℕ

-- The lifetimes are numbers of nanoseconds, as are all times.
pub record Service : Type 0 where
  pub jwt : Primitives
  pub generate_from_password : Bytes → Option Bytes
  pub compare_hash_and_password : Bytes → Bytes → Bool
  pub access_secret : Bytes
  pub refresh_secret : Bytes
  pub access_ttl : ℕ
  pub refresh_ttl : ℕ

-- `t.Unix()`
abbrev pub unix : ℕ → ℤ
unix t = pos (t / 1000000000)

unfoldable pub normalize_email : Bytes → Bytes
normalize_email email = to_lower (trim_space email)

unfoldable pub valid_email : Bytes → Bool
valid_email email =
    leb (length email) 320
    && count_byte email 64 == 1
    && not (has_prefix email (bytes "@"))
    && not (has_suffix email (bytes "@"))

-- `rand.Read` gives the bytes or fails.
unfoldable pub random_token : Service → Option Bytes → Result AuthError Bytes
random_token s none = err other
random_token s (some random) = ok (s.jwt.encode random)

unfoldable pub hash_token : Service → Bytes → Bytes
hash_token s raw = s.jwt.encode (s.jwt.hmac s.refresh_secret raw)

-- What the outside gives to one call of `issue`: the three readings of the clock, the random bytes,
-- and the fate of the INSERT.
pub record IssueRun : Type 0 where
  pub issued_at : ℕ
  pub access_from : ℕ
  pub random : Option Bytes
  pub refresh_from : ℕ
  pub insert : Fate

abbrev pub access_claims : Service → Bytes → IssueRun → Claims
access_claims s user_id run = record {
  subject = user_id;
  kind = bytes "access";
  issued_at = unix run.issued_at;
  expires_at = unix (run.access_from + s.access_ttl);
}

abbrev pub no_error : {A : Type 0} → Bool → A → Result AuthError A
no_error succeeded a = if succeeded then ok a else err other

-- The INSERT, which the database may refuse.
abbrev pub store_tokens : Tables → Option Tables → Fate → Tokens → Tables × Result AuthError Tokens
store_tokens t none insert tokens = (t, err other)
store_tokens t (some t') insert tokens =
    let (after, succeeded) = exec insert t t' in (after, no_error succeeded tokens)

abbrev pub issue_raw :
    Service
    → Tables
    → Bytes
    → Bytes
    → Bytes
    → IssueRun
    → Bytes
    → Result AuthError Bytes
    → Tables × Result AuthError Tokens
issue_raw s t user_id user_agent ip run access (err e) = (t, err e)
issue_raw s t user_id user_agent ip run access (ok raw) =
    let expires = run.refresh_from + s.refresh_ttl in
    store_tokens t (insert_refresh t (new_refresh user_id (hash_token s raw) expires user_agent ip))
      run.insert
      (record { access_token = access; refresh_token = raw; refresh_expires_at = expires })

abbrev pub issue_access :
    Service
    → Tables
    → Bytes
    → Bytes
    → Bytes
    → IssueRun
    → Result AuthError Bytes
    → Tables × Result AuthError Tokens
issue_access s t user_id user_agent ip run (err e) = (t, err e)
issue_access s t user_id user_agent ip run (ok access) =
    issue_raw s t user_id user_agent ip run access (random_token s run.random)

unfoldable pub issue :
    Service → Tables → Bytes → Bytes → Bytes → IssueRun → Tables × Result AuthError Tokens
issue s t user_id user_agent ip run =
    issue_access s t user_id user_agent ip run
      (sign_jwt s.jwt (access_claims s user_id run) s.access_secret)

-- The user beside the tokens.
abbrev pub with_user :
    User → Tables × Result AuthError Tokens → Tables × Result AuthError (User × Tokens)
with_user u (t, ok tokens) = (t, ok (u, tokens))
with_user u (t, err e) = (t, err e)

pub record RegisterRun : Type 0 where
  pub id : Bytes
  pub now : ℕ
  pub insert : Fate

-- The INSERT of `Register`: the constraint `users_email_key`, or the new row.
abbrev pub store_user :
    Tables → Option Tables → Bytes → RegisterRun → Tables × Result AuthError User
store_user t none email run = (t, err email_taken)
store_user t (some t') email run =
    let (after, succeeded) = exec run.insert t t' in
    (after, no_error succeeded (record { id = run.id; email = email }))

abbrev pub register_hashed :
    Tables → Bytes → Option Bytes → RegisterRun → Tables × Result AuthError User
register_hashed t email none run = (t, err other)
register_hashed t email (some hash) run =
    store_user t (insert_user t run.id email hash run.now) email run

unfoldable pub register :
    Service → Tables → Bytes → Bytes → RegisterRun → Tables × Result AuthError User
register s t email password run =
    let email = normalize_email email in
    if not (valid_email email) || ltb (length password) 10
    then (t, err other)
    else register_hashed t email (s.generate_from_password password) run

pub record LoginRun : Type 0 where
  -- The SELECT gives an error.
  pub select_fails : Bool
  pub now : ℕ
  pub update : Fate
  pub issue : IssueRun

-- What the SELECT of one row gives: none for an error of its own or for no row.
abbrev pub select {ℓ} : {A : Type ℓ} → Bool → Option A → Option A
select fails row = if fails then none else row

-- The UPDATE and what follows it.
abbrev pub login_updated :
    Service
    → Bytes
    → Bytes
    → UserRow
    → LoginRun
    → Tables × Bool
    → Tables × Result AuthError (User × Tokens)
login_updated s user_agent ip u run (t, false) = (t, err other)
login_updated s user_agent ip u run (t, true) =
    with_user (user_of u) (issue s t u.id user_agent ip run.issue)

abbrev pub login_row :
    Service
    → Tables
    → Bytes
    → Bytes
    → Bytes
    → Option UserRow
    → LoginRun
    → Tables × Result AuthError (User × Tokens)
login_row s t password user_agent ip none run = (t, err invalid_credentials)
login_row s t password user_agent ip (some u) run =
    if not (bytes_eq u.status active) || not (s.compare_hash_and_password u.password_hash password)
    then (t, err invalid_credentials)
    else login_updated s user_agent ip u run (exec run.update t (touch_login t u.id run.now))

unfoldable pub login :
    Service
    → Tables
    → Bytes
    → Bytes
    → Bytes
    → Bytes
    → LoginRun
    → Tables × Result AuthError (User × Tokens)
login s t email password user_agent ip run =
    login_row s t password user_agent ip
      (select run.select_fails (find_email t.users (normalize_email email))) run

-- The times of the two statements of `Refresh`, and what becomes of them.
pub record RefreshRun : Type 0 where
  pub select_fails : Bool
  pub select_at : ℕ
  pub revoke_at : ℕ
  pub revoke : Fate
  pub issue : IssueRun

-- The SELECT, with which `Refresh` decides.
unfoldable pub refresh_user : Service → Tables → Bytes → RefreshRun → Option User
refresh_user s t raw run =
    if bytes_eq raw []
    then none
    else select run.select_fails
        (find_live t.refresh_tokens t.users (hash_token s raw) run.select_at)

-- The UPDATE, which does not ask again whether the token is live.
unfoldable pub refresh_revoke : Service → Tables → Bytes → RefreshRun → Tables × Bool
refresh_revoke s t raw run = exec run.revoke t (revoke t (hash_token s raw) run.revoke_at)

-- The rest, after the UPDATE.
unfoldable pub refresh_issue :
    Service
    → Bytes
    → Bytes
    → RefreshRun
    → User
    → Tables × Bool
    → Tables × Result AuthError (User × Tokens)
refresh_issue s user_agent ip run u (t, false) = (t, err other)
refresh_issue s user_agent ip run u (t, true) = with_user u (issue s t u.id user_agent ip run.issue)

abbrev pub refresh_found :
    Service
    → Tables
    → Bytes
    → Bytes
    → Bytes
    → RefreshRun
    → Option User
    → Tables × Result AuthError (User × Tokens)
refresh_found s t raw user_agent ip run none = (t, err unauthorized)
refresh_found s t raw user_agent ip run (some u) =
    refresh_issue s user_agent ip run u (refresh_revoke s t raw run)

unfoldable pub refresh :
    Service
    → Tables
    → Bytes
    → Bytes
    → Bytes
    → RefreshRun
    → Tables × Result AuthError (User × Tokens)
refresh s t raw user_agent ip run =
    refresh_found s t raw user_agent ip run (refresh_user s t raw run)

-- Whether the caller of `Logout` has no error.
unfoldable pub logout : Service → Tables → Bytes → ℕ → Fate → Tables × Bool
logout s t raw now update =
    if bytes_eq raw [] then (t, true) else exec update t (revoke_live t (hash_token s raw) now)

-- The SELECT: no row is `ErrNoRows`, and it may give another error.
abbrev pub current_user : Bool → Option User → Result AuthError User
current_user true row = err other
current_user false none = err unauthorized
current_user false (some u) = ok u

abbrev pub user_of_claims : Tables → Result AuthError Claims → ℕ → Bool → Result AuthError User
user_of_claims t (err e) now select_fails = err unauthorized
user_of_claims t (ok c) now select_fails =
    if not (bytes_eq c.kind (bytes "access"))
      || bytes_eq c.subject []
      || ltb_ℤ c.expires_at (unix now)
    then err unauthorized
    else current_user select_fails (find_active t.users c.subject)

unfoldable pub user_from_access_token : Service → Tables → Bytes → ℕ → Bool → Result AuthError User
user_from_access_token s t token now select_fails =
    user_of_claims t (verify_jwt s.jwt token s.access_secret) now select_fails
