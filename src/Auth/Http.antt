-- ===== src/Auth/Http.antt =====
-- backend/internal/auth/http.go: the routes of `HTTPHandler`. A request is what the handler reads of
-- it; net.SplitHostPort and the JSON decoder are outside, their results are in the request.
pub mod Logout
pub mod Budget
mod Examples
use my_ngrok.Base.{
  Fate, executed, not_executed, reply_lost, exec, exec-true, ℕ, ◌/◌, Bool, true, false, not, ◌&&◌,
  ◌||◌, List, [], ◌∷◌, ◌++◌, Option, none, some, Bytes, bytes, bytes_eq, ℤ, pos, negsuc, ltb,
  if◌then◌else◌, Result, ok, err,
}
use my_ngrok.Map.{Map, get}
use my_ngrok.Strings.{trim_prefix, trim_space}
use my_ngrok.RateLimiter.{RateLimiter, auth_rate_limiter, allow}
use my_ngrok.Auth.Jwt.{AuthError, email_taken}
use my_ngrok.Auth.Tables.{User, Tables}
use my_ngrok.Auth.Service.{
  Service, Tokens, RegisterRun, LoginRun, RefreshRun, register, login, refresh, logout,
  user_from_access_token,
}

pub record HttpHandler : Type 0 where
  pub service : Service
  pub secure_cookies : Bool
  pub limiter : RateLimiter

unfoldable pub new_http_handler : Service → Bool → HttpHandler
new_http_handler service secure_cookies = record {
  service = service;
  secure_cookies = secure_cookies;
  limiter = auth_rate_limiter;
}

abbrev pub refresh_cookie_name : Bytes
refresh_cookie_name = bytes "refresh_token"

abbrev pub secure_refresh_cookie_name : Bytes
secure_refresh_cookie_name = bytes "__Host-refresh_token"

pub record Credentials : Type 0 where
  pub email : Bytes
  pub password : Bytes

-- `host` is none where RemoteAddr has no port, `body` where it is no JSON or above 16 KiB.
pub record Request : Type 0 where
  pub method : Bytes
  pub path : Bytes
  pub host : Option Bytes
  pub body : Option Credentials
  pub cookies : Map Bytes
  pub user_agent : Bytes
  pub authorization : Bytes

pub data Payload : Type 0 where
  no_payload : Payload
  -- The code of an error.
  failure : Bytes → Payload
  account : User → Payload
  session : Bytes → User → Payload

-- A cookie with no expiry time is deleted (MaxAge -1). All have the path /, HttpOnly and SameSite.
pub record SetCookie : Type 0 where
  pub name : Bytes
  pub value : Bytes
  pub secure : Bool
  pub expires : Option ℕ

pub record Reply : Type 0 where
  pub status : ℕ
  pub payload : Payload
  pub cookies : List SetCookie
  pub retry_after : Option ℕ

-- What the outside gives to a request: the clock for the limiter, and the runs of the service.
pub record Run : Type 0 where
  pub now : ℕ
  pub register : RegisterRun
  pub login : LoginRun
  pub refresh : RefreshRun
  pub logout_at : ℕ
  pub logout : Fate
  pub me_at : ℕ
  pub me_fails : Bool

abbrev pub write_error : ℕ → Bytes → List SetCookie → Reply
write_error status code cookies = record {
  status = status;
  payload = failure code;
  cookies = cookies;
  retry_after = none;
}

abbrev pub write_data : ℕ → Payload → List SetCookie → Reply
write_data status payload cookies = record {
  status = status;
  payload = payload;
  cookies = cookies;
  retry_after = none;
}

abbrev pub remote_ip : Request → Bytes
remote_ip r = elim r.host [ none ↦ [] | some host ↦ host ]

unfoldable pub bearer : Request → Bytes
bearer r = trim_space (trim_prefix r.authorization (bytes "Bearer "))

unfoldable pub cookie_name : HttpHandler → Bytes
cookie_name h = if h.secure_cookies then secure_refresh_cookie_name else refresh_cookie_name

unfoldable pub set_refresh_cookie : HttpHandler → Tokens → List SetCookie
unfolding cookie_name
set_refresh_cookie h tokens =
    record {
      name = cookie_name h;
      value = tokens.refresh_token;
      secure = h.secure_cookies;
      expires = some tokens.refresh_expires_at;
    }
    ∷ []

abbrev pub cleared : HttpHandler → Bytes → SetCookie
cleared h name = record { name = name; value = []; secure = h.secure_cookies; expires = none }

abbrev pub clear_refresh_cookie : HttpHandler → List SetCookie
clear_refresh_cookie h = cleared h refresh_cookie_name ∷ cleared h secure_refresh_cookie_name ∷ []

unfoldable pub is_rate_limited_route : Request → Bool
is_rate_limited_route r =
    bytes_eq r.method (bytes "POST")
    && (bytes_eq r.path (bytes "/api/v1/auth/register")
        || bytes_eq r.path (bytes "/api/v1/auth/login")
        || bytes_eq r.path (bytes "/api/v1/auth/refresh"))

-- The replies to what the service returns.
abbrev pub reply_registered : Tables × Result AuthError User → Tables × Reply
reply_registered (t, ok u) = (t, write_data 201 (account u) [])
reply_registered (t, err email_taken) = (t, write_error 409 (bytes "EMAIL_TAKEN") [])
reply_registered (t, err _) = (t, write_error 400 (bytes "INVALID_REGISTRATION") [])

abbrev pub reply_logged_in :
    HttpHandler → Tables × Result AuthError (User × Tokens) → Tables × Reply
reply_logged_in h (t, ok (u, tokens)) =
    (t, write_data 200 (session tokens.access_token u) (set_refresh_cookie h tokens))
reply_logged_in h (t, err _) = (t, write_error 401 (bytes "INVALID_CREDENTIALS") [])

abbrev pub reply_refreshed :
    HttpHandler → Tables × Result AuthError (User × Tokens) → Tables × Reply
reply_refreshed h (t, ok (u, tokens)) =
    (t, write_data 200 (session tokens.access_token u) (set_refresh_cookie h tokens))
reply_refreshed h (t, err _) = (t, write_error 401 (bytes "UNAUTHORIZED") (clear_refresh_cookie h))

abbrev pub reply_me : Result AuthError User → Reply
reply_me (ok u) = write_data 200 (account u) []
reply_me (err _) = write_error 401 (bytes "UNAUTHORIZED") []

abbrev pub invalid_json : Reply
invalid_json = write_error 400 (bytes "INVALID_JSON") []

abbrev pub handle_register : HttpHandler → Tables → Option Credentials → Run → Tables × Reply
handle_register h t none run = (t, invalid_json)
handle_register h t (some c) run =
    reply_registered (register h.service t c.email c.password run.register)

abbrev pub handle_login : HttpHandler → Tables → Request → Option Credentials → Run → Tables × Reply
handle_login h t r none run = (t, invalid_json)
handle_login h t r (some c) run =
    reply_logged_in h (login h.service t c.email c.password r.user_agent (remote_ip r) run.login)

abbrev pub cookie_value : Option Bytes → Bytes
cookie_value none = []
cookie_value (some value) = value

abbrev pub handle_refresh : HttpHandler → Tables → Request → Run → Tables × Reply
handle_refresh h t r run = reply_refreshed h (
    refresh h.service t (cookie_value (get r.cookies (cookie_name h))) r.user_agent (remote_ip r)
      run.refresh)

-- The tables after the `Logout` of the cookie's value, whose error is dropped.
abbrev pub logout_cookie : HttpHandler → Tables → Option Bytes → Run → Tables
logout_cookie h t none run = t
logout_cookie h t (some value) run = (logout h.service t value run.logout_at run.logout).0

abbrev pub handle_logout : HttpHandler → Tables → Request → Run → Tables × Reply
handle_logout h t r run = (
  logout_cookie h t (get r.cookies (bytes "refresh_token")) run,
  record {
    status = 204;
    payload = no_payload;
    cookies = clear_refresh_cookie h;
    retry_after = none;
  },
)

abbrev pub handle_me : HttpHandler → Tables → Request → Run → Tables × Reply
handle_me h t r run =
    (t, reply_me (user_from_access_token h.service t (bearer r) run.me_at run.me_fails))

-- The switch on the method and the path.
unfoldable pub route : HttpHandler → Tables → Request → Run → Tables × Reply
route h t r run =
    let name = r.method ++ bytes " " ++ r.path in
    if bytes_eq name (bytes "POST /api/v1/auth/register")
    then handle_register h t r.body run
    else if bytes_eq name (bytes "POST /api/v1/auth/login")
    then handle_login h t r r.body run
    else if bytes_eq name (bytes "POST /api/v1/auth/refresh")
    then handle_refresh h t r run
    else if bytes_eq name (bytes "POST /api/v1/auth/logout")
    then handle_logout h t r run
    else if bytes_eq name (bytes "GET /api/v1/auth/me")
    then handle_me h t r run
    else (t, write_error 404 (bytes "NOT_FOUND") [])

-- `max(1, int(retryAfter.Seconds()))`
abbrev pub retry_seconds : ℤ → ℕ
retry_seconds (pos n) = let seconds = n / 1000000000 in if ltb seconds 1 then 1 else seconds
retry_seconds (negsuc n) = 1

-- The answer of the limiter, and the route when it lets the request pass.
abbrev pub limited :
    HttpHandler → Tables → Request → Run → RateLimiter × Bool × ℤ → HttpHandler × Tables × Reply
limited h t r run (limiter, false, retry_after) = (
  record h { limiter = limiter },
  t,
  record (write_error 429 (bytes "RATE_LIMITED") []) {
    retry_after = some (retry_seconds retry_after);
  },
)
limited h t r run (limiter, true, retry_after) =
    let h' : HttpHandler = record h { limiter = limiter } in
    let (after, reply) = route h' t r run in (h', after, reply)

unfoldable pub serve_http : HttpHandler → Tables → Request → Run → HttpHandler × Tables × Reply
unfolding is_rate_limited_route
serve_http h t r run =
    let (after, reply) = route h t r run in
    if is_rate_limited_route r
    then limited h t r run (allow h.limiter (remote_ip r) run.now)
    else (h, after, reply)
