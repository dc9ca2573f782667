-- ===== src/Auth/Http/Examples.antt =====
-- Requests of one browser to the handler.
use my_ngrok.Base.{
  executed, ℕ, ◌≤◌, Bool, true, false, List, [], ◌∷◌, none, some, Bytes, bytes, bytes_eq, err, ◌≡◌,
  refl, arith,
}
use my_ngrok.Map.{get}
use my_ngrok.RateLimiter.{auth_rate_limiter, new_rate_limiter}
use my_ngrok.RateLimiter.Windows.{Inv}
use my_ngrok.Auth.Jwt.{unauthorized}
use my_ngrok.Auth.Jwt.Sample.{sample_primitives, sample_encode}
use my_ngrok.Auth.Tables.{has_hash}
use my_ngrok.Auth.Tables.History.{here}
use my_ngrok.Auth.Service.{hash_token, refresh}
use my_ngrok.Auth.Service.Sample.{
  service, password, address, token, tables, refresh_run, login_run, register_run,
}
use my_ngrok.Auth.Http.{
  HttpHandler, Request, Run, Credentials, new_http_handler, cookie_name, serve_http,
}
use my_ngrok.Auth.Http.Logout.{IsLogout, logged_out, serve_http-secure_logout, serve_http-logout}
use my_ngrok.Auth.Http.Budget.{attempts, attempts-le}

abbrev credentials : Credentials
credentials = record { email = address; password = password }

abbrev request : Bytes → HttpHandler → Request
request path h = record {
  method = bytes "POST";
  path = path;
  host = some (bytes "10.0.0.1");
  body = some credentials;
  cookies = (cookie_name h, token) ∷ [];
  user_agent = [];
  authorization = [];
}

abbrev run : ℕ → Run
run now = record {
  now = now;
  register = register_run;
  login = login_run 1;
  refresh = refresh_run 1;
  logout_at = now;
  logout = executed;
  me_at = now;
  me_fails = false;
}

abbrev handler : Bool → HttpHandler
handler secure = new_http_handler service secure

abbrev logout_request : Bool → Request
logout_request secure = request (bytes "/api/v1/auth/logout") (handler secure)

is_logout : (secure : Bool) → IsLogout (logout_request secure)
is_logout secure = record { post = refl; at = refl }

is_secure : (handler true).secure_cookies ≡ true
unfolding new_http_handler
is_secure = refl

serve_http-secure_logout_example :
    serve_http (handler true) tables (logout_request true) (run 5)
    ≡ (handler true, tables, logged_out (handler true))
serve_http-secure_logout_example =
    serve_http-secure_logout (handler true) tables (logout_request true) (run 5) token is_secure
      (is_logout true) refl

is_plain : (handler false).secure_cookies ≡ false
unfolding new_http_handler
is_plain = refl

stored : has_hash tables.refresh_tokens (hash_token (handler false).service token) ≡ true
unfolding new_http_handler has_hash hash_token sample_primitives sample_encode bytes_eq
stored = refl

serve_http-logout_example :
    refresh
      (handler false).service
      (serve_http (handler false) tables (logout_request false) (run 5)).1
      token
      []
      []
      (refresh_run 1)
    ≡ ((serve_http (handler false) tables (logout_request false) (run 5)).1, err unauthorized)
serve_http-logout_example =
    serve_http-logout (handler false) tables
      (serve_http (handler false) tables (logout_request false) (run 5)).1 (logout_request false)
      (run 5) token is_plain (is_logout false) refl stored refl here [] [] (refresh_run 1)

abbrev login_request : Request
login_request = request (bytes "/api/v1/auth/login") (handler false)

limiter-Inv : Inv (handler false).limiter
unfolding new_http_handler auth_rate_limiter new_rate_limiter get
limiter-Inv = record { distinct = tt; begun = λ k e h. cc }

limiter_limit : (handler false).limiter.limit ≡ auth_rate_limiter.limit
unfolding new_http_handler
limiter_limit = refl

limiter_window : (handler false).limiter.window ≡ auth_rate_limiter.window
unfolding new_http_handler
limiter_window = refl

abbrev logins : List (Request × Run)
logins = (login_request, run 7) ∷ (login_request, run 8) ∷ (login_request, run 9) ∷ []

attempts-le_example :
    (attempts (handler false) tables (bytes "10.0.0.1") logins ≤ 20)
    × (get (handler false).limiter.entries (bytes "10.0.0.1") ≡ none
        → attempts (handler false) tables (bytes "10.0.0.1") logins ≤ 10)
attempts-le_example =
    attempts-le (handler false) tables (bytes "10.0.0.1") 5 logins limiter-Inv limiter_limit
      limiter_window
      (
        (omega arith, omega arith, omega arith),
        ((omega arith, omega arith, omega arith), ((omega arith, omega arith, omega arith), tt)),
      )
