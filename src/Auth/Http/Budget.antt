-- ===== src/Auth/Http/Budget.antt =====
-- How many attempts an address gets.
use my_ngrok.Base.{
  ℕ, suc, ◌+◌, ◌≤◌, ◌<◌, Bool, true, false, not, ◌&&◌, ◌||◌, List, [], ◌∷◌, ◌++◌, Option, none,
  some, Bytes, bytes, bytes_eq, ◌==◌, if◌then◌else◌, if_cases, Result, ok, err, ℤ, ◌≡◌, refl, arith,
  All, inl, inr, Bool-cases,
}
use my_ngrok.Map.{get}
use my_ngrok.RateLimiter.{RateLimiter, allow, minute, auth_rate_limiter, new_rate_limiter}
use my_ngrok.RateLimiter.Windows.{Inv}
use my_ngrok.RateLimiter.Budget.{admitted, admitted-le, Within}
use my_ngrok.Auth.Jwt.{AuthError, invalid_credentials, email_taken, unauthorized, other}
use my_ngrok.Auth.Tables.{User, Tables}
use my_ngrok.Auth.Service.{Tokens, register, login, refresh, user_from_access_token}
use my_ngrok.Auth.Http.{
  HttpHandler, Request, Reply, Run, Credentials, handle_register, handle_login, handle_refresh,
  handle_logout, handle_me, remote_ip, route, limited, serve_http, is_rate_limited_route,
  reply_registered, reply_logged_in, reply_refreshed, reply_me, write_error, cookie_value,
  cookie_name, bearer,
}

-- What the program means to limit: a POST to one of three paths.
abbrev attempt_paths : List Bytes
attempt_paths =
    bytes "/api/v1/auth/login" ∷ bytes "/api/v1/auth/refresh" ∷ bytes "/api/v1/auth/register" ∷ []

one_of : Bytes → List Bytes → Bool
one_of path [] = false
one_of path (p ∷ paths) = bytes_eq path p || one_of path paths

unfoldable pub is_attempt : Request → Bool
unfolding one_of
is_attempt r = one_of r.path attempt_paths && bytes_eq r.method (bytes "POST")

-- The limiter guards all of them, and nothing else.
is_attempt_lem : (r : Request) → is_attempt r ≡ is_rate_limited_route r
unfolding is_attempt is_rate_limited_route one_of
is_attempt_lem r =
    same (bytes_eq r.method (bytes "POST")) (bytes_eq r.path (bytes "/api/v1/auth/login"))
      (bytes_eq r.path (bytes "/api/v1/auth/refresh"))
      (bytes_eq r.path (bytes "/api/v1/auth/register"))
  where
    same : (m l f r : Bool) → ((l || (f || (r || false))) && m) ≡ (m && (r || l || f))
    same m l f r = ground arith

-- The attempts of a history from the address that are not answered 429.
unfoldable pub attempts : HttpHandler → Tables → Bytes → List (Request × Run) → ℕ
attempts h t ip [] = 0
attempts h t ip ((r, run) ∷ rest) =
    let (h', t', reply) = serve_http h t r run in
    let more = attempts h' t' ip rest in
    if is_attempt r && bytes_eq (remote_ip r) ip && not (reply.status == 429)
    then suc more
    else more

-- The calls of the limiter that such a history makes.
unfoldable pub limiter_calls : List (Request × Run) → List (Bytes × ℕ)
limiter_calls [] = []
limiter_calls ((r, run) ∷ rest) =
    let more = limiter_calls rest in
    if is_rate_limited_route r then (remote_ip r, run.now) ∷ more else more

-- No route answers 429.
Unlimited : Tables × Reply → Type 0
Unlimited x = (x.1.status == 429) ≡ false

either :
    (b : Bool) (x y : Tables × Reply) → Unlimited x → Unlimited y → Unlimited (if b then x else y)
either true x y hx hy = hx
either false x y hx hy = hy

registered-Unlimited : (x : Tables × Result AuthError User) → Unlimited (reply_registered x)
unfolding Unlimited
registered-Unlimited (t, ok u) = refl
registered-Unlimited (t, err email_taken) = refl
registered-Unlimited (t, err invalid_credentials) = refl
registered-Unlimited (t, err unauthorized) = refl
registered-Unlimited (t, err other) = refl

logged_in-Unlimited :
    (h : HttpHandler) (x : Tables × Result AuthError (User × Tokens))
    → Unlimited (reply_logged_in h x)
unfolding Unlimited
logged_in-Unlimited h (t, ok (u, tokens)) = refl
logged_in-Unlimited h (t, err e) = refl

refreshed-Unlimited :
    (h : HttpHandler) (x : Tables × Result AuthError (User × Tokens))
    → Unlimited (reply_refreshed h x)
unfolding Unlimited
refreshed-Unlimited h (t, ok (u, tokens)) = refl
refreshed-Unlimited h (t, err e) = refl

me-Unlimited : (t : Tables) (x : Result AuthError User) → Unlimited (t, reply_me x)
unfolding Unlimited
me-Unlimited t (ok u) = refl
me-Unlimited t (err e) = refl

module _ (h : HttpHandler) (t : Tables) (r : Request) (run : Run) where
  register-Unlimited : (o : Option Credentials) → Unlimited (handle_register h t o run)
  unfolding Unlimited
  register-Unlimited none = refl
  register-Unlimited (some c) =
      registered-Unlimited (register h.service t c.email c.password run.register)

  login-Unlimited : (o : Option Credentials) → Unlimited (handle_login h t r o run)
  unfolding Unlimited
  login-Unlimited none = refl
  login-Unlimited (some c) =
      logged_in-Unlimited h
        (login h.service t c.email c.password r.user_agent (remote_ip r) run.login)

  refresh-Unlimited : Unlimited (handle_refresh h t r run)
  refresh-Unlimited = refreshed-Unlimited h (
      refresh h.service t (cookie_value (get r.cookies (cookie_name h))) r.user_agent (remote_ip r)
        run.refresh)

  me_route-Unlimited : Unlimited (handle_me h t r run)
  me_route-Unlimited =
      me-Unlimited t (user_from_access_token h.service t (bearer r) run.me_at run.me_fails)

  logout-Unlimited : Unlimited (handle_logout h t r run)
  unfolding Unlimited
  logout-Unlimited = refl

  not_found-Unlimited : Unlimited (t, write_error 404 (bytes "NOT_FOUND") [])
  unfolding Unlimited
  not_found-Unlimited = refl

  route-Unlimited : Unlimited (route h t r run)
  unfolding route
  route-Unlimited =
      let name = r.method ++ bytes " " ++ r.path in
      either (bytes_eq name (bytes "POST /api/v1/auth/register")) _ _ (register-Unlimited r.body) (
        either (bytes_eq name (bytes "POST /api/v1/auth/login")) _ _ (login-Unlimited r.body) (
          either (bytes_eq name (bytes "POST /api/v1/auth/refresh")) _ _ refresh-Unlimited (
            either (bytes_eq name (bytes "POST /api/v1/auth/logout")) _ _ logout-Unlimited (
              either (bytes_eq name (bytes "GET /api/v1/auth/me")) _ _ me_route-Unlimited
                not_found-Unlimited))))

-- What a request that is limited does to the limiter, and whether it is answered 429.
limited_lem :
    (h : HttpHandler) (t : Tables) (r : Request) (run : Run) (d : RateLimiter × Bool × ℤ)
    → ((limited h t r run d).0.limiter ≡ d.0) × (((limited h t r run d).2.status == 429) ≡ not d.1)
unfolding Unlimited
limited_lem h t r run (limiter, false, retry_after) = (refl, refl)
limited_lem h t r run (limiter, true, retry_after) =
    (refl, route-Unlimited (record h { limiter = limiter }) t r run)

counted_once :
    (own admits : Bool) (n : ℕ)
    → (if own && not (not admits) then suc n else n) ≡ (if own && admits then 1 else 0) + n
counted_once true true n = omega arith
counted_once true false n = omega arith
counted_once false admits n = omega arith

-- The attempts of an address are what the limiter admits of its key.
attempts-admitted :
    (reqs : List (Request × Run)) (h : HttpHandler) (t : Tables) (ip : Bytes)
    → attempts h t ip reqs ≡ admitted h.limiter ip (limiter_calls reqs)
unfolding attempts limiter_calls admitted serve_http
attempts-admitted [] h t ip = refl
attempts-admitted ((r, run) ∷ rest) h t ip =
    rw (is_attempt_lem r) (elim (Bool-cases (is_rate_limited_route r)) [
      | inl guarded ↦
          let d = allow h.limiter (remote_ip r) run.now in
          let (limiter, status) = limited_lem h t r run d in
          let more = attempts-admitted rest (limited h t r run d).0 (limited h t r run d).1 ip in
          rw guarded (
            rw (status, more, limiter)
              (counted_once (bytes_eq (remote_ip r) ip) d.1 (admitted d.0 ip (limiter_calls rest))))
      | inr free ↦ rw free (attempts-admitted rest h (route h t r run).0 ip)
    ])

-- The requests lie in a stretch of time from `a` of less than a minute.
abbrev pub WithinMinute : ℕ → List (Request × Run) → Type 0
WithinMinute a = All (λ x. (0 < x.1.now) × (a ≤ x.1.now) × (x.1.now < a + minute))

limiter_calls-Within :
    (a : ℕ) (reqs : List (Request × Run))
    → WithinMinute a reqs
    → Within a minute (limiter_calls reqs)
unfolding limiter_calls
limiter_calls-Within a [] w = tt
limiter_calls-Within a ((r, run) ∷ rest) w =
    if_cases (Within a minute) (is_rate_limited_route r)
      ((remote_ip r, run.now) ∷ limiter_calls rest) (limiter_calls rest)
      (λ _. (w.0, limiter_calls-Within a rest w.1)) (λ _. limiter_calls-Within a rest w.1)

-- However a handler is used by all addresses together, whatever the tables, and whatever becomes of
-- the statements: of the POST requests that one address makes to /api/v1/auth/register, /login and
-- /refresh in a stretch of time of less than a minute, at most twenty together are answered otherwise
-- than with 429, and at most ten if the limiter has no entry for the address yet.
pub attempts-le :
    (h : HttpHandler) (t : Tables) (ip : Bytes) (a : ℕ) (reqs : List (Request × Run))
    → Inv h.limiter
    → h.limiter.limit ≡ auth_rate_limiter.limit
    → h.limiter.window ≡ auth_rate_limiter.window
    → WithinMinute a reqs
    → (attempts h t ip reqs ≤ 20) × (get h.limiter.entries ip ≡ none → attempts h t ip reqs ≤ 10)
unfolding auth_rate_limiter new_rate_limiter
attempts-le h t ip a reqs v limit window w =
    let (twice, fresh) =
      admitted-le h.limiter ip a (limiter_calls reqs) v (rw limit (omega arith))
        (rw window (limiter_calls-Within a reqs w)) in
    rw (attempts-admitted reqs h t ip)
      (omega (arith, twice, limit), λ none_yet. omega (arith, fresh none_yet, limit))
