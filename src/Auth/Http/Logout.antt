-- ===== src/Auth/Http/Logout.antt =====
-- What logging out does.
use my_ngrok.Base.{
  Fate, executed, ℕ, true, false, none, some, [], ◌∷◌, Bytes, bytes, bytes_eq, if◌then◌else◌, err,
  ◌≡◌, refl, ◌∙◌, ap, subst, arith,
}
use my_ngrok.Map.{get}
use my_ngrok.Auth.Jwt.{unauthorized}
use my_ngrok.Auth.Tables.{Tables, has_hash}
use my_ngrok.Auth.Tables.History.{Reach}
use my_ngrok.Auth.Service.{Service, RefreshRun, hash_token, logout, refresh}
use my_ngrok.Auth.Service.Rotation.{logout-refresh}
use my_ngrok.Auth.Http.{
  HttpHandler, Request, Reply, Run, no_payload, clear_refresh_cookie, cookie_name, handle_logout,
  route, serve_http, is_rate_limited_route, logout_cookie, refresh_cookie_name,
}

abbrev pub logged_out : HttpHandler → Reply
logged_out h = record {
  status = 204;
  payload = no_payload;
  cookies = clear_refresh_cookie h;
  retry_after = none;
}

-- A request that logs out, whatever its cookies.
pub record IsLogout (r : Request) : Type 0 where
  pub post : r.method ≡ bytes "POST"
  pub at : r.path ≡ bytes "/api/v1/auth/logout"

-- Such a request is not limited, and goes to `logout`.
serve-logout :
    (h : HttpHandler) (t : Tables) (r : Request) (run : Run)
    → IsLogout r
    → serve_http h t r run ≡ (h, (handle_logout h t r run).0, logged_out h)
unfolding serve_http route is_rate_limited_route bytes_eq
serve-logout h t r run l = rw (l.post, l.at) refl

-- The cookie of the request that a logout or a refresh reads.
only_cookie :
    (h : HttpHandler) (name raw : Bytes)
    → get ((cookie_name h, raw) ∷ []) name
      ≡ (if bytes_eq (cookie_name h) name then some raw else none)
unfolding get
only_cookie h name raw = refl

secure_name :
    (h : HttpHandler)
    → h.secure_cookies ≡ true
    → (raw : Bytes)
    → (if bytes_eq (cookie_name h) refresh_cookie_name then some raw else none) ≡ none
unfolding cookie_name bytes_eq
secure_name h secure raw = rw secure refl

plain_name :
    (h : HttpHandler)
    → h.secure_cookies ≡ false
    → (raw : Bytes)
    → (if bytes_eq (cookie_name h) refresh_cookie_name then some raw else none) ≡ some raw
unfolding cookie_name bytes_eq
plain_name h plain raw = rw plain refl

logout_executed :
    (s : Service) (t : Tables) (raw : Bytes) (now : ℕ) (update : Fate)
    → update ≡ executed
    → logout s t raw now update ≡ ((logout s t raw now update).0, true)
unfolding logout
logout_executed s t raw now update fate = rw fate (ground arith)

-- With secure cookies, a browser that has the cookie which the handler sets for a session, and no
-- other, is told that it is logged out, but the handler and the tables stay as they were.
pub serve_http-secure_logout :
    (h : HttpHandler) (t : Tables) (r : Request) (run : Run) (raw : Bytes)
    → h.secure_cookies ≡ true
    → IsLogout r
    → r.cookies ≡ (cookie_name h, raw) ∷ []
    → serve_http h t r run ≡ (h, t, logged_out h)
serve_http-secure_logout h t r run raw secure l cookies =
    serve-logout h t r run l
    ∙ ap (λ o. (h, logout_cookie h t o run, logged_out h))
        (ap (λ m. get m refresh_cookie_name) cookies ∙ unread)
  where
    unread : get ((cookie_name h, raw) ∷ []) refresh_cookie_name ≡ none
    unread = only_cookie h refresh_cookie_name raw ∙ secure_name h secure raw

-- Without secure cookies, a browser that has the cookie which the handler sets for a session logs out:
-- if the token is stored and the UPDATE is executed, a refresh of the token is unauthorized after any
-- later statements of any requests.
pub serve_http-logout :
    (h : HttpHandler) (t later : Tables) (r : Request) (run : Run) (raw : Bytes)
    → h.secure_cookies ≡ false
    → IsLogout r
    → r.cookies ≡ (cookie_name h, raw) ∷ []
    → has_hash t.refresh_tokens (hash_token h.service raw) ≡ true
    → run.logout ≡ executed
    → Reach (serve_http h t r run).1 later
    → (user_agent ip : Bytes) (next : RefreshRun)
    → refresh h.service later raw user_agent ip next ≡ (later, err unauthorized)
serve_http-logout h t later r run raw plain l cookies stored fate history user_agent ip next =
    logout-refresh h.service t (logout h.service t raw run.logout_at run.logout).0 later raw
      user_agent ip run.logout_at run.logout next stored
      (logout_executed h.service t raw run.logout_at run.logout fate)
      (subst (λ x. Reach x later) served history)
  where
    read : get r.cookies refresh_cookie_name ≡ some raw
    read =
        ap (λ m. get m refresh_cookie_name) cookies
        ∙ only_cookie h refresh_cookie_name raw
        ∙ plain_name h plain raw

    served : (serve_http h t r run).1 ≡ (logout h.service t raw run.logout_at run.logout).0
    served = ap (λ x. x.1) (serve-logout h t r run l) ∙ ap (λ o. logout_cookie h t o run) read
