-- ===== src/Server/Cors/Origins.antt =====
-- Which origins reach the API.
use my_ngrok.Base.{
  Bool, true, false, not, List, Option, none, some, Bytes, bytes, bytes_eq, if◌then◌else◌, ◌≡◌,
  refl, [],
}
use my_ngrok.Strings.{has_prefix}
use my_ngrok.Server.Cors.{
  Request, Decision, passed, forbidden, preflight, allowed, is_allowed, cors,
}

-- The origin that the response allows, if any.
abbrev pub granted : Decision → Option Bytes
granted passed = none
granted forbidden = none
granted (preflight origin) = some origin
granted (allowed origin) = some origin

-- A response allows an origin only if it is the request's own and configured.
pub granted-cors :
    (origins : List Bytes) (r : Request) (origin : Bytes)
    → granted (cors origins r) ≡ some origin
    → (r.origin ≡ origin) × (is_allowed origins r.origin ≡ true)
unfolding cors
granted-cors origins r origin h =
    cases (has_prefix r.path (bytes "/api/")) (bytes_eq r.origin []) (is_allowed origins r.origin)
      (bytes_eq r.method (bytes "OPTIONS")) h
  where
    cases :
        (api missing known options : Bool)
        → granted (
            if not api
            then passed
            else if missing
            then passed
            else if not known
            then forbidden
            else if options
            then preflight r.origin
            else allowed r.origin)
          ≡ some origin
        → (r.origin ≡ origin) × (known ≡ true)
    cases false missing known options e = cc
    cases true true known options e = cc
    cases true false false options e = cc
    cases true false true true e = (cc, refl)
    cases true false true false e = (cc, refl)

-- A request to the API from an origin that is not configured does not go on.
pub cors_forbids :
    (origins : List Bytes) (r : Request)
    → has_prefix r.path (bytes "/api/") ≡ true
    → bytes_eq r.origin [] ≡ false
    → is_allowed origins r.origin ≡ false
    → cors origins r ≡ forbidden
unfolding cors
cors_forbids origins r api there unknown = rw (api, there, unknown) refl
