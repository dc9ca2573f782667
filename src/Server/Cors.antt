-- ===== src/Server/Cors.antt =====
-- backend/internal/server/cors.go: what becomes of a request before the handlers of the API.
pub mod Origins
use my_ngrok.Base.{Bool, true, false, not, List, [], ◌∷◌, Bytes, bytes, bytes_eq, if◌then◌else◌}
use my_ngrok.Strings.{has_prefix}

-- `origin` is the header, empty if it is missing.
pub record Request : Type 0 where
  pub path : Bytes
  pub origin : Bytes
  pub method : Bytes

-- The request goes on as it is; it is forbidden; a preflight is answered 204 for the origin; or the request
-- goes on with the headers that allow the origin.
pub data Decision : Type 0 where
  passed : Decision
  forbidden : Decision
  preflight : Bytes → Decision
  allowed : Bytes → Decision

unfoldable pub is_allowed : List Bytes → Bytes → Bool
is_allowed [] origin = false
is_allowed (a ∷ origins) origin = if bytes_eq a origin then true else is_allowed origins origin

unfoldable pub cors : List Bytes → Request → Decision
cors origins r =
    if not (has_prefix r.path (bytes "/api/"))
    then passed
    else if bytes_eq r.origin []
    then passed
    else if not (is_allowed origins r.origin)
    then forbidden
    else if bytes_eq r.method (bytes "OPTIONS")
    then preflight r.origin
    else allowed r.origin
