-- ===== src/Server/RequestId.antt =====
-- backend/internal/server/request_id.go. `hex` is encoding/hex, and the random bytes are none where
-- crypto/rand fails.
pub mod Safety
use my_ngrok.Base.{
  ℕ, Bool, true, false, not, ◌&&◌, ◌||◌, List, [], ◌∷◌, ◌++◌, Option, none, some, Bytes, bytes,
  length, ltb, leb, ◌==◌, if◌then◌else◌,
}

abbrev pub is_safe_byte : ℕ → Bool
is_safe_byte b =
    (leb 97 b && leb b 122)
    || (leb 65 b && leb b 90)
    || (leb 48 b && leb b 57)
    || b == 45
    || b == 95

abbrev pub is_safe : Bytes → Bool
is_safe [] = true
is_safe (b ∷ bs) = is_safe_byte b && is_safe bs

unfoldable pub valid_request_id : Bytes → Bool
valid_request_id id = if ltb (length id) 8 || ltb 128 (length id) then false else is_safe id

unfoldable pub new_request_id : (Bytes → Bytes) → Option Bytes → Bytes
new_request_id hex none = bytes "req_unavailable"
new_request_id hex (some random) = bytes "req_" ++ hex random

-- The ID that the response carries and the request's context holds, for the header of the request.
unfoldable pub request_id : (Bytes → Bytes) → Bytes → Option Bytes → Bytes
request_id hex header random =
    if not (valid_request_id header) then new_request_id hex random else header
