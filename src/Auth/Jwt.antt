-- ===== src/Auth/Jwt.antt =====
-- backend/internal/auth/service.go, signJWT and verifyJWT. The functions of crypto/hmac,
-- encoding/base64 and encoding/json are parameters.
pub mod Signing
pub mod Sample
use my_ngrok.Base.{
  Fate, executed, not_executed, reply_lost, exec, exec-true, Bool, true, false, List, [], ◌∷◌, ◌++◌,
  Option, none, some, Bytes, bytes, bytes_eq, ℤ, if◌then◌else◌, Result, ok, err,
}
use my_ngrok.Strings.{split}

pub data AuthError : Type 0 where
  invalid_credentials : AuthError
  email_taken : AuthError
  unauthorized : AuthError
  -- An error with a text of its own.
  other : AuthError

pub record Claims : Type 0 where
  pub subject : Bytes
  pub kind : Bytes
  pub issued_at : ℤ
  pub expires_at : ℤ

-- HMAC-SHA256 of a secret and a text, base64.RawURLEncoding, and the JSON of the claims.
pub record Primitives : Type 0 where
  pub hmac : Bytes → Bytes → Bytes
  pub encode : Bytes → Bytes
  pub decode : Bytes → Option Bytes
  pub marshal : Claims → Option Bytes
  pub unmarshal : Bytes → Option Claims

-- `a + "." + b`
abbrev pub dotted : Bytes → Bytes → Bytes
dotted a b = a ++ 46 ∷ b

abbrev pub jwt_header : Bytes
jwt_header = bytes "{\"alg\":\"HS256\",\"typ\":\"JWT\"}"

-- The part of `signJWT` that has the payload.
abbrev pub sign_payload : Primitives → Option Bytes → Bytes → Result AuthError Bytes
sign_payload p none secret = err other
sign_payload p (some payload) secret =
    let encoded = dotted (p.encode jwt_header) (p.encode payload) in
    ok (dotted encoded (p.encode (p.hmac secret encoded)))

unfoldable pub sign_jwt : Primitives → Claims → Bytes → Result AuthError Bytes
sign_jwt p c secret = sign_payload p (p.marshal c) secret

-- `json.Unmarshal`
abbrev pub read_claims : Option Claims → Result AuthError Claims
read_claims none = err unauthorized
read_claims (some c) = ok c

-- The part that has accepted the signature.
abbrev pub read_payload : Primitives → Option Bytes → Result AuthError Claims
read_payload p none = err unauthorized
read_payload p (some payload) = read_claims (p.unmarshal payload)

-- The part that has decoded the signature.
abbrev pub check_signature : Primitives → Bytes → Option Bytes → Bytes → Result AuthError Claims
check_signature p mac none payload = err unauthorized
check_signature p mac (some signature) payload =
    if bytes_eq mac signature then read_payload p (p.decode payload) else err unauthorized

abbrev pub verify_parts : Primitives → Bytes → List Bytes → Result AuthError Claims
verify_parts p secret (header ∷ payload ∷ signature ∷ []) =
    check_signature p (p.hmac secret (dotted header payload)) (p.decode signature) payload
verify_parts p secret _ = err unauthorized

unfoldable pub verify_jwt : Primitives → Bytes → Bytes → Result AuthError Claims
verify_jwt p raw secret = verify_parts p secret (split raw 46)
