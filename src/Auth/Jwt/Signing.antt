-- ===== src/Auth/Jwt/Signing.antt =====
-- What signing promises: signed claims verify, and what verifies was signed.
use my_ngrok.Base.{
  List, [], ◌∷◌, ◌++◌, append_assoc, Option, none, some, Bytes, bytes_eq_iff, bytes_eq_refl, ok,
  ◌>>=◌, ◌≡◌, refl, ap, ◌∙◌, arith,
}
use my_ngrok.Strings.{split}
use my_ngrok.Strings.Laws.{Lacks, split-append, split_whole, split-three}
use my_ngrok.Auth.Jwt.{
  Claims, Primitives, dotted, jwt_header, sign_payload, sign_jwt, read_claims, read_payload,
  check_signature, verify_parts, verify_jwt,
}

-- base64.RawURLEncoding decodes what it encodes, and its alphabet has no dot.
pub record IsBase64 (p : Primitives) : Type 0 where
  pub inverse : (bs : Bytes) → p.decode (p.encode bs) ≡ some bs
  pub no_dot : (bs : Bytes) → Lacks 46 (p.encode bs)

-- The JSON of these claims reads back as them.
pub record Marshals (p : Primitives) (c : Claims) : Type 0 where
  pub payload : Bytes
  pub written : p.marshal c ≡ some payload
  pub read : p.unmarshal payload ≡ some c

-- Three parts without a dotted, joined by dots as `signJWT` joins them, split again.
split-joined :
    (h p s : Bytes)
    → Lacks 46 h
    → Lacks 46 p
    → Lacks 46 s
    → split (dotted (dotted h p) s) 46 ≡ h ∷ p ∷ s ∷ []
split-joined h p s hh hp hs =
    ap (λ x. split x 46) (append_assoc h (46 ∷ p) (46 ∷ s))
    ∙ split-append h (p ++ 46 ∷ s) 46 hh
    ∙ ap (◌∷◌ h) (split-append p s 46 hp ∙ ap (◌∷◌ p) (split_whole s 46 hs))

signed :
    (p : Primitives) (c : Claims) (payload secret : Bytes)
    → IsBase64 p
    → p.unmarshal payload ≡ some c
    → (sign_payload p (some payload) secret >>= λ t. verify_jwt p t secret) ≡ ok c
unfolding verify_jwt
signed p c payload secret codec read =
    let encoded = dotted (p.encode jwt_header) (p.encode payload) in
    ap (verify_parts p secret) (
      split-joined (p.encode jwt_header) (p.encode payload) (p.encode (p.hmac secret encoded))
        (codec.no_dot jwt_header) (codec.no_dot payload) (codec.no_dot (p.hmac secret encoded)))
    ∙ rw
        (
          codec.inverse (p.hmac secret encoded),
          bytes_eq_refl (p.hmac secret encoded),
          codec.inverse payload,
          read,
        )
        refl

-- The claims that `signJWT` has signed with a secret are what `verifyJWT` reads with that secret.
pub verify_jwt-sign_jwt :
    (p : Primitives) (c : Claims) (secret : Bytes)
    → IsBase64 p
    → Marshals p c
    → (sign_jwt p c secret >>= λ t. verify_jwt p t secret) ≡ ok c
unfolding sign_jwt
verify_jwt-sign_jwt p c secret codec m = rw m.written (signed p c m.payload secret codec m.read)

-- The parts of a token that verifies: the signature is the code of the first two under the secret.
pub record IsSigned (p : Primitives) (raw secret : Bytes) (c : Claims) : Type 0 where
  pub header : Bytes
  pub payload : Bytes
  pub signature : Bytes
  pub content : Bytes
  pub parts : raw ≡ dotted header (dotted payload signature)
  pub authentic : p.decode signature ≡ some (p.hmac secret (dotted header payload))
  pub decoded : p.decode payload ≡ some content
  pub claims : p.unmarshal content ≡ some c

read_payload_ok :
    (p : Primitives) (content : Option Bytes) (c : Claims)
    → read_payload p content ≡ ok c
    → (bs : Bytes) × (content ≡ some bs) × (p.unmarshal bs ≡ some c)
read_payload_ok p none c h = cc
read_payload_ok p (some bs) c h = (bs, refl, read_ok (p.unmarshal bs) c h)
  where
    read_ok : (o : Option Claims) (c : Claims) → read_claims o ≡ ok c → o ≡ some c
    read_ok none c h = cc
    read_ok (some d) c h = cc

check_signature_ok :
    (p : Primitives) (mac : Bytes) (signature : Option Bytes) (payload : Bytes) (c : Claims)
    → check_signature p mac signature payload ≡ ok c
    → (signature ≡ some mac) × (read_payload p (p.decode payload) ≡ ok c)
check_signature_ok p mac none payload c h = cc
check_signature_ok p mac (some s) payload c h = ground (arith, bytes_eq_iff mac s)

verify_parts_ok :
    (p : Primitives) (raw secret : Bytes) (c : Claims) (parts : List Bytes)
    → split raw 46 ≡ parts
    → verify_parts p secret parts ≡ ok c
    → IsSigned p raw secret c
verify_parts_ok p raw secret c [] e h = cc
verify_parts_ok p raw secret c (x ∷ []) e h = cc
verify_parts_ok p raw secret c (x ∷ y ∷ []) e h = cc
verify_parts_ok p raw secret c (header ∷ payload ∷ signature ∷ []) e h =
    let checked =
      check_signature_ok p (p.hmac secret (dotted header payload)) (p.decode signature) payload c
        h in
    let (content, decoded, claims) = read_payload_ok p (p.decode payload) c checked.1 in
    record {
      header = header;
      payload = payload;
      signature = signature;
      content = content;
      parts = split-three raw header payload signature 46 e;
      authentic = checked.0;
      decoded = decoded;
      claims = claims;
    }
verify_parts_ok p raw secret c (x ∷ y ∷ z ∷ w ∷ more) e h = cc

-- A token that `verifyJWT` accepts is three parts joined by dots: the third decodes to the HMAC of
-- the first two under the secret, and the second to the claims returned.
pub verify_jwt-IsSigned :
    (p : Primitives) (raw secret : Bytes) (c : Claims)
    → verify_jwt p raw secret ≡ ok c
    → IsSigned p raw secret c
unfolding verify_jwt
verify_jwt-IsSigned p raw secret c h = verify_parts_ok p raw secret c (split raw 46) refl h
