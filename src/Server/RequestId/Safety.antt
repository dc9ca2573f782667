-- ===== src/Server/RequestId/Safety.antt =====
-- The IDs that are logged and sent back.
use my_ngrok.Base.{
  ◌+◌, true, Option, none, some, Bytes, length, ◌≡◌, refl, arith, Bool-cases, inl, inr,
}
use my_ngrok.Server.RequestId.{is_safe, valid_request_id, new_request_id, request_id}

-- What encoding/hex writes for some bytes: two safe characters for each.
pub record IsHex (hex : Bytes → Bytes) (random : Bytes) : Type 0 where
  pub doubled : length (hex random) ≡ length random + length random
  pub safe : is_safe (hex random) ≡ true

-- The drawn bytes, of which there are twelve, are written by encoding/hex.
abbrev pub Drawn : (Bytes → Bytes) → Option Bytes → Type 0
Drawn hex none = Unit
Drawn hex (some random) = (length random ≡ 12) × IsHex hex random

new_request_id_valid :
    (hex : Bytes → Bytes) (random : Option Bytes)
    → Drawn hex random
    → valid_request_id (new_request_id hex random) ≡ true
unfolding valid_request_id new_request_id
new_request_id_valid hex none d = refl
new_request_id_valid hex (some random) d =
    let size : length (hex random) ≡ 24 = omega (arith, d.1.doubled, d.0) in
    ground (arith, size, d.1.safe)

-- Whatever header a client sends, the request ID that is logged and sent back has 8 to 128 letters, digits,
-- hyphens and underscores.
pub request_id_valid :
    (hex : Bytes → Bytes) (header : Bytes) (random : Option Bytes)
    → Drawn hex random
    → valid_request_id (request_id hex header random) ≡ true
unfolding request_id
request_id_valid hex header random d = elim (Bool-cases (valid_request_id header)) [
  | inl good ↦ rw good good
  | inr bad ↦ rw bad (new_request_id_valid hex random d)
]
