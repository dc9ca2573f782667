-- ===== src/Auth/Jwt/Sample.antt =====
-- Concrete functions in the place of those of crypto/hmac, encoding/base64 and encoding/json.
use my_ngrok.Base.{
  ◌+◌, ◌-◌, [], ◌∷◌, ◌++◌, Option, none, some, Bytes, bytes, length, take, drop, ltb, if◌then◌else◌,
  pos, pos_part, ◌≡◌, refl, arith, ap,
}
use my_ngrok.Strings.Laws.{Lacks}
use my_ngrok.Auth.Jwt.{Claims, Primitives}
use my_ngrok.Auth.Jwt.Signing.{IsBase64, Marshals}

-- The dot, 46, is skipped: a byte from 46 up is written as the next.
unfoldable pub sample_encode : Bytes → Bytes
sample_encode [] = []
sample_encode (b ∷ bs) = (if ltb b 46 then b else b + 1) ∷ sample_encode bs

unfoldable pub sample_decode : Bytes → Bytes
sample_decode [] = []
sample_decode (b ∷ bs) = (if ltb b 46 then b else b - 1) ∷ sample_decode bs

-- The lengths come before the texts.
abbrev sample_marshal : Claims → Bytes
sample_marshal c =
    length c.subject
    ∷ length c.kind
    ∷ pos_part c.issued_at
    ∷ pos_part c.expires_at
    ∷ (c.subject ++ c.kind)

abbrev sample_unmarshal : Bytes → Option Claims
sample_unmarshal (m ∷ n ∷ issued_at ∷ expires_at ∷ texts) = some (record {
  subject = take m texts;
  kind = take n (drop m texts);
  issued_at = pos issued_at;
  expires_at = pos expires_at;
})
sample_unmarshal _ = none

unfoldable pub sample_primitives : Primitives
unfolding sample_encode sample_decode
sample_primitives = record {
  hmac = λ secret text. secret ++ text;
  encode = sample_encode;
  decode = λ text. some (sample_decode text);
  marshal = λ c. some (sample_marshal c);
  unmarshal = sample_unmarshal;
}

sample_inverse : (bs : Bytes) → sample_decode (sample_encode bs) ≡ bs
unfolding sample_encode sample_decode
sample_inverse [] = refl
sample_inverse (b ∷ bs) = ground (arith, sample_inverse bs)

sample_no_dot : (bs : Bytes) → Lacks 46 (sample_encode bs)
unfolding sample_encode
sample_no_dot [] = tt
sample_no_dot (b ∷ bs) = (λ e. ground arith, sample_no_dot bs)

pub sample-IsBase64 : IsBase64 sample_primitives
unfolding sample_primitives
sample-IsBase64 = record { inverse = λ bs. ap some (sample_inverse bs); no_dot = sample_no_dot }

abbrev pub sample_claims : Claims
sample_claims = record {
  subject = bytes "u1";
  kind = bytes "access";
  issued_at = pos 5;
  expires_at = pos 905;
}

pub sample-Marshals : Marshals sample_primitives sample_claims
unfolding sample_primitives
sample-Marshals = record { payload = _; written = refl; read = refl }
