-- ===== src/Tunnels/Subdomain.antt =====
-- backend/internal/tunnels/subdomain.go: a random label. The bytes that crypto/rand yields are an
-- argument; `none` is a read that fails.
pub mod Labels
mod Examples
use my_ngrok.Base.{
  ℕ, zero, suc, ◌-◌, ◌%◌, List, [], ◌∷◌, Option, none, some, Bytes, bytes, length, get_or, ltb,
  if◌then◌else◌,
}

abbrev pub subdomain_length : ℕ
subdomain_length = 10

abbrev pub alphabet : Bytes
alphabet = bytes "abcdefghijklmnopqrstuvwxyz0123456789"

-- `byte(256 - (256 % len(alphabet)))`
abbrev pub limit : ℕ
limit = 256 - 256 % length alphabet

-- A label, an error of the source, or a source that has yielded no more bytes.
pub data Generated : Type 0 where
  label : Bytes → Generated
  failed unfinished : Generated

prepend : ℕ → Generated → Generated
prepend b (label bs) = label (b ∷ bs)
prepend b failed = failed
prepend b unfinished = unfinished

-- The two loops: letters still to be found, and the bytes to come. A byte from `limit` on is passed
-- over.
generate_from : ℕ → List (Option ℕ) → Generated
unfolding prepend
generate_from zero source = label []
generate_from (suc n) [] = unfinished
generate_from (suc n) (none ∷ source) = failed
generate_from (suc n) (some b ∷ source) =
    let found = prepend (get_or alphabet (b % length alphabet) 0) (generate_from n source) in
    let again = generate_from (suc n) source in if ltb b limit then found else again

unfoldable pub generate_subdomain : List (Option ℕ) → Generated
unfolding generate_from
generate_subdomain source = generate_from subdomain_length source
