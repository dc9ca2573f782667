-- ===== src/Tunnels/PublicHost.antt =====
-- backend/internal/tunnels/public_host.go: the subdomain that the Host header of a request names.
-- net.SplitHostPort is a parameter: the host without its port, or none for an error.
pub mod Parsing
mod Examples
use my_ngrok.Base.{
  ℕ, Bool, true, false, not, ◌&&◌, ◌||◌, List, [], ◌∷◌, Option, none, some, Bytes, bytes, bytes_eq,
  leb, ◌==◌, if◌then◌else◌,
}
use my_ngrok.Strings.{has_suffix, trim_suffix, trim_space, to_lower, contains_byte}

unfoldable pub normalize_host : (Bytes → Option Bytes) → Bytes → Bytes
normalize_host split_host_port host =
    let host = to_lower (trim_suffix (trim_space host) (bytes ".")) in
    elim (split_host_port host) [ some value ↦ value | none ↦ host ]

-- `baseDomain`, trimmed and in lower case
unfoldable pub normalize_base : Bytes → Bytes
normalize_base base_domain = to_lower (trim_suffix (trim_space base_domain) (bytes "."))

-- The characters of a label.
abbrev pub is_label_byte : ℕ → Bool
is_label_byte b = (leb 97 b && leb b 122) || (leb 48 b && leb b 57) || b == 45

abbrev pub is_label : Bytes → Bool
is_label [] = true
is_label (b ∷ bs) = is_label_byte b && is_label bs

-- The checks of the subdomain.
abbrev pub check_subdomain : Bytes → Option Bytes
check_subdomain subdomain =
    if bytes_eq subdomain [] || contains_byte subdomain 46
    then none
    else if is_label subdomain
    then some subdomain
    else none

abbrev pub parse_normalized : Bytes → Bytes → Option Bytes
parse_normalized host base_domain =
    if bytes_eq host [] || bytes_eq base_domain []
    then none
    else if not (has_suffix host (46 ∷ base_domain))
    then none
    else check_subdomain (trim_suffix host (46 ∷ base_domain))

unfoldable pub parse_public_host : (Bytes → Option Bytes) → Bytes → Bytes → Option Bytes
parse_public_host split_host_port host base_domain =
    parse_normalized (normalize_host split_host_port host) (normalize_base base_domain)
