-- ===== src/Tunnels/PublicHost/Examples.antt =====
-- Hosts of the base domain `ex.io`.
use my_ngrok.Base.{Bool, true, Option, none, some, Bytes, bytes, bytes_eq, ◌≡◌, ◌↔◌, refl}
use my_ngrok.Strings.{
  has_prefix, drop_prefix, trim_prefix, reversed, has_suffix, trim_suffix, trim_left, trim_space,
  to_lower, contains_byte,
}
use my_ngrok.Tunnels.PublicHost.{normalize_host, normalize_base, parse_public_host}
use my_ngrok.Tunnels.PublicHost.Parsing.{Names, parse_public_host_iff}

-- No host has a port.
abbrev no_port : Bytes → Option Bytes
no_port host = none

-- What net.SplitHostPort gives for the host of the port below, and an error for others.
abbrev known_port : Bytes → Option Bytes
known_port host = if_known (bytes_eq host (bytes "abc.ex.io.:80"))
  where
    if_known : Bool → Option Bytes
    if_known true = some (bytes "abc.ex.io.")
    if_known _ = none

upper_case : parse_public_host no_port (bytes "Abc.Ex.io.") (bytes "ex.io") ≡ some (bytes "abc")
unfolding parse_public_host normalize_host normalize_base has_prefix drop_prefix trim_prefix
    reversed has_suffix trim_suffix trim_left trim_space to_lower contains_byte bytes_eq
upper_case = refl

nested : parse_public_host no_port (bytes "a.b.ex.io") (bytes "ex.io") ≡ none
unfolding parse_public_host normalize_host normalize_base has_prefix drop_prefix trim_prefix
    reversed has_suffix trim_suffix trim_left trim_space to_lower contains_byte bytes_eq
nested = refl

-- The dot before a port is not trimmed.
dot_and_port : parse_public_host known_port (bytes "abc.ex.io.:80") (bytes "ex.io") ≡ none
unfolding parse_public_host normalize_host normalize_base has_prefix drop_prefix trim_prefix
    reversed has_suffix trim_suffix trim_left trim_space to_lower contains_byte bytes_eq
dot_and_port = refl

parse_public_host_iff_example :
    (parse_public_host no_port (bytes "Abc.Ex.io.") (bytes "ex.io") ≡ some (bytes "abc"))
    ↔ Names
        (normalize_host no_port (bytes "Abc.Ex.io."))
        (normalize_base (bytes "ex.io"))
        (bytes "abc")
parse_public_host_iff_example =
    parse_public_host_iff no_port (bytes "Abc.Ex.io.") (bytes "ex.io") (bytes "abc")
