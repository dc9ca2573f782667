-- ===== src/Tunnels/PublicHost/Parsing.antt =====
-- Which hosts name a subdomain.
use my_ngrok.Base.{
  Bool, true, false, not, ◌||◌, [], ◌∷◌, ◌++◌, Option, none, some, Bytes, bytes_eq, if◌then◌else◌,
  ◌≡◌, ◌↔◌, refl, ap, subst, ◌∙◌, arith,
}
use my_ngrok.Strings.{has_suffix, trim_suffix, contains_byte}
use my_ngrok.Strings.Suffixes.{has_suffix-append, trim_suffix-append, has_suffix_lem}
use my_ngrok.Tunnels.PublicHost.{
  normalize_host, normalize_base, is_label, check_subdomain, parse_normalized, parse_public_host,
}

-- The normalized host is the subdomain, a dot and the normalized base domain; neither is empty, and the
-- subdomain consists of lower-case letters, digits and hyphens.
pub record Names (host base_domain subdomain : Bytes) : Type 0 where
  pub parts : host ≡ subdomain ++ 46 ∷ base_domain
  pub base : bytes_eq base_domain [] ≡ false
  pub some_label : bytes_eq subdomain [] ≡ false
  pub label : is_label subdomain ≡ true

label_no_dot : (bs : Bytes) → is_label bs ≡ true → contains_byte bs 46 ≡ false
unfolding contains_byte
label_no_dot [] h = refl
label_no_dot (b ∷ bs) h = ground (arith, label_no_dot bs)

check_some :
    (s t : Bytes)
    → check_subdomain s ≡ some t
    → (s ≡ t) × (bytes_eq s [] ≡ false) × (is_label s ≡ true)
check_some s t h = ground arith

not_empty : (subdomain base_domain : Bytes) → bytes_eq (subdomain ++ 46 ∷ base_domain) [] ≡ false
unfolding bytes_eq
not_empty [] base_domain = refl
not_empty (b ∷ bs) base_domain = refl

parse_normalized_sound :
    (host base_domain subdomain : Bytes)
    → parse_normalized host base_domain ≡ some subdomain
    → Names host base_domain subdomain
parse_normalized_sound host base_domain subdomain h =
    let (base, ends, checked) =
      passed (bytes_eq host []) (bytes_eq base_domain []) (has_suffix host (46 ∷ base_domain))
        (check_subdomain (trim_suffix host (46 ∷ base_domain))) h in
    let (same, some_label, label) =
      check_some (trim_suffix host (46 ∷ base_domain)) subdomain checked in
    record {
      parts = has_suffix_lem host (46 ∷ base_domain) ends ∙ ap (λ x. x ++ 46 ∷ base_domain) same;
      base = base;
      some_label = subst (λ x. bytes_eq x [] ≡ false) same some_label;
      label = subst (λ x. is_label x ≡ true) same label;
    }
  where
    passed :
        (a b c : Bool) (x : Option Bytes)
        → (if a || b then none else if not c then none else x) ≡ some subdomain
        → (b ≡ false) × (c ≡ true) × (x ≡ some subdomain)
    passed true b c x e = cc
    passed false true c x e = cc
    passed false false true x e = (refl, refl, e)
    passed false false false x e = cc

parse_normalized_complete :
    (host base_domain subdomain : Bytes)
    → Names host base_domain subdomain
    → parse_normalized host base_domain ≡ some subdomain
parse_normalized_complete host base_domain subdomain n =
    ap (λ x. parse_normalized x base_domain) n.parts
    ∙ rw
        (
          not_empty subdomain base_domain,
          n.base,
          has_suffix-append subdomain (46 ∷ base_domain),
          trim_suffix-append subdomain (46 ∷ base_domain),
          n.some_label,
          label_no_dot subdomain n.label,
          n.label,
        )
        refl

-- `ParsePublicHost` gives a subdomain exactly when the host, trimmed, in lower case and without its port,
-- is that subdomain, a dot and the trimmed base domain in lower case, neither is empty, and the subdomain
-- consists of lower-case letters, digits and hyphens.
pub parse_public_host_iff :
    (split_host_port : Bytes → Option Bytes) (host base_domain subdomain : Bytes)
    → (parse_public_host split_host_port host base_domain ≡ some subdomain)
      ↔ Names (normalize_host split_host_port host) (normalize_base base_domain) subdomain
unfolding parse_public_host
parse_public_host_iff split_host_port host base_domain subdomain = (
  parse_normalized_sound (normalize_host split_host_port host) (normalize_base base_domain)
      subdomain,
  parse_normalized_complete (normalize_host split_host_port host) (normalize_base base_domain)
      subdomain,
)
