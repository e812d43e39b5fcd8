-- ===== src/Transform/Backend/Address.antt =====
-- backend.rs: server URLs and L4 addresses, reduced to host and port.
pub mod RoundTrip
use pangolin_gateway_api.Prelude.{
  or_value, Bool, false, List, [], ◌∷◌, ◌++◌, Option, none, some, Text, codes, ◌==◌, ◌≟◌, trim,
  trim_start, trim_end, split_once, rsplit_once, strip_prefix, parse_unsigned, is_empty,
  if◌then◌else◌, ℤ, pos, map_some, and_then, ℕ,
}
use pangolin_gateway_api.External.{External, Url}
use pangolin_gateway_api.Pangolin.Types.{LoadBalancerServer}

pub record HostPort : Type 0 where
  pub host : Text
  pub port : ℤ
  pub tls : Bool

-- `trim_start_matches('[').trim_end_matches(']')`.
unbracketed : Text → Text
unbracketed h = trim_end (λ c. c == b']') (trim_start (λ c. c == b'[') h)

-- What becomes of a URL that parses: none where it has no host, or no port.
url_entry : Url → Option HostPort
unfolding unbracketed ◌≟◌
url_entry url = and_then url.host_str (λ h.
    map_some (λ p. record { host = unbracketed h; port = pos p; tls = url.scheme ≟ codes "https" })
      url.port_or_known_default)

module _ (x : External) where
  open x use {parse_url}

  unfoldable pub parse_url_servers : List LoadBalancerServer → List HostPort
  unfolding url_entry
  parse_url_servers [] = []
  parse_url_servers (s ∷ servers) =
      let rest = parse_url_servers servers in
      elim (and_then (parse_url s.url) url_entry) [ none ↦ rest | some entry ↦ entry ∷ rest ]

-- `split_once("://")`, without what stands in front of it.
after_scheme : Text → Option Text
unfolding strip_prefix
after_scheme [] = none
after_scheme (c ∷ s) =
    let later = after_scheme s in
    elim (strip_prefix (codes "://") (c ∷ s)) [ some rest ↦ some rest | none ↦ later ]

-- `(host, port_str)` behind an opening bracket, and with no bracket.
host_port : Text → Option (Text × Option Text)
unfolding split_once rsplit_once strip_prefix
host_port s = elim (strip_prefix (codes "[") s) [
  | some rest ↦ map_some (λ r. (r.0, strip_prefix (codes ":") r.1)) (split_once b']' rest)
  | none ↦ elim (rsplit_once b':' s) [ some (h, p) ↦ some (h, some p) | none ↦ some (s, none) ]
]

-- Behind the split: the port, then the host.
checked_entry : Text → Option Text → Option HostPort
unfolding parse_unsigned
checked_entry host port_str = and_then (and_then port_str (parse_unsigned 65535)) (λ port.
    if is_empty host then none else some (record { host = host; port = pos port; tls = false }))

unfoldable pub parse_l4_address : Text → Option HostPort
unfolding trim after_scheme host_port checked_entry
parse_l4_address address =
    let trimmed = trim address in
    and_then (host_port (or_value (after_scheme trimmed) trimmed)) (λ r. checked_entry r.0 r.1)
