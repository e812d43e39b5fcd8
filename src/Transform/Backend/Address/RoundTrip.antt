-- ===== src/Transform/Backend/Address/RoundTrip.antt =====
-- backend.rs: reading back the addresses `host:port`.
use pangolin_gateway_api.Prelude.Split.{trim-none}
use pangolin_gateway_api.Prelude.{
  ℕ, ◌≤◌, ◌≡◌, ◌≢◌, refl, Bool, true, false, not, ◌||◌, [], ◌∷◌, ◌++◌, none, some, arith, Text,
  codes, ◌==◌, All, All-append, All-map, is_whitespace, is_digit, trim, strip_prefix, rsplit_once,
  to_decimal, pos,
}
use pangolin_gateway_api.Prelude.Decimal.{parse_unsigned-to_decimal, to_decimal-IsDigit}
use pangolin_gateway_api.Transform.Backend.Address.{
  after_scheme, host_port, checked_entry, parse_l4_address,
}

-- A character of a name or of an IPv4 address: no white space, colon, slash or opening bracket.
abbrev pub is_plain : ℕ → Bool
is_plain c = not (is_whitespace c || c == b':' || c == b'/' || c == b'[')

abbrev pub IsPlain : Text → Type 0
IsPlain = All (λ c. is_plain c ≡ true)

strip_scheme_none :
    (s : Text) → All (λ c. (c == b'/') ≡ false) s → strip_prefix (codes "://") s ≡ none
unfolding strip_prefix
strip_scheme_none [] h = refl
strip_scheme_none (c ∷ []) h = ground arith
strip_scheme_none (c ∷ d ∷ s) (_, (e, h)) = ground arith

after_scheme-none : (s : Text) → All (λ c. (c == b'/') ≡ false) s → after_scheme s ≡ none
unfolding after_scheme
after_scheme-none [] h = refl
after_scheme-none (c ∷ s) (e, h) =
    rw (strip_scheme_none (c ∷ s) (e, h), after_scheme) (after_scheme-none s h)

rsplit_once-none : (sep : ℕ) (s : Text) → All (λ c. (c == sep) ≡ false) s → rsplit_once sep s ≡ none
unfolding rsplit_once
rsplit_once-none sep [] h = refl
rsplit_once-none sep (c ∷ s) (e, h) = rw (rsplit_once-none sep s h, e) refl

rsplit_once_at :
    (sep : ℕ) (s t : Text)
    → All (λ c. (c == sep) ≡ false) t
    → rsplit_once sep (s ++ (sep ∷ t)) ≡ some (s, t)
unfolding rsplit_once
rsplit_once_at sep [] t h =
    let e : (sep == sep) ≡ true = ground arith in rw (rsplit_once-none sep t h, e) refl
rsplit_once_at sep (c ∷ s) t h = rw (rsplit_once_at sep s t h) refl

strip_bracket_none :
    (c : ℕ) (s : Text) → is_plain c ≡ true → strip_prefix (codes "[") (c ∷ s) ≡ none
unfolding strip_prefix
strip_bracket_none c s h = ground arith

host_port_of :
    (host digits : Text)
    → host ≢ []
    → IsPlain host
    → All (λ c. is_digit c ≡ true) digits
    → host_port (host ++ (b':' ∷ digits)) ≡ some (host, some digits)
unfolding host_port
host_port_of [] digits n h k = absurd (n refl)
host_port_of (c ∷ host) digits n (p, h) k =
    rw
      (
        strip_bracket_none c (host ++ (b':' ∷ digits)) p,
        host_port,
        rsplit_once_at b':' (c ∷ host) digits (All-map (λ d e. ground arith) digits k),
      )
      refl

-- An address `host:port` is read back as its host, which has no white space, colon, slash or opening
-- bracket and is not empty, and its port, which is at most 65535.
pub parse_l4_address_of_host_port :
    (host : Text) (port : ℕ)
    → host ≢ []
    → IsPlain host
    → port ≤ 65535
    → parse_l4_address (host ++ (b':' ∷ to_decimal port))
      ≡ some (record { host = host; port = pos port; tls = false })
unfolding parse_l4_address
parse_l4_address_of_host_port host port n h k =
    let digits = to_decimal-IsDigit port in
    let s = host ++ (b':' ∷ to_decimal port) in
    let blank : trim s ≡ s = trim-none s (
      All-append (λ c. is_whitespace c ≡ false) host _ (All-map (λ c e. ground arith) host h)
        (refl, All-map (λ c e. ground arith) (to_decimal port) digits)) in
    let bare : after_scheme s ≡ none = after_scheme-none s (
      All-append (λ c. (c == b'/') ≡ false) host _ (All-map (λ c e. ground arith) host h)
        (refl, All-map (λ c e. ground arith) (to_decimal port) digits)) in
    rw (blank, bare, host_port_of host (to_decimal port) n h digits) (checked host n)
  where
    checked :
        (name : Text)
        → name ≢ []
        → checked_entry name (some (to_decimal port))
          ≡ some (record { host = name; port = pos port; tls = false })
    checked [] ne = absurd (ne refl)
    checked (c ∷ name) ne = unfold checked_entry in rw (parse_unsigned-to_decimal 65535 port k) refl
