-- ===== src/External.antt =====
-- What the program takes from elsewhere, as one record: JSON values (crate serde_json), URLs (crate
-- url), IP addresses and the hash behind `DefaultHasher` (the standard library, which leaves the
-- latter's algorithm open). The definitions that use it take it as an argument.
use pangolin_gateway_api.Prelude.{ℕ, Bool, List, Option, Text}

-- What the program reads of a parsed URL, `text` with `as_str`; the port is a `u16`.
pub record Url : Type 0 where
  pub text : Text
  pub scheme : Text
  pub host_str : Option Text
  pub port_or_known_default : Option ℕ

pub record External : Type 1 where
  -- serde_json's `Value`, with its views; an object's entries come in its order of iteration.
  pub Value : Type 0
  pub as_object : Value → Option (List (Text × Value))
  pub as_array : Value → Option (List Value)
  pub as_str : Value → Option Text
  pub as_bool : Value → Option Bool
  -- `Url::parse`.
  pub parse_url : Text → Option Url
  -- `IpAddr`, with `str::parse` and `to_string`.
  pub IpAddr : Type 0
  pub parse_ip : Text → Option IpAddr
  pub show_ip : IpAddr → Text
  -- `DefaultHasher` over a text.
  pub hash : Text → ℕ
