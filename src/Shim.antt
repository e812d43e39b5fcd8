-- ===== src/Shim.antt =====
-- src/shim.rs: the pure helpers of the authorization shim. What other crates do (query strings in
-- crate url, header values in crate http) is the argument `Wire`.
pub mod Paths
pub mod Sessions
pub mod Headers
pub mod Query
pub mod Check
pub mod Settings
mod Sample
mod Tests
use pangolin_gateway_api.Prelude.{
  ℕ, Bool, true, false, not, ◌&&◌, ◌||◌, List, [], ◌∷◌, ◌++◌, Option, none, some, ◌==◌,
  if◌then◌else◌, is_empty, and_then, map, Text, codes, ◌≟◌, trim, trim_end, strip_prefix,
  starts_with, split, split_once, join, to_upper, to_lowercase, or_value, filter_some,
  is_whitespace,
}
use pangolin_gateway_api.BTreeMap.{BTreeMap, text_ord, get, contains_key, insert}

abbrev pub is_slash : ℕ → Bool
is_slash c = c == b'/'

-- Behind the prefix.
strip_rest : Text → Option Text
strip_rest [] = some (b'/' ∷ [])
strip_rest (c ∷ s) =
    if c == b'/' || c == b'?' then some (if c == b'?' then b'/' ∷ c ∷ s else c ∷ s) else none

unfoldable pub strip_path_prefix : Text → Text → Option Text
unfolding strip_rest strip_prefix ◌≟◌
strip_path_prefix prefix path_and_query =
    if is_empty prefix || prefix ≟ codes "/"
    then some path_and_query
    else and_then (strip_prefix (trim_end is_slash prefix) path_and_query) strip_rest

-- One round of the loop of `collect_sessions`, on what `split_once` returns.
collect_pair : Text → Option (Text × Text) → BTreeMap Text Text → BTreeMap Text Text
unfolding trim starts_with insert
collect_pair name_prefix none sessions = sessions
collect_pair name_prefix (some (name, value)) sessions =
    if not (is_empty (trim name)) && starts_with name_prefix (trim name)
    then insert (trim name) (trim value) sessions
    else sessions

collect_pairs : Text → List Text → BTreeMap Text Text → BTreeMap Text Text
unfolding collect_pair split_once
collect_pairs name_prefix [] sessions = sessions
collect_pairs name_prefix (pair ∷ pairs) sessions =
    collect_pairs name_prefix pairs (collect_pair name_prefix (split_once b'=' pair) sessions)

unfoldable pub collect_sessions : Text → Text → BTreeMap Text Text
unfolding collect_pairs split
collect_sessions cookie_header name_prefix = collect_pairs name_prefix (split b';' cookie_header) []

-- `x-forwarded-proto` becomes `X-Forwarded-Proto`.
abbrev pub canonical_segment : Text → Text
canonical_segment [] = []
canonical_segment (c ∷ s) = to_upper c ∷ to_lowercase s

unfoldable pub canonical_header : Text → Text
unfolding split
canonical_header name = join b'-' (map canonical_segment (split b'-' name))

-- The headers of a request in their order, names in lower case, with `to_str` of each value.
abbrev pub HeaderMap : Type 0
HeaderMap = List (Text × Option Text)

-- `entry(k).or_insert_with(v)`.
unfoldable pub insert_first : Text → Text → BTreeMap Text Text → BTreeMap Text Text
unfolding get insert
insert_first k v m = if contains_key k m then m else insert k v m

-- One round of the loop of `collect_headers`.
collect_header : Text → Option Text → BTreeMap Text Text → BTreeMap Text Text
unfolding canonical_header insert_first ◌≟◌
collect_header name none out = out
collect_header name (some v) out =
    if name ≟ codes "cookie" then out else insert_first (canonical_header name) v out

collect_from : HeaderMap → BTreeMap Text Text → BTreeMap Text Text
unfolding collect_header
collect_from [] out = out
collect_from ((name, value) ∷ headers) out = collect_from headers (collect_header name value out)

unfoldable pub collect_headers : HeaderMap → BTreeMap Text Text
unfolding collect_from
collect_headers headers = collect_from headers []

-- `header_str`: the first value of the name, where it is readable.
unfoldable pub header_str : Text → HeaderMap → Option Text
unfolding ◌≟◌
header_str key [] = none
header_str key ((name, value) ∷ headers) =
    let rest = header_str key headers in if name ≟ key then value else rest

-- `form_urlencoded::parse` and a `Serializer` that `append_pair` fills; whether
-- `HeaderValue::from_str` accepts a text.
pub record Wire : Type 0 where
  pub parse_form : Text → List (Text × Text)
  pub serialize_form : List (Text × Text) → Text
  pub is_header_value : Text → Bool

-- The loop of `parse_query`.
insert_pairs : List (Text × Text) → BTreeMap Text Text → BTreeMap Text Text
unfolding insert_first
insert_pairs [] out = out
insert_pairs ((k, v) ∷ pairs) out = insert_pairs pairs (insert_first k v out)

-- The pairs that the loop of `strip_query_param` keeps.
unfoldable pub without_param : Text → List (Text × Text) → List (Text × Text)
unfolding ◌≟◌
without_param param [] = []
without_param param ((k, v) ∷ pairs) =
    let rest = without_param param pairs in if k ≟ param then rest else (k, v) ∷ rest

module _ (w : Wire) where
  unfoldable pub parse_query : Text → BTreeMap Text Text
  unfolding insert_pairs
  parse_query query = insert_pairs (w.parse_form query) []

  -- Behind the loop.
  query_suffix : List (Text × Text) → Text
  query_suffix [] = []
  query_suffix (pair ∷ pairs) = b'?' ∷ w.serialize_form (pair ∷ pairs)

  -- On what `split_once('?')` returns.
  strip_from : Text → Text → Option (Text × Text) → Text
  unfolding without_param query_suffix
  strip_from path_and_query param none = path_and_query
  strip_from path_and_query param (some (path, query)) =
      path ++ query_suffix (without_param param (w.parse_form query))

  unfoldable pub strip_query_param : Text → Text → Text
  unfolding strip_from split_once
  strip_query_param path_and_query param =
      strip_from path_and_query param (split_once b'?' path_and_query)

-- `(path_only, query_str)` of the handler.
unfoldable pub split_query : Text → Text × Text
unfolding split_once
split_query path_and_query = or_value (split_once b'?' path_and_query) (path_and_query, [])
