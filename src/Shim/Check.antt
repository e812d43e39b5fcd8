-- ===== src/Shim/Check.antt =====
-- src/shim.rs: the check handler, with its two calls of pangolin. What pangolin answers is the
-- argument `Pangolin`; an error is none. Log lines are not modelled.
mod Types
pub mod Closed
pub mod Handoff
pub mod Total
pub mod Rooted
mod Tests
pub use Types.*
use pangolin_gateway_api.Prelude.{
  ℕ, Bool, true, false, not, ◌&&◌, List, [], ◌∷◌, ◌++◌, Option, none, some, ◌==◌, if◌then◌else◌,
  is_empty, and_then, map_some, or_value, filter_some, map, Text, codes, ◌≟◌, trim, trim_end, split,
  split_once, is_whitespace,
}
use pangolin_gateway_api.BTreeMap.{BTreeMap, text_ord, get}
use pangolin_gateway_api.External.{Url}
use pangolin_gateway_api.Shim.{
  is_slash, strip_path_prefix, collect_sessions, HeaderMap, header_str, collect_headers, Wire,
  parse_query, strip_query_param, split_query,
}

unfoldable pub endpoint : Pangolin → Url → Text → Option Url
endpoint p base suffix = p.parse_url (trim_end is_slash base.text ++ (b'/' ∷ suffix))

-- What becomes of a reply.
decoded : {A : Type 0} → A → Reply A → Option A
decoded default unsent = none
decoded default (answered success (some data')) = some data'
decoded default (answered true none) = none
decoded default (answered false none) = some default

-- `split(sep).next()`, which is there for every text.
abbrev pub first_part : List Text → Text
first_part [] = []
first_part (part ∷ parts) = part

module _ (w : Wire) (p : Pangolin) (cfg : ShimConfig) where
  unfoldable pub verify_session : VerifyBody → Option VerifyData
  unfolding endpoint decoded
  verify_session body =
      and_then (endpoint p cfg.pangolin_api_base_url (codes "badger/verify-session"))
        (λ url. decoded default_verify (p.verify url body))

  unfoldable pub exchange_session : Text → Text → Option Text → Option ExchangeData
  unfolding endpoint decoded split
  exchange_session token host request_ip =
      and_then (endpoint p cfg.pangolin_api_base_url (codes "badger/exchange-session")) (λ url.
        decoded default_exchange (
          p.exchange url (record {
            request_token = token;
            host = first_part (split b':' host);
            request_ip = request_ip;
          })))

  abbrev pub full_path : Request → Text
  full_path req = or_value req.path_and_query (codes "/")

  unfoldable pub original_path_q : Request → Text
  unfolding strip_path_prefix
  original_path_q req = or_value (strip_path_prefix cfg.path_prefix (full_path req)) (full_path req)

  unfoldable pub host_of : Request → Text
  unfolding header_str
  host_of req = or_value (header_str (codes "host") req.headers) []

  unfoldable pub scheme_of : Request → Text
  unfolding header_str
  scheme_of req = or_value (header_str (codes "x-forwarded-proto") req.headers) (codes "https")

  unfoldable pub request_ip_of : Request → Option Text
  unfolding header_str split trim
  request_ip_of req =
      filter_some (λ ip. not (is_empty ip))
        (map_some (λ v. trim (first_part (split b',' v)))
          (header_str (codes "x-forwarded-for") req.headers))

  unfoldable pub query_of : Request → BTreeMap Text Text
  unfolding parse_query split_query original_path_q
  query_of req = parse_query w (split_query (original_path_q req)).1

  unfoldable pub verify_body : Request → VerifyBody
  unfolding collect_sessions collect_headers header_str query_of original_path_q scheme_of host_of
      split_query request_ip_of ◌≟◌
  verify_body req = record {
    sessions =
        collect_sessions (or_value (header_str (codes "cookie") req.headers) [])
          cfg.user_session_cookie_name;
    headers = collect_headers req.headers;
    query = query_of req;
    original_request_url = scheme_of req ++ (codes "://" ++ (host_of req ++ original_path_q req));
    scheme = scheme_of req;
    host = host_of req;
    path = (split_query (original_path_q req)).0;
    method = req.method;
    tls = scheme_of req ≟ codes "https";
    request_ip = request_ip_of req;
  }

  -- The address that the handoff redirects to.
  unfoldable pub handoff_location : Request → Text
  unfolding scheme_of host_of strip_query_param original_path_q
  handoff_location req =
      scheme_of req
      ++ (codes "://"
          ++ (host_of req
              ++ strip_query_param w (original_path_q req) cfg.resource_session_request_param))

  -- Behind an exchange that returned a cookie; a builder with a bad header fails in `expect`.
  handoff : Text → Text → Answer
  handoff location cookie =
      if not (w.is_header_value cookie)
      then responds (plain 503 (codes "bad exchange cookie"))
      else if w.is_header_value location
      then responds (record {
        status = 302;
        headers = (codes "location", location) ∷ (codes "set-cookie", cookie) ∷ [];
        body = [];
      })
      else panics

  -- The cookie of an exchange that succeeded.
  abbrev pub granted : ExchangeData → Option Text
  granted data' = if data'.valid then filter_some (λ c. not (is_empty c)) data'.cookie else none

  -- The pairs that become headers.
  user_headers : List (Text × Option Text) → List (Text × Text)
  user_headers [] = []
  user_headers ((name, none) ∷ fields) = user_headers fields
  user_headers ((name, some v) ∷ fields) =
      let rest = user_headers fields in if w.is_header_value v then (name, v) ∷ rest else rest

  user_fields : Option UserData → List (Text × Option Text)
  user_fields none = []
  user_fields (some user) =
      (codes "remote-user-id", user.user_id)
      ∷ (codes "remote-user", user.username)
      ∷ (codes "remote-email", user.email)
      ∷ (codes "remote-name", user.name)
      ∷ (codes "remote-role", user.role)
      ∷ []

  -- Without a redirect.
  grant : VerifyData → Response
  unfolding user_headers user_fields
  grant data' =
      if or_value data'.header_auth_challenged false
      then record {
        status = 401;
        headers = (codes "www-authenticate", codes "Basic realm=\"pangolin\"") ∷ [];
        body = [];
      }
      else if data'.valid
      then record { status = 200; headers = user_headers (user_fields data'.user_data); body = [] }
      else plain 401 (codes "unauthorized")

  redirect : Text → Response
  redirect url =
      if w.is_header_value url
      then record { status = 302; headers = (codes "location", url) ∷ []; body = [] }
      else plain 503 (codes "bad redirect")

  -- The address that pangolin redirects to.
  abbrev pub redirect_of : VerifyData → Option Text
  redirect_of data' = filter_some (λ r. not (is_empty r)) data'.redirect_url

  redirect_or : Option Text → VerifyData → Response
  unfolding grant redirect
  redirect_or none data' = grant data'
  redirect_or (some url) data' = redirect url

  -- What `verify-session` returned.
  verified : Option VerifyData → Response
  unfolding redirect_or
  verified none = plain 503 (codes "auth backend unavailable")
  verified (some data') = redirect_or (redirect_of data') data'

  handoff_or : Text → Option Text → Answer → Answer
  unfolding handoff
  handoff_or location none fallback = fallback
  handoff_or location (some cookie) fallback = handoff location cookie

  -- What `exchange-session` returned; without a cookie, the answer for no token.
  exchanged : Text → Option ExchangeData → Answer → Answer
  unfolding handoff_or
  exchanged location none fallback = responds (plain 503 (codes "auth backend unavailable"))
  exchanged location (some data') fallback = handoff_or location (granted data') fallback

  -- Behind the test of the host.
  check_token : Request → Option Text → Answer
  unfolding exchanged exchange_session verified verify_session verify_body handoff_location host_of
      request_ip_of
  check_token req none = responds (verified (verify_session (verify_body req)))
  check_token req (some token) =
      exchanged (handoff_location req) (exchange_session token (host_of req) (request_ip_of req))
        (responds (verified (verify_session (verify_body req))))

  unfoldable pub check : Request → Answer
  unfolding check_token host_of query_of get
  check req =
      if is_empty (host_of req)
      then responds (plain 400 (codes "missing Host header"))
      else check_token req (get cfg.resource_session_request_param (query_of req))
