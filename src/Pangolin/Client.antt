-- ===== src/Pangolin/Client.antt =====
-- src/pangolin/client.rs: one poll of pangolin. The HTTP exchange, SHA-256 and the JSON decoder are
-- the argument `Endpoint`; log lines are not modelled.
pub mod Fetch
pub mod Truncate
mod Tests
use pangolin_gateway_api.Prelude.{
  ℕ, zero, suc, ◌+◌, ◌-◌, ◌≡◌, Bool, true, false, not, ◌&&◌, List, [], ◌∷◌, ◌++◌, Option, none,
  some, ◌==◌, ltb, leb, if◌then◌else◌, length, or_value, map_some, is_some, Text, codes,
}
use pangolin_gateway_api.External.{Url}
use pangolin_gateway_api.Config.{Config}
use pangolin_gateway_api.Pangolin.Types.{TraefikDynamicConfig}

pub record ChangedConfig (V : Type 0) : Type 0 where
  pub config : TraefikDynamicConfig V
  pub etag : Option Text
  pub digest : Text
  pub raw_bytes : ℕ

pub data FetchOutcome (V : Type 0) : Type 0 where
  not_modified : FetchOutcome V
  changed : ChangedConfig V → FetchOutcome V

-- Why a poll fails, with what the message holds.
pub data FetchError : Type 0 where
  unreachable : FetchError
  bad_status : ℕ → Text → FetchError
  announced_too_large : ℕ → ℕ → FetchError
  unreadable : FetchError
  too_large : ℕ → ℕ → FetchError
  undecodable : FetchError

pub data FetchResult (V : Type 0) : Type 0 where
  fetched : FetchOutcome V → FetchResult V
  failed : FetchError → FetchResult V
  panicked : FetchResult V

-- The fields of `Client` but for the HTTP client itself.
pub record Client : Type 0 where
  pub endpoint : Url
  pub auth_header : Option Text
  pub max_body_bytes : ℕ
  pub log_body : Bool

-- A response: its status, the ETag header where it is readable text, the announced length, and the
-- body as bytes and as text, where reading it succeeds.
pub record HttpResponse : Type 0 where
  pub status : ℕ
  pub etag : Option Text
  pub content_length : Option ℕ
  pub bytes : Option (List ℕ)
  pub text : Option Text

-- A GET with its headers, answered or not; the digest in hexadecimal; the decoder.
pub record Endpoint (V : Type 0) : Type 0 where
  pub send : Url → List (Text × Text) → Option HttpResponse
  pub sha256_hex : List ℕ → Text
  pub decode : List ℕ → Option (TraefikDynamicConfig V)

-- `char::len_utf8`.
abbrev pub len_utf8 : ℕ → ℕ
len_utf8 c = if ltb c 0x80 then 1 else if ltb c 0x800 then 2 else if ltb c 0x10000 then 3 else 4

-- `str::len`.
abbrev pub byte_length : Text → ℕ
byte_length [] = 0
byte_length (c ∷ s) = len_utf8 c + byte_length s

-- `&s[..idx]`, which is there where `idx` is a boundary of characters.
unfoldable pub slice_to : ℕ → Text → Option Text
slice_to zero s = some []
slice_to (suc idx) [] = none
slice_to (suc idx) (c ∷ s) =
    let rest = slice_to (suc idx - len_utf8 c) s in
    if leb (len_utf8 c) (suc idx) then map_some (◌∷◌ c) rest else none

-- `str::is_char_boundary`.
unfoldable pub is_char_boundary : ℕ → Text → Bool
unfolding slice_to
is_char_boundary idx s = is_some (slice_to idx s)

-- The loop: the last boundary at or before `idx`.
boundary_before : ℕ → Text → ℕ
unfolding is_char_boundary
boundary_before zero s = zero
boundary_before (suc idx) s =
    let earlier = boundary_before idx s in
    if not (is_char_boundary (suc idx) s) then earlier else suc idx

-- None stands for the panic of a slice within a character.
unfoldable pub truncate : Text → ℕ → Option Text
unfolding boundary_before slice_to
truncate s max = if leb (byte_length s) max then some s else slice_to (boundary_before max s) s

-- A header that is sent where it has a value.
abbrev header_of : Text → Option Text → List (Text × Text)
header_of name none = []
header_of name (some value) = (name, value) ∷ []

-- The headers of the request.
unfoldable pub request_headers : Client → Option Text → List (Text × Text)
request_headers client last_etag =
    (codes "accept", codes "application/json")
    ∷ (header_of (codes "authorization") client.auth_header
        ++ header_of (codes "if-none-match") last_etag)

-- `StatusCode::is_success`.
abbrev pub is_success : ℕ → Bool
is_success status = leb 200 status && ltb status 300

-- What a failed status is reported with, on what `truncate` returns.
reported : {V : Type 0} → ℕ → Option Text → FetchResult V
reported status none = panicked
reported status (some text) = failed (bad_status status text)

module _ {V : Type 0} (e : Endpoint V) (client : Client) where
  -- Behind the decoder.
  decoded_body : HttpResponse → List ℕ → Option (TraefikDynamicConfig V) → FetchResult V
  decoded_body resp raw none = failed undecodable
  decoded_body resp raw (some config) = fetched (
      changed (record {
        config = config;
        etag = resp.etag;
        digest = e.sha256_hex raw;
        raw_bytes = length raw;
      }))

  -- Behind the reading of the body.
  read_body : HttpResponse → Option (List ℕ) → FetchResult V
  unfolding decoded_body
  read_body resp none = failed unreadable
  read_body resp (some raw) =
      if ltb client.max_body_bytes (length raw)
      then failed (too_large (length raw) client.max_body_bytes)
      else decoded_body resp raw (e.decode raw)

  -- Behind the test of the status.
  measured : HttpResponse → Option ℕ → FetchResult V
  unfolding read_body
  measured resp none = read_body resp resp.bytes
  measured resp (some len) =
      if ltb client.max_body_bytes len
      then failed (announced_too_large len client.max_body_bytes)
      else read_body resp resp.bytes

  received : Option HttpResponse → FetchResult V
  unfolding measured reported truncate
  received none = failed unreachable
  received (some resp) =
      if resp.status == 304
      then fetched not_modified
      else if not (is_success resp.status)
      then reported resp.status (truncate (or_value resp.text []) 512)
      else measured resp resp.content_length

  unfoldable pub fetch : Option Text → FetchResult V
  unfolding received request_headers
  fetch last_etag = received (e.send client.endpoint (request_headers client last_etag))
