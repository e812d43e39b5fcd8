-- ===== src/Pangolin/Client/Tests.antt =====
-- client.rs: the theorems at concrete responses.
use pangolin_gateway_api.Prelude.{◌≡◌, refl, false, none, some, Text, codes}
use pangolin_gateway_api.Sample.{Json, settings, dynamic_config}
use pangolin_gateway_api.Pangolin.Client.{
  ChangedConfig, changed, fetched, failed, bad_status, too_large, Client, HttpResponse, Endpoint,
  truncate, fetch,
}
use pangolin_gateway_api.Pangolin.Client.Truncate.{IsTruncated, truncate-IsTruncated}
use pangolin_gateway_api.Pangolin.Client.Fetch.{IsReceived, fetch-IsReceived}

-- An umlaut has two bytes.
cuts_between_characters : truncate (codes "aäb") 2 ≡ some (codes "a")
unfolding truncate
cuts_between_characters = refl

truncate-IsTruncated_example :
    (t : Text) × (truncate (codes "aäb") 2 ≡ some t) × IsTruncated (codes "aäb") 2 t
truncate-IsTruncated_example = truncate-IsTruncated (codes "aäb") 2

abbrev client : Client
client = record {
  endpoint = settings.pangolin_endpoint;
  auth_header = none;
  max_body_bytes = 4;
  log_body = false;
}

abbrev response : HttpResponse
response = record {
  status = 200;
  etag = some (codes "v1");
  content_length = none;
  bytes = some (codes "body");
  text = some (codes "body");
}

abbrev endpoint : Endpoint Json
endpoint = record {
  send = λ url headers. some response;
  sha256_hex = λ raw. raw;
  decode = λ raw. some dynamic_config;
}

abbrev config : ChangedConfig Json
config = record {
  config = dynamic_config;
  etag = some (codes "v1");
  digest = codes "body";
  raw_bytes = 4;
}

fetches_body : fetch endpoint client none ≡ fetched (changed config)
unfolding fetch
fetches_body = refl

refuses_long_body :
    fetch endpoint (record client { max_body_bytes = 3 }) none ≡ failed (too_large 4 3)
unfolding fetch
refuses_long_body = refl

fetch-IsReceived_example : IsReceived endpoint client none config
fetch-IsReceived_example = fetch-IsReceived endpoint client none config fetches_body

-- A response that is no success, with a long text.
abbrev failing : Endpoint Json
failing = record endpoint {
  send = λ url headers. some (record response { status = 500; text = some (codes "aäb") });
}

reports_status : fetch failing client none ≡ failed (bad_status 500 (codes "aäb"))
unfolding fetch
reports_status = refl
