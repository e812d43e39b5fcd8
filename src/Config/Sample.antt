-- ===== src/Config/Sample.antt =====
-- Environments to run the code with, and the settings that one of them gives.
use pangolin_gateway_api.Prelude.{
  ◌≡◌, refl, true, false, List, [], ◌∷◌, none, some, if◌then◌else◌, Text, codes, ◌≟◌, pos,
}
use pangolin_gateway_api.Config.{Config, BackendKind}
use pangolin_gateway_api.Config.Env.{Env, Parsers, ok}
use pangolin_gateway_api.Config.FromEnv.{from_env}

-- The last variable of a name in a list.
abbrev pub env_of : List (Text × Text) → Env
env_of [] key = none
env_of ((k, v) ∷ vars) key = let rest = env_of vars key in if key ≟ k then some v else rest

-- Every text is a plain HTTP address, and every duration a second.
abbrev pub parsers : Parsers
parsers = record {
  parse_url = λ t. some (record {
    text = t;
    scheme = codes "http";
    host_str = some t;
    port_or_known_default = some 80;
  });
  parse_duration = λ t. some 1000000000;
}

abbrev pub required : List (Text × Text)
required =
    (codes "CONFIG_ENDPOINT", codes "http://pangolin")
    ∷ (codes "CONFIG_PARENT_GATEWAY", codes "eg")
    ∷ []

abbrev pub insecure : Env
insecure = env_of ((codes "CONFIG_ALLOW_INSECURE_HTTP", codes "Yes") ∷ required)

-- What the settings are for it.
abbrev pub defaults : Config
defaults = record {
  pangolin_endpoint = record {
    text = codes "http://pangolin";
    scheme = codes "http";
    host_str = some (codes "http://pangolin");
    port_or_known_default = some 80;
  };
  auth_header = none;
  fetch_timeout = 30000000000;
  poll_interval = 30000000000;
  max_backoff = 300000000000;
  max_response_body_bytes = 16777216;
  tls_skip_verify = false;
  ca_file = none;
  namespace = codes "default";
  parent_gateway = codes "eg";
  parent_gateway_namespace = none;
  listener_set_name = codes "pangolin";
  http_port = pos 80;
  https_port = pos 443;
  enable_https_listeners = true;
  enable_tcp_routes = false;
  enable_udp_routes = false;
  backend_kind = BackendKind.envoy_backend;
  ext_authz = none;
  allow_unauthenticated_routes = false;
  tls_secret_template = none;
  tls_secret_namespace = none;
  field_manager = codes "pangolin-gateway-controller";
  managed_label_key = codes "app.kubernetes.io/managed-by";
  managed_label_value = codes "pangolin-gateway-controller";
  instance_label_key = codes "pangolin.envisia.de/instance";
  instance_label_value = codes "default";
  managed_annotation_key = codes "pangolin.envisia.de/source";
  managed_annotation_value = codes "pangolin-gateway-controller";
  httproute_annotations = [];
  listenerset_annotations = [];
  read_only = false;
  log_traefik_config = false;
  health_listen = some (codes "0.0.0.0:8081");
}

pub reads_defaults : from_env parsers insecure ≡ ok defaults
unfolding from_env
reads_defaults = refl
