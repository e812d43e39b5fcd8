-- ===== src/Sample.antt =====
-- Concrete inputs to run the code with: JSON values of two forms, a library in place of the parameters,
-- settings, and a configuration with one router.
use pangolin_gateway_api.Prelude.{
  true, false, List, [], ◌∷◌, Option, none, some, Text, codes, is_digit, if◌then◌else◌, length, pos,
}
use pangolin_gateway_api.External.{External}
use pangolin_gateway_api.Config.{Config, BackendKind, ExtAuthzConfig}
use pangolin_gateway_api.Pangolin.Types.{TraefikDynamicConfig, HttpConfig, Router, L4Config}
use pangolin_gateway_api.Kube.Api.{KubeApi}
use pangolin_gateway_api.Transform.Backend.{BackendIndex}
use pangolin_gateway_api.Transform.Backend.Emit.{ResolvedBackend}
use pangolin_gateway_api.Pangolin.Client.{changed}
use pangolin_gateway_api.Reconcile.{Round}

-- A string, or an object with one entry.
pub data Json : Type 0 where
  string : Text → Json
  object : Text → Json → Json

abbrev pub object_of : Json → Option (List (Text × Json))
object_of (object k v) = some ((k, v) ∷ [])
object_of (string s) = none

abbrev pub string_of : Json → Option Text
string_of (string s) = some s
string_of (object k v) = none

abbrev pub address_of : Text → Option Text
address_of [] = none
address_of (c ∷ s) = if is_digit c then some (c ∷ s) else none

abbrev pub library : External
library = record {
  Value = Json;
  as_object = object_of;
  as_array = λ v. none;
  as_str = string_of;
  as_bool = λ v. none;
  parse_url = λ s. some (record {
    text = s;
    scheme = codes "http";
    host_str = some s;
    port_or_known_default = some 80;
  });
  IpAddr = Text;
  parse_ip = address_of;
  show_ip = λ s. s;
  hash = length;
}

abbrev pub settings : Config
settings = record {
  pangolin_endpoint = record {
    text = codes "http://pangolin/";
    scheme = codes "http";
    host_str = some (codes "pangolin");
    port_or_known_default = some 80;
  };
  auth_header = none;
  fetch_timeout = 0;
  poll_interval = 5000000000;
  max_backoff = 60000000000;
  max_response_body_bytes = 1000000;
  tls_skip_verify = false;
  ca_file = none;
  namespace = codes "edge";
  parent_gateway = codes "eg";
  parent_gateway_namespace = none;
  listener_set_name = codes "pangolin";
  http_port = pos 80;
  https_port = pos 443;
  enable_https_listeners = false;
  enable_tcp_routes = true;
  enable_udp_routes = true;
  backend_kind = BackendKind.envoy_backend;
  ext_authz = none;
  allow_unauthenticated_routes = false;
  tls_secret_template = none;
  tls_secret_namespace = none;
  field_manager = codes "pangolin";
  managed_label_key = codes "managed-by";
  managed_label_value = codes "pangolin";
  instance_label_key = codes "instance";
  instance_label_value = codes "edge";
  managed_annotation_key = codes "managed";
  managed_annotation_value = codes "yes";
  httproute_annotations = [];
  listenerset_annotations = [];
  read_only = false;
  log_traefik_config = false;
  health_listen = none;
}

abbrev pub authz : ExtAuthzConfig
authz = record {
  service = codes "shim";
  namespace = none;
  port = pos 9000;
  path = none;
  headers_to_ext_auth = [];
  headers_to_backend = [];
}

-- A router that the middleware `badger` protects.
abbrev pub router : Router
router = record {
  rule = codes "Host(`a.com`)";
  service = codes "app";
  middlewares = codes "badger" ∷ [];
  entry_points = [];
  priority = none;
  tls = none;
}

abbrev pub http_config : HttpConfig Json
http_config = record {
  routers = (codes "web", router) ∷ [];
  services =
      (
        codes "app",
        record {
          load_balancer = some (record {
            servers = record { url = codes "10.0.0.1" } ∷ [];
            sticky = none;
            servers_transport = none;
            pass_host_header = none;
          });
          weighted = none;
          mirroring = none;
        },
      )
      ∷ [];
  middlewares = [];
  servers_transports = [];
}

abbrev pub dynamic_config : TraefikDynamicConfig Json
dynamic_config = record { http = http_config; tcp = none; udp = none }

abbrev pub backend : ResolvedBackend
backend = record {
  group = [];
  kind = codes "Service";
  name = codes "app";
  namespace = none;
  port = pos 80;
}

abbrev pub backends : BackendIndex
backends = (codes "app", backend) ∷ []

abbrev pub l4_config : L4Config Json
l4_config = record {
  routers =
      (
        codes "ssh",
        record {
          rule = none;
          service = codes "app";
          entry_points = codes "tcp-22" ∷ [];
          tls = none;
        },
      )
      ∷ [];
  services = [];
}

-- An API server that accepts every call and holds nothing.
abbrev pub server : KubeApi
server = record { accepts = λ calls call. true; items = λ calls kind selector. some [] }

-- An API server that accepts nothing.
abbrev pub broken_server : KubeApi
broken_server = record { accepts = λ calls call. false; items = λ calls kind selector. none }

-- A round that receives a configuration.
abbrev pub round : Round Json
round = record {
  is_cancelled = false;
  fetch = λ etag. some (
      changed
        (record { config = dynamic_config; etag = none; digest = codes "d"; raw_bytes = 100 }));
  wait_or_shutdown = λ duration. false;
}
