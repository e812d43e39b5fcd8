-- ===== src/Config.antt =====
-- src/config.rs: the controller's settings. A duration is a number of nanoseconds.
pub mod Env
pub mod FromEnv
pub mod Sample
mod Tests
use pangolin_gateway_api.Prelude.{ℕ, Bool, List, ◌∷◌, ◌++◌, Option, Text, ℤ}
use pangolin_gateway_api.BTreeMap.{BTreeMap}
use pangolin_gateway_api.External.{Url}

pub data BackendKind : Type 0 where
  service envoy_backend : BackendKind

pub record ExtAuthzConfig : Type 0 where
  pub service : Text
  pub namespace : Option Text
  pub port : ℤ
  pub path : Option Text
  pub headers_to_ext_auth : List Text
  pub headers_to_backend : List Text

pub record Config : Type 0 where
  pub pangolin_endpoint : Url
  pub auth_header : Option Text
  pub fetch_timeout : ℕ
  pub poll_interval : ℕ
  pub max_backoff : ℕ
  pub max_response_body_bytes : ℕ
  pub tls_skip_verify : Bool
  pub ca_file : Option Text
  pub namespace : Text
  pub parent_gateway : Text
  pub parent_gateway_namespace : Option Text
  pub listener_set_name : Text
  pub http_port : ℤ
  pub https_port : ℤ
  pub enable_https_listeners : Bool
  pub enable_tcp_routes : Bool
  pub enable_udp_routes : Bool
  pub backend_kind : BackendKind
  pub ext_authz : Option ExtAuthzConfig
  pub allow_unauthenticated_routes : Bool
  pub tls_secret_template : Option Text
  pub tls_secret_namespace : Option Text
  pub field_manager : Text
  pub managed_label_key : Text
  pub managed_label_value : Text
  pub instance_label_key : Text
  pub instance_label_value : Text
  pub managed_annotation_key : Text
  pub managed_annotation_value : Text
  pub httproute_annotations : BTreeMap Text Text
  pub listenerset_annotations : BTreeMap Text Text
  pub read_only : Bool
  pub log_traefik_config : Bool
  pub health_listen : Option Text

-- The label selector that garbage collection lists by.
unfoldable pub managed_selector : Config → Text
managed_selector cfg =
    cfg.managed_label_key
    ++ b'=' ∷ cfg.managed_label_value
    ++ b',' ∷ cfg.instance_label_key
    ++ b'=' ∷ cfg.instance_label_value
