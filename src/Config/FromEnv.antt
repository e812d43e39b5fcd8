-- ===== src/Config/FromEnv.antt =====
-- src/config.rs: `Config::from_env`; src/shim.rs: `ShimConfig::from_env`. The struct's fallible fields
-- are read in the order of its literal. A duration is a number of nanoseconds.
mod Fields
pub mod Guards
use pangolin_gateway_api.Prelude.{
  ◌≡◌, refl, ℕ, ◌*◌, Bool, true, false, not, ◌&&◌, List, [], ◌∷◌, Option, none, some, if◌then◌else◌,
  is_empty, Text, codes, ◌≟◌, to_lowercase, or_value, trim_end, starts_with, ℤ, pos,
}
use pangolin_gateway_api.External.{Url}
use pangolin_gateway_api.Config.{Config, BackendKind, ExtAuthzConfig}
use pangolin_gateway_api.Config.Env.{
  Env, Parsers, EnvError, not_set, invalid_url, invalid_duration, no_leading_slash,
  skip_verify_refused, insecure_http_refused, Result, ok, err, ◌>>=◌, ◌>>◌, or_error, refuse_if,
  is_one_of, truthy, parse_backend_kind, or_default, required_env, optional_env, bool_env, u64_env,
  i32_env, csv_env, parse_kv_env, duration_env,
}

abbrev seconds : ℕ → ℕ
seconds n = n * 1000000000

-- The tests of the health endpoint's address.
abbrev listen_address : Option Text → Option Text
listen_address none = some (codes "0.0.0.0:8081")
listen_address (some v) =
    if is_one_of (codes "off" ∷ codes "disabled" ∷ codes "none" ∷ []) v then none else some v

module _ (x : Parsers) (env : Env) where
  -- The two guards: each reads its acknowledgement only where it is needed.
  guard_skip_verify : Bool → Result (Unit {0})
  unfolding bool_env
  guard_skip_verify false = ok tt
  guard_skip_verify true = do
    understood ← bool_env env (codes "I_UNDERSTAND_CONFIG_TLS_SKIP_VERIFY_IS_INSECURE") false
    refuse_if (not understood) skip_verify_refused

  guard_http : Bool → Result (Unit {0})
  unfolding bool_env
  guard_http false = ok tt
  guard_http true = do
    permitted ← bool_env env (codes "CONFIG_ALLOW_INSECURE_HTTP") false
    refuse_if (not permitted) insecure_http_refused

  backend_kind_of : Option Text → Result BackendKind
  unfolding is_one_of
  backend_kind_of none = ok BackendKind.envoy_backend
  backend_kind_of (some raw) = parse_backend_kind raw

  pub ext_authz_of : Option Text → Result (Option ExtAuthzConfig)
  unfolding i32_env csv_env
  ext_authz_of none = ok none
  ext_authz_of (some service) = do
    port ← i32_env env (codes "CONFIG_EXT_AUTHZ_PORT") (pos 80)
    ok (
        some (record {
          service = service;
          namespace = optional_env env (codes "CONFIG_EXT_AUTHZ_NAMESPACE");
          port = port;
          path = optional_env env (codes "CONFIG_EXT_AUTHZ_PATH");
          headers_to_ext_auth =
              csv_env env (codes "CONFIG_EXT_AUTHZ_HEADERS_TO_EXT_AUTH")
                (codes "cookie" ∷ codes "authorization" ∷ []);
          headers_to_backend = csv_env env (codes "CONFIG_EXT_AUTHZ_HEADERS_TO_BACKEND") [];
        }))

  -- The struct's literal.
  pub settings : Url → Bool → Result Config
  unfolding required_env bool_env u64_env i32_env parse_kv_env duration_env ext_authz_of
      backend_kind_of is_one_of
  settings endpoint skip_verify = do
    ok (record {
      pangolin_endpoint = endpoint;
      auth_header = optional_env env (codes "CONFIG_AUTH_HEADER");
      fetch_timeout = (← duration_env env x (codes "CONFIG_FETCH_TIMEOUT") (seconds 30));
      poll_interval = (← duration_env env x (codes "CONFIG_POLL_INTERVAL") (seconds 30));
      max_backoff = (← duration_env env x (codes "CONFIG_MAX_BACKOFF") (seconds 300));
      max_response_body_bytes = (← u64_env env (codes "CONFIG_MAX_RESPONSE_BODY_BYTES") 16777216);
      tls_skip_verify = skip_verify;
      ca_file = optional_env env (codes "CONFIG_CA_FILE");
      namespace = or_value (optional_env env (codes "CONFIG_NAMESPACE")) (codes "default");
      parent_gateway = (← required_env env (codes "CONFIG_PARENT_GATEWAY"));
      parent_gateway_namespace = optional_env env (codes "CONFIG_PARENT_GATEWAY_NAMESPACE");
      listener_set_name =
          or_value (optional_env env (codes "CONFIG_LISTENERSET_NAME")) (codes "pangolin");
      http_port = (← i32_env env (codes "CONFIG_HTTP_PORT") (pos 80));
      https_port = (← i32_env env (codes "CONFIG_HTTPS_PORT") (pos 443));
      enable_https_listeners = (← bool_env env (codes "CONFIG_ENABLE_HTTPS_LISTENERS") true);
      enable_tcp_routes = (← bool_env env (codes "CONFIG_ENABLE_TCP_ROUTES") false);
      enable_udp_routes = (← bool_env env (codes "CONFIG_ENABLE_UDP_ROUTES") false);
      backend_kind = (← backend_kind_of (optional_env env (codes "CONFIG_BACKEND_KIND")));
      ext_authz = (← ext_authz_of (optional_env env (codes "CONFIG_EXT_AUTHZ_SERVICE")));
      allow_unauthenticated_routes =
          (← bool_env env (codes "CONFIG_ALLOW_UNAUTHENTICATED_ROUTES") false);
      tls_secret_template = optional_env env (codes "CONFIG_TLS_SECRET_TEMPLATE");
      tls_secret_namespace = optional_env env (codes "CONFIG_TLS_SECRET_NAMESPACE");
      field_manager =
          or_value (optional_env env (codes "CONFIG_FIELD_MANAGER"))
            (codes "pangolin-gateway-controller");
      managed_label_key =
          or_value (optional_env env (codes "CONFIG_MANAGED_LABEL_KEY"))
            (codes "app.kubernetes.io/managed-by");
      managed_label_value =
          or_value (optional_env env (codes "CONFIG_MANAGED_LABEL_VALUE"))
            (codes "pangolin-gateway-controller");
      instance_label_key =
          or_value (optional_env env (codes "CONFIG_INSTANCE_LABEL_KEY"))
            (codes "pangolin.envisia.de/instance");
      instance_label_value =
          or_value (optional_env env (codes "CONFIG_INSTANCE_LABEL_VALUE")) (codes "default");
      managed_annotation_key =
          or_value (optional_env env (codes "CONFIG_MANAGED_ANNOTATION_KEY"))
            (codes "pangolin.envisia.de/source");
      managed_annotation_value =
          or_value (optional_env env (codes "CONFIG_MANAGED_ANNOTATION_VALUE"))
            (codes "pangolin-gateway-controller");
      httproute_annotations = (← parse_kv_env env (codes "CONFIG_HTTPROUTE_ANNOTATIONS"));
      listenerset_annotations = (← parse_kv_env env (codes "CONFIG_LISTENERSET_ANNOTATIONS"));
      read_only = (← bool_env env (codes "CONFIG_READ_ONLY") false);
      log_traefik_config = (← bool_env env (codes "CONFIG_LOG_TRAEFIK_CONFIG") false);
      health_listen = listen_address (optional_env env (codes "CONFIG_HEALTH_LISTEN"));
    })

  unfoldable pub from_env : Result Config
  unfolding required_env bool_env guard_skip_verify guard_http settings ◌≟◌
  from_env = do
    raw ← required_env env (codes "CONFIG_ENDPOINT")
    endpoint ← or_error (x.parse_url raw) (invalid_url (codes "CONFIG_ENDPOINT"))
    skip_verify ← bool_env env (codes "CONFIG_TLS_SKIP_VERIFY") false
    guard_skip_verify skip_verify
    guard_http (endpoint.scheme ≟ codes "http")
    settings endpoint skip_verify
