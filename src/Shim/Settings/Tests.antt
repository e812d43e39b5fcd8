-- ===== src/Shim/Settings/Tests.antt =====
-- shim.rs: the shim's settings from a concrete environment.
use pangolin_gateway_api.Prelude.{◌≡◌, refl, true, [], ◌∷◌, none, some, codes}
use pangolin_gateway_api.Config.Env.{Env, ok, err, no_leading_slash}
use pangolin_gateway_api.Config.Sample.{env_of, parsers}
use pangolin_gateway_api.Shim.Check.{ShimConfig}
use pangolin_gateway_api.Shim.Settings.{shim_from_env}

abbrev shim_env : Env
shim_env = env_of (
    (codes "SHIM_PANGOLIN_API_BASE_URL", codes "http://p/api/v1/")
    ∷ (codes "SHIM_PATH_PREFIX", codes "/auth")
    ∷ (codes "SHIM_TLS_SKIP_VERIFY", codes "on")
    ∷ (codes "I_UNDERSTAND_SHIM_TLS_SKIP_VERIFY_IS_INSECURE", codes "True")
    ∷ [])

abbrev shim_defaults : ShimConfig
shim_defaults = record {
  listen = codes "0.0.0.0:9001";
  pangolin_api_base_url = record {
    text = codes "http://p/api/v1";
    scheme = codes "http";
    host_str = some (codes "http://p/api/v1");
    port_or_known_default = some 80;
  };
  path_prefix = codes "/auth";
  user_session_cookie_name = codes "p_session_token";
  resource_session_request_param = codes "p_session_request";
  timeout = 10000000000;
  ca_file = none;
  tls_skip_verify = true;
}

reads_shim_env : shim_from_env parsers shim_env ≡ ok shim_defaults
unfolding shim_from_env
reads_shim_env = refl

refuses_relative_prefix :
    shim_from_env parsers (
      env_of (
        (codes "SHIM_PANGOLIN_API_BASE_URL", codes "http://p")
        ∷ (codes "SHIM_PATH_PREFIX", codes "verify")
        ∷ []))
    ≡ err (no_leading_slash (codes "verify"))
unfolding shim_from_env
refuses_relative_prefix = refl
