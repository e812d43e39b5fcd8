-- ===== src/Config/FromEnv/Fields.antt =====
-- src/config.rs: which variables the fields of the settings come from.
use pangolin_gateway_api.Prelude.{◌≡◌, refl, Bool, true, false, codes, pos}
use pangolin_gateway_api.External.{Url}
use pangolin_gateway_api.Config.{Config}
use pangolin_gateway_api.Config.Env.{
  Env, Parsers, ok, Ensures, Ensures-bind, required_env, optional_env, bool_env, i32_env, u64_env,
  duration_env, parse_kv_env,
}
use pangolin_gateway_api.Config.FromEnv.{seconds, backend_kind_of, ext_authz_of, settings}

module _ (x : Parsers) (env : Env) where
  -- What the struct's literal takes from the environment.
  pub record IsRead (endpoint : Url) (skip : Bool) (cfg : Config) : Type 0 where
    pub same_endpoint : cfg.pangolin_endpoint ≡ endpoint
    pub same_skip : cfg.tls_skip_verify ≡ skip
    pub gateway : required_env env (codes "CONFIG_PARENT_GATEWAY") ≡ ok cfg.parent_gateway
    pub service :
        ext_authz_of x env (optional_env env (codes "CONFIG_EXT_AUTHZ_SERVICE")) ≡ ok cfg.ext_authz
    pub unauthenticated :
        bool_env env (codes "CONFIG_ALLOW_UNAUTHENTICATED_ROUTES") false
        ≡ ok cfg.allow_unauthenticated_routes

  pub settings-IsRead :
      (endpoint : Url) (skip : Bool) → Ensures (IsRead endpoint skip) (settings x env endpoint skip)
  unfolding settings
  settings-IsRead endpoint skip =
      Ensures-bind (IsRead endpoint skip)
        (duration_env env x (codes "CONFIG_FETCH_TIMEOUT") (seconds 30)) _
        (λ fetch _.
          Ensures-bind (IsRead endpoint skip)
            (duration_env env x (codes "CONFIG_POLL_INTERVAL") (seconds 30)) _
            (λ poll _.
              Ensures-bind (IsRead endpoint skip)
                (duration_env env x (codes "CONFIG_MAX_BACKOFF") (seconds 300)) _
                (λ backoff _.
                  Ensures-bind (IsRead endpoint skip)
                    (u64_env env (codes "CONFIG_MAX_RESPONSE_BODY_BYTES") 16777216) _
                    (λ most _.
                      Ensures-bind (IsRead endpoint skip)
                        (required_env env (codes "CONFIG_PARENT_GATEWAY")) _
                        (λ gateway e.
                          Ensures-bind (IsRead endpoint skip)
                            (i32_env env (codes "CONFIG_HTTP_PORT") (pos 80)) _
                            (λ http _.
                              Ensures-bind (IsRead endpoint skip)
                                (i32_env env (codes "CONFIG_HTTPS_PORT") (pos 443)) _
                                (λ https _.
                                  Ensures-bind (IsRead endpoint skip)
                                    (bool_env env (codes "CONFIG_ENABLE_HTTPS_LISTENERS") true) _
                                    (λ listeners _.
                                      Ensures-bind (IsRead endpoint skip)
                                        (bool_env env (codes "CONFIG_ENABLE_TCP_ROUTES") false) _
                                        (λ tcp _.
                                          Ensures-bind (IsRead endpoint skip)
                                            (bool_env env (codes "CONFIG_ENABLE_UDP_ROUTES") false)
                                            _
                                            (λ udp _.
                                              Ensures-bind (IsRead endpoint skip)
                                                (backend_kind_of x env
                                                  (optional_env env (codes "CONFIG_BACKEND_KIND")))
                                                _
                                                (λ kind _.
                                                  Ensures-bind (IsRead endpoint skip)
                                                    (ext_authz_of x env (
                                                      optional_env env
                                                        (codes "CONFIG_EXT_AUTHZ_SERVICE")))
                                                    _
                                                    (λ ea s.
                                                      Ensures-bind (IsRead endpoint skip)
                                                        (bool_env env
                                                          (codes
                                                            "CONFIG_ALLOW_UNAUTHENTICATED_ROUTES")
                                                          false)
                                                        _
                                                        (λ allow u.
                                                          Ensures-bind (IsRead endpoint skip)
                                                            (parse_kv_env env
                                                            (codes "CONFIG_HTTPROUTE_ANNOTATIONS"))
                                                            _
                                                            (λ routes _.
                                                            Ensures-bind (IsRead endpoint skip)
                                                            (parse_kv_env env (
                                                            codes "CONFIG_LISTENERSET_ANNOTATIONS"))
                                                            _
                                                            (λ sets _.
                                                            Ensures-bind (IsRead endpoint skip)
                                                            (bool_env env (codes "CONFIG_READ_ONLY")
                                                            false)
                                                            _
                                                            (λ read _.
                                                            Ensures-bind (IsRead endpoint skip)
                                                            (bool_env env
                                                            (codes "CONFIG_LOG_TRAEFIK_CONFIG")
                                                            false)
                                                            _
                                                            (λ log _. record {
                                                            same_endpoint = refl;
                                                            same_skip = refl;
                                                            gateway = e;
                                                            service = s;
                                                            unauthenticated = u;
                                                            })))))))))))))))))
