-- ===== src/Config/FromEnv/Guards.antt =====
-- src/config.rs: what the environment has said when `Config::from_env` succeeds.
use pangolin_gateway_api.Prelude.{
  ◌≡◌, refl, subst, ◌⊎◌, inl, inr, Bool, true, false, not, [], ◌∷◌, Option, none, some, arith,
  is_empty, is_some, filter_some, Bool-cases, Text, codes, ◌≟◌, to_lowercase, pos,
}
use pangolin_gateway_api.External.{Url}
use pangolin_gateway_api.Config.{Config, ExtAuthzConfig}
use pangolin_gateway_api.Config.Env.{
  Env, EnvError, Parsers, Result, ok, Ensures, Ensures-bind, Ensures-weaken, ◌>>=◌, or_error,
  invalid_url, is_one_of, truthy, falsy, parse_bool, or_default, required_env, optional_env,
  bool_env, refuse_if, i32_env, skip_verify_refused, insecure_http_refused,
}
use pangolin_gateway_api.Config.FromEnv.Fields.{IsRead, settings-IsRead}
use pangolin_gateway_api.Config.FromEnv.{
  guard_skip_verify, guard_http, ext_authz_of, settings, from_env,
}

-- The variable holds one of the words for true, in any case.
pub record IsTruthy (env : Env) (key : Text) : Type 0 where
  pub value : Text
  pub set : env key ≡ some value
  pub means_true : is_one_of truthy (to_lowercase value) ≡ true

parse_bool-true :
    (key v : Text) → parse_bool key v ≡ ok true → is_one_of truthy (to_lowercase v) ≡ true
unfolding parse_bool
parse_bool-true key v h = elim (Bool-cases (is_one_of truthy (to_lowercase v))) [
  | inl e ↦ e
  | inr e ↦ elim (Bool-cases (is_one_of falsy (to_lowercase v))) [
    | inl f ↦ absurd (differ (rw (e, f) at h))
    | inr f ↦ absurd (failed (rw (e, f) at h))
  ]
]
  where
    differ : Result.ok false ≡ ok true → ⊥
    differ q = cc

    failed : {A : Type 0} {a : A} {e : EnvError} → Result.err e ≡ ok a → ⊥
    failed q = cc

module _ (env : Env) where
  bool_env-IsTruthy : (key : Text) → bool_env env key false ≡ ok true → IsTruthy env key
  unfolding bool_env
  bool_env-IsTruthy key h = go (env key) refl h
    where
      go :
          (found : Option Text)
          → env key ≡ found
          → or_default (filter_some (λ v. not (is_empty v)) found) false (parse_bool key) ≡ ok true
          → IsTruthy env key
      go none e q = cc
      go (some []) e q = cc
      go (some (c ∷ v)) e q = record {
        value = c ∷ v;
        set = e;
        means_true = parse_bool-true key (c ∷ v) q;
      }

  required_env-eq-ok : (key v : Text) → required_env env key ≡ ok v → env key ≡ some v
  unfolding required_env
  required_env-eq-ok key v h = ground arith

module _ (x : Parsers) (env : Env) where
  -- A flag that is off unless its variable says otherwise.
  abbrev IsAsked : Text → Bool → Type 0
  IsAsked key flag = (flag ≡ false) ⊎ IsTruthy env key

  asked : (key : Text) (flag : Bool) → bool_env env key false ≡ ok flag → IsAsked key flag
  asked key false h = inl refl
  asked key true h = inr (bool_env-IsTruthy env key h)

  -- A guard behind its acknowledgement.
  acknowledged :
      (key : Text) (why : EnvError)
      → Ensures
          (λ u. IsTruthy env key)
          (bool_env env key false >>= (λ said. refuse_if (not said) why))
  acknowledged key why =
      Ensures-bind (λ u. IsTruthy env key) (bool_env env key false) _ (λ said e. given said e)
    where
      given :
          (said : Bool)
          → bool_env env key false ≡ ok said
          → Ensures (λ u. IsTruthy env key) (refuse_if (not said) why)
      given true e = bool_env-IsTruthy env key e
      given false e = tt

  guard_skip_verify-IsAsked :
      (skip : Bool) (u : Unit {0})
      → guard_skip_verify x env skip ≡ ok u
      → IsAsked (codes "I_UNDERSTAND_CONFIG_TLS_SKIP_VERIFY_IS_INSECURE") skip
  unfolding guard_skip_verify
  guard_skip_verify-IsAsked false u h = inl refl
  guard_skip_verify-IsAsked true u h =
      let key = codes "I_UNDERSTAND_CONFIG_TLS_SKIP_VERIFY_IS_INSECURE" in
      inr (subst (Ensures (λ v. IsTruthy env key)) h (acknowledged key skip_verify_refused))

  guard_http-IsAsked :
      (plain : Bool) (u : Unit {0})
      → guard_http x env plain ≡ ok u
      → IsAsked (codes "CONFIG_ALLOW_INSECURE_HTTP") plain
  unfolding guard_http
  guard_http-IsAsked false u h = inl refl
  guard_http-IsAsked true u h =
      let key = codes "CONFIG_ALLOW_INSECURE_HTTP" in
      inr (subst (Ensures (λ v. IsTruthy env key)) h (acknowledged key insecure_http_refused))

  ext_authz_of-is_some :
      (service : Option Text) (ea : Option ExtAuthzConfig)
      → ext_authz_of x env service ≡ ok ea
      → is_some ea ≡ is_some service
  ext_authz_of-is_some service ea h =
      subst (Ensures (λ a. is_some a ≡ is_some service)) h (go service)
    where
      go : (s : Option Text) → Ensures (λ a. is_some a ≡ is_some s) (ext_authz_of x env s)
      go none = unfold ext_authz_of in refl
      go (some s) =
          unfold ext_authz_of in
          Ensures-bind (λ a. is_some a ≡ true)
            (i32_env env (codes "CONFIG_EXT_AUTHZ_PORT") (pos 80)) _ (λ port e. refl)

  -- What the operator has said, wherever the settings leave a safe default.
  pub record IsPermitted (cfg : Config) : Type 0 where
    pub skip_verify :
        (cfg.tls_skip_verify ≡ false)
        ⊎ (IsTruthy env (codes "CONFIG_TLS_SKIP_VERIFY")
            × IsTruthy env (codes "I_UNDERSTAND_CONFIG_TLS_SKIP_VERIFY_IS_INSECURE"))
    pub plain_http :
        ((cfg.pangolin_endpoint.scheme ≟ codes "http") ≡ false)
        ⊎ IsTruthy env (codes "CONFIG_ALLOW_INSECURE_HTTP")
    pub unauthenticated :
        (cfg.allow_unauthenticated_routes ≡ false)
        ⊎ IsTruthy env (codes "CONFIG_ALLOW_UNAUTHENTICATED_ROUTES")
    pub ext_authz :
        is_some cfg.ext_authz ≡ is_some (optional_env env (codes "CONFIG_EXT_AUTHZ_SERVICE"))
    pub gateway : env (codes "CONFIG_PARENT_GATEWAY") ≡ some cfg.parent_gateway

  both :
      (a b : Text) (flag : Bool)
      → IsAsked a flag
      → IsAsked b flag
      → (flag ≡ false) ⊎ (IsTruthy env a × IsTruthy env b)
  both a b flag (inl e) q = inl e
  both a b flag (inr p) (inl e) = inl e
  both a b flag (inr p) (inr q) = inr (p, q)

  IsRead-IsPermitted :
      (endpoint : Url) (skip : Bool) (u v : Unit {0}) (cfg : Config)
      → bool_env env (codes "CONFIG_TLS_SKIP_VERIFY") false ≡ ok skip
      → guard_skip_verify x env skip ≡ ok u
      → guard_http x env (endpoint.scheme ≟ codes "http") ≡ ok v
      → IsRead x env endpoint skip cfg
      → IsPermitted cfg
  IsRead-IsPermitted endpoint skip u v cfg e g h r = record {
    skip_verify = rw r.same_skip (
        both (codes "CONFIG_TLS_SKIP_VERIFY")
          (codes "I_UNDERSTAND_CONFIG_TLS_SKIP_VERIFY_IS_INSECURE") skip
          (asked (codes "CONFIG_TLS_SKIP_VERIFY") skip e) (guard_skip_verify-IsAsked skip u g));
    plain_http = rw r.same_endpoint (guard_http-IsAsked (endpoint.scheme ≟ codes "http") v h);
    unauthenticated =
        asked (codes "CONFIG_ALLOW_UNAUTHENTICATED_ROUTES") cfg.allow_unauthenticated_routes
          r.unauthenticated;
    ext_authz =
        ext_authz_of-is_some (optional_env env (codes "CONFIG_EXT_AUTHZ_SERVICE")) cfg.ext_authz
          r.service;
    gateway = required_env-eq-ok env (codes "CONFIG_PARENT_GATEWAY") cfg.parent_gateway r.gateway;
  }

  from_env-Ensures : Ensures IsPermitted (from_env x env)
  unfolding from_env
  from_env-Ensures =
      Ensures-bind IsPermitted (required_env env (codes "CONFIG_ENDPOINT")) _ (λ raw _.
        Ensures-bind IsPermitted
          (or_error (x.parse_url raw) (invalid_url (codes "CONFIG_ENDPOINT"))) _
          (λ endpoint _.
            Ensures-bind IsPermitted (bool_env env (codes "CONFIG_TLS_SKIP_VERIFY") false) _
              (λ skip e. Ensures-bind IsPermitted (guard_skip_verify x env skip) _ (λ u g.
                Ensures-bind IsPermitted (guard_http x env (endpoint.scheme ≟ codes "http")) _
                  (λ v h.
                    Ensures-weaken (IsRead x env endpoint skip) IsPermitted
                      (settings x env endpoint skip)
                      (λ cfg. IsRead-IsPermitted endpoint skip u v cfg e g h)
                      (settings-IsRead x env endpoint skip))))))

  -- Settings that were read have each unsafe choice spelled out in the environment: certificates go
  -- unchecked only with two variables, pangolin is asked over plain HTTP only with one, protected
  -- routes go out without authorization only with one; there is an authorization service exactly where
  -- its variable names one, and the gateway is the one of its variable.
  pub from_env-IsPermitted : (cfg : Config) → from_env x env ≡ ok cfg → IsPermitted cfg
  from_env-IsPermitted cfg h = subst (Ensures IsPermitted) h from_env-Ensures
