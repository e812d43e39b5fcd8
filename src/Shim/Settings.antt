-- ===== src/Shim/Settings.antt =====
-- src/shim.rs: `ShimConfig::from_env`, and what an accepted environment has said.
mod Tests
use pangolin_gateway_api.Prelude.{
  ◌≡◌, ◌≢◌, refl, subst, ◌⊎◌, inl, inr, ℕ, Bool, true, false, not, ◌&&◌, List, [], ◌∷◌, Option,
  none, some, arith, if◌then◌else◌, is_empty, Bool-cases, Text, codes, ◌≟◌, to_lowercase, or_value,
  filter_some, trim_end, starts_with,
}
use pangolin_gateway_api.External.{Url}
use pangolin_gateway_api.Config.Env.{
  Env, Parsers, EnvError, not_set, invalid_url, no_leading_slash, skip_verify_refused, Result, ok,
  err, ◌>>=◌, ◌>>◌, Ensures, Ensures-bind, or_error, refuse_if, is_one_of, truthy, required_env,
  optional_env, duration_env,
}
use pangolin_gateway_api.Shim.{is_slash}
use pangolin_gateway_api.Shim.Check.{ShimConfig}

-- `is_some_and` of a text in lower case.
abbrev is_word : List Text → Option Text → Bool
is_word words none = false
is_word words (some v) = is_one_of words (to_lowercase v)

module _ (x : Parsers) (env : Env) where
  -- `path_prefix`, with the default.
  abbrev prefix_of : Text
  prefix_of = or_value (optional_env env (codes "SHIM_PATH_PREFIX")) (codes "/verify")

  skip_of : Bool
  unfolding is_one_of
  skip_of = is_word truthy (optional_env env (codes "SHIM_TLS_SKIP_VERIFY"))

  understood : Bool
  unfolding is_one_of
  understood =
      is_word (codes "true" ∷ [])
        (optional_env env (codes "I_UNDERSTAND_SHIM_TLS_SKIP_VERIFY_IS_INSECURE"))

  -- The struct's literal.
  shim_settings : Url → Result ShimConfig
  unfolding duration_env skip_of
  shim_settings base = do
    ok (record {
      listen = or_value (optional_env env (codes "SHIM_LISTEN")) (codes "0.0.0.0:9001");
      pangolin_api_base_url = base;
      path_prefix = prefix_of;
      user_session_cookie_name =
          or_value (optional_env env (codes "SHIM_USER_SESSION_COOKIE_NAME"))
            (codes "p_session_token");
      resource_session_request_param =
          or_value (optional_env env (codes "SHIM_RESOURCE_SESSION_REQUEST_PARAM"))
            (codes "p_session_request");
      timeout = (← duration_env env x (codes "SHIM_PANGOLIN_TIMEOUT") 10000000000);
      ca_file = optional_env env (codes "SHIM_CA_FILE");
      tls_skip_verify = skip_of;
    })

  unfoldable pub shim_from_env : Result ShimConfig
  unfolding required_env starts_with skip_of understood shim_settings
  shim_from_env = do
    raw ← required_env env (codes "SHIM_PANGOLIN_API_BASE_URL")
    base ←
        or_error (x.parse_url (trim_end is_slash raw))
          (invalid_url (codes "SHIM_PANGOLIN_API_BASE_URL"))
    refuse_if (not (is_empty prefix_of) && not (starts_with (codes "/") prefix_of))
        (no_leading_slash prefix_of)
    refuse_if (skip_of && not understood) skip_verify_refused
    shim_settings base

  -- What the operator has said, as the shim understands it.
  pub record IsAccepted (cfg : ShimConfig) : Type 0 where
    pub rooted : starts_with (codes "/") cfg.path_prefix ≡ true
    pub skip_verify :
        (cfg.tls_skip_verify ≡ false)
        ⊎ (is_word
              (codes "true" ∷ [])
              (optional_env env (codes "I_UNDERSTAND_SHIM_TLS_SKIP_VERIFY_IS_INSECURE"))
            ≡ true)

  refuse_if-ok : (b : Bool) (e : EnvError) (u : Unit {0}) → refuse_if b e ≡ ok u → b ≡ false
  refuse_if-ok true e u h = cc
  refuse_if-ok false e u h = refl

  -- The prefix is never empty: an empty variable counts as unset.
  prefix_rooted :
      (not (is_empty prefix_of) && not (starts_with (codes "/") prefix_of)) ≡ false
      → starts_with (codes "/") prefix_of ≡ true
  prefix_rooted = go (env (codes "SHIM_PATH_PREFIX"))
    where
      prefix : Option Text → Text
      prefix v = or_value (filter_some (λ t. not (is_empty t)) v) (codes "/verify")

      go :
          (v : Option Text)
          → (not (is_empty (prefix v)) && not (starts_with (codes "/") (prefix v))) ≡ false
          → starts_with (codes "/") (prefix v) ≡ true
      go none h = unfold starts_with in refl
      go (some []) h = unfold starts_with in refl
      go (some (c ∷ s)) h = ground arith

  skip_permitted : (skip_of && not understood) ≡ false → (skip_of ≡ false) ⊎ (understood ≡ true)
  skip_permitted h = go skip_of understood h
    where
      go : (a b : Bool) → (a && not b) ≡ false → (a ≡ false) ⊎ (b ≡ true)
      go false b q = inl refl
      go true b q = inr (ground arith)

  accepted :
      (base : Url)
      → (not (is_empty prefix_of) && not (starts_with (codes "/") prefix_of)) ≡ false
      → (skip_of && not understood) ≡ false
      → Ensures IsAccepted (shim_settings base)
  unfolding shim_settings
  accepted base p q =
      Ensures-bind IsAccepted (duration_env env x (codes "SHIM_PANGOLIN_TIMEOUT") 10000000000) _
        (λ timeout _. record {
          rooted = prefix_rooted p;
          skip_verify = unfold understood in skip_permitted q;
        })

  shim_from_env-Ensures : Ensures IsAccepted shim_from_env
  unfolding shim_from_env
  shim_from_env-Ensures =
      let unrooted = not (is_empty prefix_of) && not (starts_with (codes "/") prefix_of) in
      let unguarded = skip_of && not understood in
      Ensures-bind IsAccepted (required_env env (codes "SHIM_PANGOLIN_API_BASE_URL")) _ (λ raw _.
        Ensures-bind IsAccepted
          (or_error (x.parse_url (trim_end is_slash raw))
            (invalid_url (codes "SHIM_PANGOLIN_API_BASE_URL")))
          _
          (λ base _.
            Ensures-bind IsAccepted (refuse_if unrooted (no_leading_slash prefix_of)) _ (λ u e.
              Ensures-bind IsAccepted (refuse_if unguarded skip_verify_refused) _ (λ v f.
                accepted base (refuse_if-ok unrooted (no_leading_slash prefix_of) u e)
                  (refuse_if-ok unguarded skip_verify_refused v f)))))

  -- Settings of the shim that were read have a prefix that starts with a slash, and leave certificates
  -- unchecked only where the variable that acknowledges it says `true`.
  shim_from_env-IsAccepted : (cfg : ShimConfig) → shim_from_env ≡ ok cfg → IsAccepted cfg
  shim_from_env-IsAccepted cfg h = subst (Ensures IsAccepted) h shim_from_env-Ensures
