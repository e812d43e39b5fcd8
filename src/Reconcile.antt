-- ===== src/Reconcile.antt =====
-- src/reconcile.rs: `reconcile_once` and the loop of `run_loop`; src/health.rs: the readiness flag.
-- Log lines, among them the whole of `report_status`, are not modelled.
pub mod Calls
pub mod Loop
pub mod Progress
pub mod Wanted
pub mod Readiness
mod Tests
use pangolin_gateway_api.Prelude.{
  ℕ, ◌*◌, min, Bool, true, false, not, ◌&&◌, List, [], ◌∷◌, ◌++◌, Option, none, some, map, Text,
  is_some, ◌≟◌, if◌then◌else◌,
}
use pangolin_gateway_api.BTreeMap.{BTreeMap, BTreeSet, values}
use pangolin_gateway_api.External.{External}
use pangolin_gateway_api.Config.{Config, BackendKind}
use pangolin_gateway_api.Pangolin.Types.{TraefikDynamicConfig}
use pangolin_gateway_api.Pangolin.Client.{ChangedConfig, FetchOutcome, not_modified, changed}
use pangolin_gateway_api.Kube.Api.{
  Kind, http_route, listener_set, service, endpoint_slice, envoy_backend, tcp_route, udp_route,
  security_policy, backend_tls_policy, Object, http_route_object, listener_set_object,
  service_object, endpoint_slice_object, envoy_backend_object, tcp_route_object, udp_route_object,
  security_policy_object, backend_tls_policy_object, Call, KubeApi, ssa_apply, sweep,
}
use pangolin_gateway_api.Transform.Desired.{Desired}
use pangolin_gateway_api.Transform.Build.{build_desired}

-- The objects in the order in which they are applied.
unfoldable pub apply_order : Desired → List Object
apply_order desired =
    map service_object (values desired.services)
    ++ map endpoint_slice_object (values desired.endpoint_slices)
    ++ map envoy_backend_object (values desired.envoy_backends)
    ++ map backend_tls_policy_object (values desired.backend_tls_policies)
    ++ map listener_set_object (values desired.listener_sets)
    ++ map http_route_object (values desired.http_routes)
    ++ map tcp_route_object (values desired.tcp_routes)
    ++ map udp_route_object (values desired.udp_routes)
    ++ map security_policy_object (values desired.security_policies)

-- `keys().cloned().collect()`.
abbrev pub name_set {ℓ} : {V : Type ℓ} → List (Text × V) → BTreeSet Text
name_set [] = []
name_set ((k, v) ∷ m) = (k, tt) ∷ name_set m

-- The names that stay, of one kind.
abbrev pub names_of : Kind → Desired → BTreeSet Text
names_of http_route desired = name_set desired.http_routes
names_of listener_set desired = name_set desired.listener_sets
names_of service desired = name_set desired.services
names_of endpoint_slice desired = name_set desired.endpoint_slices
names_of envoy_backend desired = name_set desired.envoy_backends
names_of tcp_route desired = name_set desired.tcp_routes
names_of udp_route desired = name_set desired.udp_routes
names_of security_policy desired = name_set desired.security_policies
names_of backend_tls_policy desired = name_set desired.backend_tls_policies

is_envoy_backend : BackendKind → Bool
is_envoy_backend BackendKind.envoy_backend = true
is_envoy_backend BackendKind.service = false

-- The kinds that are swept, in their order, each with its condition.
abbrev sweep_order : Config → List (Kind × Bool)
sweep_order cfg =
    (http_route, true)
    ∷ (listener_set, true)
    ∷ (endpoint_slice, true)
    ∷ (service, true)
    ∷ (envoy_backend, is_envoy_backend cfg.backend_kind)
    ∷ (tcp_route, cfg.enable_tcp_routes)
    ∷ (udp_route, cfg.enable_udp_routes)
    ∷ (security_policy, is_some cfg.ext_authz)
    ∷ (backend_tls_policy, true)
    ∷ []

module _ (api : KubeApi) (cfg : Config) where
  -- `ssa_apply(..).await?`, over the objects.
  apply_all : List Object → List Call → Bool × List Call
  unfolding ssa_apply
  apply_all [] calls = (true, calls)
  apply_all (obj ∷ objs) calls =
      let (ok, calls') = ssa_apply api cfg obj calls in
      let later = apply_all objs calls' in if ok then later else (false, calls')

  sweep_all : Desired → List (Kind × Bool) → List Call → List Call
  unfolding sweep
  sweep_all desired [] calls = calls
  sweep_all desired ((kind, enabled) ∷ kinds) calls =
      let swept = sweep api cfg kind (names_of kind desired) calls in
      sweep_all desired kinds (if enabled then swept else calls)

  unfoldable pub reconcile_once : Desired → List Call → Bool × List Call
  unfolding apply_order apply_all sweep_all is_envoy_backend
  reconcile_once desired calls =
      let (ok, calls') = apply_all (apply_order desired) calls in
      let swept = sweep_all desired (sweep_order cfg) calls' in
      if ok then (true, swept) else (false, calls')

-- The variables of the loop, and the readiness flag; the back-off is in nanoseconds.
pub record LoopState : Type 0 where
  pub last_etag : Option Text
  pub last_digest : Option Text
  pub backoff : ℕ
  pub ready : Bool

-- What one round of the loop meets: whether shutdown is already requested, how the fetch with the last
-- ETag ends (none for an error), and whether a wait of a duration is cut short by a shutdown.
pub record Round (V : Type 0) : Type 0 where
  pub is_cancelled : Bool
  pub fetch : Option Text → Option (FetchOutcome V)
  pub wait_or_shutdown : ℕ → Bool

abbrev pub one_second : ℕ
one_second = 1000000000

abbrev pub initial : LoopState
initial = record { last_etag = none; last_digest = none; backoff = one_second; ready = false }

-- Whether the loop goes on, its variables, and the calls so far.
pub record Outcome : Type 0 where
  pub goes_on : Bool
  pub state : LoopState
  pub calls : List Call

-- `Option::or`.
abbrev pub or_etag : Option Text → Option Text → Option Text
or_etag none b = b
or_etag (some a) b = some a

-- `last_digest.as_ref() == Some(&digest)`.
unfoldable pub same_digest : Option Text → Text → Bool
unfolding ◌≟◌
same_digest none digest = false
same_digest (some d) digest = d ≟ digest

module _ (x : External) (api : KubeApi) (cfg : Config) where
  open x use {Value}

  -- The wait behind a failure.
  back_off : Round Value → LoopState → List Call → Outcome
  back_off r s calls = record {
    goes_on = not (r.wait_or_shutdown s.backoff);
    state =
        if r.wait_or_shutdown s.backoff
        then s
        else record s { backoff = min (s.backoff * 2) cfg.max_backoff };
    calls = calls;
  }

  -- The wait for the next poll.
  poll : Round Value → LoopState → List Call → Outcome
  poll r s calls = record {
    goes_on = not (r.wait_or_shutdown cfg.poll_interval);
    state = s;
    calls = calls;
  }

  -- `ready.set_ready(); last_etag = etag.or(last_etag);`.
  abbrev accept : Option Text → LoopState → LoopState
  accept etag s = record s { ready = true; last_etag = or_etag etag s.last_etag }

  -- Behind a fetch that succeeds.
  handle : Round Value → FetchOutcome Value → LoopState → List Call → Outcome
  unfolding poll back_off same_digest reconcile_once build_desired
  handle r not_modified s calls = poll r (record s { ready = true }) calls
  handle r (changed c) s calls =
      let (ok, calls') = reconcile_once api cfg (build_desired x cfg c.config) calls in
      if same_digest s.last_digest c.digest
      then poll r (accept c.etag s) calls
      else if ok
      then poll r (accept c.etag (record s { last_digest = some c.digest })) calls'
      else back_off r s calls'

  -- Behind the fetch.
  fetched : Round Value → Option (FetchOutcome Value) → LoopState → List Call → Outcome
  unfolding handle back_off
  fetched r none s calls = back_off r s calls
  fetched r (some outcome) s calls = handle r outcome (record s { backoff = one_second }) calls

  -- One round of `run_loop`.
  unfoldable pub step : Round Value → LoopState → List Call → Outcome
  unfolding fetched
  step r s calls =
      let next = fetched r (r.fetch s.last_etag) s calls in
      if r.is_cancelled then record { goes_on = false; state = s; calls = calls } else next

  -- `run_loop` over the rounds that it gets, to its end or the last of them.
  unfoldable pub run_loop : List (Round Value) → LoopState → List Call → Outcome
  unfolding step
  run_loop [] s calls = record { goes_on = true; state = s; calls = calls }
  run_loop (r ∷ rounds) s calls =
      let o = step r s calls in
      let later = run_loop rounds o.state o.calls in if o.goes_on then later else o
