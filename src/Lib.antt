-- ===== src/Lib.antt =====
-- A model of pangolin-gateway-controller: it polls pangolin for a Traefik configuration, translates it
-- into Kubernetes Gateway API objects, applies these, and deletes what is no longer wanted. A second
-- binary, the shim, answers Envoy's authorization requests by asking pangolin.
--
-- Parts and files:
-- - src/config.rs: Config (the settings and the label selector), Config/Env (how a variable is read)
--   and Config/FromEnv (`Config::from_env`).
-- - src/pangolin/types.rs: Pangolin/Types (the decoded configuration); src/pangolin/client.rs:
--   Pangolin/Client (`fetch` and `truncate`); src/health.rs: Health (the answers of the probes).
-- - src/envoy_gateway.rs and the fields that are set of the crates' objects: Kube/HttpRoute,
--   Kube/Objects.
-- - src/apply.rs: Kube/Meta (metadata), Kube/Api (`ssa_apply`); src/gc.rs: Kube/Api (`sweep`).
-- - src/transform/naming.rs: Transform/Naming; src/transform/rule.rs: Transform/Rule;
--   src/transform/middleware.rs: Transform/Middleware.
-- - src/transform/backend.rs: Transform/Backend, with Address (hosts and ports), Classify (kinds of
--   target) and Emit (objects).
-- - src/transform/route.rs: Transform/Route; src/transform/ext_authz.rs: Transform/ExtAuthz;
--   src/transform/listener.rs: Transform/Listener; src/transform/l4.rs: Transform/L4 and
--   Transform/Protocol; src/transform/mod.rs: Transform/Desired and Transform/Build.
-- - src/reconcile.rs: Reconcile (`reconcile_once` and the loop of `run_loop`).
-- - src/shim.rs: Shim (paths, cookies, headers and queries), Shim/Check (the handler `check`, with its
--   calls of pangolin) and Shim/Settings (`ShimConfig::from_env`).
-- A function of the source has its own name here. `Desired`, which the source passes as `&mut`, is
-- passed and returned; each loop is a function on the list that it runs over. The calls to the API
-- server are a log that grows; a round of `run_loop` says what the fetch and the waits return.
--
-- Prelude holds texts as lists of code points, integers over the native numbers and the methods of
-- Rust's strings; BTreeMap the ordered maps. External holds what other crates do (JSON, URLs, IP
-- addresses, the hash) as a record that definitions take as an argument, and Kube/Api a record for the
-- API server. In the same way Config/Env has `Parsers` (crates url and humantime), Pangolin/Client has
-- `Endpoint` (the HTTP exchange, SHA-256, the decoder), Shim has `Wire` (query strings and header
-- values) and Shim/Check has `Pangolin` (its two endpoints). Sample, Config/Sample and Shim/Sample hold
-- concrete inputs for the modules of tests.
--
-- Fuel: the parser's two loops get one unit more than the characters in front of them, and each of their
-- rounds reads at least one. Printing a number gets one unit more than the number (hexadecimal: eight
-- digits, for numbers below 2 ^ 32). Ports are read as `u16`, and stay below 65536. The back-off is a
-- number of nanoseconds without the overflow check of `Duration`.
--
-- Not modelled: log lines and `report_status`; setting up HTTP clients and servers (`Client::new` of
-- src/pangolin/client.rs, `build_http_client` and `router` of src/shim.rs, `serve` of src/health.rs);
-- serialization; src/main.rs and src/bin, which start the processes; examples and tests.
pub mod Prelude
pub mod BTreeMap
pub mod External
pub mod Config
pub mod Pangolin
pub mod Health
pub mod Kube
pub mod Transform
pub mod Reconcile
pub mod Shim
pub mod Sample
