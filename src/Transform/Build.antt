-- ===== src/Transform/Build.antt =====
-- src/transform/mod.rs: `build_desired`, the whole translation.
pub mod Whole
pub mod Secure
pub mod References
mod Tests
use pangolin_gateway_api.Prelude.{Bool, true, false, List, [], ◌++◌, Option, none, some}
use pangolin_gateway_api.External.{External}
use pangolin_gateway_api.Config.{Config}
use pangolin_gateway_api.Pangolin.Types.{TraefikDynamicConfig, L4Config}
use pangolin_gateway_api.Kube.Objects.{Listener}
use pangolin_gateway_api.Transform.Desired.{Desired, nothing_desired}
use pangolin_gateway_api.Transform.Protocol.{L4Protocol}
use pangolin_gateway_api.Transform.Backend.{build_backends}
use pangolin_gateway_api.Transform.L4.{build_l4}
use pangolin_gateway_api.Transform.Route.{build_routes}
use pangolin_gateway_api.Transform.Listener.{build_listener_set}

module _ (x : External) (cfg : Config) where
  open x use {Value, hash}

  unfoldable pub build_l4_family :
      Option (L4Config Value) → L4Protocol → Bool → Desired → List Listener × Desired
  unfolding build_l4
  build_l4_family none proto enabled desired = ([], desired)
  build_l4_family (some block) proto false desired = ([], desired)
  build_l4_family (some block) proto true desired = build_l4 x cfg proto block desired

  unfoldable pub build_desired : TraefikDynamicConfig Value → Desired
  unfolding build_l4_family build_backends build_routes build_listener_set
  build_desired dyn_config =
      let (backends, with_backends) =
        build_backends x cfg dyn_config.http.services dyn_config.http.servers_transports
          nothing_desired in
      let (routes, with_routes) = build_routes x cfg dyn_config backends with_backends in
      let (tcp_listeners, with_tcp) =
        build_l4_family dyn_config.tcp L4Protocol.tcp cfg.enable_tcp_routes with_routes in
      let (udp_listeners, with_udp) =
        build_l4_family dyn_config.udp L4Protocol.udp cfg.enable_udp_routes with_tcp in
      build_listener_set hash cfg routes (tcp_listeners ++ udp_listeners) with_udp
