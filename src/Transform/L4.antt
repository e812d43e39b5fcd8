-- ===== src/Transform/L4.antt =====
-- src/transform/l4.rs: TCP and UDP routers as routes and listeners. Warnings are not modelled.
pub mod Ports
pub mod EntryPoint
pub mod Routes
mod Tests
use pangolin_gateway_api.Prelude.{
  Bool, true, false, not, ◌&&◌, ◌||◌, List, [], ◌∷◌, ◌++◌, Option, none, some, Text, codes, ◌≟◌,
  is_empty, is_some, map, ℤ, pos, ◌==ℤ◌, ◌==◌, show_int, strip_prefix, parse_unsigned, trim,
  map_some, and_then, if◌then◌else◌, ℕ,
}
use pangolin_gateway_api.BTreeMap.{BTreeMap, text_ord, get, insert}
use pangolin_gateway_api.External.{External}
use pangolin_gateway_api.Config.{Config}
use pangolin_gateway_api.Pangolin.Types.{L4Config, L4Router}
use pangolin_gateway_api.Kube.Meta.{owner_labels, managed_metadata}
use pangolin_gateway_api.Kube.HttpRoute.{BackendRef, ParentRef}
use pangolin_gateway_api.Kube.Objects.{L4Route, Listener}
use pangolin_gateway_api.Transform.Desired.{Desired}
use pangolin_gateway_api.Transform.Naming.{dns_label, prefixed_label}
use pangolin_gateway_api.Transform.Protocol.{L4Protocol, infix_of, k8s_protocol}
use pangolin_gateway_api.Transform.Backend.{BackendIndex, build_l4_backends}
use pangolin_gateway_api.Transform.Backend.Emit.{ResolvedBackend}

-- On the trimmed rule.
supported_rule : Option Text → L4Protocol → Bool
unfolding ◌≟◌
supported_rule none proto = true
supported_rule (some rule) L4Protocol.tcp = is_empty rule || rule ≟ codes "HostSNI(`*`)"
supported_rule (some rule) L4Protocol.udp = is_empty rule

unfoldable pub rule_is_supported : {V : Type 0} → L4Router V → L4Protocol → Bool
unfolding supported_rule trim
rule_is_supported router proto =
    not (is_some router.tls) && supported_rule (map_some trim router.rule) proto

-- A port that is not 0.
nonzero_port : ℕ → Option ℤ
nonzero_port port = if port == 0 then none else some (pos port)

unfoldable pub parse_entrypoint_port : Text → L4Protocol → Option ℤ
unfolding strip_prefix parse_unsigned nonzero_port
parse_entrypoint_port entrypoint proto =
    and_then (and_then (strip_prefix (infix_of proto) entrypoint) (strip_prefix (codes "-")))
      (λ rest. and_then (parse_unsigned 65535 rest) nonzero_port)

-- `BTreeMap<i32, String>`, of which only `get` and `insert` are used.
abbrev pub Claims : Type 0
Claims = List (ℤ × Text)

unfoldable pub claimed_by : ℤ → Claims → Option Text
unfolding ◌==ℤ◌
claimed_by port [] = none
claimed_by port ((p, owner) ∷ claims) =
    let rest = claimed_by port claims in if p ==ℤ port then some owner else rest

-- The variables of the two loops of `build_l4`.
pub record Claimed : Type 0 where
  pub listeners : List Listener
  pub claims : Claims
  pub section_names : List Text

module _ (x : External) (cfg : Config) (proto : L4Protocol) where
  open x use {Value, hash}

  unfoldable pub listener_name : ℤ → Text
  unfolding dns_label show_int
  listener_name port = dns_label hash (infix_of proto ++ (b'-' ∷ show_int port))

  abbrev l4_listener : ℤ → Listener
  l4_listener port = record {
    name = listener_name port;
    hostname = none;
    port = port;
    protocol = k8s_protocol proto;
    tls = none;
  }

  -- `proto == Tcp && (port == http_port || port == https_port)`.
  unfoldable pub collides : L4Protocol → ℤ → Bool
  unfolding ◌==ℤ◌
  collides L4Protocol.tcp port = port ==ℤ cfg.http_port || port ==ℤ cfg.https_port
  collides L4Protocol.udp port = false

  claim : Text → ℤ → Claimed → Claimed
  unfolding listener_name
  claim router_name port c = record {
    listeners = c.listeners ++ (l4_listener port ∷ []);
    claims = (port, router_name) ∷ c.claims;
    section_names = c.section_names ++ (listener_name port ∷ []);
  }

  -- One round of the inner loop, on the parsed port.
  add_port : Text → Option ℤ → Claimed → Claimed
  unfolding collides claimed_by claim
  add_port router_name none c = c
  add_port router_name (some port) c =
      if collides proto port || is_some (claimed_by port c.claims)
      then c
      else claim router_name port c

  add_entry_points : Text → List Text → Claimed → Claimed
  unfolding parse_entrypoint_port add_port
  add_entry_points router_name [] c = c
  add_entry_points router_name (ep ∷ eps) c =
      add_entry_points router_name eps (add_port router_name (parse_entrypoint_port ep proto) c)

  -- `parent_refs_tcp`, and its copy in `build_udp_route`.
  abbrev parent_refs : List Text → List ParentRef
  parent_refs section_names =
      map
        (λ section. record {
          group = some (codes "gateway.networking.k8s.io");
          kind = some (codes "ListenerSet");
          name = cfg.listener_set_name;
          namespace = some cfg.namespace;
          section_name = some section;
        })
        section_names

  -- `build_tcp_route` and `build_udp_route`, which differ in the types alone.
  unfoldable pub build_route : Text → List Text → ResolvedBackend → L4Route
  unfolding managed_metadata owner_labels
  build_route route_name section_names backend = record {
    metadata = managed_metadata cfg route_name (owner_labels cfg route_name);
    parent_refs = some (parent_refs section_names);
    rules =
        (record {
          group = some backend.group;
          kind = some backend.kind;
          name = backend.name;
          namespace = backend.namespace;
          port = some backend.port;
          weight = some 1;
        }
          ∷ [])
        ∷ [];
  }

  abbrev add_route : L4Protocol → Text → L4Route → Desired → Desired
  add_route L4Protocol.tcp route_name route desired = record desired {
    tcp_routes = insert route_name route desired.tcp_routes;
  }
  add_route L4Protocol.udp route_name route desired = record desired {
    udp_routes = insert route_name route desired.udp_routes;
  }

  -- Behind the inner loop.
  finish_router : Text → ResolvedBackend → Claimed → Desired → Desired
  unfolding build_route prefixed_label insert
  finish_router router_name backend c desired =
      let route_name = prefixed_label hash (infix_of proto) router_name in
      let route = build_route route_name c.section_names backend in
      if is_empty c.section_names then desired else add_route proto route_name route desired

  -- A router with a backend.
  route_with :
      Text → L4Router Value → Option ResolvedBackend → Claimed × Desired → Claimed × Desired
  unfolding add_entry_points finish_router
  route_with router_name router none acc = acc
  route_with router_name router (some backend) (c, desired) =
      let c' = add_entry_points router_name router.entry_points (record c { section_names = [] }) in
      (c', finish_router router_name backend c' desired)

  build_router : BackendIndex → Text → L4Router Value → Claimed × Desired → Claimed × Desired
  unfolding rule_is_supported route_with get
  build_router backends router_name router acc =
      if rule_is_supported router proto
      then route_with router_name router (get router.service backends) acc
      else acc

  build_routers :
      BackendIndex → BTreeMap Text (L4Router Value) → Claimed × Desired → Claimed × Desired
  unfolding build_router
  build_routers backends [] acc = acc
  build_routers backends ((router_name, router) ∷ routers) acc =
      build_routers backends routers (build_router backends router_name router acc)

  abbrev pub nothing_claimed : Claimed
  nothing_claimed = record { listeners = []; claims = []; section_names = [] }

  unfoldable pub build_l4 : L4Config Value → Desired → List Listener × Desired
  unfolding build_l4_backends build_routers
  build_l4 l4 desired =
      let (backends, desired') = build_l4_backends x cfg l4.services proto desired in
      let (c, desired'') = build_routers backends l4.routers (nothing_claimed, desired') in
      (c.listeners, desired'')
