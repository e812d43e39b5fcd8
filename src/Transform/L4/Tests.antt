-- ===== src/Transform/L4/Tests.antt =====
-- l4.rs and backend.rs: the theorems at concrete inputs.
use pangolin_gateway_api.Prelude.{
  ◌≡◌, ◌≢◌, ◌≤◌, arith, false, [], ◌∷◌, ◌++◌, List, some, codes, All, pos, to_decimal,
  is_whitespace,
}
use pangolin_gateway_api.Config.{BackendKind}
use pangolin_gateway_api.Sample.{library, settings, l4_config}
use pangolin_gateway_api.Transform.Desired.{nothing_desired}
use pangolin_gateway_api.Transform.Protocol.{L4Protocol, infix_of}
use pangolin_gateway_api.Transform.Backend.Address.{HostPort, parse_l4_address}
use pangolin_gateway_api.Transform.Backend.Address.RoundTrip.{
  IsPlain, parse_l4_address_of_host_port,
}
use pangolin_gateway_api.Transform.Backend.Classify.{classify_entries}
use pangolin_gateway_api.Transform.Backend.Classify.Targets.{target_of, classify_entries-target_of}
use pangolin_gateway_api.Transform.L4.{build_l4, parse_entrypoint_port}
use pangolin_gateway_api.Transform.L4.Ports.{HasDistinctPorts, IsFree, build_l4-HasDistinctPorts}
use pangolin_gateway_api.Transform.L4.EntryPoint.{parse_entrypoint_port_of_name}

build_l4-HasDistinctPorts_example :
    HasDistinctPorts (build_l4 library settings L4Protocol.tcp l4_config nothing_desired).0
    × All
        (IsFree library settings L4Protocol.tcp)
        (build_l4 library settings L4Protocol.tcp l4_config nothing_desired).0
build_l4-HasDistinctPorts_example =
    build_l4-HasDistinctPorts library settings L4Protocol.tcp l4_config nothing_desired

port_is_positive : 1 ≤ 5432
port_is_positive = omega arith

port_is_in_range : 5432 ≤ 65535
port_is_in_range = omega arith

parse_entrypoint_port_of_name_example :
    parse_entrypoint_port (infix_of L4Protocol.tcp ++ (b'-' ∷ to_decimal 5432)) L4Protocol.tcp
    ≡ some (pos 5432)
parse_entrypoint_port_of_name_example =
    parse_entrypoint_port_of_name L4Protocol.tcp 5432 port_is_positive port_is_in_range

host_is_not_empty : codes "db.local" ≢ []
host_is_not_empty = ground arith

host-IsPlain : IsPlain (codes "db.local")
unfolding is_whitespace
host-IsPlain = ground arith

parse_l4_address_of_host_port_example :
    parse_l4_address (codes "db.local" ++ (b':' ∷ to_decimal 5432))
    ≡ some (record { host = codes "db.local"; port = pos 5432; tls = false })
parse_l4_address_of_host_port_example =
    parse_l4_address_of_host_port (codes "db.local") 5432 host_is_not_empty host-IsPlain
      port_is_in_range

-- A name in front of two addresses, one of which has another port.
abbrev entries : List HostPort
entries =
    record { host = codes "db.local"; port = pos 80; tls = false }
    ∷ record { host = codes "10.0.0.1"; port = pos 8080; tls = false }
    ∷ record { host = codes "10.0.0.2"; port = pos 9090; tls = false }
    ∷ []

classify_entries-target_of_example :
    classify_entries library entries BackendKind.envoy_backend
    ≡ target_of library BackendKind.envoy_backend entries
classify_entries-target_of_example =
    classify_entries-target_of library entries BackendKind.envoy_backend
