-- ===== src/Transform/L4/EntryPoint.antt =====
-- l4.rs: reading back the names of entry points.
use pangolin_gateway_api.Prelude.{
  ℕ, ◌≤◌, ◌≡◌, refl, ap, ◌∙◌, some, ◌∷◌, ◌++◌, arith, ◌==◌, false, pos, to_decimal, strip_prefix,
  and_then,
}
use pangolin_gateway_api.Prelude.Decimal.{parse_unsigned-to_decimal}
use pangolin_gateway_api.Transform.Protocol.{L4Protocol, infix_of}
use pangolin_gateway_api.Transform.L4.{parse_entrypoint_port, nonzero_port}

nonzero_port_of : (n : ℕ) → 1 ≤ n → nonzero_port n ≡ some (pos n)
unfolding nonzero_port
nonzero_port_of n h = let e : (n == 0) ≡ false = ground arith in rw e refl

-- `tcp-<port>` and `udp-<port>` are read back as the port, for every port from 1 to 65535.
pub parse_entrypoint_port_of_name :
    (proto : L4Protocol) (port : ℕ)
    → 1 ≤ port
    → port ≤ 65535
    → parse_entrypoint_port (infix_of proto ++ (b'-' ∷ to_decimal port)) proto ≡ some (pos port)
unfolding parse_entrypoint_port strip_prefix
parse_entrypoint_port_of_name L4Protocol.tcp port h k =
    ap (λ o. and_then o nonzero_port) (parse_unsigned-to_decimal 65535 port k)
    ∙ nonzero_port_of port h
parse_entrypoint_port_of_name L4Protocol.udp port h k =
    ap (λ o. and_then o nonzero_port) (parse_unsigned-to_decimal 65535 port k)
    ∙ nonzero_port_of port h
