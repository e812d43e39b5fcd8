-- ===== src/Transform/Protocol.antt =====
-- src/transform/l4.rs: the two protocols.
use pangolin_gateway_api.Prelude.{Text, codes}

pub data L4Protocol : Type 0 where
  tcp udp : L4Protocol

abbrev pub k8s_protocol : L4Protocol → Text
k8s_protocol L4Protocol.tcp = codes "TCP"
k8s_protocol L4Protocol.udp = codes "UDP"

-- `infix`.
abbrev pub infix_of : L4Protocol → Text
infix_of L4Protocol.tcp = codes "tcp"
infix_of L4Protocol.udp = codes "udp"
