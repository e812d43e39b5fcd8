-- ===== src/Health.antt =====
-- src/health.rs: the answers of the probe endpoints. Serving them is not modelled.
use pangolin_gateway_api.Prelude.{
  ℕ, Bool, true, false, Option, none, some, if◌then◌else◌, Text, codes, ◌≟◌,
}

-- The handler of `/readyz`, on the flag.
abbrev readyz : Bool → ℕ × Text
readyz true = (200, codes "ready")
readyz false = (503, codes "waiting for first successful reconcile")

-- `router`: the status and the text for a path that has a route.
unfoldable pub probe : Bool → Text → Option (ℕ × Text)
unfolding ◌≟◌
probe ready path =
    if path ≟ codes "/healthz"
    then some (200, codes "ok")
    else if path ≟ codes "/readyz"
    then some (readyz ready)
    else none
