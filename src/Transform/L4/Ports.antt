-- ===== src/Transform/L4/Ports.antt =====
-- l4.rs: the ports of the listeners of the TCP or UDP routers.
use pangolin_gateway_api.Prelude.{
  ℕ, ◌≤◌, ◌≡◌, refl, true, false, ◌||◌, List, [], ◌∷◌, ◌++◌, Option, none, some, arith, Text,
  Bool-cases, inl, inr, All, All-append, is_some, ℤ, pos, ◌==ℤ◌, ==ℤ_iff, and_then, codes,
  parse_unsigned, strip_prefix,
}
use pangolin_gateway_api.Prelude.Decimal.{parse_unsigned_bound}
use pangolin_gateway_api.BTreeMap.{text_ord, get}
use pangolin_gateway_api.External.{External}
use pangolin_gateway_api.Config.{Config}
use pangolin_gateway_api.Pangolin.Types.{L4Config, L4Router}
use pangolin_gateway_api.Kube.Objects.{Listener}
use pangolin_gateway_api.Transform.Desired.{Desired}
use pangolin_gateway_api.Transform.Protocol.{L4Protocol, infix_of}
use pangolin_gateway_api.Transform.Backend.{BackendIndex, build_l4_backends}
use pangolin_gateway_api.Transform.Backend.Emit.{ResolvedBackend}
use pangolin_gateway_api.Transform.L4.{
  rule_is_supported, nonzero_port, parse_entrypoint_port, Claims, claimed_by, Claimed, collides,
  claim, add_port, add_entry_points, route_with, build_router, build_routers, nothing_claimed,
  build_l4,
}

-- The port is none of the ports before.
abbrev IsNew : ℤ → Listener → Type 0
IsNew port l = (l.port ==ℤ port) ≡ false

-- No two listeners share a port.
abbrev pub HasDistinctPorts : List Listener → Type 0
HasDistinctPorts [] = Unit {0}
HasDistinctPorts (l ∷ ls) = All (λ k. (l.port ==ℤ k.port) ≡ false) ls × HasDistinctPorts ls

HasDistinctPorts-append :
    (ls : List Listener) (k : Listener)
    → All (IsNew k.port) ls
    → HasDistinctPorts ls
    → HasDistinctPorts (ls ++ (k ∷ []))
HasDistinctPorts-append [] k n h = (tt, tt)
HasDistinctPorts-append (l ∷ ls) k (p, n) (q, h) = (
  All-append (λ j. (l.port ==ℤ j.port) ≡ false) ls (k ∷ []) q (p, tt),
  HasDistinctPorts-append ls k n h,
)

-- A TCP or UDP port.
pub record IsPort (port : ℤ) : Type 0 where
  pub number : ℕ
  pub is_number : port ≡ pos number
  pub positive : 1 ≤ number
  pub bounded : number ≤ 65535

-- A port that has a claim.
abbrev IsClaimed : Claims → Listener → Type 0
IsClaimed claims l = is_some (claimed_by l.port claims) ≡ true

IsClaimed-cons :
    (port : ℤ) (owner : Text) (claims : Claims) (ls : List Listener)
    → All (IsClaimed claims) ls
    → All (IsClaimed ((port, owner) ∷ claims)) ls
IsClaimed-cons port owner claims [] h = tt
IsClaimed-cons port owner claims (l ∷ ls) (p, h) = (
  unfold claimed_by in (elim (Bool-cases (port ==ℤ l.port)) [ inl e ↦ rw e refl | inr e ↦ rw e p ]),
  IsClaimed-cons port owner claims ls h,
)

unclaimed-IsNew :
    (port : ℤ) (claims : Claims) (ls : List Listener)
    → is_some (claimed_by port claims) ≡ false
    → All (IsClaimed claims) ls
    → All (IsNew port) ls
unclaimed-IsNew port claims [] e h = tt
unclaimed-IsNew port claims (l ∷ ls) e (p, h) = (
  elim (Bool-cases (l.port ==ℤ port)) [
    | inl q ↦ let same : l.port ≡ port = (==ℤ_iff l.port port).0 q in cc
    | inr q ↦ q
  ],
  unclaimed-IsNew port claims ls e h,
)

claimed_by_self :
    (port : ℤ) (owner : Text) (claims : Claims)
    → is_some (claimed_by port ((port, owner) ∷ claims)) ≡ true
unfolding claimed_by
claimed_by_self port owner claims = rw ((==ℤ_iff port port).1 refl) refl

nonzero_port-IsPort : (n : ℕ) (port : ℤ) → n ≤ 65535 → nonzero_port n ≡ some port → IsPort port
unfolding nonzero_port
nonzero_port-IsPort n port h e = record {
  number = n;
  is_number = ground arith;
  positive = ground arith;
  bounded = h;
}

parse_entrypoint_port-IsPort :
    (entrypoint : Text) (proto : L4Protocol) (port : ℤ)
    → parse_entrypoint_port entrypoint proto ≡ some port
    → IsPort port
unfolding parse_entrypoint_port
parse_entrypoint_port-IsPort entrypoint proto port e =
    go (and_then (strip_prefix (infix_of proto) entrypoint) (strip_prefix (codes "-"))) e
  where
    number :
        (s : Text) (found : Option ℕ)
        → parse_unsigned 65535 s ≡ found
        → and_then found nonzero_port ≡ some port
        → IsPort port
    number s none p q = cc
    number s (some n) p q = nonzero_port-IsPort n port (parse_unsigned_bound 65535 s n p) q

    go :
        (found : Option Text)
        → and_then found (λ rest. and_then (parse_unsigned 65535 rest) nonzero_port) ≡ some port
        → IsPort port
    go none q = cc
    go (some s) q = number s (parse_unsigned 65535 s) refl q

module _ (x : External) (cfg : Config) (proto : L4Protocol) where
  open x use {Value}

  -- A port in range that is none of the host listeners'.
  abbrev pub IsFree : Listener → Type 0
  IsFree l = IsPort l.port × (collides x cfg proto proto l.port ≡ false)

  record IsSound (c : Claimed) : Type 0 where
    free : All IsFree c.listeners
    distinct : HasDistinctPorts c.listeners
    claimed : All (IsClaimed c.claims) c.listeners

  claim-IsSound :
      (owner : Text) (port : ℤ) (c : Claimed)
      → IsPort port
      → collides x cfg proto proto port ≡ false
      → is_some (claimed_by port c.claims) ≡ false
      → IsSound c
      → IsSound (claim x cfg proto owner port c)
  unfolding claim
  claim-IsSound owner port c i e n h = record {
    free = All-append IsFree c.listeners _ h.free ((i, e), tt);
    distinct =
        HasDistinctPorts-append c.listeners _
          (unclaimed-IsNew port c.claims c.listeners n h.claimed) h.distinct;
    claimed =
        All-append (IsClaimed ((port, owner) ∷ c.claims)) c.listeners _
          (IsClaimed-cons port owner c.claims c.listeners h.claimed)
          (claimed_by_self port owner c.claims, tt);
  }

  add_port-IsSound :
      (owner : Text) (found : Option ℤ) (c : Claimed)
      → ((port : ℤ) → found ≡ some port → IsPort port)
      → IsSound c
      → IsSound (add_port x cfg proto owner found c)
  unfolding add_port
  add_port-IsSound owner none c i h = h
  add_port-IsSound owner (some port) c i h =
      elim (Bool-cases (collides x cfg proto proto port || is_some (claimed_by port c.claims))) [
        | inl e ↦ rw e h
        | inr e ↦ rw e (claim-IsSound owner port c (i port refl) (ground arith) (ground arith) h)
      ]

  add_entry_points-IsSound :
      (owner : Text) (eps : List Text) (c : Claimed)
      → IsSound c
      → IsSound (add_entry_points x cfg proto owner eps c)
  unfolding add_entry_points
  add_entry_points-IsSound owner [] c h = h
  add_entry_points-IsSound owner (ep ∷ eps) c h = add_entry_points-IsSound owner eps _ (
      add_port-IsSound owner (parse_entrypoint_port ep proto) c
        (parse_entrypoint_port-IsPort ep proto) h)

  route_with-IsSound :
      (name : Text) (router : L4Router Value) (found : Option ResolvedBackend)
      (acc : Claimed × Desired)
      → IsSound acc.0
      → IsSound (route_with x cfg proto name router found acc).0
  unfolding route_with
  route_with-IsSound name router none acc h = h
  route_with-IsSound name router (some backend) (c, desired) h =
      add_entry_points-IsSound name router.entry_points (record c { section_names = [] })
        (record { free = h.free; distinct = h.distinct; claimed = h.claimed })

  build_router-IsSound :
      (backends : BackendIndex) (name : Text) (router : L4Router Value) (acc : Claimed × Desired)
      → IsSound acc.0
      → IsSound (build_router x cfg proto backends name router acc).0
  build_router-IsSound backends name router acc h =
      elim (Bool-cases (rule_is_supported router proto)) [
        | inl e ↦
            unfold build_router in
            rw e (route_with-IsSound name router (get router.service backends) acc h)
        | inr e ↦ unfold build_router in rw e h
      ]

  build_routers-IsSound :
      (backends : BackendIndex) (routers : List (Text × L4Router Value)) (acc : Claimed × Desired)
      → IsSound acc.0
      → IsSound (build_routers x cfg proto backends routers acc).0
  unfolding build_routers
  build_routers-IsSound backends [] acc h = h
  build_routers-IsSound backends ((name, router) ∷ routers) acc h =
      build_routers-IsSound backends routers (build_router x cfg proto backends name router acc)
        (build_router-IsSound backends name router acc h)

  -- The listeners that `build_l4` makes for one protocol have pairwise different ports, each from 1
  -- to 65535, and a TCP listener's port is neither the HTTP nor the HTTPS port.
  pub build_l4-HasDistinctPorts :
      (l4 : L4Config Value) (desired : Desired)
      → HasDistinctPorts (build_l4 x cfg proto l4 desired).0
        × All IsFree (build_l4 x cfg proto l4 desired).0
  unfolding build_l4
  build_l4-HasDistinctPorts l4 desired =
      let h =
        build_routers-IsSound (build_l4_backends x cfg l4.services proto desired).0 l4.routers
          (nothing_claimed x cfg proto, (build_l4_backends x cfg l4.services proto desired).1)
          (record { free = tt; distinct = tt; claimed = tt }) in
      (h.distinct, h.free)
