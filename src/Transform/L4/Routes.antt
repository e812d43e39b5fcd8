-- ===== src/Transform/L4/Routes.antt =====
-- l4.rs: TCP and UDP routers leave the HTTPRoutes and their policies alone.
use pangolin_gateway_api.Prelude.{
  ◌≡◌, refl, ap, ◌∙◌, List, [], ◌∷◌, Option, none, some, Text, Bool-cases, inl, inr, is_empty,
}
use pangolin_gateway_api.BTreeMap.{text_ord, get}
use pangolin_gateway_api.External.{External}
use pangolin_gateway_api.Config.{Config}
use pangolin_gateway_api.Pangolin.Types.{L4Config, L4Router}
use pangolin_gateway_api.Transform.Desired.{Desired, Standing, routing, standing}
use pangolin_gateway_api.Transform.Protocol.{L4Protocol}
use pangolin_gateway_api.Transform.Backend.{BackendIndex, build_l4_backends}
use pangolin_gateway_api.Transform.Backend.Emit.{ResolvedBackend}
use pangolin_gateway_api.Transform.Backend.Routes.{build_l4_backends-routing}
use pangolin_gateway_api.Transform.Backend.References.{build_l4_backends-Builds}
use pangolin_gateway_api.Transform.Backend.Emit.References.{Grows, Grows-trans, stock-Grows}
use pangolin_gateway_api.Transform.L4.{
  rule_is_supported, Claimed, add_entry_points, finish_router, route_with, build_router,
  build_routers, nothing_claimed, build_l4,
}

module _ (x : External) (cfg : Config) where
  open x use {Value}

  finish_router-standing :
      (proto : L4Protocol) (name : Text) (backend : ResolvedBackend) (c : Claimed)
      (desired : Desired)
      → standing (finish_router x cfg proto name backend c desired) ≡ standing desired
  unfolding finish_router
  finish_router-standing L4Protocol.tcp name backend c desired =
      elim (Bool-cases (is_empty c.section_names)) [ inl e ↦ rw e refl | inr e ↦ rw e refl ]
  finish_router-standing L4Protocol.udp name backend c desired =
      elim (Bool-cases (is_empty c.section_names)) [ inl e ↦ rw e refl | inr e ↦ rw e refl ]

  route_with-standing :
      (proto : L4Protocol) (name : Text) (router : L4Router Value) (found : Option ResolvedBackend)
      (acc : Claimed × Desired)
      → standing (route_with x cfg proto name router found acc).1 ≡ standing acc.1
  unfolding route_with
  route_with-standing proto name router none acc = refl
  route_with-standing proto name router (some backend) (c, desired) =
      finish_router-standing proto name backend
        (add_entry_points x cfg proto name router.entry_points (record c { section_names = [] }))
        desired

  build_router-standing :
      (proto : L4Protocol) (backends : BackendIndex) (name : Text) (router : L4Router Value)
      (acc : Claimed × Desired)
      → standing (build_router x cfg proto backends name router acc).1 ≡ standing acc.1
  unfolding build_router
  build_router-standing proto backends name router acc =
      elim (Bool-cases (rule_is_supported router proto)) [
        | inl e ↦ rw e (route_with-standing proto name router (get router.service backends) acc)
        | inr e ↦ rw e refl
      ]

  build_routers-standing :
      (proto : L4Protocol) (backends : BackendIndex) (routers : List (Text × L4Router Value))
      (acc : Claimed × Desired)
      → standing (build_routers x cfg proto backends routers acc).1 ≡ standing acc.1
  unfolding build_routers
  build_routers-standing proto backends [] acc = refl
  build_routers-standing proto backends ((name, router) ∷ routers) acc =
      build_routers-standing proto backends routers
        (build_router x cfg proto backends name router acc)
      ∙ build_router-standing proto backends name router acc

  build_l4-standing :
      (proto : L4Protocol) (l4 : L4Config Value) (desired : Desired)
      → standing (build_l4 x cfg proto l4 desired).1
        ≡ standing (build_l4_backends x cfg l4.services proto desired).1
  unfolding build_l4
  build_l4-standing proto l4 desired =
      let built = build_l4_backends x cfg l4.services proto desired in
      build_routers-standing proto built.0 l4.routers (nothing_claimed x cfg proto, built.1)

  pub build_l4-routing :
      (proto : L4Protocol) (l4 : L4Config Value) (desired : Desired)
      → routing (build_l4 x cfg proto l4 desired).1 ≡ routing desired
  build_l4-routing proto l4 desired =
      ap (λ (q : Standing). q.0) (build_l4-standing proto l4 desired)
      ∙ build_l4_backends-routing x cfg l4.services proto desired

  -- The TCP and UDP routes lose no backend.
  pub build_l4-Grows :
      (proto : L4Protocol) (l4 : L4Config Value) (desired : Desired)
      → Grows desired (build_l4 x cfg proto l4 desired).1
  build_l4-Grows proto l4 desired =
      let built = build_l4_backends x cfg l4.services proto desired in
      Grows-trans desired built.1 (build_l4 x cfg proto l4 desired).1
        (build_l4_backends-Builds x cfg l4.services proto desired).1
        (stock-Grows built.1 (build_l4 x cfg proto l4 desired).1
          (ap (λ (q : Standing). q.1) (build_l4-standing proto l4 desired)))
