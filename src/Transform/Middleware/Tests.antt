-- ===== src/Transform/Middleware/Tests.antt =====
-- middleware.rs: the theorems at concrete inputs.
use pangolin_gateway_api.Prelude.{◌≢◌, ◌≤◌, arith, [], ◌∷◌, List, none, some, codes, All}
use pangolin_gateway_api.Kube.HttpRoute.{FilterType, HttpRouteRulesFilters}
use pangolin_gateway_api.Sample.{Json, string, object, library}
use pangolin_gateway_api.Transform.Middleware.{
  rewrite_filter, request_filter, merge_filters, build_filters,
}
use pangolin_gateway_api.Transform.Middleware.Merge.Effects.{request_sets}
use pangolin_gateway_api.Transform.Middleware.Merge.Count.{count, count-merge_filters}
use pangolin_gateway_api.Transform.Middleware.Merge.{SameEffect, merge_filters-SameEffect}
use pangolin_gateway_api.Transform.Middleware.Host.{IsNotHost, build_filters-IsNotHost}

-- Two rewrites and two header modifiers.
abbrev filters : List HttpRouteRulesFilters
filters =
    rewrite_filter (record { hostname = some (codes "a"); path = none })
    ∷ request_filter (record { name = codes "X-A"; value = codes "1" } ∷ [])
    ∷ rewrite_filter (record { hostname = some (codes "b"); path = none })
    ∷ request_filter (record { name = codes "X-B"; value = codes "2" } ∷ [])
    ∷ []

merge_filters-SameEffect_example : SameEffect (merge_filters filters) filters
merge_filters-SameEffect_example = merge_filters-SameEffect filters

url_rewrite_is_no_redirect : FilterType.url_rewrite ≢ FilterType.request_redirect
url_rewrite_is_no_redirect = ground arith

count-merge_filters_example : count FilterType.url_rewrite (merge_filters filters) ≤ 1
count-merge_filters_example =
    count-merge_filters FilterType.url_rewrite filters url_rewrite_is_no_redirect

-- A middleware that sets the Host header.
abbrev host_middleware : Json
host_middleware =
    object (codes "headers")
      (object (codes "customRequestHeaders") (object (codes "Host") (string (codes "b.com"))))

build_filters-IsNotHost_example :
    All IsNotHost
      (request_sets (build_filters library (codes "h" ∷ []) ((codes "h", host_middleware) ∷ [])))
build_filters-IsNotHost_example =
    build_filters-IsNotHost library (codes "h" ∷ []) ((codes "h", host_middleware) ∷ [])
