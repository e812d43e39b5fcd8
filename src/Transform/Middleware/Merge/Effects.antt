-- ===== src/Transform/Middleware/Merge/Effects.antt =====
-- middleware.rs: what a list of filters does.
use pangolin_gateway_api.Prelude.{◌≡◌, refl, List, [], ◌∷◌, ◌++◌, Option, none, some, Text}
use pangolin_gateway_api.Kube.HttpRoute.{
  FilterType, UrlRewrite, UrlRewritePath, HeaderSet, HttpRouteRulesFilters,
}
use pangolin_gateway_api.Transform.Middleware.{or_else, set_of}

abbrev pub rewrite_hostname : Option UrlRewrite → Option Text
rewrite_hostname none = none
rewrite_hostname (some r) = r.hostname

abbrev pub rewrite_path : Option UrlRewrite → Option UrlRewritePath
rewrite_path none = none
rewrite_path (some r) = r.path

-- The request headers that one filter sets.
abbrev pub request_sets_of : FilterType → HttpRouteRulesFilters → List HeaderSet
request_sets_of FilterType.request_header_modifier f = set_of f.request_header_modifier
request_sets_of _ f = []

abbrev pub response_sets_of : FilterType → HttpRouteRulesFilters → List HeaderSet
response_sets_of FilterType.response_header_modifier f = set_of f.response_header_modifier
response_sets_of _ f = []

abbrev pub hostname_of : FilterType → HttpRouteRulesFilters → Option Text
hostname_of FilterType.url_rewrite f = rewrite_hostname f.url_rewrite
hostname_of _ f = none

abbrev pub path_of : FilterType → HttpRouteRulesFilters → Option UrlRewritePath
path_of FilterType.url_rewrite f = rewrite_path f.url_rewrite
path_of _ f = none

abbrev pub redirects_of : FilterType → HttpRouteRulesFilters → List HttpRouteRulesFilters
redirects_of FilterType.request_redirect f = f ∷ []
redirects_of _ f = []

-- What a list of filters does, whatever the number of filters that do it.
abbrev pub request_sets : List HttpRouteRulesFilters → List HeaderSet
request_sets [] = []
request_sets (f ∷ fs) = request_sets_of f.type f ++ request_sets fs

abbrev pub response_sets : List HttpRouteRulesFilters → List HeaderSet
response_sets [] = []
response_sets (f ∷ fs) = response_sets_of f.type f ++ response_sets fs

abbrev pub last_hostname : List HttpRouteRulesFilters → Option Text
last_hostname [] = none
last_hostname (f ∷ fs) = or_else (last_hostname fs) (hostname_of f.type f)

abbrev pub first_path : List HttpRouteRulesFilters → Option UrlRewritePath
first_path [] = none
first_path (f ∷ fs) = or_else (path_of f.type f) (first_path fs)

abbrev pub redirects : List HttpRouteRulesFilters → List HttpRouteRulesFilters
redirects [] = []
redirects (f ∷ fs) = redirects_of f.type f ++ redirects fs

pub or_else_assoc {ℓ} :
    {A : Type ℓ} (a b c : Option A) → or_else (or_else a b) c ≡ or_else a (or_else b c)
or_else_assoc none b c = refl
or_else_assoc (some a) b c = refl

pub or_else-none {ℓ} : {A : Type ℓ} (a : Option A) → or_else a none ≡ a
or_else-none none = refl
or_else-none (some a) = refl
