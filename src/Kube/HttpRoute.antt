-- ===== src/Kube/HttpRoute.antt =====
-- `HTTPRoute` of the Gateway API.
use pangolin_gateway_api.Prelude.{ℕ, List, Option, none, Text, ℤ}
use pangolin_gateway_api.Kube.Meta.{ObjectMeta}

pub data FilterType : Type 0 where
  request_redirect url_rewrite request_header_modifier response_header_modifier : FilterType

pub data RedirectScheme : Type 0 where
  http https : RedirectScheme

pub record RequestRedirect : Type 0 where
  pub scheme : Option RedirectScheme
  pub port : Option ℤ
  pub status_code : Option ℕ

pub data UrlRewritePathType : Type 0 where
  replace_full_path replace_prefix_match : UrlRewritePathType

pub record UrlRewritePath : Type 0 where
  pub type : UrlRewritePathType
  pub replace_full_path : Option Text
  pub replace_prefix_match : Option Text

pub record UrlRewrite : Type 0 where
  pub hostname : Option Text
  pub path : Option UrlRewritePath

pub record HeaderSet : Type 0 where
  pub name : Text
  pub value : Text

pub record HeaderModifier : Type 0 where
  pub set : Option (List HeaderSet)

pub record HttpRouteRulesFilters : Type 0 where
  pub type : FilterType
  pub request_redirect : Option RequestRedirect
  pub url_rewrite : Option UrlRewrite
  pub request_header_modifier : Option HeaderModifier
  pub response_header_modifier : Option HeaderModifier

-- A filter of one type with nothing set.
abbrev pub filter_of : FilterType → HttpRouteRulesFilters
filter_of t = record {
  type = t;
  request_redirect = none;
  url_rewrite = none;
  request_header_modifier = none;
  response_header_modifier = none;
}

pub data PathMatchType : Type 0 where
  exact path_prefix regular_expression : PathMatchType

pub record HttpRouteRulesMatches : Type 0 where
  pub type : PathMatchType
  pub value : Text

pub record BackendRef : Type 0 where
  pub group : Option Text
  pub kind : Option Text
  pub name : Text
  pub namespace : Option Text
  pub port : Option ℤ
  pub weight : Option ℕ

pub record HttpRouteRules : Type 0 where
  pub matches : Option (List HttpRouteRulesMatches)
  pub filters : Option (List HttpRouteRulesFilters)
  pub backend_refs : Option (List BackendRef)

pub record ParentRef : Type 0 where
  pub group : Option Text
  pub kind : Option Text
  pub name : Text
  pub namespace : Option Text
  pub section_name : Option Text

pub record HttpRouteSpec : Type 0 where
  pub parent_refs : Option (List ParentRef)
  pub hostnames : Option (List Text)
  pub rules : Option (List HttpRouteRules)

pub record HttpRoute : Type 0 where
  pub metadata : ObjectMeta
  pub spec : HttpRouteSpec
