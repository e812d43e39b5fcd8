-- ===== src/Transform/Middleware/Merge/Count.antt =====
-- middleware.rs: how often a type of filter is left by `merge_filters`.
use mathlib.Core.List.{append_assoc}
use pangolin_gateway_api.Prelude.{
  ℕ, ◌+◌, ◌≤◌, ◌≡◌, ◌≢◌, refl, ap, ◌∙◌, Bool, true, false, List, [], ◌∷◌, ◌++◌, Option, none, some,
  arith, if◌then◌else◌,
}
use pangolin_gateway_api.Kube.HttpRoute.{FilterType, UrlRewrite, HeaderSet, HttpRouteRulesFilters}
use pangolin_gateway_api.Transform.Middleware.{merge_loop, merge_filters}
use pangolin_gateway_api.Transform.Middleware.Merge.Effects.{redirects_of, redirects}
use pangolin_gateway_api.Transform.Middleware.Merge.{tail_of, start, merge_loop-IsMergeOf}

abbrev pub same_type : FilterType → FilterType → Bool
same_type FilterType.request_redirect FilterType.request_redirect = true
same_type FilterType.url_rewrite FilterType.url_rewrite = true
same_type FilterType.request_header_modifier FilterType.request_header_modifier = true
same_type FilterType.response_header_modifier FilterType.response_header_modifier = true
same_type _ _ = false

-- How many filters of a type a list holds.
abbrev pub count : FilterType → List HttpRouteRulesFilters → ℕ
count t [] = 0
count t (f ∷ fs) = (if same_type f.type t then 1 else 0) + count t fs

count-tail_of :
    (t : FilterType) (req resp : List HeaderSet) (rewrite : Option UrlRewrite)
    → same_type FilterType.request_redirect t ≡ false
    → count t (tail_of req resp rewrite) ≤ 1
count-tail_of t [] [] none h = ground arith
count-tail_of t [] [] (some r) h = ground arith
count-tail_of t [] (_ ∷ _) none h = ground arith
count-tail_of t [] (_ ∷ _) (some r) h = ground arith
count-tail_of t (_ ∷ _) [] none h = ground arith
count-tail_of t (_ ∷ _) [] (some r) h = ground arith
count-tail_of t (_ ∷ _) (_ ∷ _) none h = ground arith
count-tail_of t (_ ∷ _) (_ ∷ _) (some r) h = ground arith

count-redirects_of :
    (t u : FilterType) (f : HttpRouteRulesFilters) (fs : List HttpRouteRulesFilters)
    → f.type ≡ u
    → same_type FilterType.request_redirect t ≡ false
    → count t (redirects_of u f ++ fs) ≡ count t fs
count-redirects_of t FilterType.request_redirect f fs e h = rw (e, h) (omega arith)
count-redirects_of t _ f fs e h = refl

count-redirects :
    (t : FilterType) (gs fs : List HttpRouteRulesFilters)
    → same_type FilterType.request_redirect t ≡ false
    → count t (redirects gs ++ fs) ≡ count t fs
count-redirects t [] fs h = refl
count-redirects t (g ∷ gs) fs h =
    ap (count t) (append_assoc (redirects_of g.type g) (redirects gs) fs)
    ∙ count-redirects_of t g.type g (redirects gs ++ fs) refl h
    ∙ count-redirects t gs fs h

-- Gateway API's rule: whatever the filters that come in, at most one `URLRewrite`, at most one
-- `RequestHeaderModifier` and at most one `ResponseHeaderModifier` come out. (Redirects are not merged.)
pub count-merge_filters :
    (t : FilterType) (fs : List HttpRouteRulesFilters)
    → t ≢ FilterType.request_redirect
    → count t (merge_filters fs) ≤ 1
unfolding merge_filters
count-merge_filters t fs h =
    let r = merge_loop fs start in
    let back = tail_of r.req_set r.resp_set r.rewrite in
    let other : same_type FilterType.request_redirect t ≡ false = ground arith in
    let same : count t (r.out ++ back) ≡ count t back =
      ap (λ o. count t (o ++ back)) (merge_loop-IsMergeOf fs start).out
      ∙ count-redirects t fs back other in
    rw same (count-tail_of t r.req_set r.resp_set r.rewrite other)
