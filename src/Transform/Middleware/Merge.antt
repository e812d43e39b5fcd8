-- ===== src/Transform/Middleware/Merge.antt =====
-- middleware.rs: what `merge_filters` keeps.
pub mod Effects
pub mod Count
use mathlib.Core.List.{append_assoc, append-nil}
use pangolin_gateway_api.Prelude.{
  ℕ, ◌+◌, ◌≤◌, ◌≡◌, ◌≢◌, refl, sym, ap, ◌∙◌, Bool, true, false, List, [], ◌∷◌, ◌++◌, Option, none,
  some, arith, map_some, if◌then◌else◌, Text,
}
use pangolin_gateway_api.Kube.HttpRoute.{
  FilterType, UrlRewrite, UrlRewritePath, HeaderSet, HttpRouteRulesFilters,
}
use pangolin_gateway_api.Transform.Middleware.{
  rewrite_filter, request_filter, response_filter, unless_empty, single, or_else, Merged, set_of,
  merge_incoming, merge_filter, merge_loop, merge_filters,
}
use pangolin_gateway_api.Transform.Middleware.Merge.Effects.{
  rewrite_hostname, rewrite_path, request_sets_of, response_sets_of, hostname_of, path_of,
  redirects_of, request_sets, response_sets, last_hostname, first_path, redirects, or_else_assoc,
  or_else-none,
}

-- The rewrite of the loop, against what came in.
incoming_hostname :
    (u : Option UrlRewrite) (m : Merged)
    → rewrite_hostname (merge_incoming u m).rewrite
      ≡ or_else (rewrite_hostname u) (rewrite_hostname m.rewrite)
unfolding merge_incoming
incoming_hostname none m = refl
incoming_hostname (some u) m = ground arith

incoming_path :
    (u : Option UrlRewrite) (m : Merged)
    → rewrite_path (merge_incoming u m).rewrite ≡ or_else (rewrite_path m.rewrite) (rewrite_path u)
unfolding merge_incoming
incoming_path none m = sym (or_else-none (rewrite_path m.rewrite))
incoming_path (some u) m = ground arith

incoming_rest :
    (u : Option UrlRewrite) (m : Merged)
    → ((merge_incoming u m).out ≡ m.out)
      × ((merge_incoming u m).req_set ≡ m.req_set)
      × ((merge_incoming u m).resp_set ≡ m.resp_set)
unfolding merge_incoming
incoming_rest none m = (refl, refl, refl)
incoming_rest (some u) m = (refl, refl, refl)

-- One round of the loop, field by field.
module _ (f : HttpRouteRulesFilters) (m : Merged) where
  round-req_set : (t : FilterType) → (merge_filter t f m).req_set ≡ m.req_set ++ request_sets_of t f
  unfolding merge_filter
  round-req_set FilterType.request_header_modifier = refl
  round-req_set FilterType.url_rewrite =
      (incoming_rest f.url_rewrite m).1 ∙ sym (append-nil m.req_set)
  round-req_set _ = sym (append-nil m.req_set)

  round-resp_set :
      (t : FilterType) → (merge_filter t f m).resp_set ≡ m.resp_set ++ response_sets_of t f
  unfolding merge_filter
  round-resp_set FilterType.response_header_modifier = refl
  round-resp_set FilterType.url_rewrite =
      (incoming_rest f.url_rewrite m).2 ∙ sym (append-nil m.resp_set)
  round-resp_set _ = sym (append-nil m.resp_set)

  round-out : (t : FilterType) → (merge_filter t f m).out ≡ m.out ++ redirects_of t f
  unfolding merge_filter
  round-out FilterType.request_redirect = refl
  round-out FilterType.url_rewrite = (incoming_rest f.url_rewrite m).0 ∙ sym (append-nil m.out)
  round-out _ = sym (append-nil m.out)

  round-hostname :
      (t : FilterType)
      → rewrite_hostname (merge_filter t f m).rewrite
        ≡ or_else (hostname_of t f) (rewrite_hostname m.rewrite)
  unfolding merge_filter
  round-hostname FilterType.url_rewrite = incoming_hostname f.url_rewrite m
  round-hostname _ = refl

  round-path :
      (t : FilterType)
      → rewrite_path (merge_filter t f m).rewrite ≡ or_else (rewrite_path m.rewrite) (path_of t f)
  unfolding merge_filter
  round-path FilterType.url_rewrite = incoming_path f.url_rewrite m
  round-path _ = sym (or_else-none (rewrite_path m.rewrite))

-- The loop, field by field.
record IsMergeOf (m : Merged) (fs : List HttpRouteRulesFilters) (r : Merged) : Type 0 where
  out : r.out ≡ m.out ++ redirects fs
  req_set : r.req_set ≡ m.req_set ++ request_sets fs
  resp_set : r.resp_set ≡ m.resp_set ++ response_sets fs
  hostname : rewrite_hostname r.rewrite ≡ or_else (last_hostname fs) (rewrite_hostname m.rewrite)
  path : rewrite_path r.rewrite ≡ or_else (rewrite_path m.rewrite) (first_path fs)

merge_loop-IsMergeOf :
    (fs : List HttpRouteRulesFilters) (m : Merged) → IsMergeOf m fs (merge_loop fs m)
unfolding merge_loop
merge_loop-IsMergeOf [] m = record {
  out = sym (append-nil m.out);
  req_set = sym (append-nil m.req_set);
  resp_set = sym (append-nil m.resp_set);
  hostname = refl;
  path = sym (or_else-none (rewrite_path m.rewrite));
}
merge_loop-IsMergeOf (f ∷ fs) m =
    let next = merge_filter f.type f m in
    let ih = merge_loop-IsMergeOf fs next in
    record {
      out =
          ih.out
          ∙ ap (λ l. l ++ redirects fs) (round-out f m f.type)
          ∙ append_assoc m.out (redirects_of f.type f) (redirects fs);
      req_set =
          ih.req_set
          ∙ ap (λ l. l ++ request_sets fs) (round-req_set f m f.type)
          ∙ append_assoc m.req_set (request_sets_of f.type f) (request_sets fs);
      resp_set =
          ih.resp_set
          ∙ ap (λ l. l ++ response_sets fs) (round-resp_set f m f.type)
          ∙ append_assoc m.resp_set (response_sets_of f.type f) (response_sets fs);
      hostname =
          ih.hostname
          ∙ ap (or_else (last_hostname fs)) (round-hostname f m f.type)
          ∙ sym (
              or_else_assoc (last_hostname fs) (hostname_of f.type f) (rewrite_hostname m.rewrite));
      path =
          ih.path
          ∙ ap (λ o. or_else o (first_path fs)) (round-path f m f.type)
          ∙ or_else_assoc (rewrite_path m.rewrite) (path_of f.type f) (first_path fs);
    }

-- What stands behind the redirects in the result.
abbrev tail_of : List HeaderSet → List HeaderSet → Option UrlRewrite → List HttpRouteRulesFilters
tail_of req resp rewrite =
    unless_empty request_filter req
    ++ (unless_empty response_filter resp ++ single (map_some rewrite_filter rewrite))

record TailEffect (req resp : List HeaderSet) (rewrite : Option UrlRewrite)
    (fs : List HttpRouteRulesFilters) : Type 0 where
  req_sets : request_sets fs ≡ req
  resp_sets : response_sets fs ≡ resp
  hostname : last_hostname fs ≡ rewrite_hostname rewrite
  path : first_path fs ≡ rewrite_path rewrite
  quiet : redirects fs ≡ []

tail_of-TailEffect :
    (req resp : List HeaderSet) (rewrite : Option UrlRewrite)
    → TailEffect req resp rewrite (tail_of req resp rewrite)
tail_of-TailEffect [] [] none = ground arith
tail_of-TailEffect [] [] (some r) = ground (arith, or_else-none r.path)
tail_of-TailEffect [] (h ∷ hs) none = ground (arith, append-nil hs)
tail_of-TailEffect [] (h ∷ hs) (some r) = ground (arith, append-nil hs, or_else-none r.path)
tail_of-TailEffect (g ∷ gs) [] none = ground (arith, append-nil gs)
tail_of-TailEffect (g ∷ gs) [] (some r) = ground (arith, append-nil gs, or_else-none r.path)
tail_of-TailEffect (g ∷ gs) (h ∷ hs) none = ground (arith, append-nil gs, append-nil hs)
tail_of-TailEffect (g ∷ gs) (h ∷ hs) (some r) =
    ground (arith, append-nil gs, append-nil hs, or_else-none r.path)

-- Redirects in front of a list change nothing but its redirects.
record Behind (rs fs all : List HttpRouteRulesFilters) : Type 0 where
  req_sets : request_sets all ≡ request_sets fs
  resp_sets : response_sets all ≡ response_sets fs
  hostname : last_hostname all ≡ last_hostname fs
  path : first_path all ≡ first_path fs
  redirected : redirects all ≡ rs ++ redirects fs

one-Behind :
    (t : FilterType) (f : HttpRouteRulesFilters) (rs fs all : List HttpRouteRulesFilters)
    → f.type ≡ t
    → Behind rs fs all
    → Behind (redirects_of t f ++ rs) fs (redirects_of t f ++ all)
one-Behind FilterType.request_redirect f rs fs all e b = record {
  req_sets = rw e b.req_sets;
  resp_sets = rw e b.resp_sets;
  hostname = rw e (or_else-none (last_hostname all) ∙ b.hostname);
  path = rw e b.path;
  redirected = ap (λ u. redirects_of u f ++ redirects all) e ∙ ap (◌∷◌ f) b.redirected;
}
one-Behind _ f rs fs all e b = b

redirects-Behind :
    (gs fs : List HttpRouteRulesFilters) → Behind (redirects gs) fs (redirects gs ++ fs)
redirects-Behind [] fs = record {
  req_sets = refl;
  resp_sets = refl;
  hostname = refl;
  path = refl;
  redirected = refl;
}
redirects-Behind (g ∷ gs) fs =
    rw (append_assoc (redirects_of g.type g) (redirects gs) fs)
      (one-Behind g.type g (redirects gs) fs (redirects gs ++ fs) refl (redirects-Behind gs fs))

-- The same effect, whatever the number of filters.
pub record SameEffect (fs gs : List HttpRouteRulesFilters) : Type 0 where
  pub req_sets : request_sets fs ≡ request_sets gs
  pub resp_sets : response_sets fs ≡ response_sets gs
  pub hostname : last_hostname fs ≡ last_hostname gs
  pub path : first_path fs ≡ first_path gs
  pub redirected : redirects fs ≡ redirects gs

abbrev start : Merged
start = record { out = []; rewrite = none; req_set = []; resp_set = [] }

-- `merge_filters` sets the same request headers and the same response headers, in the same order,
-- keeps the redirects, and rewrites to the LAST hostname and the FIRST path of its input.
pub merge_filters-SameEffect : (fs : List HttpRouteRulesFilters) → SameEffect (merge_filters fs) fs
unfolding merge_filters
merge_filters-SameEffect fs =
    let r = merge_loop fs start in
    let m = merge_loop-IsMergeOf fs start in
    let back = tail_of r.req_set r.resp_set r.rewrite in
    let t = tail_of-TailEffect r.req_set r.resp_set r.rewrite in
    let b = redirects-Behind fs back in
    record {
      req_sets = ap (λ o. request_sets (o ++ back)) m.out ∙ b.req_sets ∙ t.req_sets ∙ m.req_set;
      resp_sets =
          ap (λ o. response_sets (o ++ back)) m.out ∙ b.resp_sets ∙ t.resp_sets ∙ m.resp_set;
      hostname =
          ap (λ o. last_hostname (o ++ back)) m.out
          ∙ b.hostname
          ∙ t.hostname
          ∙ m.hostname
          ∙ or_else-none (last_hostname fs);
      path = ap (λ o. first_path (o ++ back)) m.out ∙ b.path ∙ t.path ∙ m.path;
      redirected =
          ap (λ o. redirects (o ++ back)) m.out
          ∙ b.redirected
          ∙ ap (λ q. redirects fs ++ q) t.quiet
          ∙ append-nil (redirects fs);
    }
