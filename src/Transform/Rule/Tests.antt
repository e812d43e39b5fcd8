-- ===== src/Transform/Rule/Tests.antt =====
-- rule.rs: the unit tests of the source.
use pangolin_gateway_api.Prelude.{◌≡◌, refl, false, [], ◌∷◌, some, codes}
use pangolin_gateway_api.Transform.Rule.{parse, is_usable, prefix, default_rule, other}

host_and_path_prefix :
    parse (codes "Host(`example.com`) && PathPrefix(`/api`)") ≡ record default_rule {
      hosts = codes "example.com" ∷ [];
      path = some (record { kind = prefix; value = codes "/api" });
    }
unfolding parse
host_and_path_prefix = refl

host_with_multiple :
    (parse (codes "Host(`a.com`, `b.com`)")).hosts ≡ codes "a.com" ∷ codes "b.com" ∷ []
unfolding parse
host_with_multiple = refl

disjunction_is_unsupported : is_usable (parse (codes "Host(`a.com`) || Host(`b.com`)")) ≡ false
unfolding parse is_usable
disjunction_is_unsupported = refl

host_regexp_marked : is_usable (parse (codes "HostRegexp(`{any:.+}.example.com`)")) ≡ false
unfolding parse is_usable
host_regexp_marked = refl

unsupported_predicate_recorded :
    (parse (codes "Host(`a.com`) && Method(`GET`)")).unsupported_predicates
    ≡ other (codes "Method") ∷ []
unfolding parse
unsupported_predicate_recorded = refl
